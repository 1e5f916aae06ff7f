-- ===== src/Mut/Lineage.antt =====
-- The budget lineage that a repair hands to the head that it pushes.
use hamsterdan.Base.{
  String, false, ◌≡◌, ◌⧺◌, before_colon, strip-append, before_colon-append, has_colon, ◌==◌, eq_iff,
  Bool-cases, inl, inr,
}
use hamsterdan.Mut.{lineage, budget_key}

-- The budget key of a repair is what stands behind `repair:`.
pub budget_key-repair : (key : String) → budget_key ("repair:" ⧺ key) ≡ key
unfolding budget_key
budget_key-repair key = rw (strip-append "repair:" key, budget_key)

-- The lineage of the operation `repair:{lineage}:{fingerprint}` is its lineage, if that has no colon.
pub lineage-repair :
    (l fingerprint : String)
    → has_colon l ≡ false
    → lineage ("repair:" ⧺ (l ⧺ (":" ⧺ fingerprint))) ≡ l
unfolding lineage before_colon
lineage-repair l fp h = elim (Bool-cases (key == "")) [
  | inl p ↦ rw (budget_key-repair key, lineage) (rw p (rw ((eq_iff key "").0 p) at before))
  | inr p ↦ rw (budget_key-repair key, lineage) (rw p before)
]
  where
    key : String
    key = l ⧺ (":" ⧺ fp)

    before : before_colon key ≡ l
    before = before_colon-append l fp h
