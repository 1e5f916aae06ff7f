-- ===== src/Dash/Pokes.antt =====
-- The pokes to heal that wait beside the dashboard's baton.
use hamsterdan.Base.{
  ℕ, zero, suc, String, Bool, true, false, ◌&&◌, ◌||◌, Option, none, some, List, [], ◌∷◌, ◌++◌,
  ◌==◌, ◌≡◌, refl, arith, Option-cases, inl, inr, eq_iff,
}
use hamsterdan.Colors.{DashHeal, DashMemory}
use hamsterdan.Dash.{entries_eq}
use hamsterdan.Dash.Protocol.{pull}

pub entries_eq_refl : (xs : List String) → entries_eq xs xs ≡ true
entries_eq_refl [] = refl
entries_eq_refl (x ∷ xs) = ground (arith, entries_eq_refl xs, eq_iff x x)

pub entries_eq-eq : (xs ys : List String) → entries_eq xs ys ≡ true → xs ≡ ys
entries_eq-eq [] [] p = refl
entries_eq-eq [] (y ∷ ys) p = cc
entries_eq-eq (x ∷ xs) [] p = cc
entries_eq-eq (x ∷ xs) (y ∷ ys) p = ground (arith, entries_eq-eq xs ys, eq_iff x y)

-- the poke is for exactly what the baton desires
abbrev pub is_for : DashMemory → DashHeal → Bool
is_for m h = entries_eq m.entries h.entries && m.digest == h.digest

abbrev pub has_poke : DashMemory → List DashHeal → Bool
has_poke m [] = false
has_poke m (h ∷ hs) = is_for m h || has_poke m hs

pub has_poke-append :
    (m : DashMemory) (hs ks : List DashHeal)
    → has_poke m (hs ++ ks) ≡ (has_poke m hs || has_poke m ks)
has_poke-append m [] ks = refl
has_poke-append m (h ∷ hs) ks = ground (arith, has_poke-append m hs ks)

-- the poke that is taken and those left are the pokes there were
abbrev pub Splits : DashMemory → List DashHeal → Option (DashHeal × List DashHeal) → Type 0
Splits m hs none = Unit
Splits m hs (some p) = has_poke m hs ≡ (is_for m p.0 || has_poke m p.1)

pub pull-Splits : (m : DashMemory) (n : ℕ) (hs : List DashHeal) → Splits m hs (pull n hs)
pull-Splits m n [] = tt
pull-Splits m zero (h ∷ hs) = refl
pull-Splits m (suc n) (h ∷ hs) = elim (Option-cases (pull n hs)) [
  | inl q ↦ rw q tt
  | inr (p, q) ↦ let g = rw q at (pull-Splits m n hs) in rw q (ground (arith, g))
]
