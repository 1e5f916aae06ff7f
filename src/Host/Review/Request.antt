-- ===== src/Host/Review/Request.antt =====
-- The request that the agent is asked (`_compose_request` and `_validate_request` of
-- src/hamsterdan/host/v5/review.py).
use hamsterdan.Base.{
  ℕ, zero, suc, String, Bool, true, false, ◌&&◌, Option, none, some, List, [], ◌∷◌, ◌==◌, eqb, ltb,
  length, if◌then◌else◌, Dict, get,
}
use mathlib.Core.Bool.{beq}
use hamsterdan.Colors.{Location, Finding, RoundOpen}
use hamsterdan.Host.Broker.{Run}

-- a comment of the provider; a key that is not there is the empty text, as it is read
pub record Comment : Type 0 where
  pub id : Option ℕ
  pub url : String
  pub body : String
  pub author : String

-- of the run, the fields of Run are modelled
pub record ReviewRequest : Type 0 where
  pub repository : String
  pub pull_request : ℕ
  pub epoch : ℕ
  pub head : String
  pub base : String
  pub diff_path : String
  pub policy : Dict String
  pub review_lenses : List String
  pub context_paths : List String
  pub actions_evidence : List Run
  pub prior_findings : List Finding
  pub prior_comments : List Comment
  pub prior_replies : List (Dict String)
  pub applied_changes : List (Dict String)

pub record ReviewGate : Type 0 where
  pub repository : String
  pub pull_request : ℕ

-- `text[:n]`
unfoldable pub clip : ℕ → String → String
clip n String.[] = ""
clip zero (String.◌∷◌ c s) = ""
clip (suc n) (String.◌∷◌ c s) = String.◌∷◌ c (clip n s)

-- `items[-n:]`
unfoldable pub last_of {ℓ} : {A : Type ℓ} → ℕ → List A → List A
last_of n [] = []
last_of n (x ∷ xs) = let rest = last_of n xs in if ltb (length xs) n then x ∷ xs else rest

-- `_REVIEW_LENSES`
abbrev pub review_lenses : List String
review_lenses =
    "correctness" ∷ "security" ∷ "tests" ∷ "maintainability" ∷ "developer experience" ∷ []

abbrev pub evidence_of : Option Run → List Run
evidence_of none = []
evidence_of (some run) = run ∷ []

-- the comments as the request holds them
unfoldable pub clipped : List Comment → List Comment
unfolding clip
clipped [] = []
clipped (c ∷ cs) = record c { body = clip 20000 c.body } ∷ clipped cs

abbrev pub policy_of : RoundOpen → Dict String
policy_of work = ("digest", work.policy) ∷ []

-- `_compose_request`
unfoldable pub compose_request : ReviewGate → RoundOpen → List Comment → Option Run → ReviewRequest
unfolding clipped last_of
compose_request gate work comments run = record {
  repository = gate.repository;
  pull_request = gate.pull_request;
  epoch = work.incarnation;
  head = work.head;
  base = work.base;
  diff_path = "diff.patch";
  policy = policy_of work;
  review_lenses = review_lenses;
  context_paths = [];
  actions_evidence = evidence_of run;
  prior_findings = work.prior_findings;
  prior_comments = clipped (last_of 100 comments);
  prior_replies = [];
  applied_changes = work.prior_lineage;
}

-- `==` on lists
abbrev pub list_eq {ℓ} : {A : Type ℓ} → (A → A → Bool) → List A → List A → Bool
list_eq eq [] [] = true
list_eq eq (x ∷ xs) (y ∷ ys) = eq x y && list_eq eq xs ys
list_eq eq _ _ = false

abbrev pub holds_entry : Dict String → String → String → Bool
unfolding get
holds_entry d k v = elim (get k d) [ none ↦ false | some w ↦ w == v ]

abbrev pub is_within : Dict String → Dict String → Bool
unfolding holds_entry
is_within [] d = true
is_within ((k, v) ∷ es) d = holds_entry d k v && is_within es d

-- `==` on dictionaries, which disregards the order
unfoldable pub dict_eq : Dict String → Dict String → Bool
unfolding is_within
dict_eq a b = eqb (length a) (length b) && is_within a b

abbrev pub location_eq : Location → Location → Bool
location_eq a b = a.path == b.path && eqb a.line b.line

unfoldable pub finding_eq : Finding → Finding → Bool
unfolding dict_eq
finding_eq a b =
    a.id == b.id
    && beq a.blocking b.blocking
    && a.path == b.path
    && eqb a.line b.line
    && a.body == b.body
    && a.suggestion == b.suggestion
    && list_eq location_eq a.related_locations b.related_locations
    && dict_eq a.rest b.rest

-- `_validate_request`: it raises where this is false
unfoldable pub is_valid_request : ReviewGate → RoundOpen → ReviewRequest → Bool
unfolding finding_eq dict_eq
is_valid_request gate work request =
    request.repository == gate.repository
    && eqb request.pull_request gate.pull_request
    && eqb request.epoch work.incarnation
    && request.head == work.head
    && request.base == work.base
    && request.diff_path == "diff.patch"
    && dict_eq request.policy (policy_of work)
    && list_eq (λ a b. a == b) request.review_lenses review_lenses
    && list_eq (λ a b. a == b) request.context_paths []
    && list_eq finding_eq request.prior_findings work.prior_findings
    && list_eq dict_eq request.prior_replies []
    && list_eq dict_eq request.applied_changes work.prior_lineage
