-- ===== src/Gating/Examples.antt =====
-- A head with a space, whose identity takes the long form.
use hamsterdan.Base.{ℕ, String, Option, none, some, List, [], ◌∷◌, refl, decimal}
use hamsterdan.Colors.{HeadRelation, HeadWork}
use hamsterdan.Review.Identity.{operation}
use hamsterdan.Review.Grammar.{all_marker, text_length}
use hamsterdan.Review.Folds.{start, judge}
use hamsterdan.Review.Settle.{seed}
use hamsterdan.Review.Protocol.{
  at_rest, Fired, reviewed, ReviewEvent, headed, answered, fire, run, on_answer,
}
use hamsterdan.Gating.Dispatch.{Dispatches, publications_dispatch}

-- the digest of SHA-256 has 64 hexadecimal digits
abbrev zeros : String → ℕ → String
zeros head incarnation = "0000000000000000000000000000000000000000000000000000000000000000"

abbrev admitted : HeadWork
admitted = record {
  incarnation = 12;
  head = "c 1";
  base = "b1";
  policy = "p1";
  relation = HeadRelation.new;
  lineage = "";
}

abbrev asks : List ReviewEvent
asks = headed admitted ∷ answered (reviewed [] []) ∷ []

abbrev or_seed : Option Fired → Fired
or_seed none = (at_rest (seed "acme/app#7"), [])
or_seed (some f) = f

abbrev asked : Fired
unfolding run
asked = or_seed (run zeros (at_rest (seed "acme/app#7")) asks)

publications_dispatch_example : Dispatches asked.0
unfolding run fire asked all_marker text_length decimal operation start on_answer judge
publications_dispatch_example =
    publications_dispatch zeros (λ h n. (refl, refl)) "acme/app#7" asks asked.0 asked.1
      (refl, (tt, tt)) refl
