-- ===== src/Examples/Filtering.antt =====
-- Payload filters at concrete inputs.
use vecvec.Prelude.{
  ℕ, ◌≡◌, ◌↔◌, refl, true, false, none, some, [], ◌∷◌, ◌==◌, ==_iff, ltb, leb, if◌then◌else◌,
}
use text.Mathlib.Text.{◌==◌ as str_eq}
use vecvec.Prelude.Maps.{lookup, nat_key}
use vecvec.Payload.{Json, contains, Condition, eval_condition, eval, FilterQuery, matches}
use vecvec.Payload.Spec.{Admits, matches_iff}

-- JSON of whole numbers: `n`, as a payload, is an object whose field `price` is `n`.
instance abbrev prices : Json
prices = record {
  Value = ℕ;
  F64 = ℕ;
  field = λ v key. if str_eq key "price" then some v else none;
  as_f64 = λ v. some v;
  same = ◌==◌;
  same_iff = ==_iff;
  lt = ltb;
  le = leb;
}

abbrev at_least : ℕ → Condition
at_least n = record {
  key = "price";
  expected = none;
  range = some (record { gt = none; gte = some n; lt = none; lte = none });
}

abbrev equal_to : ℕ → Condition
equal_to n = record { key = "price"; expected = some n; range = none }

-- At least 10 and not at least 20, and 12 or 15; point 1 has 12, point 2 has 20, 3 no payload.
abbrev query : FilterQuery
query = record {
  filter = record {
    must = at_least 10 ∷ [];
    should = equal_to 12 ∷ equal_to 15 ∷ [];
    must_not = at_least 20 ∷ [];
  };
  payloads = (1, 12) ∷ (2, 20) ∷ [];
}

admitted : matches query 1 ≡ true
unfolding matches eval eval_condition contains
admitted = refl

excluded : matches query 2 ≡ false
unfolding matches eval eval_condition contains
excluded = refl

without_payload : matches query 3 ≡ false
unfolding matches eval eval_condition contains
without_payload = refl

matches_iff_example :
    (matches query 1 ≡ true) ↔ Admits query.filter (lookup ⦃key = nat_key⦄ 1 query.payloads)
matches_iff_example = matches_iff query 1
