-- ===== src/Payload/Spec.antt =====
-- What a filter of crates/vecvec-core/src/payload.rs means, without its Boolean tests.
use vecvec.Prelude.{
  ℕ, ◌≡◌, ◌↔◌, ◌⊎◌, refl, sym, ap, ◌∙◌, Bool, true, false, not, ◌&&◌, Option, none, some, List, [],
  ◌∷◌, any, All, is_none_or, inl, inr, subst, some-injective, arith, Bool-cases,
}
use vecvec.Prelude.Maps.{lookup, nat_key}
use vecvec.Payload.{
  Json, Range, contains, Condition, is_value, value_of, number_of, in_range, eval_condition, Filter,
  no_conditions, eval, FilterQuery, matches,
}

-- Some element satisfies `P`.
abbrev pub Any : {A : Type 0} → (A → Type 0) → List A → Type 0
Any P [] = ⊥
Any P (x ∷ xs) = P x ⊎ Any P xs

module _ {A : Type 0} (test : A → Bool) (P : A → Type 0)
    (test_iff : (a : A) → (test a ≡ true) ↔ P a) where
  refuted : (a : A) → (test a ≡ false) ↔ (¬ P a)
  refuted a = elim (Bool-cases (test a)) [
    | inl e ↦ (λ h. absurd (ground arith), λ unmet. absurd (unmet ((test_iff a).0 e)))
    | inr e ↦ (λ h holds. let f = (test_iff a).1 holds in ground arith, λ unmet. e)
  ]

  any-All : (xs : List A) → (any (λ a. not (test a)) xs ≡ false) ↔ All P xs
  any-All [] = (λ h. tt, λ h. refl)
  any-All (x ∷ xs) = (
    λ h. ((test_iff x).0 (ground arith), (any-All xs).0 (ground arith)),
    λ (holds, rest). let e = (test_iff x).1 holds in let f = (any-All xs).1 rest in ground arith,
  )

  any-none : (xs : List A) → (any test xs ≡ false) ↔ All (λ a. ¬ P a) xs
  any-none [] = (λ h. tt, λ h. refl)
  any-none (x ∷ xs) = (
    λ h. ((refuted x).0 (ground arith), (any-none xs).0 (ground arith)),
    λ (unmet, rest). let e = (refuted x).1 unmet in let f = (any-none xs).1 rest in ground arith,
  )

  any-Any : (xs : List A) → (any test xs ≡ true) ↔ Any P xs
  any-Any [] = (λ h. ground arith, λ h. absurd h)
  any-Any (x ∷ xs) = elim (Bool-cases (test x)) [
    | inl e ↦ (λ h. inl ((test_iff x).0 e), λ some_holds. rw e refl)
    | inr e ↦ (
      λ h. inr ((any-Any xs).0 (ground arith)),
      λ some_holds. elim some_holds [
        | inl holds ↦ rw ((test_iff x).1 holds) refl
        | inr rest ↦ let f = (any-Any xs).1 rest in ground arith
      ],
    )
  ]

is_none_or_iff :
    {A : Type 0} (o : Option A) (p : A → Bool)
    → (is_none_or o p ≡ true) ↔ ((a : A) → o ≡ some a → p a ≡ true)
is_none_or_iff none p = (λ h a e. ground arith, λ h. refl)
is_none_or_iff (some b) p = (λ h a e. ap p (sym (some-injective b a e)) ∙ h, λ h. h b refl)

module _ ⦃json : Json⦄ where
  -- The number is within the bounds that the range has.
  abbrev pub Within : json.F64 → Range → Type 0
  Within n r =
      ((b : json.F64) → r.gt ≡ some b → json.lt b n ≡ true)
      × ((b : json.F64) → r.gte ≡ some b → json.le b n ≡ true)
      × ((b : json.F64) → r.lt ≡ some b → json.lt n b ≡ true)
      × ((b : json.F64) → r.lte ≡ some b → json.le n b ≡ true)

  -- The field has the value that is asked for, if one is, and is a number within the range, if
  -- there is one.
  abbrev pub Holds : Option json.Value → Condition → Type 0
  Holds payload c =
      ((v : json.Value) → c.expected ≡ some v → value_of c.key payload ≡ some v)
      × ((r : Range)
          → c.range ≡ some r
          → (n : json.F64) × (number_of (value_of c.key payload) ≡ some n) × Within n r)

  is_value_iff : (o : Option json.Value) (v : json.Value) → (is_value o v ≡ true) ↔ (o ≡ some v)
  is_value_iff none v = (λ h. ground arith, λ h. ground arith)
  is_value_iff (some w) v =
      (λ h. ap some ((json.same_iff w v).0 h), λ h. (json.same_iff w v).1 (some-injective w v h))

  and4_iff :
      (a b c d : Bool)
      → ((a && (b && (c && d))) ≡ true) ↔ ((a ≡ true) × (b ≡ true) × (c ≡ true) × (d ≡ true))
  and4_iff a b c d =
      (λ h. (ground arith, ground arith, ground arith, ground arith), λ (e, f, g, h). ground arith)

  contains_iff : (r : Range) (n : json.F64) → (contains r n ≡ true) ↔ Within n r
  unfolding contains
  contains_iff r n =
      let gt = is_none_or_iff r.gt (λ b. json.lt b n) in
      let gte = is_none_or_iff r.gte (λ b. json.le b n) in
      let lt = is_none_or_iff r.lt (λ b. json.lt n b) in
      let lte = is_none_or_iff r.lte (λ b. json.le n b) in
      let all =
        and4_iff (is_none_or r.gt (λ b. json.lt b n)) (is_none_or r.gte (λ b. json.le b n))
          (is_none_or r.lt (λ b. json.lt n b)) (is_none_or r.lte (λ b. json.le n b)) in
      (
        λ h. let (e, f, g, k) = all.0 h in (gt.0 e, gte.0 f, lt.0 g, lte.0 k),
        λ (e, f, g, k). all.1 (gt.1 e, gte.1 f, lt.1 g, lte.1 k),
      )

  in_range_iff :
      (o : Option json.F64) (r : Range)
      → (in_range o r ≡ true) ↔ ((n : json.F64) × (o ≡ some n) × Within n r)
  in_range_iff none r = (λ h. ground arith, λ (n, e, w). ground arith)
  in_range_iff (some m) r = (
    λ h. (m, refl, (contains_iff r m).0 h),
    λ (n, e, w). (contains_iff r m).1 (subst (λ k. Within k r) (sym (some-injective m n e)) w),
  )

  condition_iff :
      (payload : Option json.Value) (c : Condition)
      → (eval_condition c payload ≡ true) ↔ Holds payload c
  unfolding eval_condition
  condition_iff payload c =
      let value = value_of c.key payload in
      let of_value = is_none_or_iff c.expected (is_value value) in
      let of_range = is_none_or_iff c.range (in_range (number_of value)) in
      (
        λ h.
            let e : is_none_or c.expected (is_value value) ≡ true = ground arith in
            let f : is_none_or c.range (in_range (number_of value)) ≡ true = ground arith in
            (
              λ v g. (is_value_iff value v).0 (of_value.0 e v g),
              λ r g. (in_range_iff (number_of value) r).0 (of_range.0 f r g),
            ),
        λ (holds, within).
            let e = of_value.1 (λ v g. (is_value_iff value v).1 (holds v g)) in
            let f = of_range.1 (λ r g. (in_range_iff (number_of value) r).1 (within r g)) in
            ground arith,
      )

  -- All conditions of `must` hold, none of `must_not`, and one of `should` unless it is empty.
  abbrev pub Admits : Filter → Option json.Value → Type 0
  Admits f payload =
      All (Holds payload) f.must
      × All (λ c. ¬ Holds payload c) f.must_not
      × ((f.should ≡ []) ⊎ Any (Holds payload) f.should)

  no_conditions_iff : (cs : List Condition) → (no_conditions cs ≡ true) ↔ (cs ≡ [])
  no_conditions_iff [] = (λ h. refl, λ h. refl)
  no_conditions_iff (c ∷ cs) = (λ h. absurd (ground arith), λ h. ap no_conditions h)

  should_iff :
      (cs : List Condition) (payload : Option json.Value)
      → ((not (no_conditions cs) && not (any (λ c. eval_condition c payload) cs)) ≡ false)
        ↔ ((cs ≡ []) ⊎ Any (Holds payload) cs)
  should_iff cs payload =
      let empty = no_conditions_iff cs in
      let some_holds =
        any-Any (λ c. eval_condition c payload) (Holds payload) (condition_iff payload) cs in
      (
        λ h. elim (Bool-cases (no_conditions cs)) [
          | inl e ↦ inl (empty.0 e)
          | inr e ↦ inr (some_holds.0 (ground arith))
        ],
        λ h. elim h [
          | inl e ↦ let f = empty.1 e in ground arith
          | inr e ↦ let f = some_holds.1 e in ground arith
        ],
      )

  eval_iff : (f : Filter) (payload : Option json.Value) → (eval f payload ≡ true) ↔ Admits f payload
  unfolding eval
  eval_iff f payload =
      let test : Condition → Bool = λ c. eval_condition c payload in
      let must = any-All test (Holds payload) (condition_iff payload) f.must in
      let must_not = any-none test (Holds payload) (condition_iff payload) f.must_not in
      let should = should_iff f.should payload in
      (
        λ h. (must.0 (ground arith), must_not.0 (ground arith), should.0 (ground arith)),
        λ (a, b, c). let e = must.1 a in let g = must_not.1 b in let k = should.1 c in ground arith,
      )

  -- A point passes a filter exactly if its payload fulfils every condition of `must`, none of
  -- `must_not`, and one of `should` unless there is none; a condition is fulfilled exactly if the
  -- field has the value asked for, if one is, and is a number within every bound of the range, if
  -- there is a range. A point without a payload has no field.
  pub matches_iff :
      (q : FilterQuery) (global : ℕ)
      → (matches q global ≡ true) ↔ Admits q.filter (lookup ⦃key = nat_key⦄ global q.payloads)
  unfolding matches
  matches_iff q global = eval_iff q.filter (lookup ⦃key = nat_key⦄ global q.payloads)
