-- ===== src/Payload.antt =====
-- Payload filters, crates/vecvec-core/src/payload.rs. JSON values are serde_json's.
pub mod Spec
use vecvec.Prelude.{
  ℕ, ◌≡◌, ◌↔◌, ◌⊎◌, refl, sym, ap, ◌∙◌, Bool, true, false, not, ◌&&◌, Option, none, some, List, [],
  ◌∷◌, any, All, if◌then◌else◌, is_none_or, String, inl, inr,
}
use vecvec.Prelude.Maps.{HashMap, lookup, nat_key}

-- `serde_json::Value` and 64-bit floats.
pub record Json : Type 1 where
  pub Value : Type 0
  pub F64 : Type 0
  -- `Value::get` of a field, and `Value::as_f64`
  pub field : Value → String → Option Value
  pub as_f64 : Value → Option F64
  pub same : Value → Value → Bool
  pub same_iff : (v w : Value) → (same v w ≡ true) ↔ (v ≡ w)
  -- `<` and `<=`
  pub lt : F64 → F64 → Bool
  pub le : F64 → F64 → Bool

module _ ⦃json : Json⦄ where
  -- `Range`
  pub record Range : Type 0 where
    pub gt : Option json.F64
    pub gte : Option json.F64
    pub lt : Option json.F64
    pub lte : Option json.F64

  unfoldable pub contains : Range → json.F64 → Bool
  contains r n =
      is_none_or r.gt (λ b. json.lt b n)
      && (is_none_or r.gte (λ b. json.le b n)
          && (is_none_or r.lt (λ b. json.lt n b) && is_none_or r.lte (λ b. json.le n b)))

  -- `Condition`; its field `match` is `expected`.
  pub record Condition : Type 0 where
    pub key : String
    pub expected : Option json.Value
    pub range : Option Range

  -- `value != Some(expected)`, negated
  abbrev pub is_value : Option json.Value → json.Value → Bool
  is_value none expected = false
  is_value (some v) expected = json.same v expected

  -- `payload.and_then(|p| p.get(&self.key))`
  abbrev pub value_of : String → Option json.Value → Option json.Value
  value_of key none = none
  value_of key (some p) = json.field p key

  abbrev pub number_of : Option json.Value → Option json.F64
  number_of none = none
  number_of (some v) = json.as_f64 v

  abbrev pub in_range : Option json.F64 → Range → Bool
  in_range none r = false
  in_range (some n) r = contains r n

  unfoldable pub eval_condition : Condition → Option json.Value → Bool
  eval_condition c payload =
      let value = value_of c.key payload in
      if is_none_or c.expected (is_value value)
      then is_none_or c.range (in_range (number_of value))
      else false

  -- `Filter`
  pub record Filter : Type 0 where
    pub must : List Condition
    pub should : List Condition
    pub must_not : List Condition

  abbrev pub no_conditions : List Condition → Bool
  no_conditions [] = true
  no_conditions (c ∷ cs) = false

  unfoldable pub eval : Filter → Option json.Value → Bool
  eval f payload =
      if any (λ c. not (eval_condition c payload)) f.must
      then false
      else if any (λ c. eval_condition c payload) f.must_not
      then false
      else if not (no_conditions f.should) && not (any (λ c. eval_condition c payload) f.should)
      then false
      else true

  -- `FilterQuery`
  pub record FilterQuery : Type 0 where
    pub filter : Filter
    pub payloads : HashMap ℕ json.Value

  unfoldable pub matches : FilterQuery → ℕ → Bool
  matches q global = eval q.filter (lookup ⦃key = nat_key⦄ global q.payloads)
