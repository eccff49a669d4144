-- ===== src/Distance.antt =====
-- Metrics and scalar kernels, crates/vecvec-core/src/distance/mod.rs and scalar.rs, over the
-- hardware's 32-bit floats, of which only the operations are named.
pub mod Bytes8
use vecvec.Prelude.{
  suc, ◌≡◌, refl, ap, Bool, true, false, List, [], ◌∷◌, map, length, if◌then◌else◌, arith,
}

-- `f32`: the arithmetic of the target.
pub record Floats : Type 1 where
  pub F32 : Type 0
  pub nil : F32
  pub one : F32
  pub add : F32 → F32 → F32
  pub sub : F32 → F32 → F32
  pub mul : F32 → F32 → F32
  pub div : F32 → F32 → F32
  pub sqrt : F32 → F32
  -- `x > 0.0`
  pub is_positive : F32 → Bool

-- `Metric`
pub data Metric : Type 0 where
  cosine dot euclidean : Metric

unfoldable pub higher_is_better : Metric → Bool
higher_is_better cosine = true
higher_is_better dot = true
higher_is_better euclidean = false

unfoldable pub requires_normalization : Metric → Bool
requires_normalization cosine = true
requires_normalization dot = false
requires_normalization euclidean = false

module _ ⦃fl : Floats⦄ where
  -- The loop over the remainders.
  abbrev dot_rest : fl.F32 → List fl.F32 → List fl.F32 → fl.F32
  dot_rest sum (x ∷ xs) (y ∷ ys) = dot_rest (fl.add sum (fl.mul x y)) xs ys
  dot_rest sum (x ∷ xs) [] = sum
  dot_rest sum [] ys = sum

  -- The loop over the chunks of four, with its four accumulators.
  abbrev dot_chunks : fl.F32 → fl.F32 → fl.F32 → fl.F32 → List fl.F32 → List fl.F32 → fl.F32
  dot_chunks a b c d (x ∷ x' ∷ x'' ∷ x''' ∷ xs) (y ∷ y' ∷ y'' ∷ y''' ∷ ys) =
      dot_chunks (fl.add a (fl.mul x y)) (fl.add b (fl.mul x' y')) (fl.add c (fl.mul x'' y''))
        (fl.add d (fl.mul x''' y''')) xs ys
  dot_chunks a b c d xs ys = dot_rest (fl.add (fl.add a b) (fl.add c d)) xs ys

  unfoldable pub dot_f32 : List fl.F32 → List fl.F32 → fl.F32
  dot_f32 = dot_chunks fl.nil fl.nil fl.nil fl.nil

  unfoldable pub l2_norm : List fl.F32 → fl.F32
  unfolding dot_f32
  l2_norm v = fl.sqrt (dot_f32 v v)

  -- `l2_normalize`, the vector that it leaves.
  unfoldable pub l2_normalize : List fl.F32 → List fl.F32
  unfolding l2_norm
  l2_normalize v =
      let norm = l2_norm v in
      if fl.is_positive norm then (let inv = fl.div fl.one norm in map (λ x. fl.mul x inv) v) else v

  length-map : (f : fl.F32 → fl.F32) (v : List fl.F32) → length (map f v) ≡ length v
  length-map f [] = refl
  length-map f (x ∷ v) = ap suc (length-map f v)

  pub length-l2_normalize : (v : List fl.F32) → length (l2_normalize v) ≡ length v
  unfolding l2_normalize
  length-l2_normalize v = ground (arith, length-map (λ x. fl.mul x (fl.div fl.one (l2_norm v))) v)
