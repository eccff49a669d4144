-- ===== src/Vector.antt =====
-- Flat vector storage, crates/vecvec-core/src/vector.rs.
use vecvec.Prelude.{
  ℕ, ◌+◌, ◌*◌, ◌%◌, ◌^◌, ◌≤◌, ◌≡◌, ◌≢◌, if-eq, refl, sym, ap, List, [], ◌++◌, length, take, drop,
  if◌then◌else◌, ◌==◌, ltb, arith, ==-true, ltb-false, inl, inr,
}
use vecvec.Error.{Result, ok, panic, ok-injective}
use vecvec.Distance.{Floats, Metric, requires_normalization, l2_normalize, length-l2_normalize}

module _ ⦃fl : Floats⦄ where
  -- `VectorStorage`
  pub record VectorStorage : Type 0 where
    pub data_flat : List fl.F32
    pub dim : ℕ
    pub metric : Metric
    pub count : ℕ

  -- `new`; it asserts that the dimension is not zero.
  unfoldable pub new : ℕ → Metric → Result VectorStorage
  new dim metric =
      if dim == 0
      then panic
      else ok (record { data_flat = []; dim = dim; metric = metric; count = 0 })

  -- The stored form of a vector.
  unfoldable pub stored : Metric → List fl.F32 → List fl.F32
  stored metric vector = if requires_normalization metric then l2_normalize vector else vector

  -- `push`: the id is a 32-bit number.
  unfoldable pub push : List fl.F32 → VectorStorage → Result (VectorStorage × ℕ)
  push vector s =
      if length vector == s.dim
      then ok (
        record s { data_flat = s.data_flat ++ stored s.metric vector; count = s.count + 1 },
        s.count % 2 ^ 32,
      )
      else panic

  -- `get`; a slice that is out of range panics.
  unfoldable pub get : ℕ → VectorStorage → Result (List fl.F32)
  get id s =
      let start = id * s.dim in
      if ltb (length s.data_flat) (start + s.dim)
      then panic
      else ok (take s.dim (drop start s.data_flat))

  pub length-stored : (m : Metric) (v : List fl.F32) → length (stored m v) ≡ length v
  unfolding stored
  length-stored m v = ground (arith, length-l2_normalize v)

  -- The store after a `push` of a vector that has the right length.
  abbrev pub pushed : List fl.F32 → VectorStorage → VectorStorage
  pushed v s = record s { data_flat = s.data_flat ++ stored s.metric v; count = s.count + 1 }

  pub push-eq :
      (v : List fl.F32) (s : VectorStorage)
      → length v ≡ s.dim
      → push v s ≡ ok (pushed v s, s.count % 2 ^ 32)
  unfolding push
  push-eq v s e = rw (==-true (length v) s.dim e) refl

  pub get-eq :
      (i : ℕ) (s : VectorStorage)
      → i * s.dim + s.dim ≤ length s.data_flat
      → get i s ≡ ok (take s.dim (drop (i * s.dim) s.data_flat))
  unfolding get
  get-eq i s h = rw (ltb-false (length s.data_flat) (i * s.dim + s.dim) h) refl

  abbrev pub blank : ℕ → Metric → VectorStorage
  blank dim metric = record { data_flat = []; dim = dim; metric = metric; count = 0 }

  pub new-eq-ok :
      (dim : ℕ) (metric : Metric) (s : VectorStorage)
      → new dim metric ≡ ok s
      → (dim ≢ 0) × (s ≡ blank dim metric)
  unfolding new
  new-eq-ok dim metric s h = elim (if-eq (dim == 0) panic (ok (blank dim metric)) (ok s) h) [
    | inl (e, q) ↦ cc
    | inr (e, q) ↦ ((λ z. ground arith), sym (ok-injective (blank dim metric) s q))
  ]

  pub push-eq-ok :
      (v : List fl.F32) (s t : VectorStorage) (i : ℕ)
      → push v s ≡ ok (t, i)
      → (length v ≡ s.dim) × (t ≡ pushed v s)
  unfolding push
  push-eq-ok v s t i h =
      elim (if-eq (length v == s.dim) (ok (pushed v s, s.count % 2 ^ 32)) panic (ok (t, i)) h) [
        | inl (e, q) ↦ (
          ground arith,
          sym (ap (λ x. x.0) (ok-injective (pushed v s, s.count % 2 ^ 32) (t, i) q)),
        )
        | inr (e, q) ↦ cc
      ]
