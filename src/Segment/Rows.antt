-- ===== src/Segment/Rows.antt =====
-- Reading rows through an id map and a vector store, as both kinds of segment do:
-- crates/vecvec-core/src/segment/appendable.rs and sealed.rs.
use vecvec.Prelude.{
  ℕ, zero, suc, ◌+◌, ◌*◌, ◌^◌, ◌≤◌, ◌≡◌, refl, sym, ap, ◌∙◌, Option, none, some, List, [], ◌∷◌,
  ◌++◌, length, take, drop, if◌then◌else◌, ◌==◌, arith, is_some, Bool-cases, Option-cases, inl, inr,
  min, max, length-append, append_assoc,
}
use vecvec.Prelude.Maps.{HashMap, lookup, nat_key}
use vecvec.Prelude.Slices.{take_prefix, drop_append_ge}
use vecvec.Error.{Result, ok, ◌>>=◌}
use vecvec.Distance.{Floats}
use vecvec.Vector
use vecvec.Vector.{VectorStorage, stored, pushed, get-eq, length-stored}
use vecvec.Segment.IdMap.{IdMap, to_local, global_at}

module _ ⦃fl : Floats⦄ where
  -- `vector_of`
  unfoldable pub vector_at : ℕ → VectorStorage → IdMap → Result (Option (List fl.F32))
  vector_at global vectors ids = elim (to_local global ids) [
    | none ↦ ok none
    | some local ↦ Vector.get local vectors >>= (λ v. ok (some v))
  ]

  -- The loop of `iter_points`: `n` rows from `local` on.
  unfoldable pub points_from : ℕ → ℕ → VectorStorage → IdMap → Result (List (ℕ × List fl.F32))
  points_from zero local vectors ids = ok []
  points_from (suc n) local vectors ids =
      let rest = points_from n (local + 1) vectors ids in
      global_at local ids
      >>= (λ g. Vector.get local vectors >>= (λ v. rest >>= (λ ps. ok ((g, v) ∷ ps))))

  -- `global_id_range`
  abbrev pub last_of : ℕ → List ℕ → ℕ
  last_of x [] = x
  last_of x (y ∷ ys) = last_of y ys

  abbrev pub range_of : List ℕ → Option (ℕ × ℕ)
  range_of [] = none
  range_of (lo ∷ rest) = let hi = last_of lo rest in some (min lo hi, max lo hi)

  -- The rows that a segment stands for, and what it is to hold them.
  abbrev pub Rows : Type 0
  Rows = HashMap ℕ (List fl.F32)

  abbrev pub flat : Rows → List fl.F32
  flat [] = []
  flat ((g, v) ∷ rows) = v ++ flat rows

  abbrev pub ids_of : Rows → List ℕ
  ids_of [] = []
  ids_of ((g, v) ∷ rows) = g ∷ ids_of rows

  abbrev bump : Option ℕ → Option ℕ
  bump none = none
  bump (some i) = some (suc i)

  abbrev pub position : ℕ → Rows → Option ℕ
  position g [] = none
  position g ((h, v) ∷ rows) = if h == g then some 0 else bump (position g rows)

  abbrev pub IsWide : ℕ → Rows → Type 0
  IsWide dim [] = Unit
  IsWide dim ((g, v) ∷ rows) = (length v ≡ dim) × IsWide dim rows

  pub record Holds (vectors : VectorStorage) (ids : IdMap) (rows : Rows) : Type 0 where
    pub ids_eq : ids.local_to_global ≡ ids_of rows
    pub data_eq : vectors.data_flat ≡ flat rows
    pub wide : IsWide vectors.dim rows
    pub count_eq : vectors.count ≡ length rows
    pub small : length rows ≤ 2 ^ 32
    pub mapped : (g : ℕ) → lookup g ids.global_to_local ≡ position g rows

  pub ids_of-append : (r s : Rows) → ids_of (r ++ s) ≡ ids_of r ++ ids_of s
  ids_of-append [] s = refl
  ids_of-append ((g, v) ∷ r) s = ap (◌∷◌ g) (ids_of-append r s)

  pub flat-append : (r s : Rows) → flat (r ++ s) ≡ flat r ++ flat s
  flat-append [] s = refl
  flat-append ((g, v) ∷ r) s =
      ap (◌++◌ v) (flat-append r s) ∙ sym (append_assoc v (flat r) (flat s))

  pub IsWide-append : (dim : ℕ) (r s : Rows) → IsWide dim r → IsWide dim s → IsWide dim (r ++ s)
  IsWide-append dim [] s a b = b
  IsWide-append dim ((g, v) ∷ r) s (e, a) b = (e, IsWide-append dim r s a b)

  pub length-flat : (dim : ℕ) (r : Rows) → IsWide dim r → length (flat r) ≡ length r * dim
  length-flat dim [] w = omega arith
  length-flat dim ((g, v) ∷ r) (e, w) = omega (arith, length-append v (flat r), length-flat dim r w)

  pub length-ids_of : (r : Rows) → length (ids_of r) ≡ length r
  length-ids_of [] = refl
  length-ids_of ((g, v) ∷ r) = ap suc (length-ids_of r)

  bump-eq-some : (p : Option ℕ) (i : ℕ) → bump p ≡ some i → (j : ℕ) × (p ≡ some j) × (i ≡ suc j)
  bump-eq-some none i h = cc
  bump-eq-some (some j) i h = (j, refl, ground arith)

  row-position :
      (dim g i : ℕ) (rows : Rows)
      → IsWide dim rows
      → position g rows ≡ some i
      → (lookup g rows ≡ some (take dim (drop (i * dim) (flat rows))))
        × (i * dim + dim ≤ length (flat rows))
  row-position dim g i [] w p = cc
  row-position dim g i ((h, v) ∷ rows) (e, w) p = elim (Bool-cases (h == g)) [
    | inl same ↦
        let at_start : i ≡ 0 = ground arith in
        let start : 0 * dim ≡ 0 = omega arith in
        rw (at_start, start, same)
          (
            ap some (sym (take_prefix dim v (flat rows) (sym e))),
            omega (arith, length-append v (flat rows)),
          )
    | inr same ↦
        let (j, q, n) = bump-eq-some (position g rows) i (ground arith) in
        let (found, fits) = row-position dim g j rows w q in
        let shift : drop (suc j * dim) (v ++ flat rows) ≡ drop (j * dim) (flat rows) =
          drop_append_ge (suc j * dim) (j * dim) v (flat rows) (omega arith) in
        rw (n, same, shift) (found, omega (arith, length-append v (flat rows)))
  ]

  is_some-position : (g : ℕ) (rows : Rows) → is_some (position g rows) ≡ is_some (lookup g rows)
  is_some-position g [] = refl
  is_some-position g ((h, v) ∷ rows) = ground (arith, is_some-position g rows)

  lookup-none : (g : ℕ) (rows : Rows) → position g rows ≡ none → lookup g rows ≡ none
  lookup-none g rows p = ground (arith, is_some-position g rows)

  module _ {vectors : VectorStorage} {ids : IdMap} {rows : Rows}
      (holds : Holds vectors ids rows) where
    -- A held row is read under its id, and no other row is.
    pub vector_at-Holds : (g : ℕ) → vector_at g vectors ids ≡ ok (lookup g rows)
    unfolding vector_at to_local
    vector_at-Holds g = elim (Option-cases (position g rows)) [
      | inl p ↦ rw (vector_at, to_local, holds.mapped g, p) (ap ok (sym (lookup-none g rows p)))
      | inr (i, p) ↦
          let (found, fits) = row-position vectors.dim g i rows holds.wide p in
          let read : Vector.get i vectors
              ≡ ok (take vectors.dim (drop (i * vectors.dim) (flat rows))) =
            get-eq i vectors (rw holds.data_eq fits)
            ∙ ap (λ d. ok (take vectors.dim (drop (i * vectors.dim) d))) holds.data_eq in
          rw (vector_at, to_local, holds.mapped g, p, read, found) refl
    ]

    pub is_some-to_local : (g : ℕ) → is_some (to_local g ids) ≡ is_some (lookup g rows)
    unfolding to_local
    is_some-to_local g = rw (to_local, holds.mapped g) (is_some-position g rows)
