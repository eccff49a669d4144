-- ===== src/Segment/Listing.antt =====
-- Listing every row of a segment: `iter_points` of crates/vecvec-core/src/segment/appendable.rs and
-- sealed.rs.
use vecvec.Prelude.{
  ℕ, zero, suc, ◌+◌, ◌*◌, ◌%◌, ◌^◌, ◌<◌, ◌≡◌, refl, sym, ap, ◌∙◌, some, List, [], ◌∷◌, ◌++◌, length,
  get_elem?, arith, length-append, append-nil, append_assoc,
}
use vecvec.Prelude.Slices.{slice_of}
use vecvec.Error.{ok}
use vecvec.Distance.{Floats}
use vecvec.Vector
use vecvec.Vector.{VectorStorage, get-eq}
use vecvec.Segment.IdMap.{IdMap, global_at}
use vecvec.Segment.Rows.{
  Rows, flat, ids_of, IsWide, points_from, ids_of-append, flat-append, IsWide-append, length-flat,
  length-ids_of, Holds,
}

get_elem?-middle :
    (xs : List ℕ) (y : ℕ) (ys : List ℕ) (n : ℕ)
    → n ≡ length xs
    → get_elem? (xs ++ y ∷ ys) n ≡ some y
get_elem?-middle [] y ys zero e = refl
get_elem?-middle [] y ys (suc n) e = absurd (omega arith)
get_elem?-middle (x ∷ xs) y ys zero e = absurd (omega arith)
get_elem?-middle (x ∷ xs) y ys (suc n) e = get_elem?-middle xs y ys n (omega arith)

module _ ⦃fl : Floats⦄ where
  -- Reading the rows from the `length pre`th on.
  points_from-rows :
      (vectors : VectorStorage) (ids : IdMap) (pre rows : Rows) (n i : ℕ)
      → ids.local_to_global ≡ ids_of pre ++ ids_of rows
      → vectors.data_flat ≡ flat pre ++ flat rows
      → IsWide vectors.dim pre
      → IsWide vectors.dim rows
      → n ≡ length rows
      → i ≡ length pre
      → points_from n i vectors ids ≡ ok rows
  unfolding points_from global_at
  points_from-rows vectors ids pre [] n i a b w w' e f = rw (e, points_from) refl
  points_from-rows vectors ids pre ((g, v) ∷ rows) zero i a b w w' e f = absurd (omega arith)
  points_from-rows vectors ids pre ((g, v) ∷ rows) (suc n) i a b w (q, w') e f =
      let grow_ids : ids_of pre ++ (g ∷ ids_of rows) ≡ ids_of (pre ++ (g, v) ∷ []) ++ ids_of rows =
        sym (append_assoc (ids_of pre) (g ∷ []) (ids_of rows))
        ∙ ap (λ l. l ++ ids_of rows) (sym (ids_of-append pre ((g, v) ∷ []))) in
      let grow_data : flat pre ++ (v ++ flat rows) ≡ flat (pre ++ (g, v) ∷ []) ++ flat rows =
        ap (λ l. flat pre ++ (l ++ flat rows)) (sym (append-nil v))
        ∙ sym (append_assoc (flat pre) (v ++ []) (flat rows))
        ∙ ap (λ l. l ++ flat rows) (sym (flat-append pre ((g, v) ∷ []))) in
      let at : i * vectors.dim ≡ length pre * vectors.dim = ap (λ k. k * vectors.dim) f in
      let step : points_from n (i + 1) vectors ids ≡ ok rows =
        points_from-rows vectors ids (pre ++ (g, v) ∷ []) rows n (i + 1) (a ∙ grow_ids)
          (b ∙ grow_data) (IsWide-append vectors.dim pre ((g, v) ∷ []) w (q, tt)) w' (omega arith)
          (omega (arith, length-append pre ((g, v) ∷ []))) in
      let here : global_at i ids ≡ ok g =
        rw
          (
            global_at,
            a,
            get_elem?-middle (ids_of pre) g (ids_of rows) i (f ∙ sym (length-ids_of pre)),
          )
          refl in
      let read : Vector.get i vectors ≡ ok v =
        get-eq i vectors (
          rw b (
            omega (
              arith,
              at,
              length-flat vectors.dim pre w,
              length-append (flat pre) (v ++ flat rows),
              length-append v (flat rows),
            )))
        ∙ ap ok (
            slice_of (i * vectors.dim) vectors.dim (flat pre) v (flat rows) vectors.data_flat b
              (at ∙ sym (length-flat vectors.dim pre w)) (sym q)) in
      rw (step, here, read) refl

  pub points_from-Holds :
      (vectors : VectorStorage) (ids : IdMap) (rows : Rows)
      → Holds vectors ids rows
      → vectors.count < 2 ^ 32
      → points_from (vectors.count % 2 ^ 32) 0 vectors ids ≡ ok rows
  points_from-Holds vectors ids rows h s =
      points_from-rows vectors ids [] rows (vectors.count % 2 ^ 32) 0 h.ids_eq h.data_eq tt h.wide
        (omega (arith, h.count_eq)) refl
