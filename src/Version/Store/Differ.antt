-- ===== src/Version/Store/Differ.antt =====
-- What `diff` reports, against the live ids of the two versions.
use vecvec.Prelude.{
  ℕ, zero, suc, ◌+◌, ◌-◌, ◌≡◌, Bool, true, not, ◌&&◌, ◌||◌, none, some, List, [], ◌∷◌, arith,
  is_some, ◌==◌, leb, ltb, Option-cases, Bool-cases, inl, inr, ap, sym, any, ◌⊎◌,
}
use vecvec.Prelude.Maps.{mem, set_insert, mem-set_insert}
use vecvec.Version.Deletion
use vecvec.Version.Deletion.{Treemap, DeletionVector}
use vecvec.Version.Manifest.{Manifest, SegmentRef}
use vecvec.Version.Store.{
  VersionStore, Diff, ok, err, no_such_version, get, live_ids, live_range, live_segments,
  difference, diff,
}
use vecvec.Version.Store.Collect.{mem-keep}

module _ ⦃tm : Treemap⦄ where
  mem-live_range :
      (d : DeletionVector) (n id : ℕ) (live : List ℕ) (i : ℕ)
      → mem i (live_range d n id live)
        ≡ (mem i live || ((leb id i && ltb i (id + n)) && not (Deletion.contains i d)))
  mem-live_range d zero id live i = ground arith
  mem-live_range d (suc n) id live i = elim (Bool-cases (i == id)) [
    | inl eq ↦
        let e : i ≡ id = ground arith in
        let same : Deletion.contains id d ≡ Deletion.contains i d =
          ap (λ k. Deletion.contains k d) (sym e) in
        ground (
          arith,
          mem-live_range d n (id + 1) (set_insert id live) i,
          mem-live_range d n (id + 1) live i,
          mem-set_insert id i live,
        )
    | inr other ↦ ground (
      arith,
      mem-live_range d n (id + 1) (set_insert id live) i,
      mem-live_range d n (id + 1) live i,
      mem-set_insert id i live,
    )
  ]

  -- The id lies in a segment's range.
  abbrev pub within : ℕ → SegmentRef → Bool
  within i seg = leb seg.id_lo i && leb i seg.id_hi

  mem-live_segments :
      (d : DeletionVector) (segs : List SegmentRef) (live : List ℕ) (i : ℕ)
      → mem i (live_segments d segs live)
        ≡ (mem i live || (any (within i) segs && not (Deletion.contains i d)))
  mem-live_segments d [] live i = ground arith
  mem-live_segments d (seg ∷ segs) live i = ground (
    arith,
    mem-live_segments d segs (live_range d (seg.id_hi + 1 - seg.id_lo) seg.id_lo live) i,
    mem-live_range d (seg.id_hi + 1 - seg.id_lo) seg.id_lo live i,
  )

  -- An id is live in a version exactly if a segment's range holds it and it is not deleted there.
  abbrev pub is_live : ℕ → Manifest → Bool
  is_live i m = any (within i) m.segments && not (Deletion.contains i m.deletions)

  pub mem-live_ids : (m : Manifest) (i : ℕ) → mem i (live_ids m) ≡ is_live i m
  unfolding live_ids
  mem-live_ids m i = mem-live_segments m.deletions m.segments [] i

  mem-difference :
      (a b : Manifest) (i : ℕ)
      → mem i (difference (live_ids a) (live_ids b)) ≡ (is_live i a && not (is_live i b))
  mem-difference a b i = ground (
    arith,
    mem-keep i (λ j. not (mem j (live_ids b))) (live_ids a),
    mem-live_ids a i,
    mem-live_ids b i,
  )

  module _ (from to : ℕ) (s : VersionStore) where
    -- `diff` names the first version that is missing, or else reports as added exactly the ids
    -- that are live in `to` and not in `from`, and as removed the ids of the other difference. An
    -- id is live in a version if it lies in the range, both ends included, of one of the version's
    -- segments and the version has not deleted it.
    pub diff_exact :
        ((get from s ≡ none) × (diff from to s ≡ err (no_such_version from)))
        ⊎ ((is_some (get from s) ≡ true)
            × (get to s ≡ none)
            × (diff from to s ≡ err (no_such_version to)))
        ⊎ ((a : Manifest) × (b : Manifest) × (d : Diff) × (get from s ≡ some a)
            × (get to s ≡ some b)
            × (diff from to s ≡ ok d)
            × ((i : ℕ) → mem i d.added ≡ (is_live i b && not (is_live i a)))
            × ((i : ℕ) → mem i d.removed ≡ (is_live i a && not (is_live i b))))
    unfolding diff
    diff_exact = elim (Option-cases (get from s)) [
      | inl missing ↦ inl (missing, rw (missing, diff))
      | inr (a, there) ↦ elim (Option-cases (get to s)) [
        | inl missing ↦ inr (inl (rw there, missing, rw (there, missing, diff)))
        | inr (b, found) ↦ inr (
            inr (
              a,
              b,
              record {
                from = from;
                to = to;
                added = difference (live_ids b) (live_ids a);
                removed = difference (live_ids a) (live_ids b);
              },
              there,
              found,
              rw (there, found, diff),
              λ i. mem-difference b a i,
              λ i. mem-difference a b i,
            ))
      ]
    ]
