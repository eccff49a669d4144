-- ===== src/Collection/Write.antt =====
-- The operations that change a collection, crates/vecvec-core/src/collection.rs.
pub mod Decimal
use vecvec.Prelude.{
  ℕ, zero, suc, ◌+◌, ◌/◌, ◌%◌, ◌^◌, String, Bool, true, false, ◌||◌, ◌&&◌, not, Option, none, some,
  List, [], ◌∷◌, ◌++◌, max, ltb, leb, length, any, ◌==◌, is_some, if◌then◌else◌,
}
use vecvec.Prelude.Maps.{HashMap, TreeMap, lookup, insert, put, without, nat_key, mem}
use vecvec.Error.{CoreError, dimension_mismatch, version, Result, ok, err, panic, ◌>>=◌}
use vecvec.Distance.{Floats, Metric}
use vecvec.Segment.Sealed
use vecvec.Segment.Sealed.{
  HnswConfig, SealedSegment, SegmentSet, from_sealed, with_appended, global_id_range,
}
use vecvec.Segment.Filled.{append_all}
use vecvec.Segment.Appendable
use vecvec.Segment.Appendable.{AppendableSegment}
use vecvec.Version.Deletion
use vecvec.Version.Deletion.{Treemap, DeletionVector}
use vecvec.Version.Manifest.{Manifest, SegmentRef, segment_ids}
use vecvec.Version.Store
use vecvec.Version.Store.{VersionStore, RetentionRules}
use vecvec.Collection.State.{Collection, CollectionConfig, alloc_global_id, ids_in}
use vecvec.Collection.Loops.{
  put_payload, after_last, refs_of, registered, points_of, sort_by_id, drop_orphans,
}
use vecvec.Collection.Write.Decimal.{decimal}
use Prim.Native.String.{◌++◌ as str_append}

module _ ⦃fl : Floats⦄ ⦃tm : Treemap⦄ {P : Type 0} where
  -- `check_dim`
  unfoldable pub check_dim : List fl.F32 → Collection P → Result {0} Unit
  check_dim vector c =
      if not (length vector == c.config.dim)
      then err (dimension_mismatch c.config.dim (length vector))
      else ok tt

  unfoldable pub insert_with_id_and_payload :
      ℕ → List fl.F32 → Option P → Collection P → Result (Collection P)
  insert_with_id_and_payload id vector payload c =
      check_dim vector c
      >>= (λ _. Appendable.append id vector c.appendable)
      >>= (λ (appendable, lid). ok (record c {
        appendable = appendable;
        next_global_id = max c.next_global_id ((id + 1) % 2 ^ 64);
        payloads = put_payload id payload c.payloads;
      }))

  unfoldable pub insert_with_id : ℕ → List fl.F32 → Collection P → Result (Collection P)
  insert_with_id id vector c = insert_with_id_and_payload id vector none c

  abbrev pub with_id : Collection P → ℕ → Result (Collection P) → Collection P × Result ℕ
  with_id d id (ok e) = (e, ok id)
  with_id d id (err e) = (d, err e)
  with_id d id panic = (d, panic)

  -- `Collection::insert`: the allocator has moved on also when the vector is refused.
  unfoldable pub insert_one : List fl.F32 → Collection P → Collection P × Result ℕ
  insert_one vector c = let (d, id) = alloc_global_id c in with_id d id (insert_with_id id vector d)

  -- The two loops of `insert_batch`.
  abbrev pub check_all : List (List fl.F32) → Collection P → Result {0} Unit
  check_all [] c = ok tt
  check_all (v ∷ vs) c = check_dim v c >>= (λ _. check_all vs c)

  abbrev pub append_batch : List (List fl.F32) → Collection P → Result (Collection P × List ℕ)
  append_batch [] c = ok (c, [])
  append_batch (v ∷ vs) c =
      let (d, id) = alloc_global_id c in
      Appendable.append id v d.appendable
      >>= (λ (appendable, lid). append_batch vs (record d { appendable = appendable }))
      >>= (λ (e, ids). ok (e, id ∷ ids))

  unfoldable pub insert_batch : List (List fl.F32) → Collection P → Result (Collection P × List ℕ)
  insert_batch vectors c = check_all vectors c >>= (λ _. append_batch vectors c) >>= (λ (d, ids).
      ok (record d { next_global_id = max d.next_global_id (after_last ids) }, ids))

  unfoldable pub contains_any : ℕ → Collection P → Bool
  contains_any global c =
      if Appendable.contains global c.appendable
      then true
      else any (λ s. Sealed.contains global s) c.working.sealed

  unfoldable pub delete : ℕ → Collection P → Collection P × Bool
  delete global c =
      if not (contains_any global c)
      then (c, false)
      else (let (deletions, newly) = Deletion.insert global c.working_deletions in
          (record c { working_deletions = deletions }, newly))

  -- `seal`
  unfoldable pub seal : Collection P → Result (Collection P × Option ℕ)
  seal c =
      if Appendable.is_empty c.appendable
      then ok (c, none)
      else (let seg_id = c.next_segment_id in
          Appendable.new c.config.dim c.config.metric >>= (λ fresh.
            let sealed = Appendable.seal seg_id c.config.hnsw c.appendable in
            ok (
              record c {
                next_segment_id = (c.next_segment_id + 1) % 2 ^ 64;
                appendable = fresh;
                all_segments = insert seg_id sealed c.all_segments;
                working = with_appended sealed c.working;
              },
              some seg_id,
            )))

  -- `commit` at the time `now` of the system's clock.
  unfoldable pub commit :
      String → Option String → Option String → ℕ → Collection P → Result (Collection P × ℕ)
  commit trigger message tag now c = seal c >>= (λ (d, sealed).
      let (versions, manifest) =
        Store.commit trigger message tag (refs_of d.working.sealed) d.working_deletions now
          d.versions in
      ok (record d { versions = versions }, manifest.version))

  unfoldable pub restore : ℕ → ℕ → Collection P → Result (Collection P × ℕ)
  restore number now c = elim (Store.get number c.versions) [
    | none ↦ err version
    | some m ↦ Appendable.new c.config.dim c.config.metric >>= (λ fresh.
        commit "restore" (some (str_append "restore of v" (decimal number))) none now (record c {
          working = from_sealed (registered c.all_segments (segment_ids m));
          working_deletions = m.deletions;
          appendable = fresh;
        }))
  ]

  unfoldable pub compact : Collection P → Result (Collection P × Option ℕ)
  compact c =
      if leb (length c.working.sealed) 1
      then ok (c, none)
      else (points_of c.working.sealed >>= (λ points.
          Appendable.new c.config.dim c.config.metric
          >>= (λ fresh. append_all (sort_by_id points) fresh)
          >>= (λ merged.
              let seg_id = c.next_segment_id in
              let sealed = Appendable.seal seg_id c.config.hnsw merged in
              ok (
                record c {
                  next_segment_id = (c.next_segment_id + 1) % 2 ^ 64;
                  all_segments = insert seg_id sealed c.all_segments;
                  working = from_sealed (sealed ∷ []);
                },
                some seg_id,
              ))))

  unfoldable pub gc : RetentionRules → Collection P → Collection P × List ℕ
  gc retention c =
      let (versions, report) = Store.gc retention c.versions in
      let (all, dropped) =
        drop_orphans (ids_in c.working.sealed) report.orphan_segments c.all_segments [] in
      (record c { versions = versions; all_segments = all }, dropped)
