-- ===== src/Collection/Tidy/Keeps.antt =====
-- Sealing, committing and compacting keep a collection of crates/vecvec-core/src/collection.rs in
-- order.
use vecvec.Prelude.{
  ℕ, ◌+◌, ◌%◌, ◌<◌, ◌^◌, ◌≡◌, refl, sym, ◌∙◌, subst, String, true, Option, List, [], ◌∷◌, is_some,
  arith, All, Bool-cases, inl, inr,
}
use vecvec.Prelude.Maps.{TreeMap, lookup, insert, lookup-insert, values, nat_key, mem}
use vecvec.Prelude.Ascending.{IsAscending, IsAscending-append}
use vecvec.Error.{ok}
use vecvec.Distance.{Floats}
use vecvec.Segment.Sealed
use vecvec.Segment.Sealed.{SealedSegment, global_id_range}
use vecvec.Segment.Appendable
use vecvec.Version.Deletion.{Treemap}
use vecvec.Version.Manifest.{Manifest, segment_ids}
use vecvec.Version.Store
use vecvec.Version.Store.{extend_all, all_referenced_segments}
use vecvec.Collection.State.{Collection, ids_in}
use vecvec.Collection.Write.{seal, commit, compact}
use vecvec.Collection.Shapes.{seal-eq-ok, commit-eq-ok, compact-eq-ok, filed_by}
use vecvec.Collection.Registry.{AllRegistered-append}
use vecvec.Collection.Registry.{AllPresent, AllPresent-refs_of}
use vecvec.Collection.Tidy.{
  IsTidy, Advances, Advances-refl, AllRegistered-insert, ids_in-append, All_step, owned-insert,
  mem-extend_all, any-values-insert,
}

module _ ⦃fl : Floats⦄ ⦃tm : Treemap⦄ where
  mem-AllPresent :
      (all : TreeMap SealedSegment) (i : ℕ) (ids : List ℕ)
      → AllPresent all ids
      → mem i ids ≡ true
      → is_some (lookup i all) ≡ true
  mem-AllPresent all i [] a h = absurd (ground arith)
  mem-AllPresent all i (j ∷ ids) ((s, e), a) h = ground (arith, mem-AllPresent all i ids a)

module _ ⦃fl : Floats⦄ ⦃tm : Treemap⦄ {P : Type 0} where
  module _ (c : Collection P) (t : IsTidy c) (room : c.next_segment_id + 1 < 2 ^ 64) where
    pub seal-IsTidy :
        (d : Collection P) (o : Option ℕ)
        → seal c ≡ ok (d, o)
        → IsTidy d × Advances c d × (d.versions ≡ c.versions)
    unfolding Appendable.seal Sealed.with_appended
    seal-IsTidy d o h = elim (seal-eq-ok c d o h) [
      | inl (e, z) ↦ rw e (t, Advances-refl c, refl)
      | inr (fresh, p, e) ↦
          let s = Appendable.seal c.next_segment_id c.config.hnsw c.appendable in
          rw e (
            record {
              ascending = subst IsAscending (sym (ids_in-append c.working.sealed s)) (
                  IsAscending-append (ids_in c.working.sealed) c.next_segment_id t.ascending
                    t.below);
              below =
                  subst (All (λ i. i < (c.next_segment_id + 1) % 2 ^ 64))
                    (sym (ids_in-append c.working.sealed s))
                    (All_step c.next_segment_id ((c.next_segment_id + 1) % 2 ^ 64)
                      (ids_in c.working.sealed) (omega arith) t.below);
              current =
                  AllRegistered-append (insert c.next_segment_id s c.all_segments) c.working.sealed
                    s
                    (AllRegistered-insert c.next_segment_id s c.all_segments c.working.sealed
                      t.below t.current)
                    (ground
                      (arith, lookup-insert c.next_segment_id c.next_segment_id s c.all_segments));
              owned = owned-insert c.next_segment_id s c.all_segments refl t.owned;
              referenced = λ id m.
                  ground
                    (arith, lookup-insert c.next_segment_id id s c.all_segments, t.referenced id m);
            },
            record {
              config = refl;
              next_global = refl;
              next_segment = omega arith;
              kept = λ id lt. ground (arith, lookup-insert c.next_segment_id id s c.all_segments);
            },
            refl,
          )
    ]

    compact-IsTidy :
        (d : Collection P) (o : Option ℕ) → compact c ≡ ok (d, o) → IsTidy d × Advances c d
    unfolding Appendable.seal
    compact-IsTidy d o h = elim (compact-eq-ok c d o h) [
      | inl e ↦ rw e (t, Advances-refl c)
      | inr (points, fresh, merged, p, q, r, e) ↦
          let s = Appendable.seal c.next_segment_id c.config.hnsw merged in
          rw e (
            record {
              ascending = (tt, tt);
              below = (omega arith, tt);
              current = (
                ground (arith, lookup-insert c.next_segment_id c.next_segment_id s c.all_segments),
                tt,
              );
              owned = owned-insert c.next_segment_id s c.all_segments refl t.owned;
              referenced = λ id m.
                  ground
                    (arith, lookup-insert c.next_segment_id id s c.all_segments, t.referenced id m);
            },
            record {
              config = refl;
              next_global = refl;
              next_segment = omega arith;
              kept = λ id lt. ground (arith, lookup-insert c.next_segment_id id s c.all_segments);
            },
          )
    ]

    pub commit-IsTidy :
        (trigger : String) (message tag : Option String) (now : ℕ) (d : Collection P) (n : ℕ)
        → commit trigger message tag now c ≡ ok (d, n)
        → IsTidy d × Advances c d
    unfolding Store.commit all_referenced_segments
    commit-IsTidy trigger message tag now d n h =
        let (e, o, p, q, r) = commit-eq-ok trigger message tag now c d n h in
        let (f, adv, same) = seal-IsTidy e o p in
        let made : Manifest = (filed_by trigger message tag now e).1 in
        rw q (
          record {
            ascending = f.ascending;
            below = f.below;
            current = f.current;
            owned = f.owned;
            referenced = λ id m.
                let hit =
                  any-values-insert (λ x. mem id (segment_ids x)) e.versions.next_version made
                    e.versions.commits
                    (sym (
                        mem-extend_all id []
                          (values (insert e.versions.next_version made e.versions.commits)))
                      ∙ m) in
                elim (Bool-cases (mem id (segment_ids made))) [
                  | inl new ↦
                      mem-AllPresent e.all_segments id (segment_ids made)
                        (AllPresent-refs_of e.all_segments e.working.sealed f.current) new
                  | inr old ↦
                      f.referenced id (
                        mem-extend_all id [] (values e.versions.commits) ∙ ground (arith, hit, old))
                ];
          },
          record {
            config = adv.config;
            next_global = adv.next_global;
            next_segment = adv.next_segment;
            kept = adv.kept;
          },
        )
