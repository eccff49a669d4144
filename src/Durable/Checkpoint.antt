-- ===== src/Durable/Checkpoint.antt =====
-- Checkpoints of crates/vecvec-core/src/durable.rs.
use vecvec.Prelude.{
  ℕ, ◌+◌, ◌<◌, ◌^◌, ◌≡◌, ◌≢◌, refl, sym, ap, subst, true, Option, none, some, List, [], arith,
  Bool-cases, inl, inr, ==-false,
}
use mathlib.Core.Path.{ap₂}
use vecvec.Prelude.Maps.{lookup, nat_key, mem, set_extend, mem-set_extend}
use vecvec.Error.{ok}
use vecvec.Distance.{Floats}
use vecvec.Vector
use vecvec.Segment.IdMap
use vecvec.Version.Store.{all_referenced_segments}
use vecvec.Segment.Appendable
use vecvec.Version.Deletion.{Treemap}
use vecvec.Collection.State.{Collection, segment_ids_to_persist, ids_in}
use vecvec.Collection.Write
use vecvec.Collection.Shapes.{sealed_with}
use vecvec.Collection.Registry.{AllRegistered, AllRegistered-eq, AllRegistered-present}
use vecvec.Collection.Contents.{Contents, Represents, AllHold}
use vecvec.Collection.Keeping.{seal-Represents}
use vecvec.Collection.Tidy.Keeps.{seal-IsTidy}
use vecvec.Durable.Disk.{change, open_log, write_head, remove_log}
use vecvec.Durable.State.{DurableCollection}
use vecvec.Durable.Write.{persist_all, head_of, checkpoint}
use vecvec.Durable.Safe.{IsSafe, IsSafe-Advances}
use vecvec.Durable.Listed.{seal-rows, persist_all-IsFiled}
use vecvec.Durable.Switch.{finished, finished-IsSafe}

module _ ⦃fl : Floats⦄ ⦃tm : Treemap⦄ {P : Type 0} where
  pub seal_total :
      (c : Collection P)
      → c.config.dim ≢ 0
      → (d : Collection P) × (o : Option ℕ) × (Write.seal c ≡ ok (d, o))
  unfolding Write.seal Appendable.new Vector.new
  seal_total c n = elim (Bool-cases (Appendable.is_empty c.appendable)) [
    | inl e ↦ (c, none, rw e refl)
    | inr e ↦ (
      sealed_with (record { vectors = Vector.blank c.config.dim c.config.metric; ids = IdMap.new })
          c,
      some c.next_segment_id,
      rw (e, ==-false c.config.dim 0 n) refl,
    )
  ]

  -- What a checkpoint leaves once its segments are written.
  abbrev ended : ℕ → Collection P → DurableCollection P → List ℕ → DurableCollection P
  ended generation c e listed = record e {
    dir = change (remove_log generation) (
        change (write_head (head_of (generation + 1) listed c))
          (change (open_log (generation + 1)) e.dir));
    generation = generation + 1;
  }

  module _ (Q : Contents P → Type 0) (w : Contents P) (q : Q w) where
    in_persisted :
        (c : Collection P) (i : ℕ)
        → mem i (ids_in c.working.sealed) ≡ true
        → mem i (segment_ids_to_persist c) ≡ true
    unfolding segment_ids_to_persist
    in_persisted c i h = ground (
      arith,
      mem-set_extend i (set_extend [] (ids_in c.working.sealed))
          (all_referenced_segments c.versions),
      mem-set_extend i [] (ids_in c.working.sealed),
      h,
    )

    -- A checkpoint of a collection whose memory and files agree succeeds, as long as there is an id
    -- for a segment. The contents stay the same, memory and files agree again, and a crash at any
    -- moment since the collection was opened leaves contents of the kind `Q`, if they were.
    pub checkpoint-IsSafe :
        (d : DurableCollection P)
        → IsSafe Q d w
        → d.collection.next_segment_id + 1 < 2 ^ 64
        → (e : DurableCollection P) × (checkpoint d ≡ ok e) × IsSafe Q e w × (e.fsync ≡ d.fsync)
    unfolding checkpoint change finished
    checkpoint-IsSafe d safe room =
        let v = safe.durable in
        let (c, o, sealed) = seal_total d.collection v.dim in
        let rep =
          seal-Represents d.collection w (subst (Represents d.collection) safe.held v.represents) c
            o sealed in
        let (tidy, adv, _) = seal-IsTidy d.collection v.tidy room c o sealed in
        let safe' = IsSafe-Advances Q d c w safe rep tidy adv in
        let r =
          persist_all-IsFiled Q w q (segment_ids_to_persist c) (record d { collection = c }) []
            safe' in
        let (e, listed) = persist_all (segment_ids_to_persist c) (record d { collection = c }) [] in
        let at : e.collection ≡ c = r.files.collection in
        let placed_c : (i : ℕ)
            → mem i (ids_in c.working.sealed) ≡ true
            → lookup i c.all_segments ≡ lookup i e.dir.disk.segments =
          λ i h. sym (
            r.exact i (in_persisted c i h)
              (AllRegistered-present c.all_segments i c.working.sealed tidy.current h)) in
        let rows =
          subst (λ (x : Collection P). AllHold x.working.sealed w.rows) (sym at)
            (seal-rows d.collection c o w sealed rep) in
        let stored =
          subst (λ (x : Collection P). AllRegistered e.dir.disk.segments x.working.sealed) (sym at)
            (AllRegistered-eq c.all_segments e.dir.disk.segments c.working.sealed
              (λ i h. sym (placed_c i h)) tidy.current) in
        let placed =
          subst
            (λ (x : Collection P).
              (i : ℕ)
              → mem i (ids_in x.working.sealed) ≡ true
              → lookup i x.all_segments ≡ lookup i e.dir.disk.segments)
            (sym at) placed_c in
        let there = r.there (λ i h. absurd (ground (arith, h))) in
        (
          ended e.generation e.collection e listed,
          rw sealed (ap ok (ap₂ (λ g x. ended g x e listed) (sym r.files.generation) (sym at))),
          finished-IsSafe Q w q e listed r.files.safe rows stored there placed,
          r.files.fsync,
        )
