-- ===== src/Collection/Keeping.antt =====
-- The operations of crates/vecvec-core/src/collection.rs on what a collection holds.
use vecvec.Prelude.{
  ℕ, ◌<◌, ◌^◌, ◌≡◌, refl, sym, ap, ◌∙◌, subst, not, Option, none, List, [], ◌∷◌, ◌++◌, is_some,
  length, length-append, append-nil, append_assoc, arith, Bool-cases, inl, inr, ==-true, String,
}
use vecvec.Prelude.Maps.{lookup, nat_key}
use vecvec.Error.{ok}
use vecvec.Distance.{Floats}
use vecvec.Vector.{stored}
use vecvec.Segment.Rows.{Holds, is_some-to_local}
use vecvec.Segment.Listing.{points_from-Holds}
use vecvec.Segment.Sealed
use vecvec.Segment.Sealed.{SealedSegment}
use vecvec.Segment.Appendable
use vecvec.Segment.Appendable.{AppendableSegment, appended, append-eq, appended-Holds, new-Holds}
use vecvec.Version.Deletion
use vecvec.Version.Deletion.{Treemap, DeletionVector}
use vecvec.Collection.State.{Collection}
use vecvec.Collection.Loops.{put_payload}
use vecvec.Collection.Shapes.{seal-eq-ok, commit-eq-ok}
use vecvec.Collection.Write
use vecvec.Collection.Write.{insert_with_id_and_payload, check_dim, contains_any, seal, commit}
use vecvec.Collection.Read.{rows_now, undeleted}
use vecvec.Collection.Contents.{
  lookup-append, lookup-append_none, Contents, AllHold-append, any-contains, keep-append,
  rows_of-AllHold, Represents, upserted, deleted, inserted,
}

module _ ⦃fl : Floats⦄ ⦃tm : Treemap⦄ {P : Type 0} where
  module _ (c : Collection P) (w : Contents P) (rep : Represents c w) where
    pub contains_any-Represents : (g : ℕ) → contains_any g c ≡ is_some (lookup g w.rows)
    unfolding contains_any Appendable.contains
    contains_any-Represents g =
        rw
          (
            rep.all_rows,
            lookup-append g rep.sealed_rows rep.open_rows,
            is_some-to_local rep.unsealed g,
            any-contains g c.working.sealed rep.sealed_rows rep.sealed,
          )
          (ground arith)

    pub rows_now-Represents :
        length w.rows < 2 ^ 32 → rows_now c ≡ ok (undeleted w.deletions w.rows)
    unfolding rows_now Appendable.iter_points
    rows_now-Represents small =
        let total = ap length rep.all_rows in
        let sum = length-append rep.sealed_rows rep.open_rows in
        let listed =
          points_from-Holds c.appendable.vectors c.appendable.ids rep.open_rows rep.unsealed
            (omega (arith, rep.unsealed.count_eq, total, sum)) in
        let old =
          rows_of-AllHold c.working_deletions c.working.sealed rep.sealed_rows rep.sealed
            (omega (arith, total, sum)) in
        rw (rep.all_rows, rep.deletions, old, listed)
          (ap ok (
            sym (
              keep-append (λ p. not (Deletion.contains p.0 c.working_deletions)) rep.sealed_rows
                rep.open_rows)))

    pub insert-Represents :
        (g : ℕ) (v : List fl.F32) (p : Option P)
        → lookup g w.rows ≡ none
        → length v ≡ c.config.dim
        → length w.rows < 2 ^ 32
        → (insert_with_id_and_payload g v p c ≡ ok (inserted g v p c))
          × Represents (inserted g v p c) (upserted c.config.metric g v p w)
    unfolding insert_with_id_and_payload check_dim
    insert-Represents g v p fresh wide small =
        let room : length rep.open_rows < 2 ^ 32 =
          omega (arith, ap length rep.all_rows, length-append rep.sealed_rows rep.open_rows) in
        let unused : lookup g rep.open_rows ≡ none =
          lookup-append_none g rep.sealed_rows rep.open_rows
            (ap (lookup g) (sym rep.all_rows) ∙ fresh) in
        let row : ℕ × List fl.F32 = (g, stored c.config.metric v) in
        (
          rw (==-true (length v) c.config.dim wide, append-eq g v c.appendable (wide ∙ sym rep.dim))
              refl,
          record {
            sealed_rows = rep.sealed_rows;
            open_rows = rep.open_rows ++ row ∷ [];
            sealed = rep.sealed;
            unsealed =
                subst
                  (λ m.
                    Holds (appended g v c.appendable).vectors (appended g v c.appendable).ids
                      (rep.open_rows ++ (g, stored m v) ∷ []))
                  rep.metric
                  (appended-Holds {a = c.appendable} rep.unsealed g v unused (wide ∙ sym rep.dim)
                    room);
            dim = rep.dim;
            metric = rep.metric;
            all_rows =
                ap (λ l. l ++ row ∷ []) rep.all_rows
                ∙ append_assoc rep.sealed_rows rep.open_rows (row ∷ []);
            deletions = rep.deletions;
            payloads = ap (put_payload g p) rep.payloads;
          },
        )

    pub delete-Represents : (g : ℕ) → Represents (Write.delete g c).0 (deleted g w)
    unfolding Write.delete
    delete-Represents g = elim (Bool-cases (is_some (lookup g w.rows))) [
      | inl e ↦
          rw (contains_any-Represents g, e)
            (record {
              sealed_rows = rep.sealed_rows;
              open_rows = rep.open_rows;
              sealed = rep.sealed;
              unsealed = rep.unsealed;
              dim = rep.dim;
              metric = rep.metric;
              all_rows = rep.all_rows;
              deletions = ap (λ d. (Deletion.insert g d).0) rep.deletions;
              payloads = rep.payloads;
            })
      | inr e ↦ rw (contains_any-Represents g, e) rep
    ]

    pub seal-Represents : (d : Collection P) (o : Option ℕ) → seal c ≡ ok (d, o) → Represents d w
    unfolding Appendable.seal Sealed.with_appended
    seal-Represents d o h = elim (seal-eq-ok c d o h) [
      | inl (e, z) ↦ rw e rep
      | inr (fresh, p, e) ↦
          let (n, q) = Appendable.new-eq-ok c.config.dim c.config.metric fresh p in
          rw (e, q)
            (record {
              sealed_rows = rep.sealed_rows ++ rep.open_rows;
              open_rows = [];
              sealed =
                  AllHold-append c.working.sealed
                    (Appendable.seal c.next_segment_id c.config.hnsw c.appendable) rep.sealed_rows
                    rep.open_rows rep.sealed rep.unsealed;
              unsealed = new-Holds c.config.dim c.config.metric;
              dim = refl;
              metric = refl;
              all_rows = rep.all_rows ∙ sym (append-nil (rep.sealed_rows ++ rep.open_rows));
              deletions = rep.deletions;
              payloads = rep.payloads;
            })
    ]

  pub commit-Represents :
      (trigger : String) (message tag : Option String) (now : ℕ) (c d : Collection P) (n : ℕ)
      → (w : Contents P) → Represents c w
      → commit trigger message tag now c ≡ ok (d, n)
      → Represents d w
  commit-Represents trigger message tag now c d n w rep h =
      let (e, o, p, q, r) = commit-eq-ok trigger message tag now c d n h in
      let s = seal-Represents c w rep e o p in
      rw q (record {
        sealed_rows = s.sealed_rows;
        open_rows = s.open_rows;
        sealed = s.sealed;
        unsealed = s.unsealed;
        dim = s.dim;
        metric = s.metric;
        all_rows = s.all_rows;
        deletions = s.deletions;
        payloads = s.payloads;
      })
