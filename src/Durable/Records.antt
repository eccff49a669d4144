-- ===== src/Durable/Records.antt =====
-- The records of a batch, `write_batch` of crates/vecvec-core/src/durable.rs:
-- what is logged is what is applied.
use vecvec.Prelude.{
  ℕ, suc, ◌+◌, ◌%◌, ◌<◌, ◌≤◌, ◌^◌, ◌≡◌, refl, sym, ap, ◌∙◌, subst, List, [], ◌∷◌, ◌++◌, length,
  length-append, arith,
}
use vecvec.Prelude.Maps.{nat_key}
use vecvec.Error.{ok}
use vecvec.Distance.{Floats, Metric}
use vecvec.Vector.{stored}
use vecvec.Persist.Wal.{WalOp, upsert, delete}
use vecvec.Version.Deletion.{Treemap}
use vecvec.Collection.State.{Collection, CollectionConfig, alloc_global_id}
use vecvec.Collection.Write
use vecvec.Collection.Write.{insert_with_id_and_payload}
use vecvec.Collection.Contents.{Contents, Represents, upserted, deleted, applied_all, inserted}
use vecvec.Collection.Tidy.{SameFrame-refl, SameFrame-trans}
use vecvec.Durable.Disk.{Dir, change, append_log}
use vecvec.Durable.Write.{Points, check_dims, log_deletes, log_upserts, delete_all, insert_all}
use vecvec.Durable.Replay.{
  AllApply, AllBelow, AllBelow-append, lookup-AllBelow, Stands, insert-Stands, delete-Stands,
}
use vecvec.Durable.Logging.{log_all}

-- The ids that a batch gets, and its records.
abbrev pub ids_from : {A : Type 0} → ℕ → List A → List ℕ
ids_from n [] = []
ids_from n (x ∷ xs) = n ∷ ids_from (n + 1) xs

module _ ⦃fl : Floats⦄ where
  abbrev pub deletes_of : (P : Type 0) → List ℕ → List (WalOp fl.F32 P)
  deletes_of P [] = []
  deletes_of P (id ∷ ids) = delete id ∷ deletes_of P ids

  abbrev pub upserts_of : {P : Type 0} → ℕ → Points P → List (WalOp fl.F32 P)
  upserts_of n [] = []
  upserts_of n ((v, p) ∷ upserts) = upsert n v p ∷ upserts_of (n + 1) upserts

  -- The records that a batch logs: its deletes, then its upserts.
  abbrev pub batch_of : {P : Type 0} → ℕ → Points P → List ℕ → List (WalOp fl.F32 P)
  batch_of {P} n upserts deletes = deletes_of P deletes ++ upserts_of n upserts

  abbrev pub AllWide : {P : Type 0} → ℕ → Points P → Type 0
  AllWide dim [] = Unit
  AllWide dim ((v, p) ∷ upserts) = (length v ≡ dim) × AllWide dim upserts

  pub check_dims-AllWide :
      {P : Type 0} (dim : ℕ) (upserts : Points P)
      → check_dims dim upserts ≡ ok tt
      → AllWide dim upserts
  check_dims-AllWide dim [] h = tt
  check_dims-AllWide dim ((v, p) ∷ upserts) h =
      (ground (arith, h), check_dims-AllWide dim upserts (ground (arith, h)))

module _ ⦃fl : Floats⦄ ⦃tm : Treemap⦄ {P : Type 0} where
  pub log_deletes-log_all :
      (g : ℕ) (ids : List ℕ) (dir : Dir P)
      → log_deletes g ids dir ≡ log_all g (deletes_of P ids) dir
  log_deletes-log_all g [] dir = refl
  log_deletes-log_all g (id ∷ ids) dir =
      log_deletes-log_all g ids (change (append_log g (delete id)) dir)

  -- The collection whose next ids are taken.
  abbrev pub taken : ℕ → Collection P → Collection P
  taken n c = record c { next_global_id = n }

  pub log_upserts-log_all :
      (g n : ℕ) (upserts : Points P) (c : Collection P) (dir : Dir P)
      → c.next_global_id ≡ n
      → n + length upserts < 2 ^ 64
      → log_upserts g upserts c dir
        ≡ (taken (n + length upserts) c, ids_from n upserts, log_all g (upserts_of n upserts) dir)
  unfolding alloc_global_id
  log_upserts-log_all g n [] c dir e small =
      ap (λ k. (taken k c, [], dir)) {x = c.next_global_id} {y = n + 0} (omega arith)
  log_upserts-log_all g n ((v, p) ∷ upserts) c dir e small =
      let m = c.next_global_id in
      let rest =
        log_upserts-log_all g (m + 1) upserts (taken ((m + 1) % 2 ^ 64) c)
          (change (append_log g (upsert m v p)) dir) (omega arith) (omega arith) in
      ap (λ (r : Collection P × List ℕ × Dir P). (r.0, m ∷ r.1, r.2)) rest
      ∙ ap
          (λ k. (
            taken k c,
            ids_from m ((v, p) ∷ upserts),
            log_all g (upserts_of m ((v, p) ∷ upserts)) dir,
          ))
          {x = m + 1 + length upserts} {y = n + suc (length upserts)} (omega arith)
      ∙ ap
          (λ k. (
            taken (n + suc (length upserts)) c,
            ids_from k ((v, p) ∷ upserts),
            log_all g (upserts_of k ((v, p) ∷ upserts)) dir,
          ))
          e

  pub rows-deletes :
      (metric : Metric) (ids : List ℕ) (w : Contents P)
      → (applied_all metric w (deletes_of P ids)).rows ≡ w.rows
  rows-deletes metric [] w = refl
  rows-deletes metric (id ∷ ids) w = rows-deletes metric ids (deleted id w)

  pub deletes-AllApply :
      (config : CollectionConfig) (ids : List ℕ) (w : Contents P)
      → AllApply config w (deletes_of P ids)
  deletes-AllApply config [] w = tt
  deletes-AllApply config (id ∷ ids) w = deletes-AllApply config ids (deleted id w)

  pub upserts-AllApply :
      (config : CollectionConfig) (n : ℕ) (upserts : Points P) (w : Contents P)
      → AllBelow n w.rows
      → AllWide config.dim upserts
      → n + length upserts < 2 ^ 64
      → length w.rows + length upserts ≤ 2 ^ 32
      → AllApply config w (upserts_of n upserts)
  upserts-AllApply config n [] w below wide small room = tt
  upserts-AllApply config n ((v, p) ∷ upserts) w below (e, wide) small room = (
    (lookup-AllBelow n n w.rows below (omega arith), e, omega arith, omega arith),
    upserts-AllApply config (n + 1) upserts (upserted config.metric n v p w)
        (AllBelow-append n (n + 1) w.rows n (stored config.metric v) below (omega arith)
          (omega arith))
        wide (omega arith) (omega (arith, length-append w.rows ((n, stored config.metric v) ∷ []))),
  )

  pub delete_all-Stands :
      (ids : List ℕ) (c : Collection P) (w : Contents P) (metric : Metric)
      → Represents c w
      → AllBelow c.next_global_id w.rows
      → Stands c (delete_all ids c).0 (applied_all metric w (deletes_of P ids))
  delete_all-Stands [] c w metric rep below = record {
    represents = rep;
    below = below;
    frame = SameFrame-refl c;
  }
  delete_all-Stands (id ∷ ids) c w metric rep below =
      let s = delete-Stands id c w rep below in
      let t =
        delete_all-Stands ids (Write.delete id c).0 (deleted id w) metric s.represents s.below in
      record {
        represents = t.represents;
        below = t.below;
        frame =
            SameFrame-trans c (Write.delete id c).0 (delete_all ids (Write.delete id c).0).0 s.frame
              t.frame;
      }

  pub insert_all-Stands :
      (config : CollectionConfig) (n : ℕ) (upserts : Points P) (c : Collection P) (w : Contents P)
      → c.config ≡ config
      → Represents c w
      → AllBelow c.next_global_id w.rows
      → AllApply config w (upserts_of n upserts)
      → (d : Collection P) × (insert_all (ids_from n upserts) upserts c ≡ ok d)
        × Stands c d (applied_all config.metric w (upserts_of n upserts))
  insert_all-Stands config n [] c w e rep below a =
      (c, refl, record { represents = rep; below = below; frame = SameFrame-refl c })
  insert_all-Stands config n ((v, p) ∷ upserts) c w e rep below ((fresh, wide, room, small), a) =
      let (run, s) =
        insert-Stands n v p c w rep below
          (fresh, wide ∙ ap (λ (k : CollectionConfig). k.dim) (sym e), room, small) in
      let s' : Stands c (inserted n v p c) (upserted config.metric n v p w) =
        subst (λ (k : CollectionConfig). Stands c (inserted n v p c) (upserted k.metric n v p w)) e
          s in
      let (d, q, t) =
        insert_all-Stands config (n + 1) upserts (inserted n v p c) (upserted config.metric n v p w)
          e s'.represents s'.below a in
      (
        d,
        rw run q,
        record {
          represents = t.represents;
          below = t.below;
          frame = SameFrame-trans c (inserted n v p c) d s.frame t.frame;
        },
      )
