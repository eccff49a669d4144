-- ===== src/Durable/Replay.antt =====
-- The replay of a log, in crates/vecvec-core/src/durable.rs, as a change of the contents.
use vecvec.Prelude.{
  ℕ, zero, suc, ◌+◌, ◌%◌, ◌<◌, ◌≤◌, ◌^◌, ◌≡◌, refl, sym, ap, ◌∙◌, subst, Option, none, List, [],
  ◌∷◌, ◌++◌, length, arith, max, take, All, Bool-cases, inl, inr,
}
use vecvec.Prelude.Maps.{lookup, nat_key}
use vecvec.Error.{ok}
use vecvec.Distance.{Floats, Metric}
use vecvec.Vector.{stored}
use vecvec.Persist.Wal.{WalOp, upsert, delete}
use vecvec.Segment.Rows.{Rows}
use vecvec.Version.Deletion.{Treemap, DeletionVector}
use vecvec.Collection.State.{Collection, CollectionConfig}
use vecvec.Collection.Write
use vecvec.Collection.Write.{insert_with_id_and_payload}
use vecvec.Collection.Contents.{
  Contents, Represents, upserted, deleted, applied, applied_all, inserted,
}
use vecvec.Collection.Keeping.{insert-Represents, delete-Represents}
use vecvec.Collection.Tidy.{SameFrame, SameFrame-trans}
use vecvec.Durable.State.{apply_op, replay}

module _ ⦃fl : Floats⦄ where
  -- The ids that are in use lie below `next`.
  abbrev pub AllBelow : ℕ → Rows → Type 0
  AllBelow next rows = All (λ (r : ℕ × List fl.F32). r.0 < next) rows

  pub AllBelow-append :
      (n m : ℕ) (rows : Rows) (g : ℕ) (v : List fl.F32)
      → AllBelow n rows
      → n ≤ m
      → g < m
      → AllBelow m (rows ++ (g, v) ∷ [])
  AllBelow-append n m [] g v b le lt = (lt, tt)
  AllBelow-append n m (r ∷ rows) g v (k, b) le lt =
      (omega arith, AllBelow-append n m rows g v b le lt)

  pub AllBelow-weaken : (n m : ℕ) (rows : Rows) → n ≤ m → AllBelow n rows → AllBelow m rows
  AllBelow-weaken n m [] le b = tt
  AllBelow-weaken n m (r ∷ rows) le (k, b) = (omega arith, AllBelow-weaken n m rows le b)

  pub lookup-AllBelow : (n g : ℕ) (rows : Rows) → AllBelow n rows → n ≤ g → lookup g rows ≡ none
  lookup-AllBelow n g [] b le = refl
  lookup-AllBelow n g ((h, v) ∷ rows) (k, b) le = ground (arith, lookup-AllBelow n g rows)

module _ ⦃fl : Floats⦄ ⦃tm : Treemap⦄ {P : Type 0} where
  -- The records of a log apply to the contents: an upsert has a new id that is no 64-bit number's
  -- last, and a vector of the dimension, and there is room for its row.
  abbrev pub AllApply : CollectionConfig → Contents P → List (WalOp fl.F32 P) → Type 0
  AllApply config w [] = Unit
  AllApply config w (upsert id v p ∷ ops) =
      ((lookup id w.rows ≡ none)
        × (length v ≡ config.dim)
        × (length w.rows < 2 ^ 32)
        × (id + 1 < 2 ^ 64))
      × AllApply config (upserted config.metric id v p w) ops
  AllApply config w (delete id ∷ ops) = AllApply config (deleted id w) ops

  pub AllApply-append :
      (config : CollectionConfig) (ops more : List (WalOp fl.F32 P)) (w : Contents P)
      → AllApply config w ops
      → AllApply config (applied_all config.metric w ops) more
      → AllApply config w (ops ++ more)
  AllApply-append config [] more w a b = b
  AllApply-append config (upsert id v p ∷ ops) more w (h, a) b =
      (h, AllApply-append config ops more (upserted config.metric id v p w) a b)
  AllApply-append config (delete id ∷ ops) more w a b =
      AllApply-append config ops more (deleted id w) a b

  pub AllApply-take :
      (config : CollectionConfig) (k : ℕ) (ops : List (WalOp fl.F32 P)) (w : Contents P)
      → AllApply config w ops
      → AllApply config w (take k ops)
  AllApply-take config zero ops w a = tt
  AllApply-take config (suc k) [] w a = tt
  AllApply-take config (suc k) (upsert id v p ∷ ops) w (h, a) =
      (h, AllApply-take config k ops (upserted config.metric id v p w) a)
  AllApply-take config (suc k) (delete id ∷ ops) w a = AllApply-take config k ops (deleted id w) a

  pub AllApply-prefix :
      (config : CollectionConfig) (ops more : List (WalOp fl.F32 P)) (w : Contents P)
      → AllApply config w (ops ++ more)
      → AllApply config w ops
  AllApply-prefix config [] more w a = tt
  AllApply-prefix config (upsert id v p ∷ ops) more w (h, a) =
      (h, AllApply-prefix config ops more (upserted config.metric id v p w) a)
  AllApply-prefix config (delete id ∷ ops) more w a =
      AllApply-prefix config ops more (deleted id w) a

  pub applied_all-append :
      (metric : Metric) (ops more : List (WalOp fl.F32 P)) (w : Contents P)
      → applied_all metric w (ops ++ more) ≡ applied_all metric (applied_all metric w ops) more
  applied_all-append metric [] more w = refl
  applied_all-append metric (op ∷ ops) more w =
      applied_all-append metric ops more (applied metric w op)

  delete-SameFrame :
      (g : ℕ) (c : Collection P)
      → SameFrame c (Write.delete g c).0 × ((Write.delete g c).0.next_global_id ≡ c.next_global_id)
  unfolding Write.delete
  delete-SameFrame g c = elim (Bool-cases (Write.contains_any g c)) [
    | inl e ↦ rw e (frame, refl)
    | inr e ↦ rw e (frame, refl)
  ]
    where
      frame : {d : DeletionVector} → SameFrame c (record c { working_deletions = d })
      frame = record {
        config = refl;
        working = refl;
        segments = refl;
        versions = refl;
        next_segment = refl;
      }

  -- A collection with its contents and its next id.
  pub record Stands (c d : Collection P) (w : Contents P) : Type 0 where
    pub represents : Represents d w
    pub below : AllBelow d.next_global_id w.rows
    pub frame : SameFrame c d

  pub insert-Stands :
      (g : ℕ) (v : List fl.F32) (p : Option P) (c : Collection P) (w : Contents P)
      → Represents c w
      → AllBelow c.next_global_id w.rows
      → (lookup g w.rows ≡ none)
        × (length v ≡ c.config.dim)
        × (length w.rows < 2 ^ 32)
        × (g + 1 < 2 ^ 64)
      → (insert_with_id_and_payload g v p c ≡ ok (inserted g v p c))
        × Stands c (inserted g v p c) (upserted c.config.metric g v p w)
  insert-Stands g v p c w rep below (fresh, wide, room, small) =
      let (run, r) = insert-Represents c w rep g v p fresh wide room in
      (
        run,
        record {
          represents = r;
          below =
              AllBelow-append c.next_global_id (max c.next_global_id ((g + 1) % 2 ^ 64)) w.rows g
                (stored c.config.metric v) below (omega arith) (omega arith);
          frame = record {
            config = refl;
            working = refl;
            segments = refl;
            versions = refl;
            next_segment = refl;
          };
        },
      )

  pub delete-Stands :
      (g : ℕ) (c : Collection P) (w : Contents P)
      → Represents c w
      → AllBelow c.next_global_id w.rows
      → Stands c (Write.delete g c).0 (deleted g w)
  delete-Stands g c w rep below =
      let (frame, next) = delete-SameFrame g c in
      record {
        represents = delete-Represents c w rep g;
        below = subst (λ n. AllBelow n w.rows) (sym next) below;
        frame = frame;
      }

  -- Where the records of a log apply, its replay succeeds, and applies all of them.
  pub replay-Stands :
      (ops : List (WalOp fl.F32 P)) (config : CollectionConfig) (c : Collection P) (w : Contents P)
      → c.config ≡ config
      → Represents c w
      → AllBelow c.next_global_id w.rows
      → AllApply config w ops
      → (d : Collection P) × (replay c ops ≡ ok d) × Stands c d (applied_all config.metric w ops)
  unfolding apply_op
  replay-Stands [] config c w e rep below a = (
    c,
    refl,
    record {
      represents = rep;
      below = below;
      frame = record {
        config = refl;
        working = refl;
        segments = refl;
        versions = refl;
        next_segment = refl;
      };
    },
  )
  replay-Stands (upsert id v p ∷ ops) config c w e rep below ((fresh, wide, room, small), a) =
      let (run, s) =
        insert-Stands id v p c w rep below
          (fresh, wide ∙ ap (λ (k : CollectionConfig). k.dim) (sym e), room, small) in
      let s' : Stands c (inserted id v p c) (upserted config.metric id v p w) =
        subst (λ (k : CollectionConfig). Stands c (inserted id v p c) (upserted k.metric id v p w))
          e s in
      let (d, q, t) =
        replay-Stands ops config (inserted id v p c) (upserted config.metric id v p w) e
          s'.represents s'.below a in
      (
        d,
        rw run q,
        record {
          represents = t.represents;
          below = t.below;
          frame = SameFrame-trans c (inserted id v p c) d s.frame t.frame;
        },
      )
  replay-Stands (delete id ∷ ops) config c w e rep below a =
      let s = delete-Stands id c w rep below in
      let (d, q, t) =
        replay-Stands ops config (Write.delete id c).0 (deleted id w) (s.frame.config ∙ e)
          s.represents s.below a in
      (
        d,
        q,
        record {
          represents = t.represents;
          below = t.below;
          frame = SameFrame-trans c (Write.delete id c).0 d s.frame t.frame;
        },
      )
