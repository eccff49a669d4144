-- ===== src/Durable/History.antt =====
-- Histories of a durable collection of crates/vecvec-core/src/durable.rs: what a crash leaves of
-- them.
use vecvec.Prelude.{
  ℕ, ◌+◌, ◌<◌, ◌≤◌, ◌^◌, ◌≡◌, sym, ap, ◌∙◌, subst, String, Option, List, length, take,
}
use vecvec.Error.{Result, ok, ok-injective}
use vecvec.Distance.{Floats}
use vecvec.Version.Deletion.{Treemap}
use vecvec.Collection.Contents.{Contents, deleted, applied_all}
use vecvec.Durable.Disk.{sync}
use vecvec.Durable.State.{DurableCollection}
use vecvec.Durable.Write.{
  Points, WriteBatchResult, check_dims, write_batch, delete_point, commit, checkpoint,
}
use vecvec.Durable.Safe.{IsSafe}
use vecvec.Durable.Checkpoint.{checkpoint-IsSafe}
use vecvec.Durable.Records.{batch_of}
use vecvec.Durable.Recovery.{ended_at, write_batch-IsSafe, delete_point-IsSafe, commit-IsSafe}

module _ ⦃fl : Floats⦄ ⦃tm : Treemap⦄ {P : Type 0} where
  -- What a collection with the contents `w` holds once the first `m` records of a batch are applied.
  abbrev pub cut_batch : DurableCollection P → Contents P → Points P → List ℕ → ℕ → Contents P
  cut_batch d w upserts deletes m =
      applied_all d.collection.config.metric w
        (take m (batch_of d.collection.next_global_id upserts deletes))

  abbrev pub batch_applied : DurableCollection P → Contents P → Points P → List ℕ → Contents P
  batch_applied d w upserts deletes =
      applied_all d.collection.config.metric w
        (batch_of d.collection.next_global_id upserts deletes)

  -- Where a history may lead that starts from `w` in memory `d`, with the contents then. All that
  -- it passes is of the kind `Q`. Each operation has the ids and the room that it needs.
  pub data Reaches (Q : Contents P → Type 0) (w : Contents P) (d : DurableCollection P)
      : Contents P → DurableCollection P → Type 0 where
    start : Reaches Q w d w d
    then_batch :
        (x : Contents P) (e f : DurableCollection P) (upserts : Points P) (deletes : List ℕ)
        (request : Option (Option String × Option String)) (now : ℕ) (r : WriteBatchResult)
        → Reaches Q w d x e
        → check_dims e.collection.config.dim upserts ≡ ok tt
        → e.collection.next_global_id + length upserts < 2 ^ 64
        → length x.rows + length upserts ≤ 2 ^ 32
        → e.collection.next_segment_id + 1 < 2 ^ 64
        → ((m : ℕ) → Q (cut_batch e x upserts deletes m))
        → write_batch upserts deletes request now e ≡ ok (f, r)
        → Reaches Q w d (batch_applied e x upserts deletes) f
    then_delete :
        (x : Contents P) (e : DurableCollection P) (id : ℕ)
        → Reaches Q w d x e
        → e.collection.next_global_id < 2 ^ 64
        → length x.rows ≤ 2 ^ 32
        → Q (deleted id x)
        → Reaches Q w d (deleted id x) (delete_point id e).0
    then_commit :
        (x : Contents P) (e f : DurableCollection P) (message tag : Option String) (now n : ℕ)
        → Reaches Q w d x e
        → e.collection.next_segment_id + 1 < 2 ^ 64
        → commit message tag now e ≡ ok (f, n)
        → Reaches Q w d x f
    then_checkpoint :
        (x : Contents P) (e f : DurableCollection P)
        → Reaches Q w d x e
        → e.collection.next_segment_id + 1 < 2 ^ 64
        → checkpoint e ≡ ok f
        → Reaches Q w d x f

  -- The same result leaves the same collection.
  first_same :
      {B : Type 0} {Q : Contents P → Type 0} {x : Contents P} (e f : DurableCollection P) (b c : B)
      {r : Result (DurableCollection P × B)}
      → r ≡ ok (e, b)
      → r ≡ ok (f, c)
      → IsSafe Q e x
      → Q x
      → e.fsync ≡ sync
      → IsSafe Q f x × Q x × (f.fsync ≡ sync)
  first_same {Q = Q} {x = x} e f b c p r safe q mode =
      let same : e ≡ f = ap (λ z. z.0) (ok-injective (e, b) (f, c) (sym p ∙ r)) in
      (
        subst (λ z. IsSafe Q z x) same safe,
        q,
        subst (λ (z : DurableCollection P). z.fsync ≡ sync) same mode,
      )

  module _ (Q : Contents P → Type 0) (w : Contents P) (d : DurableCollection P) (q : Q w)
      (safe : IsSafe Q d w) (mode : d.fsync ≡ sync) where
    pub Reaches-IsSafe :
        (x : Contents P) (e : DurableCollection P)
        → Reaches Q w d x e
        → IsSafe Q e x × Q x × (e.fsync ≡ sync)
    Reaches-IsSafe _ _ start = (safe, q, mode)
    Reaches-IsSafe _ f
          (then_batch y e _ upserts deletes request now r h wide ids room segments every ran) =
        let (s, p, m) = Reaches-IsSafe y e h in
        let (f', r', ran', _, s', m') =
          write_batch-IsSafe Q y e s m upserts deletes every ids room segments request now wide in
        first_same f' f r' r ran' ran s'
          (ended_at Q y e s m upserts deletes every ids room segments) m'
    Reaches-IsSafe _ _ (then_delete y e id h ids room p') =
        let (s, p, m) = Reaches-IsSafe y e h in
        let (s', m') = delete_point-IsSafe Q y e id s m p p' ids room in (s', p', m')
    Reaches-IsSafe x f (then_commit _ e _ message tag now n h segments ran) =
        let (s, p, m) = Reaches-IsSafe x e h in
        let (f', n', ran', s', m') = commit-IsSafe Q x p message tag now e s segments in
        first_same f' f n' n ran' ran s' p (m' ∙ m)
    Reaches-IsSafe x f (then_checkpoint _ e _ h segments ran) =
        let (s, p, m) = Reaches-IsSafe x e h in
        let (f', ran', s', m') = checkpoint-IsSafe Q x p e s segments in
        let same = ok-injective f' f (sym ran' ∙ ran) in
        (
          subst (λ z. IsSafe Q z x) same s',
          p,
          subst (λ (z : DurableCollection P). z.fsync ≡ sync) same (m' ∙ m),
        )
