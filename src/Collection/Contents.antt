-- ===== src/Collection/Contents.antt =====
-- What a collection of crates/vecvec-core/src/collection.rs holds: rows in the order in which they
-- were written, deletions and payloads.
use vecvec.Prelude.{
  ℕ, ◌+◌, ◌%◌, ◌<◌, ◌^◌, ◌≡◌, refl, sym, ap, ◌∙◌, Bool, ◌||◌, not, Option, none, List, [], ◌∷◌,
  ◌++◌, is_some, length, length-append, append-nil, append_assoc, arith, any, keep, max,
  if◌then◌else◌, Bool-cases, inl, inr,
}
use vecvec.Prelude.Maps.{HashMap, lookup, nat_key}
use vecvec.Error.{ok}
use vecvec.Distance.{Floats, Metric}
use vecvec.Vector.{stored}
use vecvec.Persist.Wal.{WalOp, upsert, delete}
use vecvec.Segment.Rows.{Rows, Holds, is_some-to_local}
use vecvec.Segment.Listing.{points_from-Holds}
use vecvec.Segment.Sealed
use vecvec.Segment.Sealed.{SealedSegment}
use vecvec.Segment.Appendable.{appended}
use vecvec.Version.Deletion
use vecvec.Version.Deletion.{Treemap, DeletionVector}
use vecvec.Collection.State.{Collection}
use vecvec.Collection.Loops.{put_payload}
use vecvec.Collection.Read.{rows_of, undeleted}

pub lookup-append :
    {V : Type 0} (g : ℕ) (r s : HashMap ℕ V)
    → is_some (lookup g (r ++ s)) ≡ (is_some (lookup g r) || is_some (lookup g s))
lookup-append g [] s = refl
lookup-append g ((h, v) ∷ r) s = ground (arith, lookup-append g r s)

pub lookup-append_none :
    {V : Type 0} (g : ℕ) (r s : HashMap ℕ V) → lookup g (r ++ s) ≡ none → lookup g s ≡ none
lookup-append_none g [] s h = h
lookup-append_none g ((i, v) ∷ r) s h = ground (arith, lookup-append_none g r s)

module _ ⦃fl : Floats⦄ ⦃tm : Treemap⦄ where
  pub record Contents (P : Type 0) : Type 0 where
    pub rows : Rows
    pub deletions : DeletionVector
    pub payloads : HashMap ℕ P

  -- The rows of segments, one after the other.
  abbrev pub AllHold : List SealedSegment → Rows → Type 0
  AllHold [] rows = rows ≡ []
  AllHold (s ∷ ss) rows =
      (r : Rows) × (rest : Rows) × Holds s.index.vectors s.ids r
      × AllHold ss rest
      × (rows ≡ r ++ rest)

  pub AllHold-append :
      (ss : List SealedSegment) (s : SealedSegment) (rows r : Rows)
      → AllHold ss rows
      → Holds s.index.vectors s.ids r
      → AllHold (ss ++ s ∷ []) (rows ++ r)
  AllHold-append [] s rows r a h = (r, [], h, refl, ap (λ l. l ++ r) a ∙ sym (append-nil r))
  AllHold-append (t ∷ ss) s rows r (u, rest, k, a, e) h =
      (u, rest ++ r, k, AllHold-append ss s rest r a h, ap (λ l. l ++ r) e ∙ append_assoc u rest r)

  pub any-contains :
      (g : ℕ) (ss : List SealedSegment) (rows : Rows)
      → AllHold ss rows
      → any (λ s. Sealed.contains g s) ss ≡ is_some (lookup g rows)
  unfolding Sealed.contains
  any-contains g [] rows a = ap (λ l. is_some (lookup g l)) (sym a)
  any-contains g (s ∷ ss) rows (r, rest, h, a, e) =
      rw (e, lookup-append g r rest, is_some-to_local h g, any-contains g ss rest a) refl

  pub keep-append :
      {A : Type 0} (p : A → Bool) (xs ys : List A) → keep p (xs ++ ys) ≡ keep p xs ++ keep p ys
  keep-append p [] ys = refl
  keep-append p (x ∷ xs) ys = elim (Bool-cases (p x)) [
    | inl e ↦ rw e (ap (◌∷◌ x) (keep-append p xs ys))
    | inr e ↦ rw e (keep-append p xs ys)
  ]

  pub rows_of-AllHold :
      (deletions : DeletionVector) (ss : List SealedSegment) (rows : Rows)
      → AllHold ss rows
      → length rows < 2 ^ 32
      → rows_of deletions ss ≡ ok (undeleted deletions rows)
  unfolding Sealed.iter_points
  rows_of-AllHold deletions [] rows a small = ap (λ l. ok (undeleted deletions l)) (sym a)
  rows_of-AllHold deletions (s ∷ ss) rows (r, rest, h, a, e) small =
      let total = ap length e in
      let sum = length-append r rest in
      let listed =
        points_from-Holds s.index.vectors s.ids r h (omega (arith, h.count_eq, total, sum)) in
      let more = rows_of-AllHold deletions ss rest a (omega (arith, total, sum)) in
      rw (e, listed, more)
        (ap ok (sym (keep-append (λ p. not (Deletion.contains p.0 deletions)) r rest)))

module _ ⦃fl : Floats⦄ ⦃tm : Treemap⦄ {P : Type 0} where
  pub record Represents (c : Collection P) (w : Contents P) : Type 0 where
    pub sealed_rows : Rows
    pub open_rows : Rows
    pub sealed : AllHold c.working.sealed sealed_rows
    pub unsealed : Holds c.appendable.vectors c.appendable.ids open_rows
    pub dim : c.appendable.vectors.dim ≡ c.config.dim
    pub metric : c.appendable.vectors.metric ≡ c.config.metric
    pub all_rows : w.rows ≡ sealed_rows ++ open_rows
    pub deletions : w.deletions ≡ c.working_deletions
    pub payloads : w.payloads ≡ c.payloads

  -- What one record of the log does to the contents.
  abbrev pub upserted : Metric → ℕ → List fl.F32 → Option P → Contents P → Contents P
  upserted metric id v p w = record {
    rows = w.rows ++ (id, stored metric v) ∷ [];
    deletions = w.deletions;
    payloads = put_payload id p w.payloads;
  }

  abbrev pub deleted : ℕ → Contents P → Contents P
  deleted id w = record w {
    deletions =
        if is_some (lookup id w.rows) then (Deletion.insert id w.deletions).0 else w.deletions;
  }

  abbrev pub applied : Metric → Contents P → WalOp fl.F32 P → Contents P
  applied metric w (upsert id v p) = upserted metric id v p w
  applied metric w (delete id) = deleted id w

  abbrev pub applied_all : Metric → Contents P → List (WalOp fl.F32 P) → Contents P
  applied_all metric w [] = w
  applied_all metric w (op ∷ ops) = applied_all metric (applied metric w op) ops

  -- The collection after an insert that succeeds.
  abbrev pub inserted : ℕ → List fl.F32 → Option P → Collection P → Collection P
  inserted g v p c = record c {
    appendable = appended g v c.appendable;
    next_global_id = max c.next_global_id ((g + 1) % 2 ^ 64);
    payloads = put_payload g p c.payloads;
  }
