-- ===== src/Collection/Found.antt =====
-- What the searches of crates/vecvec-core/src/collection.rs return.
use vecvec.Prelude.{
  ℕ, ◌≡◌, ◌≤◌, ◌+◌, ◌==◌, refl, ◌∙◌, Bool, true, false, Option, List, [], ◌∷◌, length, any, All,
  All-imp, arith, Bool-cases, inl, inr, is_none_or, Option-cases, ltb,
}
use vecvec.Prelude.Maps.{HashMap, mem}
use vecvec.Error.{ok}
use vecvec.Distance.{Floats, higher_is_better}
use vecvec.Segment.Sealed
use vecvec.Segment.Sealed.{SealedSegment}
use vecvec.Segment.Appendable
use vecvec.Segment.Appendable.{AppendableSegment}
use vecvec.Version.Deletion
use vecvec.Version.Deletion.{Treemap, DeletionVector}
use vecvec.Index.Order.{sort_keys, insert_keys, insert_key, last_key, without_last}
use vecvec.Index.TopK.{offer_key, length-insert_key}
use vecvec.Hnsw.Beams.{length-without_last}
use vecvec.Index.Results.{All-insert_key, All-insert_keys, All-map, length-map}
use vecvec.Index.Scan
use vecvec.Index.Scan.{
  Scores, RankKey, key_order, rank_key, score_from_badness, BoundedTopK, offer, into_sorted,
}
use vecvec.Collection.State.{Collection}
use vecvec.Collection.Write.{check_dim, contains_any}
use vecvec.Collection.Search.{
  Searches, offer_all, first_seen, merge_finalize, offer_sealed, on_payloads, search,
}

module _ ⦃sc : Scores⦄ where
  -- The results are distinct, and none was seen.
  abbrev pub AllNew : List ℕ → List (ℕ × sc.Score) → Type 0
  AllNew seen [] = Unit
  AllNew seen ((id, score) ∷ found) = (mem id seen ≡ false) × AllNew (id ∷ seen) found

module _ ⦃sc : Scores⦄ (F : ℕ → Type 0) where
  All-without_last :
      (keys : List RankKey)
      → All (λ (key : RankKey). F key.1) keys
      → All (λ (key : RankKey). F key.1) (without_last keys)
  All-without_last [] a = a
  All-without_last (x ∷ []) a = tt
  All-without_last (x ∷ y ∷ keys) (h, a) = (h, All-without_last (y ∷ keys) a)

  -- A collector holds at most `k` points, all of one kind.
  abbrev Holds : ℕ → List RankKey → Type 0
  Holds k heap = (length heap ≤ k) × All (λ (key : RankKey). F key.1) heap

  offer_key-Holds :
      (k : ℕ) (key : RankKey) (heap : List RankKey)
      → F key.1
      → Holds k heap
      → Holds k (offer_key k key heap)
  unfolding offer_key
  offer_key-Holds k key heap h (few, a) =
      let P : RankKey → Type 0 = λ x. F x.1 in
      elim (Bool-cases (k == 0)) [
        | inl e ↦ rw (offer_key, e) (few, a)
        | inr e ↦ elim (Bool-cases (ltb (length heap) k)) [
          | inl f ↦
              rw (offer_key, e, f)
                (ground (arith, length-insert_key key heap, f), All-insert_key P key heap h a)
          | inr f ↦ elim (Option-cases (last_key heap)) [
            | inl g ↦ rw (offer_key, e, f, g) (few, a)
            | inr (worst, g) ↦ elim (Bool-cases (key_order.leb worst key)) [
              | inl b ↦ rw (offer_key, e, f, g, b) (few, a)
              | inr b ↦
                  rw (offer_key, e, f, g, b)
                    (
                      ground (
                        arith,
                        e,
                        few,
                        length-insert_key key (without_last heap),
                        length-without_last heap,
                      ),
                      All-insert_key P key (without_last heap) h (All-without_last heap a),
                    )
            ]
          ]
        ]
      ]

  abbrev HoldsIn : BoundedTopK → Type 0
  HoldsIn t = Holds t.k t.heap

  offer_all-HoldsIn :
      (found : List (ℕ × sc.Score)) (t : BoundedTopK)
      → All (λ (r : ℕ × sc.Score). F r.0) found
      → HoldsIn t
      → HoldsIn (offer_all found t) × ((offer_all found t).k ≡ t.k)
  unfolding offer rank_key
  offer_all-HoldsIn [] t a h = (h, refl)
  offer_all-HoldsIn ((id, score) ∷ found) t (f, a) h =
      let (rest, same) =
        offer_all-HoldsIn found (offer id score t) a
          (offer_key-Holds t.k (rank_key score id t.higher_is_better) t.heap f h) in
      (rest, same)

  length-insert_keys :
      (sorted keys : List RankKey) → length (insert_keys sorted keys) ≡ length sorted + length keys
  length-insert_keys sorted [] = omega arith
  length-insert_keys sorted (x ∷ keys) =
      omega (arith, length-insert_keys (insert_key x sorted) keys, length-insert_key x sorted)

  first_seen-AllNew :
      (seen : List ℕ) (found : List (ℕ × sc.Score))
      → All (λ (r : ℕ × sc.Score). F r.0) found
      → AllNew seen (first_seen seen found)
        × All (λ (r : ℕ × sc.Score). F r.0) (first_seen seen found)
        × (length (first_seen seen found) ≤ length found)
  first_seen-AllNew seen [] a = (tt, a, omega arith)
  first_seen-AllNew seen ((id, score) ∷ found) (f, a) = elim (Bool-cases (mem id seen)) [
    | inl e ↦ let (n, b, few) = first_seen-AllNew seen found a in rw e (n, b, omega (arith, few))
    | inr e ↦
        let (n, b, few) = first_seen-AllNew (id ∷ seen) found a in
        rw e ((e, n), (f, b), omega (arith, few))
  ]

  merge_finalize-AllNew :
      (t : BoundedTopK)
      → HoldsIn t
      → AllNew [] (merge_finalize t)
        × All (λ (r : ℕ × sc.Score). F r.0) (merge_finalize t)
        × (length (merge_finalize t) ≤ t.k)
  unfolding merge_finalize into_sorted
  merge_finalize-AllNew t (few, a) =
      let P : RankKey → Type 0 = λ x. F x.1 in
      let R : ℕ × sc.Score → Type 0 = λ r. F r.0 in
      let shown : RankKey → ℕ × sc.Score =
        λ key. (key.1, score_from_badness key.0 t.higher_is_better) in
      let (fresh, all, fewer) =
        first_seen-AllNew [] (into_sorted t)
          (All-map P R shown (λ key h. h) (sort_keys t.heap) (All-insert_keys P [] t.heap tt a)) in
      (
        fresh,
        all,
        omega
            (arith, fewer, length-map shown (sort_keys t.heap), length-insert_keys [] t.heap, few),
      )

module _ ⦃fl : Floats⦄ ⦃tm : Treemap⦄ ⦃sc : Scores⦄ where
  -- A point that a search may return.
  abbrev pub IsLive : DeletionVector → Option (ℕ → Bool) → ℕ → Type 0
  IsLive deletions fq id =
      (Deletion.contains id deletions ≡ false) × (is_none_or fq (λ f. f id) ≡ true)

  -- The searches of segments return live points of their own.
  pub record IsSearches (se : Searches) : Type 0 where
    pub sealed_found :
        (s : SealedSegment) (query : List fl.F32) (k : ℕ) (deletions : DeletionVector)
        (fq : Option (ℕ → Bool))
        → All
            (λ (r : ℕ × sc.Score). (Sealed.contains r.0 s ≡ true) × IsLive deletions fq r.0)
            (se.search_sealed s query k deletions fq)
    pub open_found :
        (a : AppendableSegment) (query : List fl.F32) (k : ℕ) (deletions : DeletionVector)
        (fq : Option (ℕ → Bool))
        → All
            (λ (r : ℕ × sc.Score). (Appendable.contains r.0 a ≡ true) × IsLive deletions fq r.0)
            (se.search_open a query k deletions fq)

  module _ ⦃se : Searches⦄ (laws : IsSearches se) {P : Type 0} (c : Collection P)
      (query : List fl.F32) (k : ℕ) (filter : Option (HashMap ℕ P → ℕ → Bool)) where
    abbrev fq : Option (ℕ → Bool)
    fq = on_payloads filter c.payloads

    -- What a search may return: an id that the collection has.
    abbrev pub IsHit : ℕ → Type 0
    IsHit id = (contains_any id c ≡ true) × IsLive c.working_deletions fq id

    offer_sealed-HoldsIn :
        (ss : List SealedSegment) (t : BoundedTopK)
        → ((id : ℕ) → any (Sealed.contains id) ss ≡ true → contains_any id c ≡ true)
        → HoldsIn IsHit t
        → HoldsIn IsHit (offer_sealed ss query k c.working_deletions fq t)
          × ((offer_sealed ss query k c.working_deletions fq t).k ≡ t.k)
    offer_sealed-HoldsIn [] t sub h = (h, refl)
    offer_sealed-HoldsIn (s ∷ ss) t sub h =
        let deletions = c.working_deletions in
        let (here, same) =
          offer_all-HoldsIn IsHit (se.search_sealed s query k deletions fq) t
            (All-imp
              (λ (r : ℕ × sc.Score). (Sealed.contains r.0 s ≡ true) × IsLive deletions fq r.0)
              (λ (r : ℕ × sc.Score). IsHit r.0)
              (λ r (own, live). (sub r.0 (ground (arith, own)), live))
              (se.search_sealed s query k deletions fq) (laws.sealed_found s query k deletions fq))
            h in
        let (rest, equal) =
          offer_sealed-HoldsIn ss (offer_all (se.search_sealed s query k deletions fq) t)
            (λ id own. sub id (ground (arith, own))) here in
        (rest, equal ∙ same)

    -- Where the searches of segments return points of the segment that are not deleted and pass the
    -- filter, a search for a vector of the right dimension returns at most `k` points, with no id
    -- twice. The collection has each, it is not deleted, and it passes the filter.
    pub search-hits :
        check_dim query c ≡ ok tt
        → (found : List (ℕ × sc.Score)) × (search query k filter c ≡ ok found)
          × (length found ≤ k)
          × AllNew [] found
          × All (λ (r : ℕ × sc.Score). IsHit r.0) found
    unfolding search contains_any Scan.new
    search-hits wide =
        let start = Scan.new k (higher_is_better c.config.metric) in
        let deletions = c.working_deletions in
        let (sealed, same) =
          offer_sealed-HoldsIn c.working.sealed start (λ id own. ground (arith, own))
            (omega arith, tt) in
        let merged = offer_sealed c.working.sealed query k deletions fq start in
        let found = se.search_open c.appendable query k deletions fq in
        let (both, equal) =
          offer_all-HoldsIn IsHit found merged
            (All-imp
              (λ (r : ℕ × sc.Score).
                (Appendable.contains r.0 c.appendable ≡ true) × IsLive deletions fq r.0)
              (λ (r : ℕ × sc.Score). IsHit r.0) (λ r (own, live). (ground (arith, own), live)) found
              (laws.open_found c.appendable query k deletions fq))
            sealed in
        let (fresh, all, few) = merge_finalize-AllNew IsHit (offer_all found merged) both in
        (
          merge_finalize (offer_all found merged),
          rw wide refl,
          omega (arith, few, equal, same),
          fresh,
          all,
        )
