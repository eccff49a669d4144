-- ===== src/Collection/Search.antt =====
-- The searches of crates/vecvec-core/src/collection.rs. What a segment finds is the interface
-- Searches; a filter is asked about an id and the payloads.
use vecvec.Prelude.{ℕ, Bool, Option, none, some, List, [], ◌∷◌, if◌then◌else◌}
use vecvec.Prelude.Maps.{HashMap, nat_key, mem}
use vecvec.Error.{Result, ok, err, panic, version, ◌>>=◌}
use vecvec.Distance.{Floats, higher_is_better}
use vecvec.Segment.Sealed.{SealedSegment}
use vecvec.Segment.Appendable.{AppendableSegment}
use vecvec.Version.Deletion.{Treemap, DeletionVector}
use vecvec.Version.Manifest.{segment_ids}
use vecvec.Version.Store
use vecvec.Version.Store.{VersionSelector}
use vecvec.Index.Scan
use vecvec.Index.Scan.{Scores, BoundedTopK, offer, into_sorted}
use vecvec.Collection.State.{Collection}
use vecvec.Collection.Loops.{registered}
use vecvec.Collection.Write.{check_dim}

module _ ⦃sc : Scores⦄ where
  abbrev pub offer_all : List (ℕ × sc.Score) → BoundedTopK → BoundedTopK
  offer_all [] merger = merger
  offer_all ((id, score) ∷ found) merger = offer_all found (offer id score merger)

  -- Of results with the same id the first stays.
  abbrev pub first_seen : List ℕ → List (ℕ × sc.Score) → List (ℕ × sc.Score)
  first_seen seen [] = []
  first_seen seen ((id, score) ∷ found) =
      let again = first_seen seen found in
      let rest = first_seen (id ∷ seen) found in if mem id seen then again else (id, score) ∷ rest

  unfoldable pub merge_finalize : BoundedTopK → List (ℕ × sc.Score)
  merge_finalize merger = first_seen [] (into_sorted merger)

module _ ⦃fl : Floats⦄ ⦃tm : Treemap⦄ ⦃sc : Scores⦄ where
  -- The searches of both kinds of segment, for at most so many points that are not deleted and
  -- pass a test of their ids.
  pub record Searches : Type 0 where
    pub search_sealed :
        SealedSegment → List fl.F32 → ℕ → DeletionVector → Option (ℕ → Bool) → List (ℕ × sc.Score)
    pub search_open :
        AppendableSegment
        → List fl.F32
        → ℕ
        → DeletionVector
        → Option (ℕ → Bool)
        → List (ℕ × sc.Score)

  module _ ⦃se : Searches⦄ where
    abbrev pub offer_sealed :
        List SealedSegment
        → List fl.F32
        → ℕ
        → DeletionVector
        → Option (ℕ → Bool)
        → BoundedTopK
        → BoundedTopK
    offer_sealed [] query k deletions fq merger = merger
    offer_sealed (s ∷ ss) query k deletions fq merger =
        offer_sealed ss query k deletions fq
          (offer_all (se.search_sealed s query k deletions fq) merger)

    module _ {P : Type 0} where
      -- `FilterQuery`
      abbrev pub on_payloads : Option (HashMap ℕ P → ℕ → Bool) → HashMap ℕ P → Option (ℕ → Bool)
      on_payloads none payloads = none
      on_payloads (some filter) payloads = some (filter payloads)

      unfoldable pub search :
          List fl.F32
          → ℕ
          → Option (HashMap ℕ P → ℕ → Bool)
          → Collection P
          → Result (List (ℕ × sc.Score))
      search query k filter c = check_dim query c >>= (λ _.
          let higher = higher_is_better c.config.metric in
          let fq = on_payloads filter c.payloads in
          let merged =
            offer_sealed c.working.sealed query k c.working_deletions fq (Scan.new k higher) in
          ok (
            merge_finalize
              (offer_all (se.search_open c.appendable query k c.working_deletions fq) merged)))

      unfoldable pub search_at :
          VersionSelector
          → List fl.F32
          → ℕ
          → Option (HashMap ℕ P → ℕ → Bool)
          → Collection P
          → Result (List (ℕ × sc.Score))
      search_at selector query k filter c = check_dim query c >>= (λ _.
          elim (Store.resolve selector c.versions) [
            | none ↦ err version
            | some number ↦ elim (Store.get number c.versions) [
              | none ↦ panic
              | some m ↦
                  let higher = higher_is_better c.config.metric in
                  let fq = on_payloads filter c.payloads in
                  ok (
                    merge_finalize (
                      offer_sealed (registered c.all_segments (segment_ids m)) query k m.deletions
                        fq (Scan.new k higher)))
            ]
          ])
