-- ===== src/Hnsw/GraphLayers.antt =====
-- The sealed graph and its search: crates/vecvec-core/src/index/hnsw/graph.rs, and `search` of
-- crates/vecvec-core/src/index/hnsw/mod.rs. The exact scores, the quantized distances, the
-- tombstones and the filter are arguments.
use vecvec.Prelude.{
  ℕ, zero, suc, ◌+◌, ◌-◌, ◌*◌, ◌%◌, ◌^◌, Bool, true, not, ◌&&◌, ◌||◌, Option, none, some, List, [],
  ◌∷◌, length, map, take, drop, get_elem?, leb, ◌==◌, if◌then◌else◌, max, is_none_or,
}
use vecvec.Error.{Result, ok, panic, ◌>>=◌}
use vecvec.Index.Order.{sort_keys}
use vecvec.Index.Scan.{Scores, RankKey, key_order, rank_key}
use vecvec.Hnsw.Visited.{VisitedList, VisitedPool, get, put}
use vecvec.Hnsw.Layer.{Graph, search_layer}

-- `GraphLayers`
pub record GraphLayers : Type 0 where
  pub entry : Option ℕ
  pub max_level : ℕ
  pub levels : List ℕ
  pub l0_offsets : List ℕ
  pub l0_links : List ℕ
  pub upper : List (List (List ℕ))
  pub upper_index : List ℕ

-- Indexing, and a slice from one index to another.
abbrev pub at : {A : Type 0} → List A → ℕ → Result A
at xs i = elim (get_elem? xs i) [ none ↦ panic | some x ↦ ok x ]

abbrev pub between : ℕ → ℕ → List ℕ → Result (List ℕ)
between start end xs =
    if leb start end && leb end (length xs) then ok (take (end - start) (drop start xs)) else panic

abbrev pub or_none : Option (List ℕ) → List ℕ
or_none none = []
or_none (some ns) = ns

unfoldable pub neighbors : GraphLayers → ℕ → ℕ → Result (List ℕ)
neighbors g point layer =
    if layer == 0
    then (at g.l0_offsets point
        >>= (λ start. at g.l0_offsets (point + 1) >>= (λ end. between start end g.l0_links)))
    else (at g.upper_index point >>= (λ slot.
        if slot == 2 ^ 32 - 1
        then ok []
        else (at g.upper slot >>= (λ lists. ok (or_none (get_elem? lists (layer - 1)))))))

abbrev pub len : GraphLayers → ℕ
len g = length g.levels

abbrev pub as_graph : GraphLayers → Graph
as_graph g = record { neighbors = neighbors g }

-- `admit`, for what a search may return.
abbrev pub admit_of : Option (ℕ → Bool) → Option (ℕ → Bool) → ℕ → Bool
admit_of filter deleted i = is_none_or deleted (λ d. not (d i)) && is_none_or filter (λ f. f i)

module _ ⦃sc : Scores⦄ where
  abbrev pub nearest : List ℕ → List RankKey → List ℕ
  nearest ep [] = ep
  nearest ep ((badness, best) ∷ w) = best ∷ []

  module _ (g : GraphLayers) (dist : ℕ → sc.Score) where
    -- The descent through the upper layers, from the given one on.
    abbrev pub descend : ℕ → List ℕ → VisitedList → Result (List ℕ × VisitedList)
    descend zero ep visited = ok (ep, visited)
    descend (suc layer) ep visited =
        search_layer 1 dist (λ i. true) (as_graph g) (suc layer) ep visited
        >>= (λ (w, after). descend layer (nearest ep w) after)

    unfoldable pub search_ids :
        ℕ
        → ℕ
        → Option (ℕ → Bool)
        → Option (ℕ → Bool)
        → VisitedList
        → Result (List RankKey × VisitedList)
    search_ids k ef filter deleted visited = elim g.entry [
      | none ↦ ok ([], visited)
      | some entry ↦ descend g.max_level (entry ∷ []) visited >>= (λ (ep, after).
          search_layer ef dist (admit_of filter deleted) (as_graph g) 0 ep after
          >>= (λ (w, last). ok (take k w, last)))
    ]

  -- `RESCORE_OVERSAMPLE`
  abbrev pub rescore_oversample : ℕ
  rescore_oversample = 4

  module _ (g : GraphLayers) (score : ℕ → sc.Score) (higher : Bool) where
    abbrev pub exact : ℕ → RankKey
    exact i = rank_key (score i) i higher

    -- The candidates, by quantized distances over a wider beam where there are such.
    abbrev pub candidates :
        Option (ℕ → sc.Score)
        → ℕ
        → ℕ
        → Option (ℕ → Bool)
        → (ℕ → Bool)
        → VisitedList
        → Result (List RankKey × VisitedList)
    candidates none k ef filter deleted visited =
        search_ids g (λ i. (exact i).0) k ef filter (some deleted) visited
    candidates (some badness) k ef filter deleted visited =
        let fetch = max (k * rescore_oversample % 2 ^ 64) k in
        search_ids g badness fetch (max ef fetch) filter (some deleted) visited

    -- `search`, which returns ids with their exact scores.
    unfoldable pub search :
        Option (ℕ → sc.Score)
        → ℕ
        → ℕ
        → ℕ
        → Option (ℕ → Bool)
        → (ℕ → Bool)
        → VisitedPool
        → Result (List (ℕ × sc.Score) × VisitedPool)
    search quantized k params_ef ef_search filter deleted pool =
        if k == 0 || len g == 0
        then ok ([], pool)
        else (let ef = max (max params_ef ef_search) k in
            let (taken, visited) = get pool in
            candidates quantized k ef filter deleted visited >>= (λ (found, after). ok (
              map (λ key. (key.1, score key.1))
                  (take k (sort_keys (map (λ key. exact key.1) found))),
              put after taken,
            )))
