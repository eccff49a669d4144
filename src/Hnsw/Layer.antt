-- ===== src/Hnsw/Layer.antt =====
-- The beam search of a layer, crates/vecvec-core/src/index/hnsw/search.rs. A heap is the list of its
-- keys in ascending order.
use vecvec.Prelude.{
  ℕ, zero, suc, Bool, true, false, not, ◌&&◌, ◌||◌, Option, none, some, List, [], ◌∷◌, length, ltb,
  leb, if◌then◌else◌,
}
use vecvec.Error.{Result, ok, panic, ◌>>=◌}
use vecvec.Index.Order.{insert_key, last_key, without_last, sort_keys}
use vecvec.Index.Scan.{Scores, RankKey, key_order}
use vecvec.Hnsw.Visited.{VisitedList, clear, visit}

-- `Graph`; an index that is out of range is a panic.
pub record Graph : Type 0 where
  pub neighbors : ℕ → ℕ → Result (List ℕ)

module _ ⦃sc : Scores⦄ where
  pub record Beam : Type 0 where
    pub candidates : List RankKey
    pub results : List RankKey
    pub visited : VisitedList

  -- A push, and a pop where there are more than `ef`.
  abbrev pub collect : ℕ → RankKey → List RankKey → List RankKey
  collect ef key results =
      let pushed = insert_key key results in
      if ltb ef (length pushed) then without_last pushed else pushed

  -- The test that ends the search, and the one for a neighbor.
  abbrev pub is_over : ℕ → sc.Score → Option RankKey → ℕ → Bool
  is_over ef distance none count = false
  is_over ef distance (some worst) count = leb ef count && not (sc.total_cmp.leb distance worst.0)

  abbrev pub is_near : ℕ → sc.Score → Option RankKey → ℕ → Bool
  is_near ef distance none count = true
  is_near ef distance (some worst) count = ltb count ef || not (sc.total_cmp.leb worst.0 distance)

  module _ (ef : ℕ) (dist : ℕ → sc.Score) (admit : ℕ → Bool) where
    -- A point that was visited first goes into both heaps.
    abbrev pub admitted : ℕ → Beam → Beam
    admitted i b =
        let key : RankKey = (dist i, i) in
        record b {
          candidates = insert_key key b.candidates;
          results = if admit i then collect ef key b.results else b.results;
        }

    abbrev pub enter_all : List ℕ → Beam → Result Beam
    enter_all [] b = ok b
    enter_all (e ∷ es) b = visit e b.visited >>= (λ (v, newly).
        let c : Beam = record b { visited = v } in enter_all es (if newly then admitted e c else c))

    abbrev pub expand_all : List ℕ → Beam → Result Beam
    expand_all [] b = ok b
    expand_all (n ∷ ns) b = visit n b.visited >>= (λ (v, newly).
        let c : Beam = record b { visited = v } in
        let near = is_near ef (dist n) (last_key b.results) (length b.results) in
        expand_all ns (if newly && near then admitted n c else c))

    module _ (graph : Graph) (layer : ℕ) where
      -- The loop, on fuel.
      abbrev pub explore : ℕ → Beam → Result Beam
      explore zero b = panic
      explore (suc fuel) b = elim b.candidates [
        | [] ↦ ok b
        | (distance, c) ∷ rest ↦
            let popped : Beam = record b { candidates = rest } in
            if is_over ef distance (last_key b.results) (length b.results)
            then ok popped
            else (graph.neighbors c layer
                >>= (λ ns. expand_all ns popped >>= (λ d. explore fuel d)))
      ]

      -- `search_layer`
      unfoldable pub search_layer : List ℕ → VisitedList → Result (List RankKey × VisitedList)
      unfolding clear
      search_layer entry_points visited =
          let start : Beam = record { candidates = []; results = []; visited = clear visited } in
          enter_all entry_points start >>= (λ b.
            explore (suc (length visited.stamps)) b >>= (λ e. ok (sort_keys e.results, e.visited)))
