-- ===== src/Hnsw/Searching.antt =====
-- What a search of the sealed graph returns: crates/vecvec-core/src/index/hnsw/graph.rs and mod.rs.
use vecvec.Prelude.{
  ℕ, zero, suc, ◌+◌, ◌-◌, ◌*◌, ◌%◌, ◌^◌, ◌<◌, ◌≤◌, ◌≡◌, ◌⊎◌, refl, ap, Bool, true, false, ◌||◌,
  is_none_or, All-imp, Option, none, some, List, [], ◌∷◌, length, map, take, drop, get_elem?, leb,
  ◌==◌, max, All, arith, Bool-cases, Option-cases, inl, inr, length-take,
}
use vecvec.Prelude.Slices.{All-take, All-drop}
use vecvec.Error.{ok}
use vecvec.Index.Order.{sort_keys, insert_keys-IsAscending, IsAscending, take-IsAscending}
use vecvec.Index.Results.{All-map, All-insert_keys}
use vecvec.Index.Scan.{Scores, RankKey, key_order, rank_key}
use vecvec.Hnsw.Visited.{VisitedList, VisitedPool, get, put}
use vecvec.Hnsw.Marks.{IsStamped, IsPool, get-IsStamped}
use vecvec.Hnsw.Beams.{search_layer-returns}
use vecvec.Hnsw.GraphLayers.{
  GraphLayers, at, or_none, neighbors, len, as_graph, admit_of, nearest, descend, search_ids,
  candidates, search, exact, rescore_oversample,
}

abbrev pub AllUnder : ℕ → List ℕ → Type 0
AllUnder n xs = All (λ i. i < n) xs

-- What the parts of a graph are to one another.
pub record IsGraph (g : GraphLayers) : Type 0 where
  pub starts :
      (p : ℕ)
      → p < len g
      → (start : ℕ) × (end : ℕ) × (get_elem? g.l0_offsets p ≡ some start)
        × (get_elem? g.l0_offsets (p + 1) ≡ some end)
        × (start ≤ end)
        × (end ≤ length g.l0_links)
  pub links : AllUnder (len g) g.l0_links
  pub slots :
      (p : ℕ)
      → p < len g
      → (slot : ℕ) × (get_elem? g.upper_index p ≡ some slot)
        × ((slot ≡ 2 ^ 32 - 1)
            ⊎ ((lists : List (List ℕ)) × (get_elem? g.upper slot ≡ some lists)
                × All (AllUnder (len g)) lists))
  pub entry_in : (e : ℕ) → g.entry ≡ some e → e < len g

All-or_none :
    (n : ℕ) (lists : List (List ℕ)) (i : ℕ)
    → All (AllUnder n) lists
    → (ns : List ℕ) × (or_none (get_elem? lists i) ≡ ns) × AllUnder n ns
All-or_none n [] i a = ([], refl, tt)
All-or_none n (x ∷ lists) zero (h, a) = (x, refl, h)
All-or_none n (x ∷ lists) (suc i) (h, a) = All-or_none n lists i a

pub neighbors-AllUnder :
    (g : GraphLayers)
    → IsGraph g
    → (layer p : ℕ) → p < len g
    → (ns : List ℕ) × (neighbors g p layer ≡ ok ns) × AllUnder (len g) ns
unfolding neighbors
neighbors-AllUnder g f layer p h = elim (Bool-cases (layer == 0)) [
  | inl e ↦
      let (start, end, a, b, le, small) = f.starts p h in
      let low : leb start end ≡ true = ground (arith, le) in
      let high : leb end (length g.l0_links) ≡ true = ground (arith, small) in
      (
        take (end - start) (drop start g.l0_links),
        rw (neighbors, e, at, a, b, low, high) refl,
        All-take (λ i. i < len g) (end - start) (drop start g.l0_links)
            (All-drop (λ i. i < len g) start g.l0_links f.links),
      )
  | inr e ↦
      let (slot, a, which) = f.slots p h in
      elim (Bool-cases (slot == 2 ^ 32 - 1)) [
        | inl none_there ↦ ([], rw (neighbors, e, at, a, none_there) refl, tt)
        | inr there ↦ elim which [
          | inl absent ↦ absurd (ground (arith, there, absent))
          | inr (lists, b, all) ↦
              let (ns, c, d) = All-or_none (len g) lists (layer - 1) all in
              (ns, rw (neighbors, e, at, a, there, b) (ap ok c), d)
        ]
      ]
]

module _ ⦃sc : Scores⦄ where
  nearest-AllUnder :
      (dist : ℕ → sc.Score) (n : ℕ) (ep : List ℕ) (w : List RankKey)
      → AllUnder n ep
      → All (λ (key : RankKey). (key.0 ≡ dist key.1) × (true ≡ true) × key.1 < n) w
      → AllUnder n (nearest ep w)
  nearest-AllUnder dist n ep [] a b = a
  nearest-AllUnder dist n ep (key ∷ w) a ((d, t, h), b) = (h, tt)

module _ ⦃sc : Scores⦄ (g : GraphLayers) (f : IsGraph g) where
  descend-returns :
      (dist : ℕ → sc.Score) (layer : ℕ) (ep : List ℕ) (visited : VisitedList)
      → AllUnder (len g) ep
      → IsStamped visited
      → len g ≤ length visited.stamps
      → (out : List ℕ) × (after : VisitedList) × (descend g dist layer ep visited ≡ ok (out, after))
        × AllUnder (len g) out
        × IsStamped after
        × (len g ≤ length after.stamps)
  descend-returns dist zero ep visited a s room = (ep, visited, refl, a, s, room)
  descend-returns dist (suc layer) ep visited a s room =
      let (w, after, run, _, _, found, s', size) =
        search_layer-returns 1 dist (λ i. true) (λ i. i < len g) (length visited.stamps)
          (λ i h. omega (arith, h, room)) (as_graph g) (suc layer)
          (λ i h. neighbors-AllUnder g f (suc layer) i h) ep visited a s refl in
      let (out, last, done, b, t, left) =
        descend-returns dist layer (nearest ep w) after (nearest-AllUnder dist (len g) ep w a found)
          s' (omega (arith, size, room)) in
      (out, last, rw run done, b, t, left)

  -- What a search may return, with its distance.
  abbrev IsCandidate : (ℕ → sc.Score) → Option (ℕ → Bool) → Option (ℕ → Bool) → RankKey → Type 0
  IsCandidate dist filter deleted key =
      (key.0 ≡ dist key.1) × (admit_of filter deleted key.1 ≡ true) × key.1 < len g

  search_ids-returns :
      (dist : ℕ → sc.Score) (k ef : ℕ) (filter deleted : Option (ℕ → Bool)) (visited : VisitedList)
      → IsStamped visited
      → len g ≤ length visited.stamps
      → (out : List RankKey) × (after : VisitedList) × (search_ids g dist k ef filter deleted
            visited
          ≡ ok (out, after))
        × (length out ≤ k)
        × IsAscending out
        × All (IsCandidate dist filter deleted) out
        × IsStamped after
  unfolding search_ids
  search_ids-returns dist k ef filter deleted visited s room = elim (Option-cases g.entry) [
    | inl e ↦ ([], visited, rw (search_ids, e) refl, omega arith, tt, tt, s)
    | inr (entry, e) ↦
        let (ep, after, ran, a, s', room') =
          descend-returns dist g.max_level (entry ∷ []) visited (f.entry_in entry e, tt) s room in
        let (w, last, found, up, few, all, s'', _) =
          search_layer-returns ef dist (admit_of filter deleted) (λ i. i < len g)
            (length after.stamps) (λ i h. omega (arith, h, room')) (as_graph g) 0
            (λ i h. neighbors-AllUnder g f 0 i h) ep after a s' refl in
        (
          take k w,
          last,
          rw (search_ids, e, ran, found) refl,
          omega (arith, length-take k w),
          take-IsAscending k w up,
          All-take (IsCandidate dist filter deleted) k w all,
          s'',
        )
  ]

  module _ (score : ℕ → sc.Score) (higher : Bool) (quantized : Option (ℕ → sc.Score))
      (k params_ef ef_search : ℕ) (filter : Option (ℕ → Bool)) (deleted : ℕ → Bool) where
    -- A live point that passes the filter.
    abbrev pub IsLive : ℕ → Type 0
    IsLive i = (deleted i ≡ false) × (is_none_or filter (λ f. f i) ≡ true) × i < len g

    live : (i : ℕ) → admit_of filter (some deleted) i ≡ true → i < len g → IsLive i
    live i h lt = (ground (arith, h), ground (arith, h), lt)

    candidates-returns :
        (q : Option (ℕ → sc.Score)) (ef : ℕ) (visited : VisitedList)
        → IsStamped visited
        → len g ≤ length visited.stamps
        → (out : List RankKey) × (after : VisitedList) × (candidates g score higher q k ef filter
              deleted visited
            ≡ ok (out, after))
          × All (λ (key : RankKey). IsLive key.1) out
          × IsStamped after
    candidates-returns none ef visited s room =
        let (out, after, run, few, up, all, s') =
          search_ids-returns (λ i. (exact g score higher i).0) k ef filter (some deleted) visited s
            room in
        (
          out,
          after,
          run,
          All-imp (IsCandidate (λ i. (exact g score higher i).0) filter (some deleted))
              (λ key. IsLive key.1) (λ key c. live key.1 c.1 c.2) out all,
          s',
        )
    candidates-returns (some badness) ef visited s room =
        let fetch = max (k * rescore_oversample % 2 ^ 64) k in
        let (out, after, run, few, up, all, s') =
          search_ids-returns badness fetch (max ef fetch) filter (some deleted) visited s room in
        (
          out,
          after,
          run,
          All-imp (IsCandidate badness filter (some deleted)) (λ key. IsLive key.1)
              (λ key c. live key.1 c.1 c.2) out all,
          s',
        )

    -- A key of the answer: the exact score of a live point.
    abbrev pub IsAnswer : RankKey → Type 0
    IsAnswer key = (key ≡ exact g score higher key.1) × IsLive key.1

    -- The ids and scores of keys.
    abbrev pub shown : List RankKey → List (ℕ × sc.Score)
    shown keys = map (λ (key : RankKey). (key.1, score key.1)) keys

    -- On a graph whose links, slots and entry are in range, and with a pool that has room for its
    -- points, a search returns, with quantized distances and without, whatever they are: no index
    -- into the graph is out of range and no loop goes on for ever. It returns at most `k` points. Each is in the
    -- graph, is not deleted, passes the filter and has its exact score, and they ascend by the
    -- order of exact scores and ids. The pool is then again one that further searches can use.
    pub search-returns :
        (pool : VisitedPool)
        → IsPool pool
        → len g ≤ pool.n
        → (keys : List RankKey) × (after : VisitedPool) × (search g score higher quantized k
              params_ef ef_search filter deleted pool
            ≡ ok (shown keys, after))
          × (length keys ≤ k)
          × IsAscending keys
          × All IsAnswer keys
          × IsPool after
          × (after.n ≡ pool.n)
    unfolding search put rank_key
    search-returns pool p room = elim (Bool-cases (k == 0 || len g == 0)) [
      | inl e ↦ ([], pool, rw (search, e) refl, omega arith, tt, tt, p, refl)
      | inr e ↦
          let (p', (same, stamped, space, _)) = get-IsStamped pool p in
          let (found, after, ran, live, s') =
            candidates-returns quantized (max (max params_ef ef_search) k) (get pool).1 stamped
              (omega (arith, room, space)) in
          let scored = map (λ (key : RankKey). exact g score higher key.1) found in
          let all = All-insert_keys IsAnswer [] scored tt (
            All-map (λ (key : RankKey). IsLive key.1) IsAnswer (λ key. exact g score higher key.1)
              (λ key c. (refl, c)) found live) in
          (
            take k (sort_keys scored),
            put after (get pool).0,
            rw (search, e, ran) refl,
            omega (arith, length-take k (sort_keys scored)),
            take-IsAscending k (sort_keys scored) (insert_keys-IsAscending [] scored tt),
            All-take IsAnswer k (sort_keys scored) all,
            (s', p'),
            same,
          )
    ]
