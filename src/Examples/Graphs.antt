-- ===== src/Examples/Graphs.antt =====
-- Searches of a graph at concrete inputs.
use vecvec.Prelude.{
  ℕ, zero, suc, ◌+◌, ◌-◌, ◌<◌, ◌≤◌, ◌^◌, ◌≡◌, ◌⊎◌, refl, some-injective, subst, true, false, none,
  some, List, [], ◌∷◌, length, get_elem?, map, All, arith, inl, inr, ◌==◌,
}
use vecvec.Error.{ok}
use vecvec.Index.Order.{IsAscending}
use vecvec.Index.Scan.{key_order, rank_key}
use vecvec.Hnsw.Visited.{VisitedList, VisitedPool, new, new_pool, clear, visit}
use vecvec.Hnsw.Marks.{IsStamped, new-IsStamped, IsPool}
use vecvec.Hnsw.Layer.{search_layer}
use vecvec.Hnsw.Beams.{search_layer-returns}
use vecvec.Hnsw.GraphLayers.{GraphLayers, as_graph, neighbors, search}
use vecvec.Hnsw.Searching.{IsGraph, neighbors-AllUnder, search-returns}
use vecvec.Examples.Data.{points}

abbrev none_above : ℕ
none_above = 2 ^ 32 - 1

-- Three points, of which the first is linked to the two others and has an upper layer.
abbrev star : GraphLayers
star = record {
  entry = some 0;
  max_level = 1;
  levels = 1 ∷ 0 ∷ 0 ∷ [];
  l0_offsets = 0 ∷ 2 ∷ 3 ∷ 4 ∷ [];
  l0_links = 1 ∷ 2 ∷ 0 ∷ 0 ∷ [];
  upper = ([] ∷ []) ∷ [];
  upper_index = 0 ∷ none_above ∷ none_above ∷ [];
}

star_starts :
    (p : ℕ)
    → p < 3
    → (start : ℕ) × (end : ℕ) × (get_elem? star.l0_offsets p ≡ some start)
      × (get_elem? star.l0_offsets (p + 1) ≡ some end)
      × (start ≤ end)
      × (end ≤ 4)
star_starts zero h = (0, 2, refl, refl, omega arith, omega arith)
star_starts (suc zero) h = (2, 3, refl, refl, omega arith, omega arith)
star_starts (suc (suc zero)) h = (3, 4, refl, refl, omega arith, omega arith)
star_starts (suc (suc (suc p))) h = absurd (omega (arith, h))

star_slots :
    (p : ℕ)
    → p < 3
    → (slot : ℕ) × (get_elem? star.upper_index p ≡ some slot)
      × ((slot ≡ none_above)
          ⊎ ((lists : List (List ℕ)) × (get_elem? star.upper slot ≡ some lists)
              × All (All (λ i. i < 3)) lists))
star_slots zero h = (0, refl, inr ([] ∷ [], refl, (tt, tt)))
star_slots (suc zero) h = (none_above, refl, inl refl)
star_slots (suc (suc zero)) h = (none_above, refl, inl refl)
star_slots (suc (suc (suc p))) h = absurd (omega (arith, h))

star-IsGraph : IsGraph star
star-IsGraph = record {
  starts = star_starts;
  links = (omega arith, (omega arith, (omega arith, (omega arith, tt))));
  slots = star_slots;
  entry_in = λ e h. subst (λ i. i < 3) (some-injective 0 e h) (omega arith);
}

abbrev distances : ℕ → ℕ
distances i = 10 - i

nearest_two :
    search_layer 2 distances (λ i. true) (as_graph star) 0 (0 ∷ []) (new 3)
    ≡ ok ((8, 2) ∷ (9, 1) ∷ [], record { generation = 2; stamps = 2 ∷ 2 ∷ 2 ∷ [] })
unfolding search_layer clear visit neighbors
nearest_two = refl

search_layer-returns_example :
    (out : List (ℕ × ℕ)) × (after : VisitedList) × (search_layer 2 distances
        (λ i. true)
        (as_graph star)
        0
        (0 ∷ [])
        (new 3)
      ≡ ok (out, after))
    × IsAscending out
    × (length out ≤ 2)
    × All (λ (key : ℕ × ℕ). (key.0 ≡ distances key.1) × (true ≡ true) × key.1 < 3) out
    × IsStamped after
    × (length after.stamps ≡ 3)
search_layer-returns_example =
    search_layer-returns 2 distances (λ i. true) (λ i. i < 3) 3 (λ i h. h) (as_graph star) 0
      (λ i h. neighbors-AllUnder star star-IsGraph 0 i h) (0 ∷ []) (new 3) (omega arith, tt)
      (new-IsStamped 3) refl

search-returns_example :
    (keys : List (ℕ × ℕ)) × (after : VisitedPool) × (search star distances true
        (some (λ i. i))
        2
        0
        64
        none
        (λ i. i == 2)
        (new_pool 3)
      ≡ ok (map (λ (key : ℕ × ℕ). (key.1, distances key.1)) keys, after))
    × (length keys ≤ 2)
    × IsAscending keys
    × All
        (λ (key : ℕ × ℕ).
          (key ≡ rank_key (distances key.1) key.1 true)
          × (((key.1 == 2) ≡ false) × (true ≡ true) × key.1 < 3))
        keys
    × IsPool after
    × (after.n ≡ 3)
search-returns_example =
    search-returns star star-IsGraph distances true (some (λ i. i)) 2 0 64 none (λ i. i == 2)
      (new_pool 3) tt (omega arith)
