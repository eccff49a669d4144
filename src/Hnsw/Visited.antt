-- ===== src/Hnsw/Visited.antt =====
-- Visited sets that are cleared by a stamp, crates/vecvec-core/src/index/hnsw/visited.rs.
use vecvec.Prelude.{
  ℕ, zero, suc, ◌+◌, ◌-◌, ◌%◌, ◌^◌, Bool, true, false, none, some, List, [], ◌∷◌, ◌++◌, length,
  get_elem?, map, ltb, ◌==◌, if◌then◌else◌,
}
use vecvec.Error.{Result, ok, panic}

-- `VisitedList`
pub record VisitedList : Type 0 where
  pub generation : ℕ
  pub stamps : List ℕ

abbrev pub zeros : ℕ → List ℕ
zeros zero = []
zeros (suc n) = 0 ∷ zeros n

-- An assignment to an element.
abbrev pub set_at : ℕ → ℕ → List ℕ → List ℕ
set_at i s [] = []
set_at zero s (x ∷ xs) = s ∷ xs
set_at (suc i) s (x ∷ xs) = x ∷ set_at i s xs

abbrev pub new : ℕ → VisitedList
new n = record { generation = 1; stamps = zeros n }

unfoldable pub ensure_capacity : ℕ → VisitedList → VisitedList
ensure_capacity n v =
    if ltb (length v.stamps) n
    then record v { stamps = v.stamps ++ zeros (n - length v.stamps) }
    else v

unfoldable pub clear : VisitedList → VisitedList
clear v =
    let next = (v.generation + 1) % 2 ^ 32 in
    if next == 0
    then record { generation = 1; stamps = map (λ s. 0) v.stamps }
    else record v { generation = next }

unfoldable pub visit : ℕ → VisitedList → Result (VisitedList × Bool)
visit i v = elim (get_elem? v.stamps i) [
  | none ↦ panic
  | some s ↦
      if s == v.generation
      then ok (v, false)
      else ok (record v { stamps = set_at i v.generation v.stamps }, true)
]

-- `VisitedPool`
pub record VisitedPool : Type 0 where
  pub n : ℕ
  pub free : List VisitedList

abbrev pub new_pool : ℕ → VisitedPool
new_pool n = record { n = n; free = [] }

unfoldable pub get : VisitedPool → VisitedPool × VisitedList
unfolding ensure_capacity clear
get pool = elim pool.free [
  | [] ↦ (pool, new pool.n)
  | list ∷ free ↦ (record pool { free = free }, clear (ensure_capacity pool.n list))
]

unfoldable pub put : VisitedList → VisitedPool → VisitedPool
put list pool = record pool { free = list ∷ pool.free }
