-- ===== src/Hnsw/Marks.antt =====
-- What the visited sets of crates/vecvec-core/src/index/hnsw/visited.rs remember.
use vecvec.Prelude.{
  ℕ, zero, suc, ◌+◌, ◌-◌, ◌%◌, ◌^◌, ◌≡◌, ◌<◌, ◌≤◌, refl, ap, Bool, true, false, not, ◌||◌, Option,
  none, some, List, [], ◌∷◌, ◌++◌, length, length-append, get_elem?, map, ltb, ◌==◌, if◌then◌else◌,
  All, arith, Bool-cases, inl, inr,
}
use vecvec.Error.{ok}
use vecvec.Hnsw.Visited.{
  VisitedList, VisitedPool, zeros, set_at, new, ensure_capacity, clear, visit, get,
}

abbrev stamped : ℕ → Option ℕ → Bool
stamped g none = false
stamped g (some s) = s == g

-- Whether a point was visited since the last clearing.
abbrev pub marked : ℕ → VisitedList → Bool
marked i v = stamped v.generation (get_elem? v.stamps i)

-- How many points were not.
abbrev unstamped : ℕ → List ℕ → ℕ
unstamped g [] = 0
unstamped g (s ∷ stamps) = let rest = unstamped g stamps in if s == g then rest else suc rest

abbrev pub unmarked : VisitedList → ℕ
unmarked v = unstamped v.generation v.stamps

-- No stamp is of a generation to come.
pub record IsStamped (v : VisitedList) : Type 0 where
  pub positive : 0 < v.generation
  pub small : v.generation < 2 ^ 32
  pub past : All (λ s. s ≤ v.generation) v.stamps

All-zeros : (g n : ℕ) → All (λ s. s ≤ g) (zeros n)
All-zeros g zero = tt
All-zeros g (suc n) = (omega arith, All-zeros g n)

All-weaken : (g h : ℕ) (xs : List ℕ) → g ≤ h → All (λ s. s ≤ g) xs → All (λ s. s ≤ h) xs
All-weaken g h [] le a = tt
All-weaken g h (x ∷ xs) le (p, a) = (omega arith, All-weaken g h xs le a)

All-map_zero : (g : ℕ) (xs : List ℕ) → All (λ s. s ≤ g) (map (λ s. 0) xs)
All-map_zero g [] = tt
All-map_zero g (x ∷ xs) = (omega arith, All-map_zero g xs)

All-set_at : (g i : ℕ) (xs : List ℕ) → All (λ s. s ≤ g) xs → All (λ s. s ≤ g) (set_at i g xs)
All-set_at g i [] a = tt
All-set_at g zero (x ∷ xs) (p, a) = (omega arith, a)
All-set_at g (suc i) (x ∷ xs) (p, a) = (p, All-set_at g i xs a)

All-append :
    (g : ℕ) (xs ys : List ℕ)
    → All (λ s. s ≤ g) xs
    → All (λ s. s ≤ g) ys
    → All (λ s. s ≤ g) (xs ++ ys)
All-append g [] ys a b = b
All-append g (x ∷ xs) ys (p, a) b = (p, All-append g xs ys a b)

pub new-IsStamped : (n : ℕ) → IsStamped (new n)
new-IsStamped n = record { positive = omega arith; small = omega arith; past = All-zeros 1 n }

stamped-below :
    (g i : ℕ) (xs : List ℕ) (h : ℕ)
    → All (λ s. s ≤ g) xs
    → g < h
    → stamped h (get_elem? xs i) ≡ false
stamped-below g i [] h a lt = refl
stamped-below g zero (x ∷ xs) h (p, a) lt = ground arith
stamped-below g (suc i) (x ∷ xs) h (p, a) lt = stamped-below g i xs h a lt

pub clear-IsStamped :
    (v : VisitedList) → IsStamped v → IsStamped (clear v) × ((i : ℕ) → marked i (clear v) ≡ false)
unfolding clear
clear-IsStamped v f = elim (Bool-cases ((v.generation + 1) % 2 ^ 32 == 0)) [
  | inl e ↦ rw e (
    record { positive = omega arith; small = omega arith; past = All-map_zero 1 v.stamps },
    λ i. stamped-below 0 i (map (λ s. 0) v.stamps) 1 (All-map_zero 0 v.stamps) (omega arith),
  )
  | inr e ↦
      let next : (v.generation + 1) % 2 ^ 32 ≡ v.generation + 1 = ground (arith, f.small, e) in
      rw e (
        record {
          positive = omega (arith, next);
          small = omega (arith, next);
          past =
              All-weaken v.generation ((v.generation + 1) % 2 ^ 32) v.stamps (omega (arith, next))
                f.past;
        },
        λ i.
            stamped-below v.generation i v.stamps ((v.generation + 1) % 2 ^ 32) f.past
              (omega (arith, next)),
      )
]

length-set_at : (i s : ℕ) (xs : List ℕ) → length (set_at i s xs) ≡ length xs
length-set_at i s [] = refl
length-set_at zero s (x ∷ xs) = refl
length-set_at (suc i) s (x ∷ xs) = ap suc (length-set_at i s xs)

stamped-set_at :
    (g i j : ℕ) (xs : List ℕ)
    → i < length xs
    → stamped g (get_elem? (set_at i g xs) j) ≡ (j == i || stamped g (get_elem? xs j))
stamped-set_at g i j [] h = absurd (omega (arith, h))
stamped-set_at g zero zero (x ∷ xs) h = ground arith
stamped-set_at g zero (suc j) (x ∷ xs) h = ground arith
stamped-set_at g (suc i) zero (x ∷ xs) h = ground arith
stamped-set_at g (suc i) (suc j) (x ∷ xs) h =
    ground (arith, stamped-set_at g i j xs (omega (arith, h)))

unstamped-set_at :
    (g i : ℕ) (xs : List ℕ)
    → i < length xs
    → stamped g (get_elem? xs i) ≡ false
    → unstamped g xs ≡ suc (unstamped g (set_at i g xs))
unstamped-set_at g i [] h k = absurd (omega (arith, h))
unstamped-set_at g zero (x ∷ xs) h k = ground (arith, k)
unstamped-set_at g (suc i) (x ∷ xs) h k =
    ground (arith, unstamped-set_at g i xs (omega (arith, h)) k)

length-map_zero : (xs : List ℕ) → length {A = ℕ} (map (λ s. 0) xs) ≡ length xs
length-map_zero [] = refl
length-map_zero (x ∷ xs) = ap suc (length-map_zero xs)

pub length-clear : (v : VisitedList) → length (clear v).stamps ≡ length v.stamps
unfolding clear
length-clear v = elim (Bool-cases ((v.generation + 1) % 2 ^ 32 == 0)) [
  | inl e ↦ rw e (length-map_zero v.stamps)
  | inr e ↦ rw e refl
]

unstamped-le : (g : ℕ) (xs : List ℕ) → unstamped g xs ≤ length xs
unstamped-le g [] = omega arith
unstamped-le g (x ∷ xs) = ground (arith, unstamped-le g xs)

pub unmarked-le : (v : VisitedList) → unmarked v ≤ length v.stamps
unmarked-le v = unstamped-le v.generation v.stamps

-- What a visit leaves.
pub record Visits (i : ℕ) (v w : VisitedList) (newly : Bool) : Type 0 where
  pub stamped_after : IsStamped w
  pub same_length : length w.stamps ≡ length v.stamps
  pub newly_eq : newly ≡ not (marked i v)
  pub marks : (j : ℕ) → marked j w ≡ (j == i || marked j v)
  pub rest : unmarked v ≡ (if newly then suc (unmarked w) else unmarked w)

get_elem?-some : (xs : List ℕ) (i : ℕ) → i < length xs → (s : ℕ) × (get_elem? xs i ≡ some s)
get_elem?-some [] i h = absurd (omega (arith, h))
get_elem?-some (x ∷ xs) zero h = (x, refl)
get_elem?-some (x ∷ xs) (suc i) h = get_elem?-some xs i (omega (arith, h))

pub visit-Visits :
    (i : ℕ) (v : VisitedList)
    → IsStamped v
    → i < length v.stamps
    → (w : VisitedList) × (newly : Bool) × (visit i v ≡ ok (w, newly)) × Visits i v w newly
unfolding visit
visit-Visits i v f h =
    let (s, e) = get_elem?-some v.stamps i h in
    elim (Bool-cases (s == v.generation)) [
      | inl same ↦ (
        v,
        false,
        rw (visit, e, same) refl,
        record {
          stamped_after = f;
          same_length = refl;
          newly_eq = rw (e, same) refl;
          marks = λ j.
              let at : marked i v ≡ true = rw e same in
              elim (Bool-cases (j == i)) [
                | inl q ↦
                    ground (arith, q, at, ap (λ k. marked k v) {x = j} {y = i} (ground (arith, q)))
                | inr q ↦ ground (arith, q)
              ];
          rest = refl;
        },
      )
      | inr other ↦ (
        record v { stamps = set_at i v.generation v.stamps },
        true,
        rw (visit, e, other) refl,
        record {
          stamped_after = record {
            positive = f.positive;
            small = f.small;
            past = All-set_at v.generation i v.stamps f.past;
          };
          same_length = length-set_at i v.generation v.stamps;
          newly_eq = rw (e, other) refl;
          marks = λ j. stamped-set_at v.generation i j v.stamps h;
          rest = unstamped-set_at v.generation i v.stamps h (rw e other);
        },
      )
    ]

length-zeros : (n : ℕ) → length (zeros n) ≡ n
length-zeros zero = refl
length-zeros (suc n) = ap suc (length-zeros n)

ensure_capacity-IsStamped :
    (n : ℕ) (v : VisitedList)
    → IsStamped v
    → IsStamped (ensure_capacity n v) × (n ≤ length (ensure_capacity n v).stamps)
unfolding ensure_capacity
ensure_capacity-IsStamped n v f = elim (Bool-cases (ltb (length v.stamps) n)) [
  | inl e ↦
      let more = zeros (n - length v.stamps) in
      rw e (
        record {
          positive = f.positive;
          small = f.small;
          past =
              All-append v.generation v.stamps more f.past
                (All-zeros v.generation (n - length v.stamps));
        },
        omega (arith, length-append v.stamps more, length-zeros (n - length v.stamps)),
      )
  | inr e ↦ rw e (f, ground (arith, e))
]

-- All lists of a pool are stamped.
abbrev pub IsPool : VisitedPool → Type 0
IsPool pool = All IsStamped pool.free

get-list :
    (n : ℕ) (free : List VisitedList)
    → All IsStamped free
    → IsPool (get (record { n = n; free = free })).0
      × (((get (record { n = n; free = free })).0.n ≡ n)
          × IsStamped (get (record { n = n; free = free })).1
          × (n ≤ length (get (record { n = n; free = free })).1.stamps)
          × ((i : ℕ) → marked i (get (record { n = n; free = free })).1 ≡ false))
unfolding get
get-list n [] f = (
  tt,
  (
    refl,
    new-IsStamped n,
    omega (arith, length-zeros n),
    λ i. stamped-below 0 i (zeros n) 1 (All-zeros 0 n) (omega arith),
  ),
)
get-list n (v ∷ free) (h, f) =
    let (grown, room) = ensure_capacity-IsStamped n v h in
    let (cleared, none_marked) = clear-IsStamped (ensure_capacity n v) grown in
    (f, (refl, cleared, omega (arith, room, length-clear (ensure_capacity n v)), none_marked))

-- A pool hands out a list with room for all points, of which none is visited, whoever used it
-- before.
pub get-IsStamped :
    (pool : VisitedPool)
    → IsPool pool
    → IsPool (get pool).0
      × (((get pool).0.n ≡ pool.n)
          × IsStamped (get pool).1
          × (pool.n ≤ length (get pool).1.stamps)
          × ((i : ℕ) → marked i (get pool).1 ≡ false))
get-IsStamped pool f = get-list pool.n pool.free f
