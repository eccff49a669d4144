-- ===== src/Prelude/Ascending.antt =====
-- Strictly ascending lists of numbers, which are the sets of `BTreeSet<u64>`.
use Prim.Native.Nat.{ℕ, ◌<◌}
use mathlib.Core.Path.{◌≡◌, refl}
use mathlib.Core.Logic.{inl, inr}
use mathlib.Core.Bool.{Bool, false}
use mathlib.Core.List.{List, [], ◌∷◌, ◌++◌}
use native.Mathlib.Omega.{arith}
use vecvec.Prelude.Tests.{ltb, ltb→lt, ◌==◌, Bool-cases}
use vecvec.Prelude.Lists.{keep, All}
use vecvec.Prelude.Maps.{mem, set_insert, set_extend}

abbrev pub IsAscending : List ℕ → Type 0
IsAscending [] = Unit
IsAscending (x ∷ xs) = All (λ y. x < y) xs × IsAscending xs

All-set_insert :
    (x a : ℕ) (s : List ℕ) → x < a → All (λ y. x < y) s → All (λ y. x < y) (set_insert a s)
All-set_insert x a [] h b = (h, tt)
All-set_insert x a (y ∷ s) h (k, b) = elim (Bool-cases (a == y)) [
  | inl e ↦ rw e (k, b)
  | inr e ↦ elim (Bool-cases (ltb a y)) [
    | inl f ↦ rw (e, f) (h, (k, b))
    | inr f ↦ rw (e, f) (k, All-set_insert x a s h b)
  ]
]

All_lower : (x y : ℕ) (s : List ℕ) → x < y → All (λ z. y < z) s → All (λ z. x < z) s
All_lower x y [] h b = tt
All_lower x y (z ∷ s) h (k, b) = (omega arith, All_lower x y s h b)

set_insert-IsAscending : (a : ℕ) (s : List ℕ) → IsAscending s → IsAscending (set_insert a s)
set_insert-IsAscending a [] h = (tt, tt)
set_insert-IsAscending a (x ∷ s) (b, h) = elim (Bool-cases (a == x)) [
  | inl e ↦ rw e (b, h)
  | inr e ↦ elim (Bool-cases (ltb a x)) [
    | inl f ↦ rw (e, f) ((ltb→lt a x f, All_lower a x s (ltb→lt a x f) b), (b, h))
    | inr f ↦ rw (e, f) (All-set_insert x a s (ground arith) b, set_insert-IsAscending a s h)
  ]
]

pub set_extend-IsAscending : (s added : List ℕ) → IsAscending s → IsAscending (set_extend s added)
set_extend-IsAscending s [] h = h
set_extend-IsAscending s (a ∷ added) h =
    set_extend-IsAscending (set_insert a s) added (set_insert-IsAscending a s h)

All-keep : (x : ℕ) (p : ℕ → Bool) (s : List ℕ) → All (λ y. x < y) s → All (λ y. x < y) (keep p s)
All-keep x p [] b = tt
All-keep x p (y ∷ s) (k, b) = elim (Bool-cases (p y)) [
  | inl e ↦ rw e (k, All-keep x p s b)
  | inr e ↦ rw e (All-keep x p s b)
]

pub keep-IsAscending : (p : ℕ → Bool) (s : List ℕ) → IsAscending s → IsAscending (keep p s)
keep-IsAscending p [] h = tt
keep-IsAscending p (x ∷ s) (b, h) = elim (Bool-cases (p x)) [
  | inl e ↦ rw e (All-keep x p s b, keep-IsAscending p s h)
  | inr e ↦ rw e (keep-IsAscending p s h)
]

mem-lower : (x a : ℕ) (s : List ℕ) → All (λ y. x < y) s → a < x → mem a s ≡ false
mem-lower x a [] b h = refl
mem-lower x a (y ∷ s) (k, b) h = ground (arith, mem-lower x a s)

not-mem_self : (x : ℕ) (s : List ℕ) → All (λ y. x < y) s → mem x s ≡ false
not-mem_self x [] b = refl
not-mem_self x (y ∷ s) (k, b) = ground (arith, not-mem_self x s b)

-- Two ascending lists with the same members are the same list.
pub ascending_unique :
    (xs ys : List ℕ) → IsAscending xs → IsAscending ys → ((a : ℕ) → mem a xs ≡ mem a ys) → xs ≡ ys
ascending_unique [] [] h k e = refl
ascending_unique [] (y ∷ ys) h k e = absurd (ground (arith, e y))
ascending_unique (x ∷ xs) [] h k e = absurd (ground (arith, e x))
ascending_unique (x ∷ xs) (y ∷ ys) (b, h) (c, k) e =
    let same : x ≡ y = ground (arith, e x, e y, mem-lower x y xs b, mem-lower y x ys c) in
    let others : (a : ℕ) → mem a xs ≡ mem a ys =
      λ a. ground (arith, e a, not-mem_self x xs b, not-mem_self y ys c) in
    λ i. same i ∷ ascending_unique xs ys h k others i

All-append_one :
    (x a : ℕ) (s : List ℕ) → x < a → All (λ y. x < y) s → All (λ y. x < y) (s ++ a ∷ [])
All-append_one x a [] h b = (h, tt)
All-append_one x a (y ∷ s) h (k, b) = (k, All-append_one x a s h b)

pub IsAscending-append :
    (xs : List ℕ) (a : ℕ) → IsAscending xs → All (λ x. x < a) xs → IsAscending (xs ++ a ∷ [])
IsAscending-append [] a h b = (tt, tt)
IsAscending-append (x ∷ xs) a (c, h) (k, b) =
    (All-append_one x a xs k c, IsAscending-append xs a h b)
