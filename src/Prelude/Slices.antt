-- ===== src/Prelude/Slices.antt =====
-- Slices of a concatenation: what `bytes[a..b]` is when the cut falls between two parts.
use Prim.Native.Nat.{ℕ, zero, suc, ◌+◌, ◌≤◌}
use mathlib.Core.Path.{◌≡◌, refl, ap, sym, ◌∙◌}
use mathlib.Core.List.{List, [], ◌∷◌, ◌++◌}
use native.Mathlib.Omega.{arith}
use vecvec.Prelude.Lists.{length, take, drop, take-append-drop, All}

module _ {ℓ} {A : Type ℓ} where
  pub drop_prefix : (n : ℕ) (xs ys : List A) → n ≡ length xs → drop n (xs ++ ys) ≡ ys
  drop_prefix zero [] ys h = refl
  drop_prefix zero (x ∷ xs) ys h = absurd (omega arith)
  drop_prefix (suc n) [] ys h = absurd (omega arith)
  drop_prefix (suc n) (x ∷ xs) ys h = drop_prefix n xs ys (omega arith)

  -- A cut behind the first part falls in the second.
  pub drop_append_ge :
      (n k : ℕ) (xs ys : List A) → n ≡ length xs + k → drop n (xs ++ ys) ≡ drop k ys
  drop_append_ge n k [] ys h = ap (λ m. drop m ys) {x = n} {y = k} (omega arith)
  drop_append_ge zero k (x ∷ xs) ys h = absurd (omega arith)
  drop_append_ge (suc n) k (x ∷ xs) ys h = drop_append_ge n k xs ys (omega arith)

  pub take_prefix : (n : ℕ) (xs ys : List A) → n ≡ length xs → take n (xs ++ ys) ≡ xs
  take_prefix zero [] ys h = refl
  take_prefix zero (x ∷ xs) ys h = absurd (omega arith)
  take_prefix (suc n) [] ys h = absurd (omega arith)
  take_prefix (suc n) (x ∷ xs) ys h = ap (◌∷◌ x) (take_prefix n xs ys (omega arith))

  -- A cut inside the first part does not see the second.
  pub take_append_le : (n : ℕ) (xs ys : List A) → n ≤ length xs → take n (xs ++ ys) ≡ take n xs
  take_append_le zero xs ys h = refl
  take_append_le (suc n) [] ys h = absurd (omega arith)
  take_append_le (suc n) (x ∷ xs) ys h = ap (◌∷◌ x) (take_append_le n xs ys (omega arith))

  -- A cut behind the first part leaves it whole.
  pub take_append_ge :
      (n k : ℕ) (xs ys : List A) → n ≡ length xs + k → take n (xs ++ ys) ≡ xs ++ take k ys
  take_append_ge n k [] ys h = ap (λ m. take m ys) {x = n} {y = k} (omega arith)
  take_append_ge zero k (x ∷ xs) ys h = absurd (omega arith)
  take_append_ge (suc n) k (x ∷ xs) ys h = ap (◌∷◌ x) (take_append_ge n k xs ys (omega arith))

  -- `bytes[off..off + n]`, where `bytes` is known to hold `mid` there.
  pub slice_of :
      (off n : ℕ) (pre mid post bytes : List A)
      → bytes ≡ pre ++ (mid ++ post)
      → off ≡ length pre
      → n ≡ length mid
      → take n (drop off bytes) ≡ mid
  slice_of off n pre mid post bytes e p q =
      rw (e, drop_prefix off pre (mid ++ post) p) (take_prefix n mid post q)

  -- A slice before `e` is the same in every file that begins with the same `e` bytes.
  pub slice-take :
      (off n e : ℕ) (bytes tail : List A)
      → off + n ≤ e
      → e ≤ length bytes
      → take n (drop off (take e bytes ++ tail)) ≡ take n (drop off bytes)
  slice-take zero zero e bytes tail h k = refl
  slice-take zero (suc n) zero bytes tail h k = absurd (omega arith)
  slice-take zero (suc n) (suc e) [] tail h k = absurd (omega arith)
  slice-take zero (suc n) (suc e) (x ∷ bytes) tail h k =
      ap (◌∷◌ x) (slice-take zero n e bytes tail (omega arith) (omega arith))
  slice-take (suc off) n zero bytes tail h k = absurd (omega arith)
  slice-take (suc off) n (suc e) [] tail h k = absurd (omega arith)
  slice-take (suc off) n (suc e) (x ∷ bytes) tail h k =
      slice-take off n e bytes tail (omega arith) (omega arith)

  drop-nil : (n : ℕ) → drop {A = A} n [] ≡ []
  drop-nil zero = refl
  drop-nil (suc n) = refl

  pub drop-drop : (m n k : ℕ) (xs : List A) → k ≡ m + n → drop n (drop m xs) ≡ drop k xs
  drop-drop zero n k xs e = ap (λ i. drop i xs) {x = n} {y = k} (omega arith)
  drop-drop (suc m) n k [] e = drop-nil n ∙ sym (drop-nil k)
  drop-drop (suc m) n zero (x ∷ xs) e = absurd (omega arith)
  drop-drop (suc m) n (suc k) (x ∷ xs) e = drop-drop m n k xs (omega arith)

  -- What stands from `m` on is the slice to `k`, and what stands from `k` on.
  pub split_slice :
      (m n k : ℕ) (xs : List A) → k ≡ m + n → drop m xs ≡ take n (drop m xs) ++ drop k xs
  split_slice m n k xs e =
      sym (take-append-drop n (drop m xs)) ∙ ap (◌++◌ (take n (drop m xs))) (drop-drop m n k xs e)

  pub drop-take : (m n k : ℕ) (xs : List A) → k ≡ m + n → drop m (take k xs) ≡ take n (drop m xs)
  drop-take zero n k xs e = ap (λ i. take i xs) {x = k} {y = n} (omega arith)
  drop-take (suc m) n zero xs e = absurd (omega arith)
  drop-take (suc m) n (suc k) [] e = sym (take-nil n)
    where
      take-nil : (n : ℕ) → take {A = A} n [] ≡ []
      take-nil zero = refl
      take-nil (suc n) = refl
  drop-take (suc m) n (suc k) (x ∷ xs) e = drop-take m n k xs (omega arith)

  pub All-take {κ} : (P : A → Type κ) (n : ℕ) (xs : List A) → All P xs → All P (take n xs)
  All-take P zero xs a = tt
  All-take P (suc n) [] a = tt
  All-take P (suc n) (x ∷ xs) (h, a) = (h, All-take P n xs a)

  pub All-drop {κ} : (P : A → Type κ) (n : ℕ) (xs : List A) → All P xs → All P (drop n xs)
  All-drop P zero xs a = a
  All-drop P (suc n) [] a = a
  All-drop P (suc n) (x ∷ xs) (h, a) = All-drop P n xs a
