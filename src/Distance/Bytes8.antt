-- ===== src/Distance/Bytes8.antt =====
-- The kernels on quantized vectors, crates/vecvec-core/src/distance/scalar.rs. A byte is a number
-- below 256; a sum of type `i32` is taken modulo 2 ^ 32, as it wraps where overflow is not checked.
use vecvec.Prelude.{
  ℕ, zero, suc, ◌+◌, ◌-◌, ◌*◌, ◌%◌, ◌^◌, ◌<◌, ◌≤◌, ◌≡◌, ◌∙◌, List, [], ◌∷◌, length, All, arith, leb,
  Bool-cases, inl, inr, if◌then◌else◌,
}
use vecvec.Bytes.{IsByte}

-- `dot_u8`, the products summed from the left.
unfoldable pub dot_u8_from : ℕ → List ℕ → List ℕ → ℕ
dot_u8_from sum (x ∷ xs) (y ∷ ys) = dot_u8_from ((sum + x * y) % 2 ^ 32) xs ys
dot_u8_from sum [] ys = sum
dot_u8_from sum (x ∷ xs) [] = sum

unfoldable pub dot_u8 : List ℕ → List ℕ → ℕ
unfolding dot_u8_from
dot_u8 = dot_u8_from 0

-- The square of a signed difference; one of the two differences on ℕ is zero.
abbrev pub squared : ℕ → ℕ → ℕ
squared x y = (x - y) * (x - y) + (y - x) * (y - x)

-- `sq_l2_u8`
unfoldable pub sq_l2_u8_from : ℕ → List ℕ → List ℕ → ℕ
sq_l2_u8_from sum (x ∷ xs) (y ∷ ys) = sq_l2_u8_from ((sum + squared x y) % 2 ^ 32) xs ys
sq_l2_u8_from sum [] ys = sum
sq_l2_u8_from sum (x ∷ xs) [] = sum

unfoldable pub sq_l2_u8 : List ℕ → List ℕ → ℕ
unfolding sq_l2_u8_from
sq_l2_u8 = sq_l2_u8_from 0

-- The exact sums, of the products and of the squared distances.
abbrev pub exact_dot : List ℕ → List ℕ → ℕ
exact_dot (x ∷ xs) (y ∷ ys) = x * y + exact_dot xs ys
exact_dot [] ys = 0
exact_dot (x ∷ xs) [] = 0

abbrev pub distance : ℕ → ℕ → ℕ
distance x y = if leb x y then y - x else x - y

abbrev pub exact_sq_l2 : List ℕ → List ℕ → ℕ
exact_sq_l2 (x ∷ xs) (y ∷ ys) = distance x y * distance x y + exact_sq_l2 xs ys
exact_sq_l2 [] ys = 0
exact_sq_l2 (x ∷ xs) [] = 0

mul_le : (a b c d : ℕ) → a ≤ c → b ≤ d → a * b ≤ c * d
mul_le zero b c d h g = omega arith
mul_le (suc a) b zero d h g = absurd (omega arith)
mul_le (suc a) b (suc c) d h g = omega (arith, mul_le a b c d (omega arith) g)

product-le : (x y : ℕ) → x < 256 → y < 256 → x * y ≤ 65025
product-le x y a b = mul_le x y 255 255 (omega arith) (omega arith)

distance-le : (x y : ℕ) → x < 256 → y < 256 → distance x y ≤ 255
distance-le x y a b = ground arith

squared-distance : (x y : ℕ) → squared x y ≡ distance x y * distance x y
squared-distance x y = elim (Bool-cases (leb x y)) [
  | inl e ↦ let none_left : x - y ≡ 0 = ground (arith, e) in rw (e, none_left) (omega arith)
  | inr e ↦ let none_left : y - x ≡ 0 = ground (arith, e) in rw (e, none_left) (omega arith)
]

squared-le : (x y : ℕ) → x < 256 → y < 256 → squared x y ≤ 65025
squared-le x y a b =
    let small = distance-le x y a b in
    omega (arith, squared-distance x y, mul_le (distance x y) (distance x y) 255 255 small small)

exact_dot-le :
    (xs ys : List ℕ) → All IsByte xs → All IsByte ys → exact_dot xs ys ≤ 65025 * length xs
exact_dot-le [] ys a b = omega arith
exact_dot-le (x ∷ xs) [] a b = omega arith
exact_dot-le (x ∷ xs) (y ∷ ys) (p, a) (q, b) =
    omega (arith, exact_dot-le xs ys a b, product-le x y p q)

dot_u8_from-eq :
    (sum : ℕ) (xs ys : List ℕ)
    → All IsByte xs
    → All IsByte ys
    → sum + 65025 * length xs < 2 ^ 31
    → dot_u8_from sum xs ys ≡ sum + exact_dot xs ys
unfolding dot_u8_from
dot_u8_from-eq sum [] ys a b h = omega arith
dot_u8_from-eq sum (x ∷ xs) [] a b h = omega arith
dot_u8_from-eq sum (x ∷ xs) (y ∷ ys) (p, a) (q, b) h =
    let small = product-le x y p q in
    let whole : (sum + x * y) % 2 ^ 32 ≡ sum + x * y = omega (arith, small) in
    rw whole (dot_u8_from-eq (sum + x * y) xs ys a b (omega (arith, small)) ∙ omega arith)

exact_sq_l2-le :
    (xs ys : List ℕ) → All IsByte xs → All IsByte ys → exact_sq_l2 xs ys ≤ 65025 * length xs
exact_sq_l2-le [] ys a b = omega arith
exact_sq_l2-le (x ∷ xs) [] a b = omega arith
exact_sq_l2-le (x ∷ xs) (y ∷ ys) (p, a) (q, b) =
    omega (arith, exact_sq_l2-le xs ys a b, squared-le x y p q, squared-distance x y)

sq_l2_u8_from-eq :
    (sum : ℕ) (xs ys : List ℕ)
    → All IsByte xs
    → All IsByte ys
    → sum + 65025 * length xs < 2 ^ 31
    → sq_l2_u8_from sum xs ys ≡ sum + exact_sq_l2 xs ys
unfolding sq_l2_u8_from
sq_l2_u8_from-eq sum [] ys a b h = omega arith
sq_l2_u8_from-eq sum (x ∷ xs) [] a b h = omega arith
sq_l2_u8_from-eq sum (x ∷ xs) (y ∷ ys) (p, a) (q, b) h =
    let small = squared-le x y p q in
    let whole : (sum + squared x y) % 2 ^ 32 ≡ sum + squared x y = omega (arith, small) in
    rw whole (
      sq_l2_u8_from-eq (sum + squared x y) xs ys a b (omega (arith, small))
      ∙ omega (arith, squared-distance x y))

-- On vectors of at most 33025 bytes both kernels compute the exact value, and it fits a signed
-- 32-bit integer: no sum overflows.
pub kernels_exact :
    (xs ys : List ℕ)
    → All IsByte xs
    → All IsByte ys
    → length xs ≤ 33025
    → (dot_u8 xs ys ≡ exact_dot xs ys)
      × (exact_dot xs ys < 2 ^ 31)
      × (sq_l2_u8 xs ys ≡ exact_sq_l2 xs ys)
      × (exact_sq_l2 xs ys < 2 ^ 31)
unfolding dot_u8 sq_l2_u8
kernels_exact xs ys a b h = (
  dot_u8_from-eq 0 xs ys a b (omega arith) ∙ omega arith,
  omega (arith, exact_dot-le xs ys a b),
  sq_l2_u8_from-eq 0 xs ys a b (omega arith) ∙ omega arith,
  omega (arith, exact_sq_l2-le xs ys a b),
)
