-- ===== src/Bytes.antt =====
-- Little-endian integers, as `u32::to_le_bytes` and `u32::from_le_bytes` of the standard library
-- give them, and CRC-32 and MessagePack as the crates crc32fast and rmp-serde document them.
use native.Mathlib.Nat.{pow-suc}
use mathlib.Core.Path.{ap₂}
use vecvec.Prelude.{
  ℕ, zero, suc, ◌+◌, ◌*◌, ◌/◌, ◌%◌, ◌^◌, ◌<◌, ◌≡◌, refl, ap, Option, some, List, [], ◌∷◌, length,
  arith, All, ◌∙◌,
}

-- `n.to_le_bytes()` for a `w`-byte integer: the low `w` bytes, the lowest first.
unfoldable pub to_le_bytes : ℕ → ℕ → List ℕ
to_le_bytes zero n = []
to_le_bytes (suc w) n = (n % 256) ∷ to_le_bytes w (n / 256)

unfoldable pub from_le_bytes : List ℕ → ℕ
from_le_bytes [] = 0
from_le_bytes (b ∷ bs) = b + 256 * from_le_bytes bs

pub length-to_le_bytes : (w n : ℕ) → length (to_le_bytes w n) ≡ w
unfolding to_le_bytes
length-to_le_bytes zero n = refl
length-to_le_bytes (suc w) n = ap suc (length-to_le_bytes w (n / 256))

pub from-to_le_bytes : (w n : ℕ) → n < 256 ^ w → from_le_bytes (to_le_bytes w n) ≡ n
unfolding to_le_bytes from_le_bytes
from-to_le_bytes zero n h = omega arith
from-to_le_bytes (suc w) n h =
    omega (arith, from-to_le_bytes w (n / 256) (omega (arith, pow-suc 256 w)))

abbrev pub IsByte : ℕ → Type 0
IsByte b = b < 256

-- Read and written again, bytes are unchanged.
pub to-from_le_bytes :
    (w : ℕ) (bs : List ℕ) → All IsByte bs → length bs ≡ w → to_le_bytes w (from_le_bytes bs) ≡ bs
unfolding to_le_bytes from_le_bytes
to-from_le_bytes zero [] a h = refl
to-from_le_bytes zero (b ∷ bs) a h = absurd (omega arith)
to-from_le_bytes (suc w) [] a h = absurd (omega arith)
to-from_le_bytes (suc w) (b ∷ bs) (hb, a) h =
    ap₂ ◌∷◌ {x = (b + 256 * from_le_bytes bs) % 256} {y = b} (omega arith) (
      ap (to_le_bytes w) {x = (b + 256 * from_le_bytes bs) / 256} {y = from_le_bytes bs}
        (omega arith)
      ∙ to-from_le_bytes w bs a (omega arith))

pub from_le_bytes-lt :
    (w : ℕ) (bs : List ℕ) → All IsByte bs → length bs ≡ w → from_le_bytes bs < 256 ^ w
unfolding from_le_bytes
from_le_bytes-lt zero [] a h = omega arith
from_le_bytes-lt zero (b ∷ bs) a h = absurd (omega arith)
from_le_bytes-lt (suc w) [] a h = absurd (omega arith)
from_le_bytes-lt (suc w) (b ∷ bs) (hb, a) h =
    omega (arith, from_le_bytes-lt w bs a (omega arith), pow-suc 256 w)

-- crc32fast: `hash` is a 32-bit number that depends on the bytes alone.
pub record Crc : Type 0 where
  pub hash : List ℕ → ℕ
  pub hash_bound : (bs : List ℕ) → hash bs < 256 ^ 4

-- rmp-serde: what `to_vec` writes, `from_slice` reads back. Both may fail.
pub record Codec {ℓ} (T : Type ℓ) : Type ℓ where
  pub to_vec : T → Option (List ℕ)
  pub from_slice : List ℕ → Option T
  pub round_trip : (t : T) (bs : List ℕ) → to_vec t ≡ some bs → from_slice bs ≡ some t
