-- ===== src/Version/Deletion.antt =====
-- Deletion vectors, crates/vecvec-core/src/version/deletion.rs, over the bitmap of the crate
-- roaring, of which only the documented behaviour is used.
use vecvec.Prelude.{ℕ, ◌+◌, ◌≡◌, Bool, false, ◌||◌, ◌&&◌, not, List, length, ◌==◌, if◌then◌else◌}
use vecvec.Prelude.Maps.{mem}

-- `roaring::RoaringTreemap`: a set of 64-bit numbers that iterates in ascending order.
pub record Treemap : Type 1 where
  pub Bitmap : Type 0
  pub empty : Bitmap
  -- `insert`: the set with the number, and whether it is new
  pub insert : ℕ → Bitmap → Bitmap × Bool
  pub contains : ℕ → Bitmap → Bool
  pub len : Bitmap → ℕ
  pub items : Bitmap → List ℕ
  -- `&a - &b`
  pub minus : Bitmap → Bitmap → Bitmap
  pub contains-empty : (i : ℕ) → contains i empty ≡ false
  pub contains-insert :
      (i j : ℕ) (b : Bitmap) → contains i (insert j b).0 ≡ (i == j || contains i b)
  pub insert_newly : (j : ℕ) (b : Bitmap) → (insert j b).1 ≡ not (contains j b)
  pub mem-items : (i : ℕ) (b : Bitmap) → mem i (items b) ≡ contains i b
  pub len-items : (b : Bitmap) → len b ≡ length (items b)
  pub len-empty : len empty ≡ 0
  pub len-insert :
      (j : ℕ) (b : Bitmap) → len (insert j b).0 ≡ (if contains j b then len b else len b + 1)
  pub contains-minus :
      (i : ℕ) (a b : Bitmap) → contains i (minus a b) ≡ (contains i a && not (contains i b))

module _ ⦃tm : Treemap⦄ where
  -- `DeletionVector`
  pub record DeletionVector : Type 0 where
    pub bitmap : tm.Bitmap

  abbrev pub new : DeletionVector
  new = record { bitmap = tm.empty }

  unfoldable pub insert : ℕ → DeletionVector → DeletionVector × Bool
  insert id d = let (b, newly) = tm.insert id d.bitmap in (record { bitmap = b }, newly)

  unfoldable pub contains : ℕ → DeletionVector → Bool
  contains id d = tm.contains id d.bitmap

  unfoldable pub len : DeletionVector → ℕ
  len d = tm.len d.bitmap

  unfoldable pub iter : DeletionVector → List ℕ
  iter d = tm.items d.bitmap

  unfoldable pub difference : DeletionVector → DeletionVector → List ℕ
  difference a b = tm.items (tm.minus a.bitmap b.bitmap)
