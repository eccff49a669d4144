-- ===== src/Index/Order.antt =====
-- Sorted lists of keys: what `BinaryHeap` and `sort_unstable` do with the keys of
-- crates/vecvec-core/src/index/mod.rs. Keys that compare equal are equal, so that neither the
-- order inside a heap nor that of equal keys can be observed.
use vecvec.Prelude.{
  ℕ, zero, suc, ◌≡◌, refl, sym, ap, ◌∙◌, Bool, true, false, Option, none, some, List, [], ◌∷◌, ◌++◌,
  take, if◌then◌else◌, Bool-cases, inl, inr, append_assoc, append-nil,
}

-- `Ord`
pub record Ordered (K : Type 0) : Type 0 where
  pub leb : K → K → Bool
  pub leb_total : (a b : K) → leb a b ≡ false → leb b a ≡ true
  pub leb_trans : (a b c : K) → leb a b ≡ true → leb b c ≡ true → leb a c ≡ true
  pub leb_antisym : (a b : K) → leb a b ≡ true → leb b a ≡ true → a ≡ b

module _ {K : Type 0} ⦃ord : Ordered K⦄ where
  -- Into a sorted list, behind the keys that are not greater.
  abbrev pub insert_key : K → List K → List K
  insert_key x [] = x ∷ []
  insert_key x (y ∷ ys) = let rest = insert_key x ys in if ord.leb y x then y ∷ rest else x ∷ y ∷ ys

  -- One key after the other.
  abbrev pub insert_keys : List K → List K → List K
  insert_keys sorted [] = sorted
  insert_keys sorted (x ∷ xs) = insert_keys (insert_key x sorted) xs

  -- `sort_unstable`
  abbrev pub sort_keys : List K → List K
  sort_keys keys = insert_keys [] keys

  -- `peek` and `pop` of the greatest key.
  abbrev pub last_key : List K → Option K
  last_key [] = none
  last_key (x ∷ []) = some x
  last_key (x ∷ y ∷ ys) = last_key (y ∷ ys)

  abbrev pub without_last : List K → List K
  without_last [] = []
  without_last (x ∷ []) = []
  without_last (x ∷ y ∷ ys) = x ∷ without_last (y ∷ ys)

  -- All keys are at most `x`; the list ascends.
  abbrev pub AllBelow : K → List K → Type 0
  AllBelow x [] = Unit
  AllBelow x (y ∷ ys) = (ord.leb y x ≡ true) × AllBelow x ys

  abbrev pub AllAbove : K → List K → Type 0
  AllAbove x [] = Unit
  AllAbove x (y ∷ ys) = (ord.leb x y ≡ true) × AllAbove x ys

  abbrev pub IsAscending : List K → Type 0
  IsAscending [] = Unit
  IsAscending (x ∷ xs) = AllAbove x xs × IsAscending xs

  AllAbove-insert_key :
      (a x : K) (ys : List K) → ord.leb a x ≡ true → AllAbove a ys → AllAbove a (insert_key x ys)
  AllAbove-insert_key a x [] h b = (h, tt)
  AllAbove-insert_key a x (y ∷ ys) h (k, b) = elim (Bool-cases (ord.leb y x)) [
    | inl e ↦ rw e (k, AllAbove-insert_key a x ys h b)
    | inr e ↦ rw e (h, (k, b))
  ]

  AllAbove-leb : (a x : K) (ys : List K) → ord.leb a x ≡ true → AllAbove x ys → AllAbove a ys
  AllAbove-leb a x [] h b = tt
  AllAbove-leb a x (y ∷ ys) h (k, b) = (ord.leb_trans a x y h k, AllAbove-leb a x ys h b)

  pub insert_key-IsAscending :
      (x : K) (ys : List K) → IsAscending ys → IsAscending (insert_key x ys)
  insert_key-IsAscending x [] s = (tt, tt)
  insert_key-IsAscending x (y ∷ ys) (b, s) = elim (Bool-cases (ord.leb y x)) [
    | inl e ↦ rw e (AllAbove-insert_key y x ys e b, insert_key-IsAscending x ys s)
    | inr e ↦ let below = ord.leb_total y x e in rw e ((below, AllAbove-leb x y ys below b), (b, s))
  ]

  pub insert_keys-IsAscending :
      (sorted xs : List K) → IsAscending sorted → IsAscending (insert_keys sorted xs)
  insert_keys-IsAscending sorted [] s = s
  insert_keys-IsAscending sorted (x ∷ xs) s =
      insert_keys-IsAscending (insert_key x sorted) xs (insert_key-IsAscending x sorted s)

  AllAbove-take : (a : K) (k : ℕ) (ys : List K) → AllAbove a ys → AllAbove a (take k ys)
  AllAbove-take a zero ys b = tt
  AllAbove-take a (suc k) [] b = tt
  AllAbove-take a (suc k) (y ∷ ys) (h, b) = (h, AllAbove-take a k ys b)

  pub take-IsAscending : (k : ℕ) (ys : List K) → IsAscending ys → IsAscending (take k ys)
  take-IsAscending zero ys s = tt
  take-IsAscending (suc k) [] s = tt
  take-IsAscending (suc k) (y ∷ ys) (b, s) = (AllAbove-take y k ys b, take-IsAscending k ys s)

  insert_key_last : (x : K) (ys : List K) → AllBelow x ys → insert_key x ys ≡ ys ++ x ∷ []
  insert_key_last x [] b = refl
  insert_key_last x (y ∷ ys) (h, b) = rw h (ap (◌∷◌ y) (insert_key_last x ys b))

  -- The keys so far are below all that follow.
  abbrev Precedes : List K → List K → Type 0
  Precedes [] ys = Unit
  Precedes (x ∷ xs) ys = AllAbove x ys × Precedes xs ys

  Precedes-head : (xs : List K) (y : K) (ys : List K) → Precedes xs (y ∷ ys) → AllBelow y xs
  Precedes-head [] y ys p = tt
  Precedes-head (x ∷ xs) y ys ((h, b), p) = (h, Precedes-head xs y ys p)

  Precedes-next :
      (xs : List K) (y : K) (ys : List K)
      → Precedes xs (y ∷ ys)
      → AllAbove y ys
      → Precedes (xs ++ y ∷ []) ys
  Precedes-next [] y ys p a = (a, tt)
  Precedes-next (x ∷ xs) y ys ((h, b), p) a = (b, Precedes-next xs y ys p a)

  insert_keys-ascending :
      (xs ys : List K) → Precedes xs ys → IsAscending ys → insert_keys xs ys ≡ xs ++ ys
  insert_keys-ascending xs [] p s = sym (append-nil xs)
  insert_keys-ascending xs (y ∷ ys) p (a, s) =
      ap (λ l. insert_keys l ys) (insert_key_last y xs (Precedes-head xs y ys p))
      ∙ insert_keys-ascending (xs ++ y ∷ []) ys (Precedes-next xs y ys p a) s
      ∙ append_assoc xs (y ∷ []) ys

  -- Sorting a sorted list leaves it as it is.
  pub sort_keys-IsAscending : (ys : List K) → IsAscending ys → sort_keys ys ≡ ys
  sort_keys-IsAscending ys s = insert_keys-ascending [] ys tt s
