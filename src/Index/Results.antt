-- ===== src/Index/Results.antt =====
-- What the scans of crates/vecvec-core/src/index/mod.rs return.
use vecvec.Prelude.{
  ℕ, suc, ◌≡◌, ◌⊎◌, refl, ap, Bool, true, Option, List, [], ◌∷◌, map, length, All, Bool-cases, inl,
  inr,
}
use vecvec.Index.Order.{Ordered, insert_key, insert_keys}
use vecvec.Index.Scan.{Scores, RankKey, key_order, score_from_badness, admits}

-- The list has the row.
abbrev pub Has : {V : Type 0} → List (ℕ × V) → ℕ → V → Type 0
Has [] id v = ⊥
Has ((i, w) ∷ rows) id v = ((i ≡ id) × (w ≡ v)) ⊎ Has rows id v

module _ {A B : Type 0} where
  pub All-map :
      (P : A → Type 0) (Q : B → Type 0) (f : A → B)
      → ((a : A) → P a → Q (f a))
      → (xs : List A) → All P xs
      → All Q (map f xs)
  All-map P Q f h [] a = tt
  All-map P Q f h (x ∷ xs) (k, a) = (h x k, All-map P Q f h xs a)

  pub length-map : (f : A → B) (xs : List A) → length (map f xs) ≡ length xs
  length-map f [] = refl
  length-map f (x ∷ xs) = ap suc (length-map f xs)

module _ {K : Type 0} ⦃ord : Ordered K⦄ (P : K → Type 0) where
  pub All-insert_key : (x : K) (xs : List K) → P x → All P xs → All P (insert_key x xs)
  All-insert_key x [] h a = (h, tt)
  All-insert_key x (y ∷ ys) h (k, a) = elim (Bool-cases (ord.leb y x)) [
    | inl e ↦ rw e (k, All-insert_key x ys h a)
    | inr e ↦ rw e (h, (k, a))
  ]

  pub All-insert_keys :
      (sorted xs : List K) → All P sorted → All P xs → All P (insert_keys sorted xs)
  All-insert_keys sorted [] a b = a
  All-insert_keys sorted (x ∷ xs) a (h, b) =
      All-insert_keys (insert_key x sorted) xs (All-insert_key x sorted h a) b

module _ ⦃sc : Scores⦄ {V : Type 0} (score_of : V → sc.Score)
    (tombstones filter : Option (ℕ → Bool)) (neg_neg : (s : sc.Score) → sc.neg (sc.neg s) ≡ s) where
  -- The id and the score are those of a row that is looked at.
  abbrev pub IsResult : List (ℕ × V) → ℕ × sc.Score → Type 0
  IsResult rows (id, score) =
      (admits tombstones filter id ≡ true) × ((v : V) × Has rows id v × (score ≡ score_of v))

  abbrev IsKey : Bool → List (ℕ × V) → RankKey → Type 0
  IsKey higher rows (badness, id) = IsResult rows (id, score_from_badness badness higher)
