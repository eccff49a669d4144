-- ===== src/Index/TopK.antt =====
-- `BoundedTopK` of crates/vecvec-core/src/index/mod.rs keeps the first k keys.
use vecvec.Prelude.{
  ℕ, zero, suc, ◌≤◌, ◌≡◌, refl, sym, ap, ◌∙◌, true, false, not, none, some, List, [], ◌∷◌, length,
  take, arith, if◌then◌else◌, Bool-cases, inl, inr, ltb, ltb→lt, ==-false, ◌≢◌, some-injective,
  Option-cases, ◌==◌, length-take, take_of_length-le,
}
use vecvec.Index.Order.{
  Ordered, insert_key, insert_keys, sort_keys, last_key, without_last, AllAbove, IsAscending,
  insert_key-IsAscending, insert_keys-IsAscending, take-IsAscending,
}

module _ {K : Type 0} ⦃ord : Ordered K⦄ where
  -- `offer` of a key to a heap that holds at most `k`.
  unfoldable pub offer_key : ℕ → K → List K → List K
  offer_key k key heap =
      if k == 0
      then heap
      else if ltb (length heap) k
      then insert_key key heap
      else elim (last_key heap) [
        | none ↦ heap
        | some worst ↦ if not (ord.leb worst key) then insert_key key (without_last heap) else heap
      ]

  abbrev pub offer_keys : ℕ → List K → List K → List K
  offer_keys k [] heap = heap
  offer_keys k (key ∷ keys) heap = offer_keys k keys (offer_key k key heap)

  take-take : (k : ℕ) (ys : List K) → take k (take (suc k) ys) ≡ take k ys
  take-take zero ys = refl
  take-take (suc k) [] = refl
  take-take (suc k) (y ∷ ys) = ap (◌∷◌ y) (take-take k ys)

  take-cons : (k : ℕ) (y : K) (ys : List K) → take k (y ∷ take k ys) ≡ take k (y ∷ ys)
  take-cons zero y ys = refl
  take-cons (suc k) y ys = ap (◌∷◌ y) (take-take k ys)

  take-insert_key :
      (k : ℕ) (x : K) (ys : List K) → take k (insert_key x (take k ys)) ≡ take k (insert_key x ys)
  take-insert_key zero x ys = refl
  take-insert_key (suc k) x [] = refl
  take-insert_key (suc k) x (y ∷ ys) = elim (Bool-cases (ord.leb y x)) [
    | inl e ↦ rw e (ap (◌∷◌ y) (take-insert_key k x ys))
    | inr e ↦ rw e (ap (◌∷◌ x) (take-cons k y ys))
  ]

  pub length-insert_key : (x : K) (ys : List K) → length (insert_key x ys) ≡ suc (length ys)
  length-insert_key x [] = refl
  length-insert_key x (y ∷ ys) = ground (arith, length-insert_key x ys)

  take-without_last : (y : K) (ys : List K) → take (length ys) (y ∷ ys) ≡ without_last (y ∷ ys)
  take-without_last y [] = refl
  take-without_last y (z ∷ zs) = ap (◌∷◌ y) (take-without_last z zs)

  better :
      (x w y : K) (ys : List K)
      → last_key (y ∷ ys) ≡ some w
      → ord.leb w x ≡ false
      → insert_key x (without_last (y ∷ ys)) ≡ take (length (y ∷ ys)) (insert_key x (y ∷ ys))
  better x w y [] l h =
      let e : ord.leb y x ≡ false = ap (λ a. ord.leb a x) (some-injective y w l) ∙ h in rw e refl
  better x w y (z ∷ zs) l h = elim (Bool-cases (ord.leb y x)) [
    | inl e ↦ rw e (ap (◌∷◌ y) (better x w z zs l h))
    | inr e ↦ rw e (ap (λ t. x ∷ y ∷ t) (sym (take-without_last z zs)))
  ]

  leb-last :
      (a w y : K) (ys : List K)
      → AllAbove a (y ∷ ys)
      → last_key (y ∷ ys) ≡ some w
      → ord.leb a w ≡ true
  leb-last a w y [] (h, b) l = ap (λ c. ord.leb a c) (sym (some-injective y w l)) ∙ h
  leb-last a w y (z ∷ zs) (h, b) l = leb-last a w z zs b l

  worse :
      (x w y : K) (ys : List K)
      → IsAscending (y ∷ ys)
      → last_key (y ∷ ys) ≡ some w
      → ord.leb w x ≡ true
      → take (length (y ∷ ys)) (insert_key x (y ∷ ys)) ≡ y ∷ ys
  worse x w y [] s l h =
      let e : ord.leb y x ≡ true = ap (λ a. ord.leb a x) (some-injective y w l) ∙ h in rw e refl
  worse x w y (z ∷ zs) (b, s) l h =
      let e : ord.leb y x ≡ true = ord.leb_trans y w x (leb-last y w z zs b l) h in
      rw e (ap (◌∷◌ y) (worse x w z zs s l h))

  last_key-none : (y : K) (ys : List K) → last_key (y ∷ ys) ≢ none
  last_key-none y [] e = cc
  last_key-none y (z ∷ zs) e = last_key-none z zs e

  -- An offer to a heap with at most k sorted keys leaves the first k of them and the new one.
  offer_key-take :
      (k : ℕ) (x : K) (heap : List K)
      → IsAscending heap
      → length heap ≤ k
      → offer_key k x heap ≡ take k (insert_key x heap)
  unfolding offer_key
  offer_key-take zero x [] s le = refl
  offer_key-take zero x (y ∷ ys) s le = absurd (omega arith)
  offer_key-take (suc k) x heap s le = elim (Bool-cases (ltb (length heap) (suc k))) [
    | inl e ↦
        rw (==-false (suc k) 0 (λ z. omega (arith, z)), e)
          (sym (
            take_of_length-le (suc k) (insert_key x heap)
              (omega (arith, length-insert_key x heap, ltb→lt (length heap) (suc k) e))))
    | inr e ↦ rw (==-false (suc k) 0 (λ z. omega (arith, z)), e) (full heap s (ground arith))
  ]
    where
      full :
          (heap : List K)
          → IsAscending heap
          → length heap ≡ suc k
          → elim (last_key heap) [
            | none ↦ heap
            | some worst ↦ if not (ord.leb worst x) then insert_key x (without_last heap) else heap
          ]
            ≡ take (suc k) (insert_key x heap)
      full [] s n = absurd (omega arith)
      full (y ∷ ys) s n = elim (Option-cases (last_key (y ∷ ys))) [
        | inl e ↦ absurd (last_key-none y ys e)
        | inr (w, l) ↦ elim (Bool-cases (ord.leb w x)) [
          | inl h ↦
              rw (l, h) (sym (worse x w y ys s l h) ∙ ap (λ m. take m (insert_key x (y ∷ ys))) n)
          | inr h ↦ rw (l, h) (better x w y ys l h ∙ ap (λ m. take m (insert_key x (y ∷ ys))) n)
        ]
      ]

  pub offer_keys-take :
      (k : ℕ) (keys seen heap : List K)
      → IsAscending seen
      → heap ≡ take k seen
      → offer_keys k keys heap ≡ take k (insert_keys seen keys)
  offer_keys-take k [] seen heap s e = e
  offer_keys-take k (x ∷ keys) seen heap s e =
      let step : offer_key k x heap ≡ take k (insert_key x seen) =
        ap (offer_key k x) e
        ∙ offer_key-take k x (take k seen) (take-IsAscending k seen s)
            (omega (arith, length-take k seen))
        ∙ take-insert_key k x seen in
      offer_keys-take k keys (insert_key x seen) (offer_key k x heap)
        (insert_key-IsAscending x seen s) step

  pub offer_keys-IsAscending : (k : ℕ) (keys : List K) → IsAscending (take k (sort_keys keys))
  offer_keys-IsAscending k keys =
      take-IsAscending k (sort_keys keys) (insert_keys-IsAscending [] keys tt)
