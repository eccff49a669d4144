-- ===== src/Index/Scan.antt =====
-- The scans of crates/vecvec-core/src/index/mod.rs: the one that keeps k results and the reference
-- that sorts all. The vectors of the storage, the kernel's score of a vector against the query, the
-- tombstones and the filter are arguments.
use vecvec.Prelude.{
  ℕ, ◌≡◌, refl, sym, ap, ◌∙◌, Bool, true, false, not, ◌&&◌, Option, none, some, List, [], ◌∷◌, ◌++◌,
  map, take, leb, arith, if◌then◌else◌, append_assoc, append-nil, take_of_length-le, Bool-cases,
  inl, inr,
}
use vecvec.Index.Order.{Ordered, sort_keys, sort_keys-IsAscending}
use vecvec.Index.TopK.{offer_key, offer_keys, offer_keys-take, offer_keys-IsAscending}

-- 32-bit floats under `total_cmp`, and their negation.
pub record Scores : Type 1 where
  pub Score : Type 0
  pub neg : Score → Score
  pub total_cmp : Ordered Score

-- The order of pairs: by the first, then by the second.
abbrev pub pair_leb : {A : Type 0} → Ordered A → A × ℕ → A × ℕ → Bool
pair_leb ord (a, i) (b, j) = if ord.leb a b then (if ord.leb b a then leb i j else true) else false

pub pair_total :
    {A : Type 0} (ord : Ordered A) (x y : A × ℕ)
    → pair_leb ord x y ≡ false
    → pair_leb ord y x ≡ true
pair_total ord (a, i) (b, j) h = ground (arith, ord.leb_total a b, ord.leb_total b a)

pub pair_trans :
    {A : Type 0} (ord : Ordered A) (x y z : A × ℕ)
    → pair_leb ord x y ≡ true
    → pair_leb ord y z ≡ true
    → pair_leb ord x z ≡ true
pair_trans ord (a, i) (b, j) (c, k) h g =
    ground (arith, ord.leb_trans a b c, ord.leb_trans c a b, ord.leb_trans b c a)

pub pair_antisym :
    {A : Type 0} (ord : Ordered A) (x y : A × ℕ)
    → pair_leb ord x y ≡ true
    → pair_leb ord y x ≡ true
    → x ≡ y
pair_antisym ord (a, i) (b, j) h g =
    let first : a ≡ b = ord.leb_antisym a b (ground arith) (ground arith) in
    let second : i ≡ j = ground arith in λ t. (first t, second t)

module _ ⦃sc : Scores⦄ where
  abbrev pub RankKey : Type 0
  RankKey = sc.Score × ℕ

  instance abbrev pub key_order : Ordered RankKey
  key_order = record {
    leb = pair_leb sc.total_cmp;
    leb_total = pair_total sc.total_cmp;
    leb_trans = pair_trans sc.total_cmp;
    leb_antisym = pair_antisym sc.total_cmp;
  }

  -- `rank_key`
  unfoldable pub rank_key : sc.Score → ℕ → Bool → RankKey
  rank_key score id higher_is_better = (if higher_is_better then sc.neg score else score, id)

  -- `score_from_badness`
  unfoldable pub score_from_badness : sc.Score → Bool → sc.Score
  score_from_badness badness higher_is_better = if higher_is_better then sc.neg badness else badness

  -- `BoundedTopK`: the keys of its heap, in ascending order.
  pub record BoundedTopK : Type 0 where
    pub k : ℕ
    pub higher_is_better : Bool
    pub heap : List RankKey

  unfoldable pub new : ℕ → Bool → BoundedTopK
  new k higher_is_better = record { k = k; higher_is_better = higher_is_better; heap = [] }

  unfoldable pub offer : ℕ → sc.Score → BoundedTopK → BoundedTopK
  unfolding rank_key
  offer id score t = record t { heap = offer_key t.k (rank_key score id t.higher_is_better) t.heap }

  unfoldable pub into_sorted : BoundedTopK → List (ℕ × sc.Score)
  unfolding score_from_badness
  into_sorted t =
      map (λ (key : RankKey). (key.1, score_from_badness key.0 t.higher_is_better))
        (sort_keys t.heap)

  -- Whether the scans look at a row.
  abbrev pub admits : Option (ℕ → Bool) → Option (ℕ → Bool) → ℕ → Bool
  admits none none id = true
  admits none (some matches) id = matches id
  admits (some gone) none id = not (gone id)
  admits (some gone) (some matches) id = not (gone id) && matches id

  module _ {V : Type 0} (score_of : V → sc.Score) (tombstones filter : Option (ℕ → Bool)) where
    -- The loop of `scan_topk`.
    abbrev pub scan_loop : List (ℕ × V) → BoundedTopK → BoundedTopK
    scan_loop [] t = t
    scan_loop ((id, v) ∷ rows) t =
        scan_loop rows (if admits tombstones filter id then offer id (score_of v) t else t)

    unfoldable pub scan_topk : Bool → List (ℕ × V) → ℕ → List (ℕ × sc.Score)
    scan_topk higher rows k = into_sorted (scan_loop rows (new k higher))

    -- The loop of `brute_force_topk`.
    abbrev pub brute_loop : Bool → List (ℕ × V) → List RankKey → List RankKey
    brute_loop higher [] scored = scored
    brute_loop higher ((id, v) ∷ rows) scored = brute_loop higher rows (
        if admits tombstones filter id
        then scored ++ rank_key (score_of v) id higher ∷ []
        else scored)

    unfoldable pub brute_force_topk : Bool → List (ℕ × V) → ℕ → List (ℕ × sc.Score)
    unfolding score_from_badness
    brute_force_topk higher rows k =
        map (λ (key : RankKey). (key.1, score_from_badness key.0 higher))
          (take k (sort_keys (brute_loop higher rows [])))

    -- The keys of the rows that are looked at.
    abbrev keys_of : Bool → List (ℕ × V) → List RankKey
    keys_of higher [] = []
    keys_of higher ((id, v) ∷ rows) =
        let rest = keys_of higher rows in
        if admits tombstones filter id then rank_key (score_of v) id higher ∷ rest else rest

    brute_loop-keys_of :
        (higher : Bool) (rows : List (ℕ × V)) (scored : List RankKey)
        → brute_loop higher rows scored ≡ scored ++ keys_of higher rows
    brute_loop-keys_of higher [] scored = sym (append-nil scored)
    brute_loop-keys_of higher ((id, v) ∷ rows) scored =
        elim (Bool-cases (admits tombstones filter id)) [
          | inl e ↦ rw e (
              brute_loop-keys_of higher rows (scored ++ rank_key (score_of v) id higher ∷ [])
              ∙ append_assoc scored (rank_key (score_of v) id higher ∷ []) (keys_of higher rows))
          | inr e ↦ rw e (brute_loop-keys_of higher rows scored)
        ]

    scan_loop-keys_of :
        (rows : List (ℕ × V)) (t : BoundedTopK)
        → scan_loop rows t
          ≡ record t { heap = offer_keys t.k (keys_of t.higher_is_better rows) t.heap }
    unfolding offer
    scan_loop-keys_of [] t = refl
    scan_loop-keys_of ((id, v) ∷ rows) t = elim (Bool-cases (admits tombstones filter id)) [
      | inl e ↦ rw e (scan_loop-keys_of rows (offer id (score_of v) t))
      | inr e ↦ rw e (scan_loop-keys_of rows t)
    ]

    -- The scan that keeps at most k results at a time returns what the reference returns, which
    -- sorts the results of all rows and takes the first k: the same ids with the same scores in
    -- the same order, under every metric's polarity, with tombstones and a filter or without.
    pub scan_topk-brute_force_topk :
        (higher : Bool) (rows : List (ℕ × V)) (k : ℕ)
        → scan_topk higher rows k ≡ brute_force_topk higher rows k
    unfolding scan_topk brute_force_topk into_sorted new
    scan_topk-brute_force_topk higher rows k =
        let kept : offer_keys k (keys_of higher rows) []
            ≡ take k (sort_keys (keys_of higher rows)) =
          offer_keys-take k (keys_of higher rows) [] [] tt
            (sym (take_of_length-le k [] (omega arith))) in
        ap into_sorted (scan_loop-keys_of rows (new k higher))
        ∙ ap (λ l. map (λ (key : RankKey). (key.1, score_from_badness key.0 higher)) (sort_keys l))
            kept
        ∙ ap (map (λ (key : RankKey). (key.1, score_from_badness key.0 higher))) (
            sort_keys-IsAscending (take k (sort_keys (keys_of higher rows)))
              (offer_keys-IsAscending k (keys_of higher rows)))
        ∙ ap
            (λ l.
              map (λ (key : RankKey). (key.1, score_from_badness key.0 higher))
                (take k (sort_keys l)))
            (sym (brute_loop-keys_of higher rows []))
