-- ===== src/Index/Deleted.antt =====
-- Soft deletion, crates/vecvec-core/src/index/deleted.rs: a bitmap that threads replace by
-- read-copy-update.
use vecvec.Prelude.{
  ℕ, suc, ◌+◌, ◌≡◌, refl, ap, ◌∙◌, Bool, true, false, not, ◌||◌, List, [], ◌∷◌, arith,
  if◌then◌else◌, ◌==◌, ==_iff,
}
use vecvec.Version.Deletion.{Treemap}

-- `ArcSwap::rcu` of the crate arc_swap, for a closure over a flag. It is given the values that the
-- closure was called on in vain, since another thread stored first, the value it replaces and the
-- flag; it returns the value stored and the flag.
pub record Swap (B : Type 0) : Type 0 where
  pub rcu : (B → Bool → B × Bool) → List B → B → Bool → B × Bool
  -- What is stored is what the closure, called last on the value that is replaced, returned.
  pub rcu_last :
      (f : B → Bool → B × Bool) (stale : List B) (current : B) (flag : Bool)
      → (last : Bool) × (rcu f stale current flag ≡ f current last)

-- How many reports there are that an id, or any, is newly deleted.
abbrev pub news_of : ℕ → List (ℕ × Bool) → ℕ
news_of i [] = 0
news_of i ((id, newly) ∷ reports) =
    let rest = news_of i reports in if newly then (if i == id then suc rest else rest) else rest

abbrev pub news : List (ℕ × Bool) → ℕ
news [] = 0
news ((id, newly) ∷ reports) = let rest = news reports in if newly then suc rest else rest

deleted_step :
    (same was now requested : Bool)
    → now ≡ (same || was)
    → (now || requested) ≡ (was || (same || requested))
deleted_step true true now requested h = rw h refl
deleted_step true false now requested h = rw h refl
deleted_step false true now requested h = rw h refl
deleted_step false false now requested h = rw h refl

-- The reports about an id, after a delete of the `same` id or of another one.
news_step :
    (same was was_other now requested newly : Bool) (n : ℕ)
    → newly ≡ not was_other
    → now ≡ (same || was)
    → (same ≡ true → was ≡ was_other)
    → n ≡ (if now then 0 else if requested then 1 else 0)
    → (if newly then (if same then suc n else n) else n)
      ≡ (if was then 0 else if same || requested then 1 else 0)
news_step true was was_other now requested newly n e h equal g = let k = equal refl in ground arith
news_step false was was_other now requested newly n e h equal g = ground arith

count_step :
    (was newly : Bool) (before between after n : ℕ)
    → newly ≡ not was
    → between ≡ (if was then before else before + 1)
    → after ≡ between + n
    → after ≡ before + (if newly then suc n else n)
count_step was newly before between after n e h g = ground arith

module _ ⦃tm : Treemap⦄ where
  -- `SoftDeleteSet`; its `RoaringBitmap` has the operations of the treemap.
  pub record SoftDeleteSet : Type 0 where
    pub bitmap : tm.Bitmap

  unfoldable pub is_deleted : ℕ → SoftDeleteSet → Bool
  is_deleted id s = tm.contains id s.bitmap

  unfoldable pub deleted_count : SoftDeleteSet → ℕ
  deleted_count s = tm.len s.bitmap

  abbrev pub requested : ℕ → List (ℕ × List tm.Bitmap) → Bool
  requested i [] = false
  requested i ((id, stale) ∷ calls) = i == id || requested i calls

  module _ (swap : Swap tm.Bitmap) where
    -- The closure of `delete`: the next bitmap, and the flag `newly` that it sets.
    abbrev pub insert_into : ℕ → tm.Bitmap → Bool → tm.Bitmap × Bool
    insert_into id current newly = tm.insert id current

    -- `delete`, with the bitmaps of its attempts that lost to another thread.
    unfoldable pub delete : ℕ → List tm.Bitmap → SoftDeleteSet → SoftDeleteSet × Bool
    delete id stale s =
        let (next, newly) = swap.rcu (insert_into id) stale s.bitmap false in
        (record { bitmap = next }, newly)

    -- The deletes of all threads, in the order in which they store: the set, and what each
    -- returned, with its id.
    abbrev pub delete_all :
        List (ℕ × List tm.Bitmap) → SoftDeleteSet → SoftDeleteSet × List (ℕ × Bool)
    delete_all [] s = (s, [])
    delete_all ((id, stale) ∷ calls) s =
        let (next, newly) = delete id stale s in
        let (last, reports) = delete_all calls next in (last, (id, newly) ∷ reports)

    abbrev outcome : tm.Bitmap × Bool → SoftDeleteSet × Bool
    outcome (next, newly) = (record { bitmap = next }, newly)

    delete_lem :
        (id : ℕ) (stale : List tm.Bitmap) (s : SoftDeleteSet)
        → delete id stale s ≡ (record { bitmap = (tm.insert id s.bitmap).0 }, not (is_deleted id s))
    unfolding delete is_deleted
    delete_lem id stale s =
        ap outcome (swap.rcu_last (insert_into id) stale s.bitmap false).1
        ∙ ap (λ b. outcome ((tm.insert id s.bitmap).0, b)) (tm.insert_newly id s.bitmap)

    is_deleted-delete :
        (i id : ℕ) (stale : List tm.Bitmap) (s : SoftDeleteSet)
        → is_deleted i (delete id stale s).0 ≡ (i == id || is_deleted i s)
    unfolding is_deleted
    is_deleted-delete i id stale s =
        ap (λ r. is_deleted i r.0) (delete_lem id stale s) ∙ tm.contains-insert i id s.bitmap

    deleted_count-delete :
        (id : ℕ) (stale : List tm.Bitmap) (s : SoftDeleteSet)
        → deleted_count (delete id stale s).0
          ≡ (if is_deleted id s then deleted_count s else deleted_count s + 1)
    unfolding is_deleted deleted_count
    deleted_count-delete id stale s =
        ap (λ r. deleted_count r.0) (delete_lem id stale s) ∙ tm.len-insert id s.bitmap

    -- However the deletes of several threads interleave, and however often each tries again: none
    -- is lost, an id is deleted afterwards exactly if it was or if some thread deleted it; of the
    -- deletes of one id exactly one reports it as newly deleted, and none if it was deleted
    -- before; the count grows by the number of these reports.
    pub delete_all_effect :
        (calls : List (ℕ × List tm.Bitmap)) (s : SoftDeleteSet)
        → ((i : ℕ)
            → (is_deleted i (delete_all calls s).0 ≡ (is_deleted i s || requested i calls))
              × (news_of i (delete_all calls s).1
                  ≡ (if is_deleted i s then 0 else if requested i calls then 1 else 0)))
          × (deleted_count (delete_all calls s).0 ≡ deleted_count s + news (delete_all calls s).1)
    delete_all_effect [] s = (λ i. (ground arith, ground arith), omega arith)
    delete_all_effect ((id, stale) ∷ calls) s =
        let next = (delete id stale s).0 in
        let rest = delete_all_effect calls next in
        let newly : (delete id stale s).1 ≡ not (is_deleted id s) =
          ap (λ r. r.1) (delete_lem id stale s) in
        (
          λ i.
              let was = is_deleted-delete i id stale s in
              (
                (rest.0 i).0
                    ∙ deleted_step (i == id) (is_deleted i s) (is_deleted i next)
                        (requested i calls) was,
                news_step (i == id) (is_deleted i s) (is_deleted id s) (is_deleted i next)
                    (requested i calls) (delete id stale s).1 (news_of i (delete_all calls next).1)
                    newly was (λ h. ap (λ j. is_deleted j s) ((==_iff i id).0 h)) (rest.0 i).1,
              ),
          count_step (is_deleted id s) (delete id stale s).1 (deleted_count s) (deleted_count next)
              (deleted_count (delete_all calls next).0) (news (delete_all calls next).1) newly
              (deleted_count-delete id stale s) rest.1,
        )
