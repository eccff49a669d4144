-- ===== src/Examples/Searching.antt =====
-- Kernels and top-k search at concrete inputs.
use vecvec.Distance.Bytes8.{dot_u8, exact_dot, sq_l2_u8, exact_sq_l2, kernels_exact}
use vecvec.Prelude.{
  ◌<◌, ◌^◌, arith, ℕ, ◌≡◌, refl, true, none, some, List, [], ◌∷◌, ◌==◌, ◌+◌, ◌||◌, false,
  if◌then◌else◌,
}
use vecvec.Index.Scan.{
  new, offer, into_sorted, rank_key, score_from_badness, scan_topk, brute_force_topk,
  scan_topk-brute_force_topk,
}
use vecvec.Index.TopK.{offer_key}
use vecvec.Index.Deleted.{
  SoftDeleteSet, is_deleted, deleted_count, delete, delete_all, delete_all_effect, requested,
  news_of, news,
}
use vecvec.Examples.Data.{points, swap_loop, listed}

-- Five rows with their scores, of which row 2 is deleted and rows 0 and 3 are equally good.
abbrev rows : List (ℕ × ℕ)
rows = (0, 50) ∷ (1, 10) ∷ (2, 99) ∷ (3, 50) ∷ (4, 70) ∷ []

best : scan_topk (λ v. v) (some (λ i. i == 2)) none true rows 2 ≡ (4, 70) ∷ (0, 50) ∷ []
unfolding scan_topk into_sorted new offer offer_key rank_key score_from_badness
best = refl

scan_topk-brute_force_topk_example :
    scan_topk (λ v. v) (some (λ i. i == 2)) none true rows 2
    ≡ brute_force_topk (λ v. v) (some (λ i. i == 2)) none true rows 2
scan_topk-brute_force_topk_example =
    scan_topk-brute_force_topk (λ v. v) (some (λ i. i == 2)) none true rows 2

kernels_exact_example :
    (dot_u8 (200 ∷ 7 ∷ []) (3 ∷ 250 ∷ []) ≡ exact_dot (200 ∷ 7 ∷ []) (3 ∷ 250 ∷ []))
    × (exact_dot (200 ∷ 7 ∷ []) (3 ∷ 250 ∷ []) < 2 ^ 31)
    × (sq_l2_u8 (200 ∷ 7 ∷ []) (3 ∷ 250 ∷ []) ≡ exact_sq_l2 (200 ∷ 7 ∷ []) (3 ∷ 250 ∷ []))
    × (exact_sq_l2 (200 ∷ 7 ∷ []) (3 ∷ 250 ∷ []) < 2 ^ 31)
kernels_exact_example =
    kernels_exact (200 ∷ 7 ∷ []) (3 ∷ 250 ∷ []) (omega arith, (omega arith, tt))
      (omega arith, (omega arith, tt)) (omega arith)

abbrev one_deleted : SoftDeleteSet
one_deleted = record { bitmap = 9 ∷ [] }

-- Two threads delete row 5; the one that stores second had first tried on the set before. Then
-- row 9, which is deleted already.
abbrev calls : List (ℕ × List (List ℕ))
calls = (5, []) ∷ (5, (9 ∷ []) ∷ []) ∷ (9, []) ∷ []

reported : (delete_all swap_loop calls one_deleted).1 ≡ (5, true) ∷ (5, false) ∷ (9, false) ∷ []
unfolding delete
reported = refl

delete_all_effect_example :
    ((i : ℕ)
      → (is_deleted i (delete_all swap_loop calls one_deleted).0
          ≡ (is_deleted i one_deleted || requested i calls))
        × (news_of i (delete_all swap_loop calls one_deleted).1
            ≡ (if is_deleted i one_deleted then 0 else if requested i calls then 1 else 0)))
    × (deleted_count (delete_all swap_loop calls one_deleted).0
        ≡ deleted_count one_deleted + news (delete_all swap_loop calls one_deleted).1)
delete_all_effect_example = delete_all_effect swap_loop calls one_deleted
