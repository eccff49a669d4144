-- ===== src/Hnsw/Beams.antt =====
-- The beam search of crates/vecvec-core/src/index/hnsw/search.rs ends, and what it finds.
use vecvec.Prelude.{
  ℕ, zero, suc, ◌+◌, ◌-◌, ◌<◌, ◌≤◌, ◌≡◌, refl, ◌∙◌, Bool, true, false, ◌&&◌, List, [], ◌∷◌, length,
  ltb, if◌then◌else◌, All, arith, Bool-cases, inl, inr,
}
use vecvec.Error.{ok}
use vecvec.Index.Order.{
  insert_key, last_key, without_last, IsAscending, insert_key-IsAscending, sort_keys-IsAscending,
  AllAbove,
}
use vecvec.Index.Results.{All-insert_key}
use vecvec.Index.Scan.{Scores, RankKey, key_order}
use vecvec.Hnsw.Visited.{VisitedList, clear}
use vecvec.Hnsw.Marks.{
  IsStamped, unmarked, Visits, visit-Visits, clear-IsStamped, length-clear, unmarked-le,
}
use vecvec.Hnsw.Layer.{
  Graph, Beam, collect, is_near, is_over, admitted, enter_all, expand_all, explore, search_layer,
}

module _ ⦃sc : Scores⦄ where
  length-insert : (x : RankKey) (ys : List RankKey) → length (insert_key x ys) ≡ suc (length ys)
  length-insert x [] = refl
  length-insert x (y ∷ ys) = ground (arith, length-insert x ys)

  pub length-without_last : (ys : List RankKey) → length (without_last ys) ≡ length ys - 1
  length-without_last [] = refl
  length-without_last (y ∷ []) = refl
  length-without_last (y ∷ z ∷ ys) = omega (arith, length-without_last (z ∷ ys))

  module _ (F : RankKey → Type 0) where
    All-without : (ys : List RankKey) → All F ys → All F (without_last ys)
    All-without [] a = a
    All-without (y ∷ []) a = tt
    All-without (y ∷ z ∷ ys) (h, a) = (h, All-without (z ∷ ys) a)

    All-collect :
        (ef : ℕ) (x : RankKey) (ys : List RankKey) → F x → All F ys → All F (collect ef x ys)
    All-collect ef x ys h a = elim (Bool-cases (ltb ef (length (insert_key x ys)))) [
      | inl e ↦ rw e (All-without (insert_key x ys) (All-insert_key F x ys h a))
      | inr e ↦ rw e (All-insert_key F x ys h a)
    ]

  AllAbove-without :
      (a : RankKey) (ys : List RankKey) → AllAbove a ys → AllAbove a (without_last ys)
  AllAbove-without a [] h = h
  AllAbove-without a (y ∷ []) h = tt
  AllAbove-without a (y ∷ z ∷ ys) (h, k) = (h, AllAbove-without a (z ∷ ys) k)

  without-IsAscending : (ys : List RankKey) → IsAscending ys → IsAscending (without_last ys)
  without-IsAscending [] h = h
  without-IsAscending (y ∷ []) h = tt
  without-IsAscending (y ∷ z ∷ ys) (a, s) =
      (AllAbove-without y (z ∷ ys) a, without-IsAscending (z ∷ ys) s)

  collect-IsAscending :
      (ef : ℕ) (x : RankKey) (ys : List RankKey) → IsAscending ys → IsAscending (collect ef x ys)
  collect-IsAscending ef x ys s = elim (Bool-cases (ltb ef (length (insert_key x ys)))) [
    | inl e ↦ rw e (without-IsAscending (insert_key x ys) (insert_key-IsAscending x ys s))
    | inr e ↦ rw e (insert_key-IsAscending x ys s)
  ]

  length-collect :
      (ef : ℕ) (x : RankKey) (ys : List RankKey) → length ys ≤ ef → length (collect ef x ys) ≤ ef
  length-collect ef x ys h =
      ground (arith, h, length-insert x ys, length-without_last (insert_key x ys))

  module _ (ef : ℕ) (dist : ℕ → sc.Score) (admit : ℕ → Bool) (Q : ℕ → Type 0) (n : ℕ)
      (bounded : (i : ℕ) → Q i → i < n) where
    -- A result has its distance, may be returned, and is of the kind `Q`.
    abbrev pub IsFound : RankKey → Type 0
    IsFound key = (key.0 ≡ dist key.1) × (admit key.1 ≡ true) × Q key.1

    -- Of a beam: no point is queued twice, and so what is queued and what is not yet visited are at
    -- most `room`.
    record IsBeam (room : ℕ) (b : Beam) : Type 0 where
      stamped : IsStamped b.visited
      sized : length b.visited.stamps ≡ n
      ordered : IsAscending b.results
      few : length b.results ≤ ef
      found : All IsFound b.results
      queued : All (λ (key : RankKey). Q key.1) b.candidates
      room_eq : unmarked b.visited + length b.candidates ≤ room

    admitted-IsBeam :
        (room i : ℕ) (b : Beam)
        → IsBeam room b
        → suc (unmarked b.visited + length b.candidates) ≤ room
        → Q i
        → IsBeam room (admitted ef dist admit i b)
    admitted-IsBeam room i b f more q =
        let key : RankKey = (dist i, i) in
        elim (Bool-cases (admit i)) [
          | inl e ↦ rw e (record {
            stamped = f.stamped;
            sized = f.sized;
            ordered = collect-IsAscending ef key b.results f.ordered;
            few = length-collect ef key b.results f.few;
            found = All-collect IsFound ef key b.results (refl, e, q) f.found;
            queued = All-insert_key (λ k. Q k.1) key b.candidates q f.queued;
            room_eq = omega (arith, more, length-insert key b.candidates);
          })
          | inr e ↦ rw e (record {
            stamped = f.stamped;
            sized = f.sized;
            ordered = f.ordered;
            few = f.few;
            found = f.found;
            queued = All-insert_key (λ k. Q k.1) key b.candidates q f.queued;
            room_eq = omega (arith, more, length-insert key b.candidates);
          })
        ]

    stay-IsBeam :
        (room i : ℕ) (b : Beam) (w : VisitedList) (newly : Bool)
        → IsBeam room b
        → Visits i b.visited w newly
        → IsBeam room (record b { visited = w })
    stay-IsBeam room i b w newly f v = record {
      stamped = v.stamped_after;
      sized = v.same_length ∙ f.sized;
      ordered = f.ordered;
      few = f.few;
      found = f.found;
      queued = f.queued;
      room_eq = ground (arith, f.room_eq, v.rest);
    }

    step-IsBeam :
        (room i : ℕ) (b : Beam) (w : VisitedList) (newly flag : Bool)
        → IsBeam room b
        → Visits i b.visited w newly
        → Q i
        → (flag ≡ true → newly ≡ true)
        → IsBeam room (
            if flag
            then admitted ef dist admit i (record b { visited = w })
            else record b { visited = w })
    step-IsBeam room i b w newly true f v q only =
        let e = only refl in
        admitted-IsBeam room i (record b { visited = w }) (stay-IsBeam room i b w newly f v)
          (ground (arith, f.room_eq, v.rest, e)) q
    step-IsBeam room i b w newly false f v q only = stay-IsBeam room i b w newly f v

    enter_all-IsBeam :
        (room : ℕ) (es : List ℕ) (b : Beam)
        → All Q es
        → IsBeam room b
        → (c : Beam) × (enter_all ef dist admit es b ≡ ok c) × IsBeam room c
    enter_all-IsBeam room [] b a f = (b, refl, f)
    enter_all-IsBeam room (e ∷ es) b (q, a) f =
        let (w, newly, run, v) =
          visit-Visits e b.visited f.stamped (omega (arith, bounded e q, f.sized)) in
        let next = step-IsBeam room e b w newly newly f v q (λ h. h) in
        let (c, done, g) = enter_all-IsBeam room es _ a next in (c, rw run done, g)

    expand_all-IsBeam :
        (room : ℕ) (ns : List ℕ) (b : Beam)
        → All Q ns
        → IsBeam room b
        → (c : Beam) × (expand_all ef dist admit ns b ≡ ok c) × IsBeam room c
    expand_all-IsBeam room [] b a f = (b, refl, f)
    expand_all-IsBeam room (i ∷ ns) b (q, a) f =
        let (w, newly, run, v) =
          visit-Visits i b.visited f.stamped (omega (arith, bounded i q, f.sized)) in
        let near = is_near ef (dist i) (last_key b.results) (length b.results) in
        let next = step-IsBeam room i b w newly (newly && near) f v q (λ h. ground (arith, h)) in
        let (c, done, g) = expand_all-IsBeam room ns _ a next in (c, rw run done, g)

    module _ (graph : Graph) (layer : ℕ)
        (closed : (i : ℕ)
          → Q i
          → (ns : List ℕ) × (graph.neighbors i layer ≡ ok ns) × All Q ns) where
      weaken-IsBeam : (room more : ℕ) (b : Beam) → room ≤ more → IsBeam room b → IsBeam more b
      weaken-IsBeam room more b le f = record {
        stamped = f.stamped;
        sized = f.sized;
        ordered = f.ordered;
        few = f.few;
        found = f.found;
        queued = f.queued;
        room_eq = omega (arith, f.room_eq);
      }

      explore-IsBeam :
          (fuel : ℕ) (candidates results : List RankKey) (visited : VisitedList) (room : ℕ)
          → IsBeam room (record { candidates = candidates; results = results; visited = visited })
          → room < fuel
          → (c : Beam) × (explore ef dist admit graph layer fuel
                (record { candidates = candidates; results = results; visited = visited })
              ≡ ok c)
            × IsBeam room c
      explore-IsBeam zero candidates results visited room f lt = absurd (omega (arith, lt))
      explore-IsBeam (suc fuel) [] results visited room f lt =
          (record { candidates = []; results = results; visited = visited }, refl, f)
      explore-IsBeam (suc fuel) ((d, c) ∷ rest) results visited room f lt =
          let popped : Beam = record { candidates = rest; results = results; visited = visited } in
          let left = unmarked visited + length rest in
          let g : IsBeam left popped = record {
            stamped = f.stamped;
            sized = f.sized;
            ordered = f.ordered;
            few = f.few;
            found = f.found;
            queued = f.queued.1;
            room_eq = omega arith;
          } in
          elim (Bool-cases (is_over ef d (last_key results) (length results))) [
            | inl e ↦
                (popped, rw e refl, weaken-IsBeam left room popped (omega (arith, f.room_eq)) g)
            | inr e ↦
                let (ns, here, qs) = closed c f.queued.0 in
                let (m, expanded, h) = expand_all-IsBeam left ns popped qs g in
                let (z, done, k) =
                  explore-IsBeam fuel m.candidates m.results m.visited left h
                    (omega (arith, f.room_eq, lt)) in
                (
                  z,
                  rw (e, here, expanded) done,
                  weaken-IsBeam left room z (omega (arith, f.room_eq)) k,
                )
          ]

      -- Let the entry points be of a kind `Q` that passes from a point to its neighbors, of points
      -- that have neighbors and a place in the visited set. Then the search of a layer ends without
      -- a panic, whatever was visited before and however the distances compare. What it returns
      -- ascends, is not more than `ef`, and consists of points that may be returned, with their
      -- distances, all of the kind `Q`.
      pub search_layer-returns :
          (entry_points : List ℕ) (visited : VisitedList)
          → All Q entry_points
          → IsStamped visited
          → length visited.stamps ≡ n
          → (out : List RankKey) × (after : VisitedList) × (search_layer ef dist admit graph layer
                entry_points visited
              ≡ ok (out, after))
            × IsAscending out
            × (length out ≤ ef)
            × All IsFound out
            × IsStamped after
            × (length after.stamps ≡ n)
      unfolding search_layer
      search_layer-returns entry_points visited q f e =
          let (cleared, none_marked) = clear-IsStamped visited f in
          let size : length (clear visited).stamps ≡ n = length-clear visited ∙ e in
          let first : IsBeam n (record { candidates = []; results = []; visited = clear visited }) =
            record {
              stamped = cleared;
              sized = size;
              ordered = tt;
              few = omega arith;
              found = tt;
              queued = tt;
              room_eq = omega (arith, unmarked-le (clear visited), size);
            } in
          let (b, entered, g) = enter_all-IsBeam n entry_points _ q first in
          let (c, explored, h) =
            explore-IsBeam (suc (length visited.stamps)) b.candidates b.results b.visited n g
              (omega (arith, e)) in
          (
            c.results,
            c.visited,
            rw (entered, explored, sort_keys-IsAscending c.results h.ordered) refl,
            h.ordered,
            h.few,
            h.found,
            h.stamped,
            h.sized,
          )
