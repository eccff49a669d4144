-- ===== src/Version/Store/Retained.antt =====
-- Which versions a garbage collection retains: `retained_versions` of
-- crates/vecvec-core/src/version/store.rs.
use vecvec.Prelude.{
  ℕ, zero, suc, ◌+◌, ◌<◌, ◌≡◌, refl, ap, ◌∙◌, Bool, true, false, ◌&&◌, ◌||◌, String, Option, none,
  some, List, [], ◌∷◌, ◌++◌, arith, is_some, ◌==◌, ltb, take, length, length-append, if◌then◌else◌,
  any,
}
use mathlib.Core.List.{reverse, reverse-cons}
use vecvec.Prelude.Maps.{
  TreeMap, HashMap, IsSorted, Above, lookup, mem, keys, set_extend, mem-set_extend, mem-keys,
  nat_key, string_key,
}
use vecvec.Version.Deletion.{Treemap}
use vecvec.Version.Store.{
  VersionStore, RetentionRules, retained_versions, pointed, with_head, last_versions,
}

module _ {V : Type 0} where
  -- How many commits are newer than a version.
  abbrev pub newer : ℕ → TreeMap V → ℕ
  newer v [] = 0
  newer v ((w, m) ∷ commits) = (if ltb v w then 1 else 0) + newer v commits

  -- Fewer than the limit are newer; with no limit any version is recent.
  abbrev pub is_recent : Option ℕ → ℕ → TreeMap V → Bool
  is_recent none v commits = true
  is_recent (some limit) v commits = ltb (newer v commits) limit

  pub Above-weaken : (b k : ℕ) (m : TreeMap V) → b < k → Above k m → Above b m
  Above-weaken b k [] h a = tt
  Above-weaken b k ((j, w) ∷ m) h (lt, a) = (omega arith, a)

  pub IsSorted-Above : (b : ℕ) (m : TreeMap V) → Above b m → IsSorted m
  IsSorted-Above b [] a = tt
  IsSorted-Above b ((j, w) ∷ m) (lt, a) = a

  newer-Above : (b : ℕ) (m : TreeMap V) → Above b m → newer b m ≡ length (keys m)
  newer-Above b [] a = refl
  newer-Above b ((j, w) ∷ m) (lt, a) = ground (arith, newer-Above b m (Above-weaken b j m lt a), lt)

  lt-Above : (b v : ℕ) (m : TreeMap V) → Above b m → mem v (keys m) ≡ true → b < v
  lt-Above b v [] a h = cc
  lt-Above b v ((j, w) ∷ m) (lt, a) h = ground (arith, lt-Above b v m (Above-weaken b j m lt a))

mem-take-append :
    (v n : ℕ) (xs : List ℕ) (x : ℕ)
    → mem v (take n (xs ++ x ∷ [])) ≡ (mem v (take n xs) || (ltb (length xs) n && v == x))
mem-take-append v zero [] x = refl
mem-take-append v (suc zero) [] x = ground arith
mem-take-append v (suc (suc n)) [] x = ground arith
mem-take-append v zero (y ∷ xs) x = ground arith
mem-take-append v (suc n) (y ∷ xs) x = ground (arith, mem-take-append v n xs x)

length-reverse : (xs : List ℕ) → length (reverse xs) ≡ length xs
length-reverse [] = refl
length-reverse (x ∷ xs) =
    ap length (reverse-cons x xs)
    ∙ omega (arith, length-reverse xs, length-append (reverse xs) (x ∷ []))

-- Of ascending commits the last `n` are those that fewer than `n` are newer than.
mem-take-reverse :
    {V : Type 0} (v n : ℕ) (m : TreeMap V)
    → IsSorted m
    → mem v (take n (reverse (keys m))) ≡ (mem v (keys m) && ltb (newer v m) n)
mem-take-reverse v zero [] s = refl
mem-take-reverse v (suc n) [] s = refl
mem-take-reverse v n ((k, w) ∷ m) s =
    ap (λ l. mem v (take n l)) (reverse-cons k (keys m))
    ∙ mem-take-append v n (reverse (keys m)) k
    ∙ ground (
      arith,
      mem-take-reverse v n m (IsSorted-Above k m s),
      length-reverse (keys m),
      newer-Above k m s,
      lt-Above k v m s,
    )

-- Some name points to the version.
abbrev pub is_named : ℕ → HashMap String ℕ → Bool
is_named v names = any (λ (p : String × ℕ). v == p.1) names

abbrev pub is_head : ℕ → Option ℕ → Bool
is_head v none = false
is_head v (some h) = v == h

pub is_named-lookup :
    (names : HashMap String ℕ) (name : String) (v : ℕ)
    → lookup name names ≡ some v
    → is_named v names ≡ true
is_named-lookup [] name v h = cc
is_named-lookup ((n, w) ∷ names) name v h = ground (arith, is_named-lookup names name v)

mem-if-set_extend :
    (v : ℕ) (b : Bool) (acc added : List ℕ)
    → mem v (if b then set_extend acc added else acc) ≡ ((b && mem v added) || mem v acc)
mem-if-set_extend v true acc added = mem-set_extend v acc added
mem-if-set_extend v false acc added = refl

module _ ⦃tm : Treemap⦄ where
  mem-pointed : (v : ℕ) (names : HashMap String ℕ) → mem v (pointed names) ≡ is_named v names
  mem-pointed v [] = refl
  mem-pointed v ((n, w) ∷ names) = ground (arith, mem-pointed v names)

  mem-with_head : (v : ℕ) (o : Option ℕ) → mem v (with_head o) ≡ is_head v o
  mem-with_head v none = refl
  mem-with_head v (some h) = ground arith

  module _ (rules : RetentionRules) (s : VersionStore) where
    mem-last_versions :
        (v : ℕ) (limit : Option ℕ)
        → IsSorted s.commits
        → mem v (last_versions limit s.commits)
          ≡ (is_some (lookup v s.commits) && is_recent limit v s.commits)
    mem-last_versions v none sorted = ground (arith, mem-keys v s.commits)
    mem-last_versions v (some n) sorted =
        ground (arith, mem-take-reverse v n s.commits sorted, mem-keys v s.commits)

    -- In a store whose commits ascend exactly these versions are retained: the commits that fewer
    -- than `keep_last` commits are newer than, all if there is no such limit; what a tag and what
    -- a branch names, where the rules keep it; and the head.
    pub mem-retained_versions :
        (v : ℕ)
        → IsSorted s.commits
        → mem v (retained_versions rules s) ≡ (
            (is_some (lookup v s.commits) && is_recent rules.keep_last v s.commits)
            || ((rules.keep_tagged && is_named v s.tags)
                || ((rules.keep_branch_heads && is_named v s.branches) || is_head v s.head)))
    unfolding retained_versions
    mem-retained_versions v sorted =
        rw
          (
            mem-set_extend,
            mem-if-set_extend,
            mem-if-set_extend,
            mem-last_versions v rules.keep_last sorted,
            mem-pointed v s.tags,
            mem-pointed v s.branches,
            mem-with_head v s.head,
          )
          refl
