-- ===== src/Version/Store/Collect.antt =====
-- What garbage collection of versions leaves, and which segments may be deleted:
-- `gc` of crates/vecvec-core/src/version/store.rs.
use vecvec.Prelude.{
  ℕ, ◌≡◌, refl, Bool, true, false, not, ◌&&◌, ◌||◌, String, none, some, List, [], ◌∷◌, arith,
  is_some, ◌==◌, Option-cases, Bool-cases, inl, inr, subst, if◌then◌else◌, keep, any,
}
use vecvec.Prelude.Maps.{
  TreeMap, IsSorted, Above, lookup, without, lookup-without, mem, keys, set_insert, set_extend,
  mem-set_insert, mem-set_extend, mem-keys, nat_key, string_key,
}
use vecvec.Version.Deletion.{Treemap}
use vecvec.Version.Manifest.{Manifest, segment_ids}
use vecvec.Version.Store.{
  VersionStore, RetentionRules, tag, get, resolve, retained_versions, plan_gc, gc, remove_all,
  segments_of, orphans_in, orphans_of,
}
use vecvec.Version.Store.Pointers.{IsValid}
use vecvec.Version.Store.Retained.{
  Above-weaken, IsSorted-Above, is_named-lookup, mem-retained_versions,
}

pub mem-keep : (a : ℕ) (p : ℕ → Bool) (xs : List ℕ) → mem a (keep p xs) ≡ (mem a xs && p a)
mem-keep a p [] = refl
mem-keep a p (x ∷ xs) = elim (Bool-cases (a == x)) [
  | inl eq ↦
      let e : a ≡ x = ground arith in
      subst (λ y. mem a (keep p (y ∷ xs)) ≡ (mem a (y ∷ xs) && p a)) e
        (ground (arith, mem-keep a p xs))
  | inr other ↦ ground (arith, mem-keep a p xs)
]

pub any_of_mem :
    (a : ℕ) (p : ℕ → Bool) (xs : List ℕ) → mem a xs ≡ true → p a ≡ true → any p xs ≡ true
any_of_mem a p [] h k = cc
any_of_mem a p (x ∷ xs) h k = elim (Bool-cases (a == x)) [
  | inl eq ↦
      let e : a ≡ x = ground arith in
      let here : p x ≡ true = subst (λ y. p y ≡ true) e k in ground arith
  | inr other ↦ ground (arith, any_of_mem a p xs)
]

Above-without : {V : Type 0} (b k : ℕ) (m : TreeMap V) → Above b m → Above b (without k m)
Above-without b k [] a = tt
Above-without b k ((j, w) ∷ m) (lt, a) = elim (Bool-cases (j == k)) [
  | inl eq ↦ rw eq (Above-without b k m (Above-weaken b j m lt a))
  | inr other ↦ rw other (lt, Above-without j k m a)
]

IsSorted-without : {V : Type 0} (k : ℕ) (m : TreeMap V) → IsSorted m → IsSorted (without k m)
IsSorted-without k [] a = tt
IsSorted-without k ((j, w) ∷ m) a = elim (Bool-cases (j == k)) [
  | inl eq ↦ rw eq (IsSorted-Above j (without k m) (Above-without j k m a))
  | inr other ↦ rw other (Above-without j k m a)
]

module _ ⦃tm : Treemap⦄ where
  IsSorted-remove_all :
      (vs : List ℕ) (commits : TreeMap Manifest)
      → IsSorted commits
      → IsSorted (remove_all vs commits)
  IsSorted-remove_all [] commits a = a
  IsSorted-remove_all (v ∷ vs) commits a =
      IsSorted-remove_all vs (without v commits) (IsSorted-without v commits a)

  lookup-remove_all :
      (j : ℕ) (vs : List ℕ) (commits : TreeMap Manifest)
      → lookup j (remove_all vs commits) ≡ (if mem j vs then none else lookup j commits)
  lookup-remove_all j [] commits = refl
  lookup-remove_all j (v ∷ vs) commits =
      ground (arith, lookup-remove_all j vs (without v commits), lookup-without v j commits)

  -- The version refers to the segment.
  abbrev pub refers : TreeMap Manifest → ℕ → ℕ → Bool
  refers commits sid v = elim (lookup v commits) [ none ↦ false | some m ↦ mem sid (segment_ids m) ]

  mem-segments_of :
      (commits : TreeMap Manifest) (sid : ℕ) (acc vs : List ℕ)
      → mem sid (segments_of commits acc vs) ≡ (mem sid acc || any (refers commits sid) vs)
  mem-segments_of commits sid acc [] = ground arith
  mem-segments_of commits sid acc (v ∷ vs) = elim (Option-cases (lookup v commits)) [
    | inl missing ↦ ground (arith, mem-segments_of commits sid acc vs)
    | inr (m, found) ↦ ground (
      arith,
      mem-segments_of commits sid (set_extend acc (segment_ids m)) vs,
      mem-set_extend sid acc (segment_ids m),
    )
  ]

  mem-orphans_in :
      (sid : ℕ) (retained acc sids : List ℕ)
      → mem sid (orphans_in retained acc sids)
        ≡ (mem sid acc || (mem sid sids && not (mem sid retained)))
  mem-orphans_in sid retained acc [] = ground arith
  mem-orphans_in sid retained acc (t ∷ sids) = elim (Bool-cases (sid == t)) [
    | inl eq ↦
        let e : sid ≡ t = ground arith in
        rw (← e) (
          ground (
            arith,
            mem-orphans_in sid retained (set_insert sid acc) sids,
            mem-orphans_in sid retained acc sids,
            mem-set_insert sid sid acc,
          ))
    | inr other ↦ ground (
      arith,
      mem-orphans_in sid retained (set_insert t acc) sids,
      mem-orphans_in sid retained acc sids,
      mem-set_insert t sid acc,
    )
  ]

  mem-orphans_of :
      (commits : TreeMap Manifest) (sid : ℕ) (retained acc vs : List ℕ)
      → mem sid (orphans_of commits retained acc vs)
        ≡ (mem sid acc || (any (refers commits sid) vs && not (mem sid retained)))
  mem-orphans_of commits sid retained acc [] = ground arith
  mem-orphans_of commits sid retained acc (v ∷ vs) = elim (Option-cases (lookup v commits)) [
    | inl missing ↦ ground (arith, mem-orphans_of commits sid retained acc vs)
    | inr (m, found) ↦ ground (
      arith,
      mem-orphans_of commits sid retained (orphans_in retained acc (segment_ids m)) vs,
      mem-orphans_in sid retained acc (segment_ids m),
    )
  ]

  module _ (rules : RetentionRules) (s : VersionStore) where
    -- A pass keeps the retained versions as they are and drops the others.
    pub get-gc :
        (v : ℕ)
        → get v (gc rules s).0 ≡ (if mem v (retained_versions rules s) then get v s else none)
    unfolding gc plan_gc get
    get-gc v = ground (
      arith,
      lookup-remove_all v (gc rules s).1.removed_versions s.commits,
      mem-keep v (λ w. not (mem w (retained_versions rules s))) (keys s.commits),
      mem-keys v s.commits,
    )

    -- The segments that a pass reports are exactly those that a dropped version refers to
    -- and no retained version does.
    pub mem-orphan_segments :
        (sid : ℕ)
        → mem sid (gc rules s).1.orphan_segments ≡ (
            any (refers s.commits sid) (gc rules s).1.removed_versions
            && not (any (refers s.commits sid) (retained_versions rules s)))
    unfolding gc plan_gc
    mem-orphan_segments sid = ground (
      arith,
      mem-orphans_of s.commits sid (segments_of s.commits [] (retained_versions rules s)) []
          (gc rules s).1.removed_versions,
      mem-segments_of s.commits sid [] (retained_versions rules s),
    )

    -- No version that is left refers to a segment that is reported.
    pub gc_safe :
        (v sid : ℕ) (m : Manifest)
        → get v (gc rules s).0 ≡ some m
        → mem sid (gc rules s).1.orphan_segments ≡ true
        → mem sid (segment_ids m) ≡ false
    unfolding get
    gc_safe v sid m h o = elim (Bool-cases (mem sid (segment_ids m))) [
      | inr fine ↦ fine
      | inl bad ↦
          let kept : mem v (retained_versions rules s) ≡ true = ground (arith, get-gc v) in
          let there : lookup v s.commits ≡ some m = ground (arith, get-gc v) in
          let used : refers s.commits sid v ≡ true = ground arith in
          absurd (
            ground (
              arith,
              mem-orphan_segments sid,
              any_of_mem v (refers s.commits sid) (retained_versions rules s) kept used,
            ))
    ]

    kept :
        (v : ℕ)
        → is_some (lookup v s.commits) ≡ true
        → mem v (retained_versions rules s) ≡ true
        → is_some (get v (gc rules s).0) ≡ true
    unfolding get
    kept v h k = ground (arith, get-gc v)

    -- A pass that protects tags and branch heads keeps a valid store valid: whatever resolves after
    -- it still has its manifest.
    pub gc-IsValid :
        IsValid s
        → rules.keep_tagged ≡ true
        → rules.keep_branch_heads ≡ true
        → IsValid (gc rules s).0
    unfolding get gc
    gc-IsValid h t b = record {
      filed = λ v m e. h.filed v m (ground (arith, get-gc v));
      head_known = λ v e.
          kept v (h.head_known v e) (ground (arith, mem-retained_versions rules s v h.sorted));
      tags_known = λ n v e.
          kept v (h.tags_known n v e) (
            ground (arith, mem-retained_versions rules s v h.sorted, is_named-lookup s.tags n v e));
      branches_known = λ n v e. kept v (h.branches_known n v e) (
          ground
            (arith, mem-retained_versions rules s v h.sorted, is_named-lookup s.branches n v e));
      sorted = IsSorted-remove_all (gc rules s).1.removed_versions s.commits h.sorted;
    }

    -- A pass leaves a tag of a version that is not retained where it is: the tag still resolves, and
    -- there is no manifest for what it resolves to.
    pub gc_dangling_tag :
        (name : String) (v : ℕ)
        → lookup name s.tags ≡ some v
        → mem v (retained_versions rules s) ≡ false
        → (resolve (tag name) (gc rules s).0 ≡ some v) × (get v (gc rules s).0 ≡ none)
    unfolding resolve gc
    gc_dangling_tag name v h d = (h, ground (arith, get-gc v))
