-- ===== src/Version/Store/Pointers.antt =====
-- The pointers of the commit DAG always name commits, and commits are never changed.
use vecvec.Prelude.{
  ℕ, ◌+◌, ◌<◌, ◌≡◌, refl, true, false, String, Option, none, some, List, [], ◌∷◌, arith, is_some,
  ◌==◌, Option-cases, Bool-cases, subst, ◌⊎◌, inl, inr, if◌then◌else◌,
}
use vecvec.Prelude.Maps.{
  TreeMap, HashMap, IsSorted, Above, lookup, insert, put, lookup-put, lookup-insert, nat_key,
  string_key,
}
use text.Mathlib.TextEquality.{eq_iff}
use text.Mathlib.Text.{◌==◌ as str_eq}
use vecvec.Version.Deletion.{Treemap, DeletionVector}
use vecvec.Version.Manifest.{Manifest, SegmentRef}
use vecvec.Version.Store.{
  VersionStore, VersionSelector, version, tag, branch, head, ok, err, no_such_version, new, commit,
  get, resolve, set_tag, set_branch, put_tag,
}

-- Inserting keeps a map in order.
Above-insert :
    {V : Type 0} (b k : ℕ) (v : V) (m : TreeMap V) → b < k → Above b m → Above b (insert k v m)
Above-insert b k v [] h a = (h, tt)
Above-insert b k v ((j, w) ∷ m) h a = ground (arith, Above-insert j k v m)

pub IsSorted-insert :
    {V : Type 0} (k : ℕ) (v : V) (m : TreeMap V) → IsSorted m → IsSorted (insert k v m)
IsSorted-insert k v [] s = tt
IsSorted-insert k v ((j, w) ∷ m) s = ground (arith, Above-insert j k v m)

module _ ⦃tm : Treemap⦄ where
  -- A manifest stands under its own number, below the next one, and its parent is older.
  pub record IsFiled (v next : ℕ) (m : Manifest) : Type 0 where
    pub number : m.version ≡ v
    pub used : v < next
    pub older : (p : ℕ) → m.parent ≡ some p → p < v

  pub record IsValid (s : VersionStore) : Type 0 where
    pub filed : (v : ℕ) (m : Manifest) → lookup v s.commits ≡ some m → IsFiled v s.next_version m
    pub head_known : (v : ℕ) → s.head ≡ some v → is_some (lookup v s.commits) ≡ true
    pub tags_known :
        (name : String) (v : ℕ) → lookup name s.tags ≡ some v → is_some (lookup v s.commits) ≡ true
    pub branches_known :
        (name : String) (v : ℕ)
        → lookup name s.branches ≡ some v
        → is_some (lookup v s.commits) ≡ true
    pub sorted : IsSorted s.commits

  pub new-IsValid : IsValid new
  unfolding new
  new-IsValid = record {
    filed = λ v m h. cc;
    head_known = λ v h. cc;
    tags_known = λ name v h. cc;
    branches_known = λ name v h. cc;
    sorted = tt;
  }

  -- Whatever a selector resolves to in a valid store is a version of the store, so that the
  -- `expect` after `resolve` does not fail.
  pub is_some-get-resolve :
      (s : VersionStore) (selector : VersionSelector) (v : ℕ)
      → IsValid s
      → resolve selector s ≡ some v
      → is_some (get v s) ≡ true
  unfolding resolve get
  is_some-get-resolve s (version w) v h e = ground arith
  is_some-get-resolve s (tag t) v h e = h.tags_known t v e
  is_some-get-resolve s (branch b) v h e = h.branches_known b v e
  is_some-get-resolve s head v h e = h.head_known v e

  known-lt :
      (s : VersionStore)
      → IsValid s
      → (v : ℕ) → is_some (lookup v s.commits) ≡ true
      → v < s.next_version
  known-lt s h v e = elim (Option-cases (lookup v s.commits)) [
    | inl missing ↦ absurd (ground arith)
    | inr (m, found) ↦ (h.filed v m found).used
  ]

  -- Names that point to known versions still do when one more is set to a known version.
  pointed_after :
      (commits : TreeMap Manifest) (names : HashMap String ℕ) (name : String) (v : ℕ)
      → is_some (lookup v commits) ≡ true
      → ((n : String) (w : ℕ) → lookup n names ≡ some w → is_some (lookup w commits) ≡ true)
      → (n : String) (w : ℕ) → lookup n (put name v names) ≡ some w
      → is_some (lookup w commits) ≡ true
  pointed_after commits names name v there all n w e = elim (Bool-cases (str_eq name n)) [
    | inl eq ↦ ground (arith, lookup-put name n v names)
    | inr other ↦
        let old : lookup n names ≡ some w = ground (arith, lookup-put name n v names) in all n w old
  ]

  module _ (trigger : String) (message label : Option String) (segments : List SegmentRef)
      (deletions : DeletionVector) (now : ℕ) (s : VersionStore) where
    abbrev after : VersionStore
    after = (commit trigger message label segments deletions now s).0

    abbrev made : Manifest
    made = (commit trigger message label segments deletions now s).1

    -- A commit adds one version, numbered next, on top of the head; it becomes the head; and every
    -- other version is what it was.
    pub get-commit : (v : ℕ) → get v after ≡ (if s.next_version == v then some made else get v s)
    unfolding commit get
    get-commit v = lookup-insert s.next_version v made s.commits

    known : (v : ℕ) → is_some (lookup v s.commits) ≡ true → is_some (lookup v after.commits) ≡ true
    unfolding commit
    known v h = ground (arith, lookup-insert s.next_version v made s.commits)

    made-IsFiled : IsValid s → IsFiled s.next_version (s.next_version + 1) made
    unfolding commit
    made-IsFiled h = record {
      number = refl;
      used = omega arith;
      older = λ p e. known-lt s h p (h.head_known p e);
    }

    IsFiled-after :
        (v : ℕ) (m : Manifest)
        → IsValid s
        → lookup v after.commits ≡ some m
        → IsFiled v (s.next_version + 1) m
    unfolding commit
    IsFiled-after v m h e = elim (Bool-cases (s.next_version == v)) [
      | inl eq ↦
          let same : made ≡ m = ground (arith, lookup-insert s.next_version v made s.commits) in
          let here : s.next_version ≡ v = ground arith in
          subst (λ (w : Manifest). IsFiled v (s.next_version + 1) w) same
            (subst (λ (n : ℕ). IsFiled n (s.next_version + 1) made) here (made-IsFiled h))
      | inr other ↦
          let old : lookup v s.commits ≡ some m =
            ground (arith, lookup-insert s.next_version v made s.commits) in
          let f = h.filed v m old in
          record { number = f.number; used = omega (arith, f.used); older = f.older }
    ]

    tags_after :
        (o : Option String) (name : String) (v : ℕ)
        → IsValid s
        → lookup name (put_tag o s.next_version s.tags) ≡ some v
        → is_some (lookup v after.commits) ≡ true
    unfolding commit
    tags_after none name v h e = known v (h.tags_known name v e)
    tags_after (some t) name v h e = elim (Bool-cases (str_eq t name)) [
      | inl eq ↦ ground (
        arith,
        lookup-put t name s.next_version s.tags,
        lookup-insert s.next_version v made s.commits,
      )
      | inr other ↦
          let old : lookup name s.tags ≡ some v =
            ground (arith, lookup-put t name s.next_version s.tags) in
          known v (h.tags_known name v old)
    ]

    unused : IsValid s → get s.next_version s ≡ none
    unfolding get
    unused h = elim (Option-cases (lookup s.next_version s.commits)) [
      | inl missing ↦ missing
      | inr (m, found) ↦ absurd (omega (arith, (h.filed s.next_version m found).used))
    ]

    -- What a tag names after a commit with a label or without.
    abbrev pub tag_target : String → Option String → Option ℕ
    tag_target name none = resolve (tag name) s
    tag_target name (some l) = if str_eq l name then some s.next_version else resolve (tag name) s

    tag_target_lem :
        (name : String) (o : Option String)
        → lookup name (put_tag o s.next_version s.tags) ≡ tag_target name o
    unfolding resolve
    tag_target_lem name none = refl
    tag_target_lem name (some l) = lookup-put l name s.next_version s.tags

    -- Committing keeps the store valid: every manifest is filed under its own number below the next
    -- one, with an older parent, and the head, the tags and the branches name commits that exist.
    pub commit-IsValid : IsValid s → IsValid after
    unfolding commit
    commit-IsValid h = record {
      filed = λ v m e. IsFiled-after v m h e;
      head_known = λ v e. ground (arith, lookup-insert s.next_version v made s.commits);
      tags_known = λ name v e. tags_after label name v h e;
      branches_known = λ name v e. known v (h.branches_known name v e);
      sorted = IsSorted-insert s.next_version made s.commits h.sorted;
    }

    -- A commit to a valid store files one new version, under a number that no version had, and
    -- leaves every other version as it was, where there are any. The new version is the head, and
    -- its parent is the head before. A label is a tag of the new version; every other tag and every
    -- branch resolves as before.
    pub commit_effect :
        IsValid s
        → (get s.next_version s ≡ none)
          × ((v : ℕ) → get v after ≡ (if s.next_version == v then some made else get v s))
          × (resolve head after ≡ some made.version)
          × (made.version ≡ s.next_version)
          × (made.parent ≡ s.head)
          × ((name : String) → resolve (tag name) after ≡ tag_target name label)
          × ((name : String) → resolve (branch name) after ≡ resolve (branch name) s)
    unfolding commit resolve
    commit_effect h =
        (unused h, get-commit, refl, refl, refl, λ name. tag_target_lem name label, λ name. refl)

  module _ (name : String) (v : ℕ) (s : VersionStore) where
    -- On a valid store a tag is set exactly if the version exists, and is refused with that version
    -- otherwise; once set it resolves to the version, the store is valid, and the commits and the
    -- head are as before.
    pub set_tag_effect :
        IsValid s
        → ((is_some (get v s) ≡ false) × (set_tag name v s ≡ err (no_such_version v)))
          ⊎ ((t : VersionStore) × (set_tag name v s ≡ ok t)
              × IsValid t
              × (resolve (tag name) t ≡ some v)
              × (t.commits ≡ s.commits)
              × (t.head ≡ s.head))
    unfolding set_tag get resolve
    set_tag_effect h = elim (Bool-cases (is_some (lookup v s.commits))) [
      | inr missing ↦ inl (missing, rw (missing, set_tag))
      | inl there ↦ inr (
        record s { tags = put name v s.tags },
        rw (there, set_tag),
        record {
          filed = h.filed;
          head_known = h.head_known;
          tags_known = λ n w e. pointed_after s.commits s.tags name v there h.tags_known n w e;
          branches_known = h.branches_known;
          sorted = h.sorted;
        },
        ground (arith, lookup-put name name v s.tags, eq_iff name name),
        refl,
        refl,
      )
    ]

    -- On a valid store a branch is set exactly if the version exists, and is refused with that
    -- version otherwise; once set it resolves to the version, the store is valid, and the commits
    -- and the head are as before.
    pub set_branch_effect :
        IsValid s
        → ((is_some (get v s) ≡ false) × (set_branch name v s ≡ err (no_such_version v)))
          ⊎ ((t : VersionStore) × (set_branch name v s ≡ ok t)
              × IsValid t
              × (resolve (branch name) t ≡ some v)
              × (t.commits ≡ s.commits)
              × (t.head ≡ s.head))
    unfolding set_branch get resolve
    set_branch_effect h = elim (Bool-cases (is_some (lookup v s.commits))) [
      | inr missing ↦ inl (missing, rw (missing, set_branch))
      | inl there ↦ inr (
        record s { branches = put name v s.branches },
        rw (there, set_branch),
        record {
          filed = h.filed;
          head_known = h.head_known;
          tags_known = h.tags_known;
          branches_known =
              λ n w e. pointed_after s.commits s.branches name v there h.branches_known n w e;
          sorted = h.sorted;
        },
        ground (arith, lookup-put name name v s.branches, eq_iff name name),
        refl,
        refl,
      )
    ]
