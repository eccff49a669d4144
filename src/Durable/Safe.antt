-- ===== src/Durable/Safe.antt =====
-- Collections of crates/vecvec-core/src/durable.rs that a crash cannot harm.
use vecvec.Prelude.{
  ℕ, ◌<◌, ◌≤◌, ◌≡◌, refl, sym, ap, ◌∙◌, subst, Bool, true, some, List, [], ◌∷◌, is_some, length,
  arith, if◌then◌else◌, ◌==◌, All, Bool-cases, inl, inr,
}
use mathlib.Core.Path.{ap₂}
use vecvec.Prelude.Maps.{lookup, lookup-put, nat_key, mem, set_insert, mem-set_insert}
use vecvec.Distance.{Floats}
use vecvec.Segment.Sealed.{SealedSegment}
use vecvec.Version.Deletion.{Treemap}
use vecvec.Collection.State.{Collection, CollectionConfig, ids_in}
use vecvec.Collection.Contents.{Contents, Represents, applied_all}
use vecvec.Collection.Tidy.{IsTidy, Advances}
use vecvec.Durable.Disk.{Log, Disk, change, opened, log_of, write_sealed}
use vecvec.Durable.State.{DurableCollection}
use vecvec.Durable.Replay.{AllApply, AllBelow}
use vecvec.Durable.Saved.{head_generation, head_working, head_segment, IsSaved}
use vecvec.Durable.Standing.{live_log, found, IsStanding, IsDurable}
use vecvec.Durable.Files.{IsSaved-write_sealed, Leaves, synced-Leaves}

All-mem : (P : ℕ → Type 0) (i : ℕ) (xs : List ℕ) → All P xs → mem i xs ≡ true → P i
All-mem P i [] a h = absurd (ground arith)
All-mem P i (x ∷ xs) (p, a) h = elim (Bool-cases (i == x)) [
  | inl e ↦ subst P (ground arith) p
  | inr e ↦ All-mem P i xs a (ground (arith, h, e))
]

module _ ⦃fl : Floats⦄ ⦃tm : Treemap⦄ {P : Type 0} where
  -- The collection holds the contents `w`, on disk too; and all that the directory has been since
  -- it was opened a crash leaves with contents of the kind `Q`.
  pub record IsSafe (Q : Contents P → Type 0) (d : DurableCollection P) (w : Contents P)
      : Type 0 where
    pub base : Contents P
    pub durable : IsDurable d base
    pub held : found d.collection.config d.dir.disk base ≡ w
    pub synced : length (live_log d.dir.disk).ops ≤ (live_log d.dir.disk).synced
    pub passed : All (Leaves d.collection.config Q) d.dir.passed

  -- The memory moves on with the same contents.
  pub IsSafe-Advances :
      (Q : Contents P → Type 0) (d : DurableCollection P) (c : Collection P) (w : Contents P)
      → IsSafe Q d w
      → Represents c w
      → IsTidy c
      → Advances d.collection c
      → IsSafe Q (record d { collection = c }) w
  IsSafe-Advances Q d c w safe rep tidy adv =
      let v = safe.durable in
      let e = adv.config in
      let same : found c.config d.dir.disk safe.base ≡ w =
        ap (λ (k : CollectionConfig). found k d.dir.disk safe.base) e ∙ safe.held in
      record {
        base = safe.base;
        durable = record {
          dim = λ z. v.dim (ap (λ (k : CollectionConfig). k.dim) (sym e) ∙ z);
          standing = subst (λ k. IsStanding k d.dir.disk safe.base) (sym e) v.standing;
          generation = v.generation;
          represents = subst (Represents c) (sym same) rep;
          below =
              subst (λ n. AllBelow n (found c.config d.dir.disk safe.base).rows)
                (sym adv.next_global)
                (subst (λ (x : Contents P). AllBelow d.collection.next_global_id x.rows)
                  (safe.held ∙ sym same) v.below);
          tidy = tidy;
          numbered = omega (arith, v.numbered, adv.next_segment);
          agrees = λ i h.
              let old : i < head_segment d.dir.disk.head =
                All-mem (λ j. j < head_segment d.dir.disk.head) i (ids_in v.standing.saved.segments)
                  v.standing.saved.numbered (ap (mem i) v.standing.saved.working ∙ h) in
              adv.kept i (omega (arith, v.numbered)) ∙ v.agrees i h;
          persisted = v.persisted;
        };
        held = same;
        synced = safe.synced;
        passed = subst (λ k. All (Leaves k Q) d.dir.passed) (sym e) safe.passed;
      }

  -- Segment and version files are written, and the logs and the head stay.
  module _ (Q : Contents P → Type 0) (w : Contents P) (q : Q w) where
    pub IsSafe-file :
        (d : DurableCollection P) (f : Disk P → Disk P) (persisted : List ℕ)
        → (safe : IsSafe Q d w) → (f d.dir.disk).head ≡ d.dir.disk.head
        → (f d.dir.disk).logs ≡ d.dir.disk.logs
        → IsSaved (f d.dir.disk) safe.base
        → ((i : ℕ)
            → mem i (head_working d.dir.disk.head) ≡ true
            → lookup i d.collection.all_segments ≡ lookup i (f d.dir.disk).segments)
        → ((i : ℕ) → mem i persisted ≡ true → is_some (lookup i (f d.dir.disk).segments) ≡ true)
        → IsSafe Q (record d { dir = change f d.dir; persisted_segments = persisted }) w
    unfolding change log_of
    IsSafe-file d f persisted safe head logs saved agrees there =
        let v = safe.durable in
        let config = d.collection.config in
        let after = f d.dir.disk in
        let live : live_log after ≡ live_log d.dir.disk =
          ap₂ (λ h l. opened (lookup (head_generation h) l)) head logs in
        let same : found config after safe.base ≡ w =
          ap (λ (l : Log P). applied_all config.metric safe.base l.ops) live ∙ safe.held in
        let standing : IsStanding config after safe.base = record {
          saved = saved;
          logged =
              subst (λ (l : Log P). AllApply config safe.base l.ops) (sym live) v.standing.logged;
          clean = λ g lt.
              ap (λ l. (opened (lookup g l)).ops) logs
              ∙ v.standing.clean g (subst (λ h. head_generation h < g) head lt);
        } in
        let synced : length (live_log after).ops ≤ (live_log after).synced =
          subst (λ (l : Log P). length l.ops ≤ l.synced) (sym live) safe.synced in
        record {
          base = safe.base;
          durable = record {
            dim = v.dim;
            standing = standing;
            generation = ap head_generation head ∙ v.generation;
            represents = subst (Represents d.collection) (safe.held ∙ sym same) v.represents;
            below =
                subst (λ (x : Contents P). AllBelow d.collection.next_global_id x.rows)
                  (safe.held ∙ sym same) v.below;
            tidy = v.tidy;
            numbered = omega (arith, ap head_segment head, v.numbered);
            agrees = λ i h. agrees i (ap (λ x. mem i (head_working x)) (sym head) ∙ h);
            persisted = there;
          };
          held = same;
          synced = synced;
          passed = (
            synced-Leaves config Q after safe.base standing synced (subst Q (sym same) q),
            safe.passed,
          );
        }

    pub write_sealed-IsSafe :
        (d : DurableCollection P) (s : SealedSegment)
        → IsSafe Q d w
        → lookup s.id d.collection.all_segments ≡ some s
        → IsSafe Q
            (record d {
              dir = change (write_sealed s) d.dir;
              persisted_segments = set_insert s.id d.persisted_segments;
            })
            w
    unfolding write_sealed
    write_sealed-IsSafe d s safe known =
        let v = safe.durable in
        IsSafe-file d (write_sealed s) (set_insert s.id d.persisted_segments) safe refl refl
          (IsSaved-write_sealed d.dir.disk safe.base v.standing.saved s
            (λ h. sym (v.agrees s.id h) ∙ known))
          (λ i h. elim (Bool-cases (s.id == i)) [
            | inl e ↦
                let at : s.id ≡ i = ground (arith, e) in
                ap (λ j. lookup j d.collection.all_segments) (sym at)
                ∙ known
                ∙ sym (
                    lookup-put s.id i s d.dir.disk.segments
                    ∙ ap (λ (b : Bool). if b then some s else lookup i d.dir.disk.segments) e)
            | inr e ↦
                v.agrees i h
                ∙ sym (
                    lookup-put s.id i s d.dir.disk.segments
                    ∙ ap (λ (b : Bool). if b then some s else lookup i d.dir.disk.segments) e)
          ])
          (λ i h. ground (
            arith,
            lookup-put s.id i s d.dir.disk.segments,
            mem-set_insert s.id i d.persisted_segments,
            v.persisted i,
            h,
          ))
