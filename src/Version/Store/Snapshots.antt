-- ===== src/Version/Store/Snapshots.antt =====
-- A store that is saved and loaded again is the same store.
use vecvec.Prelude.{
  ℕ, ◌<◌, ◌≡◌, refl, sym, ap, ◌∙◌, [], ◌∷◌, ◌++◌, arith, some, append-nil, append_assoc, ◌==◌,
  Bool-cases, inl, inr,
}
use vecvec.Prelude.Maps.{TreeMap, Above, IsSorted, insert, lookup, values, nat_key}
use vecvec.Version.Deletion.{Treemap}
use vecvec.Version.Manifest.{Manifest}
use vecvec.Version.Store.{VersionStore, snapshot, from_snapshot, by_version}
use vecvec.Version.Store.Pointers.{IsValid}

-- Every key is below `k`.
abbrev Under : {V : Type 0} → ℕ → TreeMap V → Type 0
Under k [] = Unit
Under k ((j, v) ∷ m) = (j < k) × Under k m

insert_last :
    {V : Type 0} (k : ℕ) (v : V) (m : TreeMap V) → Under k m → insert k v m ≡ m ++ (k, v) ∷ []
insert_last k v [] u = refl
insert_last k v ((j, w) ∷ m) u = ground (arith, insert_last k v m)

Under-append :
    {V : Type 0} (k j : ℕ) (v : V) (m : TreeMap V) → k < j → Under k m → Under j (m ++ (k, v) ∷ [])
Under-append k j v [] h u = (h, tt)
Under-append k j v ((i, w) ∷ m) h (lt, u) = (omega arith, Under-append k j v m h u)

Above-lt : {V : Type 0} (b k : ℕ) (v : V) (m : TreeMap V) → Above b m → lookup k m ≡ some v → b < k
Above-lt b k v [] a h = absurd (ground arith)
Above-lt b k v ((j, w) ∷ m) (lt, a) h = elim (Bool-cases (j == k)) [
  | inl eq ↦ ground arith
  | inr other ↦
      let rest : lookup k m ≡ some v = ground arith in omega (arith, lt, Above-lt j k v m a rest)
]

IsSorted-tail : {V : Type 0} (b : ℕ) (m : TreeMap V) → Above b m → IsSorted m
IsSorted-tail b [] a = tt
IsSorted-tail b ((j, w) ∷ m) (lt, a) = a

module _ ⦃tm : Treemap⦄ where
  -- Each manifest carries its key.
  abbrev Keyed : TreeMap Manifest → Type 0
  Keyed [] = Unit
  Keyed ((v, m) ∷ ms) = (m.version ≡ v) × Keyed ms

  Keyed-of :
      (ms : TreeMap Manifest)
      → IsSorted ms
      → ((v : ℕ) (m : Manifest) → lookup v ms ≡ some m → m.version ≡ v)
      → Keyed ms
  Keyed-of [] s h = tt
  Keyed-of ((v, m) ∷ ms) s h = (
    h v m (ground arith),
    Keyed-of ms (IsSorted-tail v ms s)
        (λ w x e. h w x (let lt = Above-lt v w x ms s e in ground arith)),
  )

  -- The keys so far are below the next one.
  abbrev Follows : TreeMap Manifest → TreeMap Manifest → Type 0
  Follows acc [] = Unit
  Follows acc ((v, m) ∷ ms) = Under v acc

  Follows-next :
      (acc ms : TreeMap Manifest) (v : ℕ) (m : Manifest)
      → Under v acc
      → Above v ms
      → Follows (acc ++ (v, m) ∷ []) ms
  Follows-next acc [] v m u a = tt
  Follows-next acc ((w, x) ∷ ms) v m u (lt, a) = Under-append v w m acc lt u

  by_version-values :
      (acc ms : TreeMap Manifest)
      → IsSorted ms
      → Keyed ms
      → Follows acc ms
      → by_version acc (values ms) ≡ acc ++ ms
  by_version-values acc [] s k u = sym (append-nil acc)
  by_version-values acc ((v, m) ∷ ms) s (e, k) u =
      ap (λ n. by_version (insert n m acc) (values ms)) e
      ∙ ap (λ a. by_version a (values ms)) (insert_last v m acc u)
      ∙ by_version-values (acc ++ (v, m) ∷ []) ms (IsSorted-tail v ms s) k
          (Follows-next acc ms v m u s)
      ∙ append_assoc acc ((v, m) ∷ []) ms

  -- A valid store that is saved and loaded again is the same store.
  pub from_snapshot-snapshot : (s : VersionStore) → IsValid s → from_snapshot (snapshot s) ≡ s
  unfolding from_snapshot snapshot
  from_snapshot-snapshot s h = λ i. record s {
    commits =
        by_version-values [] s.commits h.sorted
          (Keyed-of s.commits h.sorted (λ v m e. (h.filed v m e).number)) (start s.commits) i;
  }
    where
      start : (ms : TreeMap Manifest) → Follows [] ms
      start [] = tt
      start ((v, m) ∷ ms) = tt
