-- ===== src/Prelude/Maps.antt =====
-- The maps and sets of the standard library that the program uses, as lists.
-- `BTreeMap<u64, _>` and `BTreeSet<u64>` are kept in ascending order, as their iteration is;
-- the order of a `HashMap` is unspecified and nothing depends on it.
use Prim.Native.Nat.{ℕ, ◌<◌}
use mathlib.Core.Path.{◌≡◌, refl}
use mathlib.Core.Logic.{◌↔◌}
use mathlib.Core.Bool.{Bool, true, false, ◌||◌}
use mathlib.Core.List.{List, [], ◌∷◌, ◌++◌}
use mathlib.Core.Option.{Option, none, some}
use Prim.Native.String.{String}
use text.Mathlib.Text.{◌==◌ as str_eq}
use text.Mathlib.TextEquality.{eq_iff}
use native.Mathlib.Omega.{arith}
use vecvec.Prelude.Tests.{ltb, ◌==◌, ==_iff, if◌then◌else◌, is_some}

-- Keys with a decidable equality.
pub record Key (K : Type 0) : Type 0 where
  pub beq : K → K → Bool
  pub beq_iff : (a b : K) → (beq a b ≡ true) ↔ (a ≡ b)

instance abbrev pub nat_key : Key ℕ
nat_key = record { beq = ◌==◌; beq_iff = ==_iff }

instance abbrev pub string_key : Key String
string_key = record { beq = str_eq; beq_iff = eq_iff }

abbrev pub HashMap : Type 0 → Type 0 → Type 0
HashMap K V = List (K × V)

module _ {K V : Type 0} ⦃key : Key K⦄ where
  -- `get`
  abbrev pub lookup : K → HashMap K V → Option V
  lookup k [] = none
  lookup k ((j, v) ∷ m) = if key.beq j k then some v else lookup k m

  -- `remove`
  abbrev pub without : K → HashMap K V → HashMap K V
  without k [] = []
  without k ((j, v) ∷ m) = let rest = without k m in if key.beq j k then rest else (j, v) ∷ rest

  -- `insert`
  abbrev pub put : K → V → HashMap K V → HashMap K V
  put k v m = (k, v) ∷ without k m

  pub lookup-without :
      (k j : K) (m : HashMap K V)
      → lookup j (without k m) ≡ (if key.beq k j then none else lookup j m)
  lookup-without k j [] = ground arith
  lookup-without k j ((i, v) ∷ m) =
      ground (arith, lookup-without k j m, key.beq_iff i k, key.beq_iff i j, key.beq_iff k j)

  pub lookup-put :
      (k j : K) (v : V) (m : HashMap K V)
      → lookup j (put k v m) ≡ (if key.beq k j then some v else lookup j m)
  lookup-put k j v m = ground (arith, lookup-without k j m)

abbrev pub TreeMap : Type 0 → Type 0
TreeMap V = List (ℕ × V)

module _ {V : Type 0} where
  -- `insert` of a `BTreeMap`
  abbrev pub insert : ℕ → V → TreeMap V → TreeMap V
  insert k v [] = (k, v) ∷ []
  insert k v ((j, w) ∷ m) =
      if k == j then (k, v) ∷ m else if ltb k j then (k, v) ∷ (j, w) ∷ m else (j, w) ∷ insert k v m

  abbrev pub keys : TreeMap V → List ℕ
  keys [] = []
  keys ((k, v) ∷ m) = k ∷ keys m

  abbrev pub values : TreeMap V → List V
  values [] = []
  values ((k, v) ∷ m) = v ∷ values m

  pub lookup-insert :
      (k j : ℕ) (v : V) (m : TreeMap V)
      → lookup j (insert k v m) ≡ (if k == j then some v else lookup j m)
  lookup-insert k j v [] = refl
  lookup-insert k j v ((i, w) ∷ m) = ground (arith, lookup-insert k j v m)

  -- Every key is above `b`, and the keys ascend.
  abbrev pub Above : ℕ → TreeMap V → Type 0
  Above b [] = Unit
  Above b ((k, v) ∷ m) = (b < k) × Above k m

  abbrev pub IsSorted : TreeMap V → Type 0
  IsSorted [] = Unit
  IsSorted ((k, v) ∷ m) = Above k m

-- Membership, and `BTreeSet<u64>` as an ascending list.
abbrev pub mem : ℕ → List ℕ → Bool
mem a [] = false
mem a (x ∷ xs) = a == x || mem a xs

abbrev pub set_insert : ℕ → List ℕ → List ℕ
set_insert a [] = a ∷ []
set_insert a (x ∷ xs) =
    if a == x then x ∷ xs else if ltb a x then a ∷ x ∷ xs else x ∷ set_insert a xs

-- `extend`, one `insert` after the other.
abbrev pub set_extend : List ℕ → List ℕ → List ℕ
set_extend s [] = s
set_extend s (a ∷ added) = set_extend (set_insert a s) added

pub mem-set_insert : (a b : ℕ) (s : List ℕ) → mem b (set_insert a s) ≡ (b == a || mem b s)
mem-set_insert a b [] = refl
mem-set_insert a b (x ∷ xs) = ground (arith, mem-set_insert a b xs)

pub mem-append : (a : ℕ) (xs ys : List ℕ) → mem a (xs ++ ys) ≡ (mem a xs || mem a ys)
mem-append a [] ys = refl
mem-append a (x ∷ xs) ys = ground (arith, mem-append a xs ys)

pub mem-set_extend :
    (b : ℕ) (s added : List ℕ) → mem b (set_extend s added) ≡ (mem b added || mem b s)
mem-set_extend b s [] = refl
mem-set_extend b s (a ∷ added) =
    ground (arith, mem-set_extend b (set_insert a s) added, mem-set_insert a b s)

pub mem-keys : {V : Type 0} (k : ℕ) (m : TreeMap V) → mem k (keys m) ≡ is_some (lookup k m)
mem-keys k [] = refl
mem-keys k ((j, v) ∷ m) = ground (arith, mem-keys k m)
