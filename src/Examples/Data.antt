-- ===== src/Examples/Data.antt =====
-- Concrete functions for what the repository takes from elsewhere: floats, bitmaps, a checksum and
-- a serialization.
use vecvec.Index.Order.{Ordered}
use vecvec.Index.Scan.{Scores}
use vecvec.Index.Deleted.{Swap}
use vecvec.Prelude.{
  leb, ◌-◌, ℕ, zero, suc, ◌+◌, ◌-◌, ◌*◌, ◌/◌, ◌%◌, ◌^◌, ◌<◌, ◌≡◌, refl, sym, ap, Bool, true, false,
  not, ◌||◌, Option, none, some, List, [], ◌∷◌, keep, length, arith, ltb, if◌then◌else◌,
  some-injective, ◌==◌,
}
use vecvec.Prelude.Maps.{mem}
use vecvec.Bytes.{Crc, Codec}
use vecvec.Distance.{Floats}
use vecvec.Version.Deletion.{Treemap}
use vecvec.Version.Store.Collect.{mem-keep}
use vecvec.Persist.Wal.{WalOp, upsert, delete}

instance abbrev pub whole : Floats
whole = record {
  F32 = ℕ;
  nil = 0;
  one = 1;
  add = ◌+◌;
  sub = ◌-◌;
  mul = ◌*◌;
  div = ◌/◌;
  sqrt = λ x. x;
  is_positive = λ x. ltb 0 x;
}

abbrev pub sum : List ℕ → ℕ
sum [] = 0
sum (b ∷ bs) = b + sum bs

abbrev pub put_item : ℕ → List ℕ → List ℕ × Bool
put_item j b = if mem j b then (b, false) else (j ∷ b, true)

pub mem-put : (i j : ℕ) (b : List ℕ) → mem i (put_item j b).0 ≡ (i == j || mem i b)
mem-put i j b = ground arith

pub put_newly : (j : ℕ) (b : List ℕ) → (put_item j b).1 ≡ not (mem j b)
put_newly j b = ground arith

pub length-put :
    (j : ℕ) (b : List ℕ) → length (put_item j b).0 ≡ (if mem j b then length b else length b + 1)
length-put j b = ground arith

pub hash_bound : (bs : List ℕ) → sum bs % 256 ^ 4 < 256 ^ 4
hash_bound bs = omega arith

instance abbrev pub listed : Treemap
listed = record {
  Bitmap = List ℕ;
  empty = [];
  insert = put_item;
  contains = mem;
  len = length;
  items = λ b. b;
  minus = λ a b. keep (λ i. not (mem i b)) a;
  contains-empty = λ i. refl;
  contains-insert = mem-put;
  insert_newly = put_newly;
  mem-items = λ i b. refl;
  len-items = λ b. refl;
  len-empty = refl;
  len-insert = length-put;
  contains-minus = λ i a b. mem-keep i (λ k. not (mem k b)) a;
}

abbrev pub summed : Crc
summed = record { hash = λ bs. sum bs % 256 ^ 4; hash_bound = hash_bound }

abbrev to_vec : WalOp ℕ ℕ → Option (List ℕ)
to_vec (upsert id vector none) = some (1 ∷ id ∷ 0 ∷ vector)
to_vec (upsert id vector (some p)) = some (1 ∷ id ∷ suc p ∷ vector)
to_vec (delete id) = some (0 ∷ id ∷ [])

abbrev from_slice : List ℕ → Option (WalOp ℕ ℕ)
from_slice (zero ∷ id ∷ []) = some (delete id)
from_slice (suc zero ∷ id ∷ zero ∷ vector) = some (upsert id vector none)
from_slice (suc zero ∷ id ∷ suc p ∷ vector) = some (upsert id vector (some p))
from_slice _ = none

pub round_trip : (op : WalOp ℕ ℕ) (bs : List ℕ) → to_vec op ≡ some bs → from_slice bs ≡ some op
round_trip (upsert id vector none) bs h = ap from_slice (sym (some-injective _ bs h))
round_trip (upsert id vector (some p)) bs h = ap from_slice (sym (some-injective _ bs h))
round_trip (delete id) bs h = ap from_slice (sym (some-injective _ bs h))

abbrev pub plain : Codec (WalOp ℕ ℕ)
plain = record { to_vec = to_vec; from_slice = from_slice; round_trip = round_trip }

pub leb_total : (a b : ℕ) → leb a b ≡ false → leb b a ≡ true
leb_total a b h = ground arith

pub leb_trans : (a b c : ℕ) → leb a b ≡ true → leb b c ≡ true → leb a c ≡ true
leb_trans a b c h g = ground arith

pub leb_antisym : (a b : ℕ) → leb a b ≡ true → leb b a ≡ true → a ≡ b
leb_antisym a b h g = ground arith

abbrev pub ascending : Ordered ℕ
ascending = record {
  leb = leb;
  leb_total = leb_total;
  leb_trans = leb_trans;
  leb_antisym = leb_antisym;
}

-- Negation of the scores up to 1000.
abbrev pub negated : ℕ → ℕ
negated x = if leb x 1000 then 1000 - x else x

pub negated-negated : (x : ℕ) → negated (negated x) ≡ x
negated-negated x = ground arith

-- Scores up to 1000.
instance abbrev pub points : Scores
points = record { Score = ℕ; neg = negated; total_cmp = ascending }

-- The loop of a compare and swap: the closure on each value that is there no more, then on the one
-- that is.
abbrev pub attempts : {B : Type 0} → (B → Bool → B × Bool) → List B → B → Bool → B × Bool
attempts f [] current flag = f current flag
attempts f (b ∷ stale) current flag = attempts f stale current (f b flag).1

pub attempts-last :
    {B : Type 0} (f : B → Bool → B × Bool) (stale : List B) (current : B) (flag : Bool)
    → (last : Bool) × (attempts f stale current flag ≡ f current last)
attempts-last f [] current flag = (flag, refl)
attempts-last f (b ∷ stale) current flag = attempts-last f stale current (f b flag).1

abbrev pub swap_loop : {B : Type 0} → Swap B
swap_loop = record { rcu = attempts; rcu_last = attempts-last }
