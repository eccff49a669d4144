-- ===== src/Error.antt =====
-- The error type of crates/vecvec-core/src/error.rs, and the outcome of a fallible function.
-- A panic (a failed `assert!`, an `expect` on `None`) is an outcome of its own.
use vecvec.Prelude.{ℕ, List, ◌≡◌, refl, ap}

-- `CoreError`. Paths and the text of `detail` only serve messages and are left out, but for what
-- tells two causes of one variant apart.
pub data CoreError : Type 0 where
  io : CoreError
  bad_magic : List ℕ → CoreError
  unsupported_version : ℕ → ℕ → CoreError
  checksum_mismatch : ℕ → ℕ → CoreError
  corrupt : CoreError
  dimension_mismatch : ℕ → ℕ → CoreError
  serialization : CoreError
  version : CoreError

pub data Result {ℓ} (T : Type ℓ) : Type ℓ where
  panic : Result T
  err : CoreError → Result T
  ok : T → Result T

-- The operator `?`.
infixl 5 ◌>>=◌
abbrev pub ◌>>=◌ {ℓ κ} : {S : Type ℓ} {T : Type κ} → Result S → (S → Result T) → Result T
r >>= next = elim r [ panic ↦ panic | err e ↦ err e | ok s ↦ next s ]

-- Where the whole succeeds, the first part has succeeded.
pub >>=-eq-ok {ℓ κ} :
    {S : Type ℓ} {T : Type κ} (r : Result S) (next : S → Result T) {t : T}
    → (r >>= next) ≡ ok t
    → (s : S) × (r ≡ ok s) × (next s ≡ ok t)
>>=-eq-ok panic next h = cc
>>=-eq-ok (err e) next h = cc
>>=-eq-ok (ok s) next h = (s, refl, h)

pub >>=-assoc {ℓ κ μ} :
    {S : Type ℓ} {T : Type κ} {U : Type μ} (r : Result S) (f : S → Result T) (g : T → Result U)
    → (r >>= f >>= g) ≡ (r >>= (λ s. f s >>= g))
>>=-assoc panic f g = refl
>>=-assoc (err e) f g = refl
>>=-assoc (ok s) f g = refl

pub ok-injective {ℓ} : {T : Type ℓ} (s t : T) → ok s ≡ ok t → s ≡ t
ok-injective s t h = ap (λ r. elim r [ panic ↦ s | err e ↦ s | ok x ↦ x ]) h
