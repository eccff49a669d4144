-- ===== src/Collection/Write/Decimal.antt =====
-- The decimal digits that `format!` prints in crates/vecvec-core/src/collection.rs. A 64-bit
-- number has at most twenty.
use vecvec.Prelude.{
  none, some, List, [], ◌∷◌, get_elem?, ℕ, zero, suc, ◌/◌, ◌%◌, String, ltb, if◌then◌else◌,
}
use Prim.Native.String.{◌++◌}

abbrev names : List String
names = "0" ∷ "1" ∷ "2" ∷ "3" ∷ "4" ∷ "5" ∷ "6" ∷ "7" ∷ "8" ∷ "9" ∷ []

abbrev digit : ℕ → String
digit n = elim (get_elem? names n) [ none ↦ "" | some name ↦ name ]

abbrev digits : ℕ → ℕ → String
digits zero n = ""
digits (suc fuel) n =
    let rest = digits fuel (n / 10) in (if ltb n 10 then "" else rest) ++ digit (n % 10)

unfoldable pub decimal : ℕ → String
decimal n = digits 20 n
