-- ===== src/Segment/IdMap.antt =====
-- The map between a segment's rows and global ids, crates/vecvec-core/src/segment/id_map.rs.
-- A debug build also asserts that a pushed id is new.
use vecvec.Prelude.{
  ℕ, suc, ◌+◌, ◌%◌, ◌^◌, ◌≡◌, ap, ◌∙◌, Option, none, some, List, [], ◌∷◌, ◌++◌, length, get_elem?,
  arith,
}
use vecvec.Error.{Result, ok, panic}
use vecvec.Prelude.Maps.{HashMap, lookup, put, nat_key}

-- `IdMap`
pub record IdMap : Type 0 where
  pub local_to_global : List ℕ
  pub global_to_local : HashMap ℕ ℕ

abbrev pub new : IdMap
new = record { local_to_global = []; global_to_local = [] }

-- `push`: the new local id is the length, as a 32-bit number.
unfoldable pub push : ℕ → IdMap → IdMap × ℕ
push global m =
    let local = length m.local_to_global % 2 ^ 32 in
    (
      record {
        local_to_global = m.local_to_global ++ global ∷ [];
        global_to_local = put global local m.global_to_local;
      },
      local,
    )

-- `to_global`
unfoldable pub to_global : ℕ → IdMap → Option ℕ
to_global local m = get_elem? m.local_to_global local

-- `to_local`
unfoldable pub to_local : ℕ → IdMap → Option ℕ
to_local global m = lookup global m.global_to_local

unfoldable pub len : IdMap → ℕ
len m = length m.local_to_global

-- `from_global_ids`: the pairs of `enumerate` from `i` on, collected into the map.
abbrev enumerated : ℕ → List ℕ → HashMap ℕ ℕ → HashMap ℕ ℕ
enumerated i [] m = m
enumerated i (g ∷ gs) m = enumerated (i + 1) gs (put g (i % 2 ^ 32) m)

unfoldable pub from_global_ids : List ℕ → IdMap
from_global_ids gs = record { local_to_global = gs; global_to_local = enumerated 0 gs [] }

-- `global_at`: an index that is out of range panics.
unfoldable pub global_at : ℕ → IdMap → Result ℕ
global_at local m = elim (get_elem? m.local_to_global local) [ none ↦ panic | some g ↦ ok g ]

-- One `push` more is one id more in the list.
from_global_ids-push_at :
    (i : ℕ) (gs : List ℕ) (g : ℕ) (m : HashMap ℕ ℕ)
    → enumerated i (gs ++ g ∷ []) m ≡ put g ((i + length gs) % 2 ^ 32) (enumerated i gs m)
from_global_ids-push_at i [] g m = ap (λ n. put g (n % 2 ^ 32) m) {x = i} {y = i + 0} (omega arith)
from_global_ids-push_at i (h ∷ gs) g m =
    from_global_ids-push_at (i + 1) gs g (put h (i % 2 ^ 32) m)
    ∙ ap (λ n. put g (n % 2 ^ 32) (enumerated (i + 1) gs (put h (i % 2 ^ 32) m)))
        {x = i + 1 + length gs} {y = i + suc (length gs)} (omega arith)

-- Rebuilding a map from the ids of a segment gives the map that pushing these ids one by one had
-- built: the rebuilt map of a list with one id more is the pushed map.
pub from_global_ids-push :
    (gs : List ℕ) (g : ℕ) → from_global_ids (gs ++ g ∷ []) ≡ (push g (from_global_ids gs)).0
unfolding from_global_ids push
from_global_ids-push gs g =
    ap (λ (m : HashMap ℕ ℕ). record { local_to_global = gs ++ g ∷ []; global_to_local = m })
      (from_global_ids-push_at 0 gs g [])
    ∙ ap
        (λ n. record {
          local_to_global = gs ++ g ∷ [];
          global_to_local = put g (n % 2 ^ 32) (enumerated 0 gs []);
        })
        {x = 0 + length gs} {y = length gs} (omega arith)
