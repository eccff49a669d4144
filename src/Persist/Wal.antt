-- ===== src/Persist/Wal.antt =====
-- The write-ahead log, crates/vecvec-core/src/persist/wal.rs, at the level of bytes.
-- The calls of the operating system are taken to succeed; what a crash leaves of a file is a
-- prefix that holds at least what was synced (`Survives`).
pub mod Records
pub mod Torn
pub mod Reopen
pub mod Crash
use vecvec.Prelude.{
  ℕ, zero, suc, ◌+◌, ◌-◌, ◌≤◌, ◌≡◌, Option, none, some, List, [], ◌∷◌, ◌++◌, length, take, drop,
  ltb, ◌==◌, if◌then◌else◌, true, false,
}
use vecvec.Error.{Result, ok, err, serialization}
use vecvec.Bytes.{Crc, Codec, to_le_bytes, from_le_bytes}

-- `WalOp`, over the type `F` of 32-bit floats and the type `P` of JSON values.
pub data WalOp (F P : Type 0) : Type 0 where
  upsert : ℕ → List F → Option P → WalOp F P
  delete : ℕ → WalOp F P

-- `RECORD_HEADER_LEN`
abbrev pub record_header_len : ℕ
record_header_len = 8

-- `Wal`: the bytes of its file, how many of them are known to be on disk, and `count`. The file's
-- cursor stands at its end after `open` and after each `append`.
pub record Wal : Type 0 where
  pub file : List ℕ
  pub synced : ℕ
  pub count : ℕ

-- What a crash can leave of the file: a prefix with at least the synced bytes.
abbrev pub Survives : Wal → List ℕ → Type 0
Survives wal bytes = (m : ℕ) × (wal.synced ≤ m) × (bytes ≡ take m wal.file)

-- The bytes that `append` writes for one serialized record.
unfoldable pub frame : Crc → List ℕ → List ℕ
frame crc payload = to_le_bytes 4 (length payload) ++ (to_le_bytes 4 (crc.hash payload) ++ payload)

module _ {F P : Type 0} (crc : Crc) (codec : Codec (WalOp F P)) where
  unfoldable pub append : Wal → WalOp F P → Result Wal
  append wal op = elim (codec.to_vec op) [
    | none ↦ err serialization
    | some payload ↦ ok (record wal { file = wal.file ++ frame crc payload; count = wal.count + 1 })
  ]

  -- The body of the loop of `read_records`: the record at `off` and where it ends, or `none` for a
  -- `break`.
  unfoldable pub next_record : List ℕ → ℕ → Option (WalOp F P × ℕ)
  next_record bytes off =
      if ltb (length bytes) (off + record_header_len)
      then none
      else (let len = from_le_bytes (take 4 (drop off bytes)) in
          let stored = from_le_bytes (take 4 (drop (off + 4) bytes)) in
          let payload_start = off + record_header_len in
          let payload_end = payload_start + len in
          if ltb (length bytes) payload_end
          then none
          else (let payload = take len (drop payload_start bytes) in
              if crc.hash payload == stored
              then elim (codec.from_slice payload) [
                | none ↦ none
                | some op ↦ some (op, payload_end)
              ]
              else none))

  -- The loop. `none` means that the fuel ran out.
  unfoldable pub read_loop : ℕ → List ℕ → List (WalOp F P) → ℕ → Option (List (WalOp F P) × ℕ)
  read_loop zero bytes ops off = none
  read_loop (suc fuel) bytes ops off = elim (ltb off (length bytes)) [
    | false ↦ some (ops, off)
    | true ↦ elim (next_record bytes off) [
      | none ↦ some (ops, off)
      | some (op, payload_end) ↦ read_loop fuel bytes (ops ++ op ∷ []) payload_end
    ]
  ]

  -- `read_records`; a missing file is `none`. Each round advances by at least a header.
  unfoldable pub read_records : Option (List ℕ) → Option (List (WalOp F P) × ℕ)
  read_records none = some ([], 0)
  read_records (some bytes) = read_loop (suc (length bytes)) bytes [] 0

  -- `Wal::read_all`
  unfoldable pub read_all : Wal → Option (List (WalOp F P))
  read_all wal = elim (read_records (some wal.file)) [ none ↦ none | some (ops, _) ↦ some ops ]

  abbrev contents : Option (List ℕ) → List ℕ
  contents none = []
  contents (some bytes) = bytes

  -- `Wal::open`: `set_len(valid_end)` drops the torn tail.
  unfoldable pub open_log : Option (List ℕ) → Option Wal
  open_log found = elim (read_records found) [
    | none ↦ none
    | some (ops, valid_end) ↦
        some (record {
          file = take valid_end (contents found);
          synced = valid_end;
          count = length ops;
        })
  ]

-- `Wal::flush`
unfoldable pub flush : Wal → Wal
flush wal = record wal { synced = length wal.file }
