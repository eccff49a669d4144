-- ===== src/Persist/Atomic.antt =====
-- Framed files, crates/vecvec-core/src/persist/atomic.rs: `write_atomic`, `parse_framed` and
-- `read_framed`. Sums of lengths wrap at 64 bits, as they do in a release build.
pub mod Frames
pub mod Integrity
pub mod Accepted
pub mod Replace
use vecvec.Prelude.{
  ℕ, ◌+◌, ◌%◌, ◌^◌, Bool, true, false, Option, none, some, List, [], ◌∷◌, ◌++◌, length, take, drop,
  ltb, ◌&&◌, ◌==◌, if◌then◌else◌,
}
use vecvec.Error.{Result, ok, err, io, bad_magic, corrupt, checksum_mismatch}
use vecvec.Bytes.{Crc, to_le_bytes, from_le_bytes}

-- `MAGIC` and `END_MAGIC`: "VVEC" and "VEND".
abbrev pub magic : List ℕ
magic = b'V' ∷ b'V' ∷ b'E' ∷ b'C' ∷ []

abbrev pub end_magic : List ℕ
end_magic = b'V' ∷ b'E' ∷ b'N' ∷ b'D' ∷ []

abbrev pub header_len : ℕ
header_len = 20

abbrev pub footer_len : ℕ
footer_len = 8

-- `FileKind`
pub data FileKind : Type 0 where
  generic manifest segment deletion_vector head snapshot : FileKind

unfoldable pub as_u32 : FileKind → ℕ
as_u32 generic = 0
as_u32 manifest = 1
as_u32 segment = 2
as_u32 deletion_vector = 3
as_u32 head = 4
as_u32 snapshot = 5

-- `Frame`, and `FrameView`
pub record Frame : Type 0 where
  pub format_version : ℕ
  pub kind : ℕ
  pub payload : List ℕ

-- `==` on byte arrays.
abbrev pub bytes_eq : List ℕ → List ℕ → Bool
bytes_eq [] [] = true
bytes_eq [] (y ∷ ys) = false
bytes_eq (x ∷ xs) [] = false
bytes_eq (x ∷ xs) (y ∷ ys) = x == y && bytes_eq xs ys

-- The header of `write_atomic`, for the kind's tag.
unfoldable pub header : ℕ → ℕ → List ℕ → List ℕ
header kind format_version payload =
    magic
    ++ (to_le_bytes 4 format_version ++ (to_le_bytes 4 kind ++ to_le_bytes 8 (length payload)))

-- The bytes that `write_atomic` writes: header, payload, and a footer with the checksum of both.
unfoldable pub framed : Crc → ℕ → ℕ → List ℕ → List ℕ
framed crc kind format_version payload =
    let h = header kind format_version payload in
    h ++ (payload ++ (to_le_bytes 4 (crc.hash (h ++ payload)) ++ end_magic))

-- `parse_framed`
unfoldable pub parse_framed : Crc → List ℕ → Result Frame
parse_framed crc bytes =
    if ltb (length bytes) (header_len + footer_len)
    then err corrupt
    else if bytes_eq (take 4 bytes) magic
    then (let format_version = from_le_bytes (take 4 (drop 4 bytes)) in
        let kind = from_le_bytes (take 4 (drop 8 bytes)) in
        let payload_len = from_le_bytes (take 8 (drop 12 bytes)) in
        let expected_total = (header_len + payload_len + footer_len) % 2 ^ 64 in
        if length bytes == expected_total
        then (let payload_end = (header_len + payload_len) % 2 ^ 64 in
            let stored_crc = from_le_bytes (take 4 (drop payload_end bytes)) in
            if bytes_eq (take 4 (drop (payload_end + 4) bytes)) end_magic
            then (let computed = crc.hash (take payload_end bytes) in
                if computed == stored_crc
                then ok (record {
                  format_version = format_version;
                  kind = kind;
                  payload = drop header_len (take payload_end bytes);
                })
                else err (checksum_mismatch stored_crc computed))
            else err corrupt)
        else err corrupt)
    else err (bad_magic (take 4 bytes))

-- `read_framed`; a file that cannot be read is `none`.
unfoldable pub read_framed : Crc → Option (List ℕ) → Result Frame
read_framed crc none = err io
read_framed crc (some bytes) = parse_framed crc bytes
