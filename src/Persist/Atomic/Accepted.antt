-- ===== src/Persist/Atomic/Accepted.antt =====
-- What `parse_framed` accepts is, byte for byte, a file that `write_atomic` writes.
use mathlib.Core.Path.{ap₂}
use vecvec.Prelude.{
  ℕ, ◌+◌, ◌%◌, ◌^◌, ◌≡◌, refl, sym, ap, ◌∙◌, true, List, [], ◌∷◌, ◌++◌, length, take, drop, arith,
  ◌<◌, ◌≤◌, append_assoc, length-append, subst, length-take, length-drop, All, take_of_length-le,
}
use vecvec.Prelude.Slices.{split_slice, drop-take, take_prefix, All-take, All-drop}
use vecvec.Error.{ok}
use vecvec.Bytes.{Crc, IsByte, to_le_bytes, from_le_bytes, to-from_le_bytes, from_le_bytes-lt}
use vecvec.Persist.Atomic.{Frame, magic, end_magic, bytes_eq, header, framed, parse_framed}
use vecvec.Persist.Atomic.Frames.{length-header}

bytes_eq→eq : (xs ys : List ℕ) → bytes_eq xs ys ≡ true → xs ≡ ys
bytes_eq→eq [] [] h = refl
bytes_eq→eq [] (y ∷ ys) h = cc
bytes_eq→eq (x ∷ xs) [] h = cc
bytes_eq→eq (x ∷ xs) (y ∷ ys) h = ground (arith, bytes_eq→eq xs ys)

-- The tests that an accepted file has passed.
record Passed (crc : Crc) (bytes : List ℕ) (f : Frame) (len end : ℕ) : Type 0 where
  long : 28 ≤ length bytes
  magic : bytes_eq (take 4 bytes) magic ≡ true
  size : length bytes ≡ (28 + len) % 2 ^ 64
  end_magic : bytes_eq (take 4 (drop (end + 4) bytes)) end_magic ≡ true
  sum : crc.hash (take end bytes) ≡ from_le_bytes (take 4 (drop end bytes))
  version : f.format_version ≡ from_le_bytes (take 4 (drop 4 bytes))
  kind : f.kind ≡ from_le_bytes (take 4 (drop 8 bytes))
  payload : f.payload ≡ drop 20 (take end bytes)

module _ (crc : Crc) (bytes : List ℕ) (f : Frame) where
  passed :
      parse_framed crc bytes ≡ ok f
      → Passed crc bytes f
          (from_le_bytes (take 8 (drop 12 bytes)))
          ((20 + from_le_bytes (take 8 (drop 12 bytes))) % 2 ^ 64)
  unfolding parse_framed
  passed h = record {
    long = ground arith;
    magic = ground arith;
    size = ground arith;
    end_magic = ground arith;
    sum = ground arith;
    version = ground arith;
    kind = ground arith;
    payload = ground arith;
  }

  module _ (bytes_all : All IsByte bytes) where
    -- A field of `w` bytes at `off` is the number that it holds, written again.
    field :
        (off w : ℕ)
        → off + w ≤ length bytes
        → take w (drop off bytes) ≡ to_le_bytes w (from_le_bytes (take w (drop off bytes)))
    field off w h = sym (
        to-from_le_bytes w (take w (drop off bytes))
          (All-take IsByte w (drop off bytes) (All-drop IsByte off bytes bytes_all))
          (omega (arith, length-take w (drop off bytes), length-drop off bytes, h)))

    len_bound : 28 ≤ length bytes → from_le_bytes (take 8 (drop 12 bytes)) < 2 ^ 64
    len_bound h = omega (
      arith,
      from_le_bytes-lt 8 (take 8 (drop 12 bytes))
          (All-take IsByte 8 (drop 12 bytes) (All-drop IsByte 12 bytes bytes_all))
          (omega (arith, length-take 8 (drop 12 bytes), length-drop 12 bytes, h)),
    )

    -- With the lengths known to be as declared, the fields together are the whole file.
    module _ (len : ℕ) (size : length bytes ≡ 28 + len) (p : Passed crc bytes f len (20 + len))
        (declared : from_le_bytes (take 8 (drop 12 bytes)) ≡ len) where
      payload_part : take len (drop 20 bytes) ≡ f.payload
      payload_part = sym (drop-take 20 len (20 + len) bytes refl) ∙ sym p.payload

      payload_len : length f.payload ≡ len
      payload_len = omega (
        arith,
        ap length payload_part,
        length-take len (drop 20 bytes),
        length-drop 20 bytes,
        size,
      )

      header_part : bytes ≡ header f.kind f.format_version f.payload ++ drop 20 bytes
      unfolding header
      header_part =
          split_slice 0 4 4 bytes refl
          ∙ ap₂ ◌++◌ (bytes_eq→eq (take 4 bytes) magic p.magic) (
              split_slice 4 4 8 bytes refl
              ∙ ap₂ ◌++◌ (field 4 4 (omega (arith, size)) ∙ ap (to_le_bytes 4) (sym p.version)) (
                  split_slice 8 4 12 bytes refl
                  ∙ ap₂ ◌++◌ (field 8 4 (omega (arith, size)) ∙ ap (to_le_bytes 4) (sym p.kind)) (
                      split_slice 12 8 20 bytes refl
                      ∙ ap (λ b. b ++ drop 20 bytes)
                          (field 12 8 (omega (arith, size))
                            ∙ ap (to_le_bytes 8) (declared ∙ sym payload_len)))))
          ∙ simp append_assoc

      body_part : drop 20 bytes ≡ f.payload ++ drop (20 + len) bytes
      body_part =
          split_slice 20 len (20 + len) bytes refl
          ∙ ap (λ b. b ++ drop (20 + len) bytes) payload_part

      summed_part : take (20 + len) bytes ≡ header f.kind f.format_version f.payload ++ f.payload
      summed_part =
          ap (take (20 + len)) (
            header_part
            ∙ ap (◌++◌ (header f.kind f.format_version f.payload)) body_part
            ∙ sym (append_assoc (header f.kind f.format_version f.payload) f.payload _))
          ∙ take_prefix (20 + len) (header f.kind f.format_version f.payload ++ f.payload)
              (drop (20 + len) bytes)
              (omega (
                arith,
                length-append (header f.kind f.format_version f.payload) f.payload,
                length-header f.kind f.format_version f.payload,
                payload_len,
              ))

      footer_part :
          drop (20 + len) bytes
          ≡ to_le_bytes 4 (crc.hash (header f.kind f.format_version f.payload ++ f.payload))
            ++ end_magic
      footer_part =
          split_slice (20 + len) 4 (20 + len + 4) bytes refl
          ∙ ap₂ ◌++◌
              (field (20 + len) 4 (omega (arith, size))
                ∙ ap (to_le_bytes 4) (sym p.sum ∙ ap crc.hash summed_part))
              (sym (
                  take_of_length-le 4 (drop (20 + len + 4) bytes)
                    (omega (arith, length-drop (20 + len + 4) bytes, size)))
                ∙ bytes_eq→eq (take 4 (drop (20 + len + 4) bytes)) end_magic p.end_magic)

      rebuilt : bytes ≡ framed crc f.kind f.format_version f.payload
      unfolding framed
      rebuilt =
          header_part
          ∙ ap (◌++◌ (header f.kind f.format_version f.payload))
              (body_part ∙ ap (◌++◌ f.payload) footer_part)

-- Whatever bytes a file holds: if `parse_framed` accepts it, then it is exactly the file that
-- `write_atomic` writes for the returned kind, version and payload.
pub framed-parse_framed :
    (crc : Crc) (bytes : List ℕ) (f : Frame)
    → All IsByte bytes
    → parse_framed crc bytes ≡ ok f
    → bytes ≡ framed crc f.kind f.format_version f.payload
framed-parse_framed crc bytes f b h =
    let p = passed crc bytes f h in
    let len = from_le_bytes (take 8 (drop 12 bytes)) in
    let bound = len_bound crc bytes f b p.long in
    let size : length bytes ≡ 28 + len = omega (arith, bound, p.size, p.long) in
    let end : (20 + len) % 2 ^ 64 ≡ 20 + len = omega (arith, size, p.size, bound, p.long) in
    rebuilt crc bytes f b len size (subst (Passed crc bytes f len) end p) refl
