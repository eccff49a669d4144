-- ===== src/Persist/Atomic/Frames.antt =====
-- What `parse_framed` accepts.
use vecvec.Prelude.{
  if◌then◌else◌, ◌==◌, ltb, ℕ, ◌+◌, ◌%◌, ◌^◌, ◌≡◌, refl, sym, ap, ◌∙◌, true, false, List, [], ◌++◌,
  length, take, drop, arith, ◌<◌, append_assoc, length-append,
}
use vecvec.Prelude.Slices.{slice_of, take_prefix, drop_prefix}
use vecvec.Error.{ok, err, checksum_mismatch}
use vecvec.Bytes.{Crc, to_le_bytes, from_le_bytes, length-to_le_bytes, from-to_le_bytes}
use vecvec.Persist.Atomic.{magic, end_magic, bytes_eq, header, parse_framed}

pub length-header :
    (kind format_version : ℕ) (payload : List ℕ) → length (header kind format_version payload) ≡ 20
unfolding header
length-header kind v payload = omega (
  arith,
  length-append magic (to_le_bytes 4 v ++ (to_le_bytes 4 kind ++ to_le_bytes 8 (length payload))),
  length-append (to_le_bytes 4 v) (to_le_bytes 4 kind ++ to_le_bytes 8 (length payload)),
  length-append (to_le_bytes 4 kind) (to_le_bytes 8 (length payload)),
  length-to_le_bytes 4 v,
  length-to_le_bytes 4 kind,
  length-to_le_bytes 8 (length payload),
)

-- The checks of `parse_framed`, for a file whose fields are known.
parse_of_fields :
    (crc : Crc) (bytes summed body : List ℕ) (v kind len stored : ℕ)
    → length bytes ≡ 28 + len
    → 28 + len < 2 ^ 64
    → bytes_eq (take 4 bytes) magic ≡ true
    → from_le_bytes (take 4 (drop 4 bytes)) ≡ v
    → from_le_bytes (take 4 (drop 8 bytes)) ≡ kind
    → from_le_bytes (take 8 (drop 12 bytes)) ≡ len
    → from_le_bytes (take 4 (drop (20 + len) bytes)) ≡ stored
    → bytes_eq (take 4 (drop (20 + len + 4) bytes)) end_magic ≡ true
    → take (20 + len) bytes ≡ summed
    → drop 20 summed ≡ body
    → parse_framed crc bytes ≡ (
        if crc.hash summed == stored
        then ok (record { format_version = v; kind = kind; payload = body })
        else err (checksum_mismatch stored (crc.hash summed)))
unfolding parse_framed
parse_of_fields crc bytes summed body v kind len stored size small m1 fv fk fl fc m2 ts db =
    let long : ltb (length bytes) 28 ≡ false = ground arith in
    let total : length bytes == ((20 + len + 8) % 2 ^ 64) ≡ true = ground arith in
    let end : (20 + len) % 2 ^ 64 ≡ 20 + len = omega arith in
    rw (long, m1, fl, total, end, m2, ts, fc, db, fv, fk)

-- A file in the shape that `write_atomic` gives it: the header for a payload as long as `body`,
-- then `body`, the checksum `stored`, and the end magic.
module _ (crc : Crc) (kind v stored : ℕ) (payload body : List ℕ) where
  abbrev foot : List ℕ
  foot = body ++ (to_le_bytes 4 stored ++ end_magic)

  abbrev pub laid_out : List ℕ
  laid_out = header kind v payload ++ foot

  laid_out_parts :
      laid_out
      ≡ magic
        ++ (to_le_bytes 4 v
            ++ (to_le_bytes 4 kind
                ++ (to_le_bytes 8 (length payload)
                    ++ (body ++ (to_le_bytes 4 stored ++ end_magic)))))
  unfolding header
  laid_out_parts = simp append_assoc

  pub length-laid_out : length laid_out ≡ 28 + length body
  length-laid_out = omega (
    arith,
    length-append (header kind v payload) (body ++ (to_le_bytes 4 stored ++ end_magic)),
    length-header kind v payload,
    length-append body (to_le_bytes 4 stored ++ end_magic),
    length-append (to_le_bytes 4 stored) end_magic,
    length-to_le_bytes 4 stored,
  )

  version_field : v < 256 ^ 4 → from_le_bytes (take 4 (drop 4 laid_out)) ≡ v
  version_field h =
      ap from_le_bytes (
        slice_of 4 4 magic (to_le_bytes 4 v) _ _ laid_out_parts refl (sym (length-to_le_bytes 4 v)))
      ∙ from-to_le_bytes 4 v h

  kind_field : kind < 256 ^ 4 → from_le_bytes (take 4 (drop 8 laid_out)) ≡ kind
  kind_field h =
      ap from_le_bytes (
        slice_of 8 4 (magic ++ to_le_bytes 4 v) (to_le_bytes 4 kind)
          (to_le_bytes 8 (length payload) ++ foot) _ (laid_out_parts ∙ simp append_assoc)
          (omega (arith, length-append magic (to_le_bytes 4 v), length-to_le_bytes 4 v))
          (sym (length-to_le_bytes 4 kind)))
      ∙ from-to_le_bytes 4 kind h

  pub len_field :
      length payload < 256 ^ 8 → from_le_bytes (take 8 (drop 12 laid_out)) ≡ length payload
  len_field h =
      ap from_le_bytes (
        slice_of 12 8 (magic ++ (to_le_bytes 4 v ++ to_le_bytes 4 kind))
          (to_le_bytes 8 (length payload)) foot _ (laid_out_parts ∙ simp append_assoc)
          (omega (
            arith,
            length-append magic (to_le_bytes 4 v ++ to_le_bytes 4 kind),
            length-append (to_le_bytes 4 v) (to_le_bytes 4 kind),
            length-to_le_bytes 4 v,
            length-to_le_bytes 4 kind,
          ))
          (sym (length-to_le_bytes 8 (length payload))))
      ∙ from-to_le_bytes 8 (length payload) h

  pub magic_field : take 4 laid_out ≡ magic
  magic_field =
      ap (take 4) laid_out_parts
      ∙ take_prefix 4 magic
          (to_le_bytes 4 v ++ (to_le_bytes 4 kind ++ (to_le_bytes 8 (length payload) ++ foot))) refl

  crc_field :
      (end : ℕ)
      → end ≡ 20 + length body
      → stored < 256 ^ 4
      → from_le_bytes (take 4 (drop end laid_out)) ≡ stored
  crc_field end p h =
      ap from_le_bytes (
        slice_of end 4 (header kind v payload ++ body) (to_le_bytes 4 stored) end_magic _
          (sym (append_assoc (header kind v payload) body _))
          (omega (arith, length-append (header kind v payload) body, length-header kind v payload))
          (sym (length-to_le_bytes 4 stored)))
      ∙ from-to_le_bytes 4 stored h

  end_field : (end : ℕ) → end ≡ 20 + length body → take 4 (drop (end + 4) laid_out) ≡ end_magic
  end_field end p =
      slice_of (end + 4) 4 (header kind v payload ++ (body ++ to_le_bytes 4 stored)) end_magic [] _
        (simp append_assoc)
        (omega (
          arith,
          length-append (header kind v payload) (body ++ to_le_bytes 4 stored),
          length-append body (to_le_bytes 4 stored),
          length-header kind v payload,
          length-to_le_bytes 4 stored,
        ))
        refl

  summed : (end : ℕ) → end ≡ 20 + length body → take end laid_out ≡ header kind v payload ++ body
  summed end p =
      ap (take end) (sym (append_assoc (header kind v payload) body _))
      ∙ take_prefix end (header kind v payload ++ body) _
          (omega (arith, length-append (header kind v payload) body, length-header kind v payload))

  -- A body as long as the header says, under the right end magic, is judged by its checksum.
  pub parse-laid_out :
      kind < 256 ^ 4
      → v < 256 ^ 4
      → stored < 256 ^ 4
      → 28 + length payload < 2 ^ 64
      → length body ≡ length payload
      → parse_framed crc laid_out ≡ (
          if crc.hash (header kind v payload ++ body) == stored
          then ok (record { format_version = v; kind = kind; payload = body })
          else err (checksum_mismatch stored (crc.hash (header kind v payload ++ body))))
  parse-laid_out hk hv hs small same =
      parse_of_fields crc laid_out (header kind v payload ++ body) body v kind (length payload)
        stored (omega (arith, length-laid_out)) small (ap (λ b. bytes_eq b magic) magic_field)
        (version_field hv) (kind_field hk) (len_field (omega arith))
        (crc_field (20 + length payload) (omega arith) hs)
        (ap (λ b. bytes_eq b end_magic) (end_field (20 + length payload) (omega arith)))
        (summed (20 + length payload) (omega arith))
        (drop_prefix 20 (header kind v payload) body (sym (length-header kind v payload)))
