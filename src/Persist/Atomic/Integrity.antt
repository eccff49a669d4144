-- ===== src/Persist/Atomic/Integrity.antt =====
-- Reading back what `write_atomic` wrote, and refusing everything else.
use vecvec.Prelude.{
  ℕ, ◌+◌, ◌%◌, ◌^◌, ◌≡◌, ◌≢◌, refl, sym, ap, ◌∙◌, true, false, List, [], ◌++◌, length, take, drop,
  arith, ◌<◌, ◌≤◌, append-nil, length-take, ltb, ltb→lt, lt→ltb, ◌==◌, Bool-cases, inl, inr,
}
use vecvec.Prelude.Slices.{slice-take}
use vecvec.Error.{ok, err, corrupt, checksum_mismatch}
use vecvec.Bytes.{Crc, from_le_bytes}
use vecvec.Persist.Atomic.{magic, bytes_eq, header, framed, parse_framed}
use vecvec.Persist.Atomic.Frames.{laid_out, length-laid_out, len_field, magic_field, parse-laid_out}

parse_short :
    (crc : Crc) (bytes : List ℕ) → length bytes < 28 → parse_framed crc bytes ≡ err corrupt
unfolding parse_framed
parse_short crc bytes h = rw (lt→ltb (length bytes) 28 h)

parse_wrong_size :
    (crc : Crc) (bytes : List ℕ) (len : ℕ)
    → 28 ≤ length bytes
    → 28 + len < 2 ^ 64
    → length bytes < 28 + len
    → bytes_eq (take 4 bytes) magic ≡ true
    → from_le_bytes (take 8 (drop 12 bytes)) ≡ len
    → parse_framed crc bytes ≡ err corrupt
unfolding parse_framed
parse_wrong_size crc bytes len long small less m fl =
    let enough : ltb (length bytes) 28 ≡ false = ground arith in
    let other : length bytes == ((20 + len + 8) % 2 ^ 64) ≡ false = ground arith in
    rw (enough, m, fl, other)

module _ (crc : Crc) (kind v : ℕ) (payload : List ℕ) where
  -- The checksum that the footer holds.
  abbrev checksum : ℕ
  checksum = crc.hash (header kind v payload ++ payload)

  -- A file with another body of the same length, under the footer of the written one.
  abbrev pub damaged : List ℕ → List ℕ
  damaged body = laid_out crc kind v checksum payload body

  -- What `write_atomic` writes, `parse_framed` reads, for a 32-bit kind and version and a payload
  -- that a 64-bit file can hold.
  pub parse_framed-framed :
      kind < 2 ^ 32
      → v < 2 ^ 32
      → 28 + length payload < 2 ^ 64
      → parse_framed crc (framed crc kind v payload)
        ≡ ok (record { format_version = v; kind = kind; payload = payload })
  unfolding framed
  parse_framed-framed hk hv small =
      parse-laid_out crc kind v checksum payload payload (omega arith) (omega arith)
        (crc.hash_bound (header kind v payload ++ payload)) small refl
      ∙ ground arith

  -- A payload that was changed, its length kept, is refused with both checksums if these differ,
  -- for a 32-bit kind and version and a payload that a 64-bit file can hold.
  pub parse_framed-damaged :
      (body : List ℕ)
      → kind < 2 ^ 32
      → v < 2 ^ 32
      → 28 + length payload < 2 ^ 64
      → length body ≡ length payload
      → crc.hash (header kind v payload ++ body) ≢ checksum
      → parse_framed crc (damaged body)
        ≡ err (checksum_mismatch checksum (crc.hash (header kind v payload ++ body)))
  parse_framed-damaged body hk hv small same differ =
      parse-laid_out crc kind v checksum payload body (omega arith) (omega arith)
        (crc.hash_bound (header kind v payload ++ payload)) small same
      ∙ ground arith

  -- A file of which one or more bytes are missing at the end is refused as corrupt, for a payload
  -- that a 64-bit file can hold.
  pub parse_framed-take :
      (n : ℕ)
      → 28 + length payload < 2 ^ 64
      → n < 28 + length payload
      → parse_framed crc (take n (framed crc kind v payload)) ≡ err corrupt
  unfolding framed
  parse_framed-take n small h = elim (Bool-cases (ltb n 28)) [
    | inl short ↦ parse_short crc (take n file) (omega (arith, size, ltb→lt n 28 short))
    | inr long ↦
        let enough : 28 ≤ n = ground arith in
        parse_wrong_size crc (take n file) (length payload) (omega (arith, size)) small
          (omega (arith, size, h))
          (ap (λ b. bytes_eq b magic)
            (slice 0 4 (omega arith) ∙ magic_field crc kind v checksum payload payload))
          (ap from_le_bytes (slice 12 8 (omega arith))
            ∙ len_field crc kind v checksum payload payload (omega arith))
  ]
    where
      file : List ℕ
      file = damaged payload

      size : length (take n file) ≡ n
      size =
          omega (arith, length-take n file, length-laid_out crc kind v checksum payload payload, h)

      slice : (i k : ℕ) → i + k ≤ n → take k (drop i (take n file)) ≡ take k (drop i file)
      slice i k b =
          ap (λ f. take k (drop i f)) (sym (append-nil (take n file)))
          ∙ slice-take i k n file [] b
              (omega (arith, length-laid_out crc kind v checksum payload payload, h))
