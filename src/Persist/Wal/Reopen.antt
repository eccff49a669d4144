-- ===== src/Persist/Wal/Reopen.antt =====
-- Opening a log whatever its bytes: the file is cut where reading stopped, nothing that was read
-- is lost, and what is appended afterwards is read behind it.
use vecvec.Prelude.{
  ℕ, zero, suc, ◌+◌, ◌≤◌, ◌≡◌, ap, ◌∙◌, some, List, [], ◌∷◌, ◌++◌, length, arith, take, drop, inl,
  inr, ltb, Bool-cases, Option-cases, length-take, length-append, Option,
}
use vecvec.Prelude.Slices.{slice-take}
use vecvec.Bytes.{Crc, Codec, from_le_bytes}
use vecvec.Persist.Wal.{WalOp, next_record, read_loop, read_records}
use vecvec.Persist.Wal.Records.{next_record_bounds, read_loop-next_record, read_loop_total}

module _ {F P : Type 0} (crc : Crc) (codec : Codec (WalOp F P)) where
  -- A record depends on the bytes up to its end alone.
  pub next_record-take :
      (bytes tail : List ℕ) (off payload_end e : ℕ) (op : WalOp F P)
      → next_record crc codec bytes off ≡ some (op, payload_end)
      → payload_end ≤ e
      → e ≤ length bytes
      → next_record crc codec (take e bytes ++ tail) off ≡ some (op, payload_end)
  unfolding next_record
  next_record-take bytes tail off payload_end e op h k le = ground (
    arith,
    length-append (take e bytes) tail,
    length-take e bytes,
    header off 4,
    header (off + 4) 4,
    header (off + 8) (from_le_bytes (take 4 (drop off bytes))),
  )
    where
      header :
          (i n : ℕ) → i + n ≤ e → take n (drop i (take e bytes ++ tail)) ≡ take n (drop i bytes)
      header i n b = slice-take i n e bytes tail b le

  -- More fuel changes nothing.
  read_loop_mono :
      (fuel : ℕ) (bytes : List ℕ) (acc : List (WalOp F P)) (off : ℕ) (r : List (WalOp F P) × ℕ)
      → read_loop crc codec fuel bytes acc off ≡ some r
      → read_loop crc codec (suc fuel) bytes acc off ≡ some r
  unfolding read_loop
  read_loop_mono zero bytes acc off r h = cc
  read_loop_mono (suc fuel) bytes acc off r h = elim (Bool-cases (ltb off (length bytes))) [
    | inr done ↦ rw (done, read_loop) (rw (done, read_loop) at h)
    | inl more ↦ elim (Option-cases (next_record crc codec bytes off)) [
      | inl stop ↦ rw (more, stop, read_loop) (rw (more, stop, read_loop) at h)
      | inr ((op, payload_end), found) ↦
          rw (more, found, read_loop)
            (read_loop_mono fuel bytes (acc ++ op ∷ []) payload_end r
              (rw (more, found, read_loop) at h))
    ]
  ]

  read_loop_more :
      (k fuel : ℕ) (bytes : List ℕ) (acc : List (WalOp F P)) (off : ℕ) (r : List (WalOp F P) × ℕ)
      → read_loop crc codec fuel bytes acc off ≡ some r
      → read_loop crc codec (k + fuel) bytes acc off ≡ some r
  read_loop_more zero fuel bytes acc off r h =
      ap (λ n. read_loop crc codec n bytes acc off) {x = zero + fuel} {y = fuel} (omega arith) ∙ h
  read_loop_more (suc k) fuel bytes acc off r h =
      ap (λ n. read_loop crc codec n bytes acc off) {x = suc k + fuel} {y = suc (k + fuel)}
        (omega arith)
      ∙ read_loop_mono (k + fuel) bytes acc off r (read_loop_more k fuel bytes acc off r h)

  -- Whatever the fuel, a run of the loop that ends has one result.
  pub read_loop_unique :
      (n m : ℕ) (bytes : List ℕ) (acc : List (WalOp F P)) (off : ℕ) (r s : List (WalOp F P) × ℕ)
      → read_loop crc codec n bytes acc off ≡ some r
      → read_loop crc codec m bytes acc off ≡ some s
      → r ≡ s
  read_loop_unique n m bytes acc off r s h k = cc (
    read_loop_more m n bytes acc off r h,
    read_loop_more n m bytes acc off s k,
    let e : m + n ≡ n + m = omega arith in e,
  )

  -- What reading a file finds, and where it stops, `read_records` finds with its own fuel.
  pub read_records-read_loop :
      (fuel : ℕ) (bytes : List ℕ) (r : List (WalOp F P) × ℕ)
      → read_loop crc codec fuel bytes [] 0 ≡ some r
      → read_records crc codec (some bytes) ≡ some r
  unfolding read_records
  read_records-read_loop fuel bytes r h =
      let (s, found, _) =
        read_loop_total crc codec (suc (length bytes)) 0 bytes [] (omega arith) (omega arith) in
      found ∙ ap some (read_loop_unique (suc (length bytes)) fuel bytes [] 0 s r found h)

  -- Where a run ends at once, nothing has to be read before the cut.
  at_once :
      (g off e : ℕ) (bytes tail : List ℕ) (acc ops : List (WalOp F P)) (r : List (WalOp F P) × ℕ)
      → off ≤ length bytes
      → ◌≡◌ {A = Option (List (WalOp F P) × ℕ)} (some (acc, off)) (some (ops, e))
      → read_loop crc codec g (take e bytes ++ tail) ops e ≡ some r
      → (off ≤ e)
        × (e ≤ length bytes)
        × ((n : ℕ) × (read_loop crc codec n (take e bytes ++ tail) acc off ≡ some r))
  at_once g off e bytes tail acc ops r b h k =
      let p : off ≡ e = cc in
      let q : acc ≡ ops = cc in (omega (arith, p), omega (arith, p), (g, cc))

  -- In a file that is cut where reading stopped and then goes on with `tail`, reading comes to the
  -- cut with the same records and goes on there.
  pub read_loop-take :
      (fuel g off e : ℕ) (bytes tail : List ℕ) (acc ops : List (WalOp F P))
      (r : List (WalOp F P) × ℕ)
      → off ≤ length bytes
      → read_loop crc codec fuel bytes acc off ≡ some (ops, e)
      → read_loop crc codec g (take e bytes ++ tail) ops e ≡ some r
      → (off ≤ e)
        × (e ≤ length bytes)
        × ((n : ℕ) × (read_loop crc codec n (take e bytes ++ tail) acc off ≡ some r))
  unfolding read_loop
  read_loop-take zero g off e bytes tail acc ops r b h k = cc
  read_loop-take (suc fuel) g off e bytes tail acc ops r b h k =
      elim (Bool-cases (ltb off (length bytes))) [
        | inr done ↦ at_once g off e bytes tail acc ops r b (rw (done, read_loop) at h) k
        | inl more ↦ elim (Option-cases (next_record crc codec bytes off)) [
          | inl stop ↦ at_once g off e bytes tail acc ops r b (rw (more, stop, read_loop) at h) k
          | inr ((op, mid), found) ↦
              let (start, inside) = next_record_bounds crc codec bytes off mid op found in
              let (before, within, (n, rest)) =
                read_loop-take fuel g mid e bytes tail (acc ++ op ∷ []) ops r inside
                  (rw (more, found, read_loop) at h) k in
              (
                omega (arith, start, before),
                within,
                (
                  suc n,
                  read_loop-next_record crc codec n off mid (take e bytes ++ tail) acc op
                        (next_record-take bytes tail off mid e op found before within)
                        (omega (
                          arith,
                          start,
                          before,
                          length-append (take e bytes) tail,
                          length-take e bytes,
                        ))
                      ∙ rest,
                ),
              )
        ]
      ]
