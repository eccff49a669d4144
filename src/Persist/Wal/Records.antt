-- ===== src/Persist/Wal/Records.antt =====
-- Reading a log of whole records, followed by a tail where `read_records` breaks off.
use vecvec.Prelude.{
  ℕ, zero, suc, ◌+◌, ◌^◌, ◌<◌, ◌≤◌, ◌≡◌, refl, sym, ap, subst, ◌∙◌, none, some, List, [], ◌∷◌, ◌++◌,
  length, length-append, append_assoc, append-nil, arith, ◌-◌, Option-cases, lt→ltb, take, drop,
  ltb, inl, inr, ◌⊎◌, Bool-cases,
}
use vecvec.Prelude.Slices.{slice_of}
use vecvec.Bytes.{Crc, Codec, to_le_bytes, from_le_bytes, length-to_le_bytes, from-to_le_bytes}
use vecvec.Persist.Wal.{WalOp, frame, next_record, read_loop, read_records}

pub length-frame : (crc : Crc) (payload : List ℕ) → length (frame crc payload) ≡ 8 + length payload
unfolding frame
length-frame crc payload =
    length-append (to_le_bytes 4 (length payload)) (to_le_bytes 4 (crc.hash payload) ++ payload)
    ∙ omega (
      arith,
      length-to_le_bytes 4 (length payload),
      length-to_le_bytes 4 (crc.hash payload),
      length-append (to_le_bytes 4 (crc.hash payload)) payload,
    )

-- What stands where in a file that holds a frame at `pre`.
module _ (crc : Crc) (pre payload rest : List ℕ) where
  frame_parts :
      pre ++ (frame crc payload ++ rest)
      ≡ pre
        ++ (to_le_bytes 4 (length payload)
            ++ (to_le_bytes 4 (crc.hash payload) ++ (payload ++ rest)))
  unfolding frame
  frame_parts = simp append_assoc

  pub frame_len :
      length payload < 256 ^ 4
      → from_le_bytes (take 4 (drop (length pre) (pre ++ (frame crc payload ++ rest))))
        ≡ length payload
  frame_len small =
      ap from_le_bytes (
        slice_of (length pre) 4 pre (to_le_bytes 4 (length payload)) _ _ frame_parts refl
          (sym (length-to_le_bytes 4 (length payload))))
      ∙ from-to_le_bytes 4 (length payload) small

  pub frame_crc :
      from_le_bytes (take 4 (drop (length pre + 4) (pre ++ (frame crc payload ++ rest))))
      ≡ crc.hash payload
  frame_crc =
      ap from_le_bytes (
        slice_of (length pre + 4) 4 (pre ++ to_le_bytes 4 (length payload))
          (to_le_bytes 4 (crc.hash payload)) (payload ++ rest) _
          (frame_parts ∙ sym (append_assoc pre (to_le_bytes 4 (length payload)) _))
          (omega (
            arith,
            length-append pre (to_le_bytes 4 (length payload)),
            length-to_le_bytes 4 (length payload),
          ))
          (sym (length-to_le_bytes 4 (crc.hash payload))))
      ∙ from-to_le_bytes 4 (crc.hash payload) (crc.hash_bound payload)

  pub frame_payload :
      take (length payload) (drop (length pre + 8) (pre ++ (frame crc payload ++ rest))) ≡ payload
  frame_payload =
      slice_of (length pre + 8) (length payload)
        (pre ++ (to_le_bytes 4 (length payload) ++ to_le_bytes 4 (crc.hash payload))) payload rest _
        (frame_parts ∙ simp append_assoc)
        (omega (
          arith,
          length-append pre (to_le_bytes 4 (length payload) ++ to_le_bytes 4 (crc.hash payload)),
          length-append (to_le_bytes 4 (length payload)) (to_le_bytes 4 (crc.hash payload)),
          length-to_le_bytes 4 (length payload),
          length-to_le_bytes 4 (crc.hash payload),
        ))
        refl

  pub frame_end :
      length (pre ++ (frame crc payload ++ rest)) ≡ length pre + 8 + length payload + length rest
  frame_end = omega (
    arith,
    length-append pre (frame crc payload ++ rest),
    length-append (frame crc payload) rest,
    length-frame crc payload,
  )

module _ {F P : Type 0} (crc : Crc) (codec : Codec (WalOp F P)) where
  -- `log` is the bytes of `ops`, one whole record after the other. A payload's length has to fit
  -- the four bytes of its header.
  abbrev pub IsLog : List (WalOp F P) → List ℕ → Type 0
  IsLog [] log = log ≡ []
  IsLog (op ∷ ops) log =
      (payload : List ℕ) × (rest : List ℕ) × (codec.to_vec op ≡ some payload)
      × (length payload < 256 ^ 4)
      × (log ≡ frame crc payload ++ rest)
      × IsLog ops rest

  -- A whole record is read back.
  pub next_record-frame :
      (op : WalOp F P) (pre payload rest : List ℕ)
      → codec.to_vec op ≡ some payload
      → length payload < 256 ^ 4
      → next_record crc codec (pre ++ (frame crc payload ++ rest)) (length pre)
        ≡ some (op, length pre + 8 + length payload)
  unfolding next_record
  next_record-frame op pre payload rest h small = ground (
    arith,
    frame_len crc pre payload rest small,
    frame_crc crc pre payload rest,
    frame_payload crc pre payload rest,
    frame_end crc pre payload rest,
    codec.round_trip op payload h,
  )

  -- A round of the loop that does not break.
  pub read_loop-next_record :
      (fuel off payload_end : ℕ) (bytes : List ℕ) (acc : List (WalOp F P)) (op : WalOp F P)
      → next_record crc codec bytes off ≡ some (op, payload_end)
      → off < length bytes
      → read_loop crc codec (suc fuel) bytes acc off
        ≡ read_loop crc codec fuel bytes (acc ++ op ∷ []) payload_end
  unfolding read_loop
  read_loop-next_record fuel off payload_end bytes acc op h lt =
      rw (lt→ltb off (length bytes) lt, h, read_loop)

  -- Reading from the start of a log reads all its records and goes on where it ends.
  pub read_loop-IsLog :
      (ops acc : List (WalOp F P)) (fuel n off end : ℕ) (bytes pre log tail : List ℕ)
      → IsLog ops log
      → bytes ≡ pre ++ (log ++ tail)
      → off ≡ length pre
      → end ≡ off + length log
      → fuel ≡ length ops + n
      → read_loop crc codec fuel bytes acc off ≡ read_loop crc codec n bytes (acc ++ ops) end
  read_loop-IsLog [] acc fuel n off end bytes pre log tail l e o t f = cc (
    append-nil acc,
    let e' : fuel ≡ n = omega arith in e',
    let e' : off ≡ end = omega (arith, ap length l) in e',
  )
  read_loop-IsLog (op ∷ ops) acc zero n off end bytes pre log tail l e o t f = absurd (omega arith)
  read_loop-IsLog (op ∷ ops) acc (suc fuel) n off end bytes pre log tail
        (payload, rest, h, small, el, l) e o t f =
      read_loop-next_record fuel off (off + 8 + length payload) bytes acc op here inside
      ∙ read_loop-IsLog ops (acc ++ op ∷ []) fuel n (off + 8 + length payload) end bytes
          (pre ++ frame crc payload) rest tail l
          (split ∙ sym (append_assoc pre (frame crc payload) (rest ++ tail)))
          (omega (arith, length-append pre (frame crc payload), length-frame crc payload))
          (omega
            (arith, ap length el, length-append (frame crc payload) rest, length-frame crc payload))
          (omega arith)
      ∙ ap (λ a. read_loop crc codec n bytes a end) (append_assoc acc (op ∷ []) ops)
    where
      split : bytes ≡ pre ++ (frame crc payload ++ (rest ++ tail))
      split = e ∙ rw el (simp append_assoc)

      here : next_record crc codec bytes off ≡ some (op, off + 8 + length payload)
      here = rw (split, o) (next_record-frame op pre payload (rest ++ tail) h small)

      inside : off < length bytes
      inside = omega (arith, ap length split, frame_end crc pre payload (rest ++ tail))

  -- A log takes at least eight bytes for a record.
  pub length-IsLog :
      (ops : List (WalOp F P)) (log : List ℕ) → IsLog ops log → length ops ≤ length log
  length-IsLog [] log l = omega arith
  length-IsLog (op ∷ ops) log (payload, rest, h, small, e, l) = omega (
    arith,
    length-IsLog ops rest l,
    ap length e,
    length-append (frame crc payload) rest,
    length-frame crc payload,
  )

  -- One log behind another is a log.
  pub IsLog-append :
      (ops ops' : List (WalOp F P)) (log log' : List ℕ)
      → IsLog ops log
      → IsLog ops' log'
      → IsLog (ops ++ ops') (log ++ log')
  IsLog-append [] ops' log log' l l' = subst (λ b. IsLog ops' (b ++ log')) (sym l) l'
  IsLog-append (op ∷ ops) ops' log log' (payload, rest, h, small, e, l) l' = (
    payload,
    rest ++ log',
    h,
    small,
    ap (λ b. b ++ log') e ∙ append_assoc (frame crc payload) rest log',
    IsLog-append ops ops' rest log' l l',
  )

  -- Where the loop stops behind a log: at the end of the file, or at a record that is not whole.
  abbrev pub Stops : List ℕ → List ℕ → Type 0
  Stops log tail = (tail ≡ []) ⊎ (next_record crc codec (log ++ tail) (length log) ≡ none)

  pub read_loop-Stops :
      (n : ℕ) (ops : List (WalOp F P)) (log tail : List ℕ)
      → Stops log tail
      → read_loop crc codec (suc n) (log ++ tail) ops (length log) ≡ some (ops, length log)
  unfolding read_loop
  read_loop-Stops n ops log tail s = ground (arith, length-append log tail)

  -- A file that holds a log and then a tail that is no record is read as that log.
  pub read_records-IsLog :
      (ops : List (WalOp F P)) (log tail : List ℕ)
      → IsLog ops log
      → Stops log tail
      → read_records crc codec (some (log ++ tail)) ≡ some (ops, length log)
  unfolding read_records
  read_records-IsLog ops log tail l s =
      read_loop-IsLog ops [] (suc (length (log ++ tail))) (suc (length (log ++ tail) - length ops))
        0 (length log) (log ++ tail) [] log tail l refl refl (omega arith)
        (omega (arith, length-append log tail, length-IsLog ops log l))
      ∙ read_loop-Stops (length (log ++ tail) - length ops) ops log tail s

  -- A record lies inside the file and is not empty.
  pub next_record_bounds :
      (bytes : List ℕ) (off payload_end : ℕ) (op : WalOp F P)
      → next_record crc codec bytes off ≡ some (op, payload_end)
      → (off < payload_end) × (payload_end ≤ length bytes)
  unfolding next_record
  next_record_bounds bytes off payload_end op h = ground arith

  -- The loop always ends: with fuel beyond what is left of the file it never runs out.
  pub read_loop_total :
      (fuel off : ℕ) (bytes : List ℕ) (acc : List (WalOp F P))
      → off ≤ length bytes
      → length bytes < fuel + off
      → (r : List (WalOp F P) × ℕ) × (read_loop crc codec fuel bytes acc off ≡ some r)
        × (r.1 ≤ length bytes)
  unfolding read_loop
  read_loop_total zero off bytes acc h k = absurd (omega arith)
  read_loop_total (suc fuel) off bytes acc h k = elim (Bool-cases (ltb off (length bytes))) [
    | inr done ↦ ((acc, off), rw (done, read_loop), h)
    | inl more ↦ elim (Option-cases (next_record crc codec bytes off)) [
      | inl stop ↦ ((acc, off), rw (more, stop, read_loop), h)
      | inr ((op, payload_end), found) ↦
          let b = next_record_bounds bytes off payload_end op found in
          rw (more, found, read_loop)
            (read_loop_total fuel payload_end bytes (acc ++ op ∷ []) b.1 (omega (arith, b.0)))
    ]
  ]
