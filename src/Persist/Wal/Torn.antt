-- ===== src/Persist/Wal/Torn.antt =====
-- Crash safety of the log: a record of which only a part was written ends the log before it.
use vecvec.Prelude.{
  ℕ, zero, suc, ◌+◌, ◌-◌, ◌^◌, ◌<◌, ◌≤◌, ◌≡◌, refl, sym, ap, ◌∙◌, List, [], ◌∷◌, ◌++◌, length,
  length-append, append_assoc, append-nil, arith, take, drop, inl, inr, ◌⊎◌, subst, ltb, ltb→lt,
  length-take, Bool-cases,
}
use vecvec.Prelude.Slices.{slice-take, take_append_ge, take_append_le}
use vecvec.Bytes.{Crc, Codec, from_le_bytes}
use vecvec.Persist.Wal.{WalOp, frame, next_record}
use vecvec.Persist.Wal.Records.{IsLog, Stops, length-frame, frame_len, frame_end}

-- The length field of a frame that is cut behind its header.
cut_len :
    (crc : Crc) (log payload : List ℕ) (m : ℕ)
    → length payload < 256 ^ 4
    → 8 ≤ m
    → m < 8 + length payload
    → from_le_bytes (take 4 (drop (length log) (log ++ take m (frame crc payload))))
      ≡ length payload
cut_len crc log payload m small h k =
    ap (λ b. from_le_bytes (take 4 (drop (length log) b))) cut
    ∙ ap from_le_bytes (
        slice-take (length log) 4 (length log + m) (log ++ (frame crc payload ++ [])) []
          (omega arith) (omega (arith, frame_end crc log payload [])))
    ∙ frame_len crc log payload [] small
  where
    cut :
        log ++ take m (frame crc payload)
        ≡ take (length log + m) (log ++ (frame crc payload ++ [])) ++ []
    cut = sym (
        append-nil (take (length log + m) (log ++ (frame crc payload ++ [])))
        ∙ take_append_ge (length log + m) m log (frame crc payload ++ []) refl
        ∙ ap (λ b. log ++ take m b) (append-nil (frame crc payload)))

module _ {F P : Type 0} (crc : Crc) (codec : Codec (WalOp F P)) where
  -- A part of a frame is no record.
  pub take-frame-Stops :
      (log payload : List ℕ) (m : ℕ)
      → length payload < 256 ^ 4
      → m < 8 + length payload
      → Stops crc codec log (take m (frame crc payload))
  unfolding next_record
  take-frame-Stops log payload m small h = elim (Bool-cases (ltb m 8)) [
    | inl short ↦ inr (ground (arith, size))
    | inr long ↦ inr (ground (arith, size, cut_len crc log payload m small (ground arith) h))
  ]
    where
      size : length (log ++ take m (frame crc payload)) ≡ length log + m
      size = omega (
        arith,
        length-append log (take m (frame crc payload)),
        length-take m (frame crc payload),
        length-frame crc payload,
      )

  -- What a cut leaves behind the last whole record: nothing, or a part of one frame.
  abbrev pub IsTorn : List ℕ → Type 0
  IsTorn tail =
      (tail ≡ [])
      ⊎ ((payload : List ℕ) × (m : ℕ) × (length payload < 256 ^ 4)
          × (m < 8 + length payload)
          × (tail ≡ take m (frame crc payload)))

  pub IsTorn-Stops : (log tail : List ℕ) → IsTorn tail → Stops crc codec log tail
  IsTorn-Stops log tail (inl e) = inl e
  IsTorn-Stops log tail (inr (payload, m, small, h, e)) =
      subst (Stops crc codec log) (sym e) (take-frame-Stops log payload m small h)

  -- The first `n` bytes of a log are its first records, and what is torn.
  pub take-IsLog :
      (ops : List (WalOp F P)) (log : List ℕ) (n : ℕ)
      → IsLog crc codec ops log
      → (k : ℕ) × (kept : List ℕ) × (tail : List ℕ) × (take n log ≡ kept ++ tail)
        × IsLog crc codec (take k ops) kept
        × IsTorn tail
  take-IsLog [] log n l = (0, [], [], rw l (nothing n), refl, inl refl)
    where
      nothing : (n : ℕ) → take {A = ℕ} n [] ≡ []
      nothing zero = refl
      nothing (suc n) = refl
  take-IsLog (op ∷ ops) log n (payload, rest, h, small, e, l) =
      elim (Bool-cases (ltb n (8 + length payload))) [
        | inl torn ↦ (
          0,
          [],
          take n (frame crc payload),
          (ap (take n) e
              ∙ take_append_le n (frame crc payload) rest
                  (omega (arith, ltb→lt n (8 + length payload) torn, length-frame crc payload))),
          refl,
          inr (payload, n, small, ground arith, refl),
        )
        | inr whole ↦
            let (k, kept, tail, c, lk, t) = take-IsLog ops rest (n - (8 + length payload)) l in
            (
              suc k,
              frame crc payload ++ kept,
              tail,
              (ap (take n) e
                  ∙ (behind (ground arith)
                      ∙ (ap (◌++◌ (frame crc payload)) c
                          ∙ sym (append_assoc (frame crc payload) kept tail)))),
              (payload, kept, h, small, refl, lk),
              t,
            )
      ]
    where
      behind :
          8 + length payload ≤ n
          → take n (frame crc payload ++ rest)
            ≡ frame crc payload ++ take (n - (8 + length payload)) rest
      behind b =
          take_append_ge n (n - (8 + length payload)) (frame crc payload) rest
            (omega (arith, length-frame crc payload))
