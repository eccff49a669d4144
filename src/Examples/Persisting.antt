-- ===== src/Examples/Persisting.antt =====
-- The log and the framed files at concrete inputs.
use vecvec.Prelude.{
  ℕ, ◌^◌, ltb, Bool, true, ◌&&◌, ◌<◌, ◌≤◌, ◌≡◌, ◌≢◌, refl, sym, subst, Option, none, some, List, [],
  ◌∷◌, ◌++◌, length, take, arith, All, ◌∙◌, some-injective, ◌⊎◌, inr,
}
use vecvec.Error.{ok, err, corrupt, checksum_mismatch}
use vecvec.Bytes.{IsByte, to_le_bytes}
use vecvec.Persist.Wal.{
  WalOp, upsert, delete, Wal, append, flush, open_log, read_records, frame, read_loop,
}
use vecvec.Persist.Wal.Crash.{append_all, crash_keeps_synced}
use vecvec.Persist.Atomic.{framed, header, parse_framed}
use vecvec.Persist.Atomic.Integrity.{
  parse_framed-framed, parse_framed-damaged, parse_framed-take, damaged,
}
use vecvec.Persist.Atomic.Accepted.{framed-parse_framed}
use vecvec.Persist.Atomic.Replace.{File, run_all, write_atomic, Left, write_atomic_crash}
use vecvec.Examples.Data.{summed, plain}

abbrev early : List (WalOp ℕ ℕ)
early = upsert 0 (7 ∷ 8 ∷ []) (some 3) ∷ []

abbrev late : List (WalOp ℕ ℕ)
late = delete 0 ∷ upsert 1 (9 ∷ []) none ∷ []

abbrev log0 : Wal
log0 = record { file = []; synced = 0; count = 0 }

abbrev log1 : Wal
log1 = record { file = frame summed (1 ∷ 0 ∷ 4 ∷ 7 ∷ 8 ∷ []); synced = 0; count = 1 }

abbrev log2 : Wal
log2 = record {
  file =
      frame summed (1 ∷ 0 ∷ 4 ∷ 7 ∷ 8 ∷ [])
      ++ frame summed (0 ∷ 0 ∷ [])
      ++ frame summed (1 ∷ 1 ∷ 0 ∷ 9 ∷ []);
  synced = 13;
  count = 3;
}

-- The crash comes inside the second of the late records.
abbrev left_over : List ℕ
left_over = take 27 log2.file

opened : open_log summed plain (some []) ≡ some log0
unfolding open_log read_records read_loop
opened = refl

first_logged : append_all summed plain log0 early ≡ ok log1
unfolding append_all append
first_logged = refl

rest_logged : append_all summed plain (flush log1) late ≡ ok log2
unfolding append_all append flush frame to_le_bytes
rest_logged = refl

short :
    (op : WalOp ℕ ℕ) (bs : List ℕ)
    → plain.to_vec op ≡ some bs
    → length bs < 256
    → (payload : List ℕ) → plain.to_vec op ≡ some payload
    → length payload < 256 ^ 4
short op bs h lt payload e =
    subst (λ p. length p < 256 ^ 4) (some-injective bs payload (sym h ∙ e)) (omega (arith, lt))

crash_keeps_synced_example :
    (old : List (WalOp ℕ ℕ)) × (e : ℕ) × (k : ℕ) × (e' : ℕ) × (read_records summed plain (some [])
      ≡ some (old, e))
    × (read_records summed plain (some left_over) ≡ some (old ++ (early ++ take k late), e'))
crash_keeps_synced_example =
    crash_keeps_synced summed plain [] left_over early late log0 log1 log2 opened first_logged
      rest_logged (short (upsert 0 (7 ∷ 8 ∷ []) (some 3)) _ refl (omega arith), tt)
      (
        short (delete 0) _ refl (omega arith),
        (short (upsert 1 (9 ∷ []) none) _ refl (omega arith), tt),
      )
      (27, omega arith, refl)

abbrev body : List ℕ
body = 10 ∷ 20 ∷ 30 ∷ []

parse_framed-framed_example :
    parse_framed summed (framed summed 3 1 body)
    ≡ ok (record { format_version = 1; kind = 3; payload = body })
parse_framed-framed_example =
    parse_framed-framed summed 3 1 body (omega arith) (omega arith) (omega arith)

differs :
    summed.hash (header 3 1 body ++ (11 ∷ 20 ∷ 30 ∷ [])) ≢ summed.hash (header 3 1 body ++ body)
unfolding header to_le_bytes
differs h = omega (arith, h)

parse_framed-damaged_example :
    parse_framed summed (damaged summed 3 1 body (11 ∷ 20 ∷ 30 ∷ []))
    ≡ err (
        checksum_mismatch
          (summed.hash (header 3 1 body ++ body))
          (summed.hash (header 3 1 body ++ (11 ∷ 20 ∷ 30 ∷ []))))
parse_framed-damaged_example =
    parse_framed-damaged summed 3 1 body (11 ∷ 20 ∷ 30 ∷ []) (omega arith) (omega arith)
      (omega arith) refl differs

parse_framed-take_example : parse_framed summed (take 30 (framed summed 3 1 body)) ≡ err corrupt
parse_framed-take_example = parse_framed-take summed 3 1 body 30 (omega arith) (omega arith)

abbrev file : List ℕ
file = framed summed 3 1 body

abbrev small_bytes : List ℕ → Bool
small_bytes [] = true
small_bytes (b ∷ bs) = ltb b 256 && small_bytes bs

All-small_bytes : (bs : List ℕ) → small_bytes bs ≡ true → All IsByte bs
All-small_bytes [] h = tt
All-small_bytes (b ∷ bs) h = (ground arith, All-small_bytes bs (ground arith))

file_bytes : All IsByte file
unfolding framed header to_le_bytes
file_bytes = All-small_bytes file refl

framed-parse_framed_example : file ≡ framed summed 3 1 body
framed-parse_framed_example =
    framed-parse_framed summed file (record { format_version = 1; kind = 3; payload = body })
      file_bytes parse_framed-framed_example

abbrev old_file : Option File
old_file = some (record { bytes = 1 ∷ 2 ∷ []; synced = 2 })

write_atomic_crash_example :
    (Left old_file (some file) ⊎ (some file ≡ some (framed summed 3 1 body)))
    × (7 ≤ 6 → some file ≡ some (framed summed 3 1 body))
unfolding run_all write_atomic framed header to_le_bytes
write_atomic_crash_example =
    write_atomic_crash summed 3 1 body old_file 6 (some file) (inr (31, omega arith, refl))
