-- ===== src/Persist/Wal/Crash.antt =====
-- What a crash leaves of the log: all records that were synced, and of those written since then
-- a first part. The file may have held anything when it was opened.
use vecvec.Prelude.{
  ℕ, suc, ◌+◌, ◌-◌, ◌^◌, ◌<◌, ◌≤◌, ◌≡◌, refl, sym, ap, ◌∙◌, some, List, [], ◌∷◌, ◌++◌, length,
  arith, take, append_assoc, append-nil, length-append, inl, inr, Option-cases, length-take,
}
use mathlib.Core.Path.{ap₂}
use vecvec.Prelude.Slices.{take_append_ge}
use vecvec.Error.{Result, ok, ◌>>=◌, >>=-eq-ok}
use vecvec.Bytes.{Crc, Codec}
use vecvec.Persist.Wal.{
  WalOp, Wal, Survives, frame, append, flush, read_loop, read_records, open_log,
}
use vecvec.Persist.Wal.Records.{
  IsLog, IsLog-append, read_loop-IsLog, read_loop-Stops, read_loop_total,
}
use vecvec.Persist.Wal.Torn.{IsTorn, take-IsLog, IsTorn-Stops}
use vecvec.Persist.Wal.Reopen.{read_records-read_loop, read_loop-take}

module _ {F P : Type 0} (crc : Crc) (codec : Codec (WalOp F P)) where
  -- Reading a file always ends, and inside the file.
  pub read_records_total :
      (bytes : List ℕ)
      → (r : List (WalOp F P) × ℕ) × (read_records crc codec (some bytes) ≡ some r)
        × (r.1 ≤ length bytes)
  unfolding read_records
  read_records_total bytes =
      read_loop_total crc codec (suc (length bytes)) 0 bytes [] (omega arith) (omega arith)

  pub file-open_log :
      (found : List ℕ) (old : List (WalOp F P)) (e : ℕ) (w : Wal)
      → open_log crc codec (some found) ≡ some w
      → read_records crc codec (some found) ≡ some (old, e)
      → w.file ≡ take e found
  unfolding open_log
  file-open_log found old e w h read = ground (arith, read)

  -- `append` for each record of a list, in order: the logging of a batch.
  unfoldable pub append_all : Wal → List (WalOp F P) → Result Wal
  append_all wal [] = ok wal
  append_all wal (op ∷ ops) = do wal' ← append crc codec wal op; append_all wal' ops

  -- The serialized record fits the length field of its header.
  abbrev pub Fits : WalOp F P → Type 0
  Fits op = (payload : List ℕ) → codec.to_vec op ≡ some payload → length payload < 256 ^ 4

  abbrev pub AllFit : List (WalOp F P) → Type 0
  AllFit [] = Unit
  AllFit (op ∷ ops) = Fits op × AllFit ops

  pub append-eq-ok :
      (op : WalOp F P) (wal wal' : Wal)
      → append crc codec wal op ≡ ok wal'
      → (payload : List ℕ) × (codec.to_vec op ≡ some payload)
        × (wal'.file ≡ wal.file ++ frame crc payload)
        × (wal'.synced ≡ wal.synced)
        × (wal'.count ≡ wal.count + 1)
  unfolding append
  append-eq-ok op wal wal' h = elim (Option-cases (codec.to_vec op)) [
    | inl fails ↦ absurd (ground arith)
    | inr (payload, written) ↦ (payload, written, ground arith, ground arith, ground arith)
  ]

  -- What was appended stands behind what was there, as a log.
  pub append_all-IsLog :
      (ops : List (WalOp F P)) (wal wal' : Wal)
      → AllFit ops
      → append_all wal ops ≡ ok wal'
      → (log : List ℕ) × IsLog crc codec ops log
        × (wal'.file ≡ wal.file ++ log)
        × (wal'.synced ≡ wal.synced)
        × (wal'.count ≡ wal.count + length ops)
  unfolding append_all
  append_all-IsLog [] wal wal' fit h =
      ([], refl, cc (append-nil wal.file), ground arith, ground arith)
  append_all-IsLog (op ∷ ops) wal wal' (f, fit) h =
      let (w, step, rest) = >>=-eq-ok (append crc codec wal op) (λ w. append_all w ops) h in
      let (payload, written, file, synced, count) = append-eq-ok op wal w step in
      let (log, l, file', synced', count') = append_all-IsLog ops w wal' fit rest in
      (
        frame crc payload ++ log,
        (payload, log, written, f payload written, refl, l),
        file' ∙ ap (λ b. b ++ log) file ∙ append_assoc wal.file (frame crc payload) log,
        synced' ∙ synced,
        omega (arith, count, count'),
      )

  -- What is read of a file that goes on, behind the cut that `open` made, with a log and a tail.
  read_records-behind :
      (found bytes log tail : List ℕ) (old ops : List (WalOp F P)) (e : ℕ)
      → read_records crc codec (some found) ≡ some (old, e)
      → bytes ≡ take e found ++ (log ++ tail)
      → IsLog crc codec ops log
      → IsTorn crc codec tail
      → read_records crc codec (some bytes) ≡ some (old ++ ops, e + length log)
  read_records-behind found bytes log tail old ops e read eq l torn =
      let ((old', e'), read', inside) = read_records_total found in
      let here : e ≡ length (take e found) =
        (let same : e' ≡ e = ground (arith, read, read') in
          omega (arith, length-take e found, inside, same)) in
      let runs =
        read_loop-IsLog crc codec ops old (length ops + 1) 1 e (e + length log)
          (take e found ++ (log ++ tail)) (take e found) log tail l refl here refl refl
        ∙ ap₂ (λ b n. read_loop crc codec 1 b (old ++ ops) n)
            (sym (append_assoc (take e found) log tail)) (place here)
        ∙ read_loop-Stops crc codec 0 (old ++ ops) (take e found ++ log) tail
            (IsTorn-Stops crc codec (take e found ++ log) tail torn)
        ∙ ap (λ n. some (old ++ ops, n)) (sym (place here)) in
      let (_, _, (n, result)) =
        read_loop-take crc codec (suc (length found)) (length ops + 1) 0 e found (log ++ tail) []
          old (old ++ ops, e + length log) (omega arith) (unfold read_records in read) runs in
      ap (λ b. read_records crc codec (some b)) eq
      ∙ read_records-read_loop crc codec n (take e found ++ (log ++ tail))
          (old ++ ops, e + length log) result
    where
      place : e ≡ length (take e found) → e + length log ≡ length (take e found ++ log)
      place here = omega (arith, length-append (take e found) log)

  -- Open a log over any bytes, append some records and sync, append more without a sync, and
  -- crash, where every append succeeds and every record fits the length field of its header: the
  -- file that is left reads as all that was read when it was opened, all the synced records, and
  -- a first part of the later ones.
  pub crash_keeps_synced :
      (found bytes : List ℕ) (synced later : List (WalOp F P)) (w0 w1 w2 : Wal)
      → open_log crc codec (some found) ≡ some w0
      → append_all w0 synced ≡ ok w1
      → append_all (flush w1) later ≡ ok w2
      → AllFit synced
      → AllFit later
      → Survives w2 bytes
      → (old : List (WalOp F P)) × (e : ℕ) × (k : ℕ) × (e' : ℕ) × (read_records crc codec
            (some found)
          ≡ some (old, e))
        × (read_records crc codec (some bytes) ≡ some (old ++ (synced ++ take k later), e'))
  unfolding flush
  crash_keeps_synced found bytes synced later w0 w1 w2 opened h1 h2 fit1 fit2 (m, le, cut) =
      let ((old, e), read, inside) = read_records_total found in
      let file0 : w0.file ≡ take e found = file-open_log found old e w0 opened read in
      let (log1, l1, f1, _, _) = append_all-IsLog synced w0 w1 fit1 h1 in
      let (log2, l2, f2, s2, _) = append_all-IsLog later (flush w1) w2 fit2 h2 in
      let (k, kept, tail, c, lk, torn) = take-IsLog crc codec later log2 (m - length w1.file) l2 in
      (
        old,
        e,
        k,
        e + length (log1 ++ kept),
        read,
        read_records-behind found bytes (log1 ++ kept) tail old (synced ++ take k later) e read
            (cut
              ∙ ap (take m) f2
              ∙ take_append_ge m (m - length w1.file) w1.file log2 (omega (arith, s2, le))
              ∙ ap₂ ◌++◌ (f1 ∙ ap (λ b. b ++ log1) file0) c
              ∙ append_assoc (take e found) log1 (kept ++ tail)
              ∙ ap (◌++◌ (take e found)) (sym (append_assoc log1 kept tail)))
            (IsLog-append crc codec synced (take k later) log1 kept l1 lk) torn,
      )
