-- ===== src/Persist/Atomic/Replace.antt =====
-- The sequence of calls in `write_atomic`, and what a crash between any two of them leaves.
-- A file's bytes are on disk up to `synced`; a name is on disk as of the last `fsync` of its
-- directory, though a later change of it may have reached the disk too.
use vecvec.Prelude.{
  ℕ, zero, suc, ◌≤◌, ◌≡◌, refl, Option, none, some, List, [], ◌∷◌, ◌++◌, length, take, ◌⊎◌, inl,
  inr, arith, append_assoc, ap, ◌∙◌, take_of_length-le,
}
use vecvec.Bytes.{Crc, to_le_bytes}
use vecvec.Persist.Atomic.{header, framed, end_magic}

pub record File : Type 0 where
  pub bytes : List ℕ
  pub synced : ℕ

-- The temporary file, the target by its name, and the target's name on disk.
pub record Fs : Type 0 where
  pub temp : Option File
  pub target : Option File
  pub durable : Option File

pub data Call : Type 0 where
  new_temp : Call
  write_all : List ℕ → Call
  sync_temp : Call
  persist : Call
  fsync_dir : Call

write : List ℕ → Option File → Option File
write b none = none
write b (some f) = some (record f { bytes = f.bytes ++ b })

sync : Option File → Option File
sync none = none
sync (some f) = some (record f { synced = length f.bytes })

unfoldable pub run : Call → Fs → Fs
unfolding write sync
run new_temp fs = record fs { temp = some (record { bytes = []; synced = 0 }) }
run (write_all b) fs = record fs { temp = write b fs.temp }
run sync_temp fs = record fs { temp = sync fs.temp }
run persist fs = record fs { temp = none; target = fs.temp }
run fsync_dir fs = record fs { durable = fs.target }

unfoldable pub run_all : List Call → Fs → Fs
unfolding run
run_all [] fs = fs
run_all (c ∷ cs) fs = run_all cs (run c fs)

-- The calls of `write_atomic`, in its order.
unfoldable pub write_atomic : Crc → ℕ → ℕ → List ℕ → List Call
write_atomic crc kind format_version payload =
    let h = header kind format_version payload in
    let footer = to_le_bytes 4 (crc.hash (h ++ payload)) ++ end_magic in
    new_temp
    ∷ write_all h
    ∷ write_all payload
    ∷ write_all footer
    ∷ sync_temp
    ∷ persist
    ∷ fsync_dir
    ∷ []

-- A file's contents after a crash: all synced bytes, and any number of the others.
abbrev pub Left : Option File → Option (List ℕ) → Type 0
Left none o = o ≡ none
Left (some f) o = (m : ℕ) × (f.synced ≤ m) × (o ≡ some (take m f.bytes))

-- The target after a crash: by the name on disk, or by a newer one that got there.
abbrev pub AfterCrash : Fs → Option (List ℕ) → Type 0
AfterCrash fs o = Left fs.durable o ⊎ Left fs.target o

-- Where both names show one file, a crash shows that file.
same : (f : Option File) (o : Option (List ℕ)) → Left f o ⊎ Left f o → Left f o
same f o (inl c) = c
same f o (inr c) = c

-- The target has these contents and its name is on disk, before the write.
abbrev pub settled : Option File → Fs
settled old = record { temp = none; target = old; durable = old }

module _ (crc : Crc) (kind v : ℕ) (payload : List ℕ) (old : Option File) where
  -- The file system when the first `n` calls are done.
  abbrev pub after : ℕ → Fs
  after n = run_all (take n (write_atomic crc kind v payload)) (settled old)

  -- The temporary file, once it is written and synced.
  abbrev written : List ℕ
  written =
      (header kind v payload ++ payload)
      ++ (to_le_bytes 4 (crc.hash (header kind v payload ++ payload)) ++ end_magic)

  written-framed : written ≡ framed crc kind v payload
  unfolding framed
  written-framed = append_assoc (header kind v payload) payload _

  Left-written :
      (o : Option (List ℕ))
      → Left (some (record { bytes = written; synced = length written })) o
      → o ≡ some (framed crc kind v payload)
  Left-written o (m, h, e) = e ∙ ap some (take_of_length-le m written h ∙ written-framed)

  take-nil : (n : ℕ) → take {A = Call} n [] ≡ []
  take-nil zero = refl
  take-nil (suc n) = refl

  -- `write_atomic` replaces all or nothing: after a crash between any two of its calls the target
  -- has its old contents or the whole new frame, and once it has returned, the new frame.
  pub write_atomic_crash :
      (n : ℕ) (o : Option (List ℕ))
      → AfterCrash (after n) o
      → (Left old o ⊎ (o ≡ some (framed crc kind v payload)))
        × (7 ≤ n → o ≡ some (framed crc kind v payload))
  unfolding run_all write_atomic
  write_atomic_crash zero o c = (inl (same old o c), λ h. absurd (omega arith))
  write_atomic_crash (suc zero) o c = (inl (same old o c), λ h. absurd (omega arith))
  write_atomic_crash (suc (suc zero)) o c = (inl (same old o c), λ h. absurd (omega arith))
  write_atomic_crash (suc (suc (suc zero))) o c = (inl (same old o c), λ h. absurd (omega arith))
  write_atomic_crash (suc (suc (suc (suc zero)))) o c =
      (inl (same old o c), λ h. absurd (omega arith))
  write_atomic_crash (suc (suc (suc (suc (suc zero))))) o c =
      (inl (same old o c), λ h. absurd (omega arith))
  write_atomic_crash (suc (suc (suc (suc (suc (suc zero)))))) o (inl c) =
      (inl c, λ h. absurd (omega arith))
  write_atomic_crash (suc (suc (suc (suc (suc (suc zero)))))) o (inr c) =
      (inr (Left-written o c), λ h. absurd (omega arith))
  write_atomic_crash (suc (suc (suc (suc (suc (suc (suc n))))))) o c =
      let e =
        Left-written o (
          same (some (record { bytes = written; synced = length written })) o (rw take-nil at c)) in
      (inr e, λ h. e)
