-- ===== src/Examples/Durability.antt =====
-- A durable collection at concrete inputs.
use vecvec.Prelude.{
  ℕ, zero, suc, ◌<◌, ◌≤◌, ◌^◌, ◌≡◌, ◌≢◌, refl, sym, ap, some-injective, is_some, true, false, none,
  some, [], ◌∷◌, ◌++◌, List, length, arith,
}
use vecvec.Prelude.Maps.{mem, lookup, nat_key}
use vecvec.Error.{Result, ok, err, io, panic}
use vecvec.Distance.{dot}
use vecvec.Vector
use vecvec.Vector.{stored}
use vecvec.Segment.IdMap
use vecvec.Segment.Sealed
use vecvec.Segment.Sealed.{SealedSegment}
use vecvec.Segment.Appendable.{appended}
use vecvec.Segment.Appendable
use vecvec.Version.Deletion
use vecvec.Version.Store
use vecvec.Version.Store.{RetentionRules}
use vecvec.Version.Policy
use vecvec.Collection.Loops.{refs_of}
use vecvec.Collection.Tidy.{IsTidy}
use vecvec.Durable.Reclaim.{gc-open_fails}
use vecvec.Collection.State
use vecvec.Collection.State.{
  Collection, CollectionConfig, create, alloc_global_id, install_recovered, load_version_snapshot,
}
use vecvec.Collection.Write
use vecvec.Collection.Write.{insert_with_id_and_payload, check_dim, contains_any, seal}
use vecvec.Collection.Contents.{Contents, Represents, deleted, applied_all}
use vecvec.Durable.Trigger
use vecvec.Durable.Disk.{
  sync, Disk, change, write_config_if_absent, with_config, open_log, log_of, append_log, flush_log,
  write_head,
}
use vecvec.Durable.State.{DurableCollection, open_durable, recover}
use vecvec.Durable.Write.{
  Points, WriteBatchResult, apply_batch, write_batch, delete_point, checkpoint, head_of, gc,
}
use vecvec.Durable.Safe.{IsSafe}
use vecvec.Durable.History.{
  Reaches, start, then_batch, then_delete, then_checkpoint, cut_batch, batch_applied,
}
use vecvec.Durable.Survival.{SameAnswers, started-IsSafe, history_survives, any_crash-opens}
use vecvec.Durable.Recovery.{write_batch-IsSafe}
use vecvec.Durable.Checkpoint.{checkpoint-IsSafe}
use vecvec.Durable.Cut.{apply_batch-cut}
use vecvec.Persist.Wal.{upsert, delete}
use vecvec.Durable.Fresh.{fresh, Crashed-refl, nothing, fresh-IsStanding, fresh-synced}
use vecvec.Examples.Data.{whole, listed}
use vecvec.Examples.Collecting.{config, hnsw, blank}

abbrev initial : Collection ℕ
initial = record {
  config = config;
  appendable = record { vectors = Vector.blank 2 dot; ids = IdMap.new };
  working = Sealed.empty;
  all_segments = [];
  working_deletions = Deletion.new;
  payloads = [];
  versions = Store.new;
  next_global_id = 0;
  next_segment_id = 0;
}

-- What a new directory opens to.
abbrev configured : Disk ℕ
configured = with_config none config fresh

abbrev logging : Disk ℕ
logging = open_log 0 configured

abbrev opened : DurableCollection ℕ
opened = record {
  collection = initial;
  dir = record { disk = logging; passed = logging ∷ configured ∷ [] };
  generation = 0;
  fsync = sync;
  trigger = Policy.new config.versioning 0;
  compaction = Trigger.new config.compaction 0;
  persisted_segments = [];
}

opening : open_durable fresh config sync 0 ≡ ok opened
unfolding open_durable recover create Appendable.new Vector.new write_config_if_absent change
    open_log log_of install_recovered load_version_snapshot
opening = refl

-- A batch that also commits, a later deletion, and a checkpoint.
abbrev or_else : {A : Type 0} → A → Result A → A
or_else a panic = a
or_else a (err e) = a
or_else a (ok b) = b

abbrev two : Points ℕ
two = (1 ∷ 2 ∷ [], some 5) ∷ (3 ∷ 4 ∷ [], none) ∷ []

abbrev answer : WriteBatchResult
answer = record { ids = 0 ∷ 1 ∷ []; deleted = 0; version = none }

abbrev served : DurableCollection ℕ
served = (or_else (opened, answer) (write_batch two [] none 9 opened)).0

abbrev without_one : DurableCollection ℕ
without_one = (delete_point 1 served).0

abbrev settled : DurableCollection ℕ
settled = or_else without_one (checkpoint without_one)

serving : write_batch two [] none 9 opened ≡ ok (served, answer)
unfolding write_batch apply_batch alloc_global_id insert_with_id_and_payload check_dim
    Appendable.append Vector.push IdMap.push Policy.should_commit Policy.record_writes Policy.new
serving = refl

served_ids : served.collection.next_global_id ≡ 2
unfolding write_batch apply_batch alloc_global_id insert_with_id_and_payload check_dim
    Appendable.append Vector.push IdMap.push Policy.should_commit Policy.record_writes Policy.new
served_ids = refl

unsegmented : without_one.collection.next_segment_id ≡ 0
unfolding delete_point Write.delete contains_any write_batch apply_batch alloc_global_id
    insert_with_id_and_payload check_dim Appendable.append Appendable.contains IdMap.to_local
    Vector.push IdMap.push Policy.should_commit Policy.record_writes Policy.new
unsegmented = refl

settling : checkpoint without_one ≡ ok settled
unfolding checkpoint seal Appendable.new Vector.new delete_point Write.delete contains_any
    write_batch apply_batch alloc_global_id insert_with_id_and_payload check_dim Appendable.append
    Appendable.contains IdMap.to_local Vector.push IdMap.push Policy.should_commit
    Policy.record_writes Policy.new
settling = refl

-- The contents after the batch, and after the deletion.
abbrev both : Contents ℕ
both = batch_applied opened nothing two []

abbrev only_first : Contents ℕ
only_first = deleted 1 both

few : length only_first.rows < 2 ^ 32
few = omega arith

dim_two : config.dim ≢ 0
dim_two e = omega (arith, e)

-- There are never more than two rows.
abbrev AtMostTwo : Contents ℕ → Type 0
AtMostTwo w = length w.rows ≤ 2

two_cut : (m : ℕ) → AtMostTwo (cut_batch opened nothing two [] m)
two_cut zero = omega arith
two_cut (suc zero) = omega arith
two_cut (suc (suc zero)) = omega arith
two_cut (suc (suc (suc m))) = omega arith

-- Where the histories lead.
batch_leads : Reaches AtMostTwo nothing opened both served
batch_leads =
    then_batch nothing opened served two [] none 9 answer start refl (omega arith) (omega arith)
      (omega arith) two_cut serving

leads : Reaches (λ _. Unit) nothing opened only_first settled
leads =
    then_checkpoint only_first without_one settled
      (then_delete both served 1
        (then_batch nothing opened served two [] none 9 answer start refl (omega arith)
          (omega arith) (omega arith) (λ m. tt) serving)
        (omega (arith, served_ids)) (omega arith) tt)
      (omega (arith, unsegmented)) settling

history_survives_example :
    (f : DurableCollection ℕ) × (open_durable settled.dir.disk settled.collection.config sync 20
      ≡ ok f)
    × SameAnswers f settled
unfolding log_of
history_survives_example =
    history_survives fresh config 0 nothing dim_two (fresh-IsStanding config) (fresh-synced ℕ)
      opened opening only_first settled leads few settled.dir.disk sync 20
      (Crashed-refl settled.dir.disk)

-- The directory while the batch is written.
abbrev first_logged : Disk ℕ
first_logged = append_log 0 (upsert 0 (1 ∷ 2 ∷ []) (some 5)) logging

abbrev second_logged : Disk ℕ
second_logged = append_log 0 (upsert 1 (3 ∷ 4 ∷ []) none) first_logged

passing :
    served.dir.passed
    ≡ (flush_log 0 second_logged ∷ second_logged ∷ []) ++ first_logged ∷ logging ∷ configured ∷ []
unfolding write_batch apply_batch alloc_global_id insert_with_id_and_payload check_dim change
    Appendable.append Vector.push IdMap.push Policy.should_commit Policy.record_writes Policy.new
passing = refl

any_crash-opens_example :
    (f : DurableCollection ℕ) × (y : Contents ℕ) × (open_durable first_logged
        served.collection.config sync 20
      ≡ ok f)
    × Represents f.collection y
    × (length y.rows ≤ 2)
unfolding log_of
any_crash-opens_example =
    any_crash-opens fresh config 0 nothing dim_two (fresh-IsStanding config) (fresh-synced ℕ) opened
      opening AtMostTwo both served (omega arith) batch_leads
      (flush_log 0 second_logged ∷ second_logged ∷ []) (logging ∷ configured ∷ []) first_logged
      first_logged sync 20 passing (Crashed-refl first_logged)

started : IsSafe (λ _. Unit) opened nothing
unfolding log_of
started =
    (started-IsSafe fresh config 0 nothing dim_two (fresh-IsStanding config) (fresh-synced ℕ) opened
      opening (λ _. Unit) tt).0

write_batch-IsSafe_example :
    (e : DurableCollection ℕ) × (r : WriteBatchResult) × (write_batch two
        (4 ∷ [])
        (some (some "first", none))
        9
        opened
      ≡ ok (e, r))
    × (r.ids ≡ 0 ∷ 1 ∷ [])
    × IsSafe (λ _. Unit) e (batch_applied opened nothing two (4 ∷ []))
    × (e.fsync ≡ sync)
write_batch-IsSafe_example =
    write_batch-IsSafe (λ _. Unit) nothing opened started refl two (4 ∷ []) (λ _. tt) (omega arith)
      (omega arith) (omega arith) (some (some "first", none)) 9 refl

checkpoint-IsSafe_example :
    (e : DurableCollection ℕ) × (checkpoint opened ≡ ok e)
    × IsSafe (λ _. Unit) e nothing
    × (e.fsync ≡ sync)
checkpoint-IsSafe_example = checkpoint-IsSafe (λ _. Unit) nothing tt opened started (omega arith)

apply_batch-cut_example :
    (e : DurableCollection ℕ) × (n : ℕ) × (newer : List (Disk ℕ)) × (older : List (Disk ℕ))
    × (moment : Disk ℕ) × (f : DurableCollection ℕ) × (apply_batch two (4 ∷ []) opened
        ≡ ok (e, 0 ∷ 1 ∷ [], n))
    × (e.dir.passed ≡ newer ++ moment ∷ older)
    × (open_durable moment config sync 20 ≡ ok f)
    × Represents f.collection
        (applied_all dot nothing (delete 4 ∷ upsert 0 (1 ∷ 2 ∷ []) (some 5) ∷ []))
apply_batch-cut_example =
    apply_batch-cut nothing opened started refl two (4 ∷ []) (refl, (refl, tt)) (omega arith)
      (omega arith) 1 20 sync (omega arith)

-- Two versions, of which only the later one is retained, each with a segment of its own. The head
-- lists both segments.
abbrev old_segment : SealedSegment
old_segment = Appendable.seal 0 hnsw (appended 0 (1 ∷ 2 ∷ []) blank)

abbrev new_segment : SealedSegment
new_segment = Appendable.seal 1 hnsw (appended 0 (1 ∷ 2 ∷ []) blank)

abbrev old_version : Store.VersionStore
old_version =
    (Store.commit "manual" none none (refs_of (old_segment ∷ [])) Deletion.new 1 Store.new).0

abbrev merged : Collection ℕ
merged = record initial {
  all_segments = (0, old_segment) ∷ (1, new_segment) ∷ [];
  working = Sealed.from_sealed (new_segment ∷ []);
  versions =
      (Store.commit "manual" none none (refs_of (new_segment ∷ [])) Deletion.new 2 old_version).0;
  next_segment_id = 2;
}

abbrev kept : DurableCollection ℕ
kept = record opened {
  collection = merged;
  dir = change (write_head (head_of 0 (0 ∷ 1 ∷ []) merged)) opened.dir;
}

merged_owned : (id : ℕ) (s : SealedSegment) → lookup id merged.all_segments ≡ some s → s.id ≡ id
unfolding Appendable.seal
merged_owned zero s h = ap (λ (x : SealedSegment). x.id) (sym (some-injective old_segment s h))
merged_owned (suc zero) s h =
    ap (λ (x : SealedSegment). x.id) (sym (some-injective new_segment s h))
merged_owned (suc (suc id)) s h = ground (arith, h)

merged_referenced :
    (id : ℕ)
    → mem id (Store.all_referenced_segments merged.versions) ≡ true
    → is_some (lookup id merged.all_segments) ≡ true
unfolding Appendable.seal Store.commit Store.new Store.all_referenced_segments
    Sealed.global_id_range IdMap.push
merged_referenced zero h = refl
merged_referenced (suc zero) h = refl
merged_referenced (suc (suc id)) h = absurd (ground (arith, h))

merged-IsTidy : IsTidy merged
unfolding Appendable.seal
merged-IsTidy = record {
  ascending = (tt, tt);
  below = (omega arith, tt);
  current = (refl, tt);
  owned = merged_owned;
  referenced = merged_referenced;
}

abbrev last_one : RetentionRules
last_one = record { keep_last = some 1; keep_tagged = false; keep_branch_heads = false }

old_dropped : mem 0 (gc last_one kept).1 ≡ true
unfolding gc Write.gc Store.gc Store.plan_gc Store.retained_versions Store.commit Store.new
    Appendable.seal Sealed.global_id_range IdMap.push
old_dropped = refl

gc-open_fails_example : open_durable (gc last_one kept).0.dir.disk config sync 30 ≡ err io
unfolding change write_head State.working_segment_ids Appendable.seal
gc-open_fails_example =
    gc-open_fails last_one kept 0 config sync 30 dim_two merged-IsTidy old_dropped refl
