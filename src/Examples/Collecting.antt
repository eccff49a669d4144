-- ===== src/Examples/Collecting.antt =====
-- Segments and collections at concrete inputs.
use vecvec.Durable.Trigger.{CompactionTrigger, should_compact, should_compact_iff}
use vecvec.Prelude.{
  ◌-◌, ◌↔◌, ◌⊎◌, ◌≤◌, ℕ, ◌+◌, ◌<◌, ◌^◌, ◌≡◌, refl, true, not, ◌&&◌, ◌||◌, none, some, [], ◌∷◌,
  arith, is_some, if◌then◌else◌, ◌==◌,
}
use vecvec.Prelude.Maps.{mem, lookup, nat_key}
use vecvec.Error.{Result, ok, err, ◌>>=◌}
use vecvec.Error
use vecvec.Distance.{dot}
use vecvec.Vector
use vecvec.Vector.{stored}
use vecvec.Version.Manifest.{Manifest}
use vecvec.Collection.Write.Decimal.{decimal}
use vecvec.Segment.IdMap
use vecvec.Segment.IdMap.{from_global_ids, from_global_ids-push}
use vecvec.Segment.Rows.{Rows}
use vecvec.Segment.Sealed
use vecvec.Segment.Sealed.{HnswConfig, SealedSegment}
use vecvec.Segment.Appendable
use vecvec.Segment.Appendable.{AppendableSegment, appended, new-Holds}
use vecvec.Segment.Filled.{append_all, append_all-reads, stored_rows}
use vecvec.Version.Deletion
use vecvec.Version.Store
use vecvec.Version.Store.{RetentionRules, retained_versions, version}
use vecvec.Collection.State.{Collection, CollectionConfig, create}
use vecvec.Collection.Loops.{put_payload}
use vecvec.Collection.Write.{
  insert_with_id_and_payload, delete, contains_any, seal, commit, restore, gc, check_dim,
}
use vecvec.Collection.Read.{rows_now, rows_at, get_point, get_vector, payload}
use vecvec.Collection.Shapes.{sealed_with, filed_by, rewound}
use vecvec.Collection.Sound.{IsSound, IsKept, restore-IsSound}
use vecvec.Collection.Steps.{
  inserted, committed, deleted, done, then_step, create-IsSound, Steps-IsSound,
}
use vecvec.Collection.Travel.{rows_at-commit, rows_now-restore}
use vecvec.Collection.Effects.{insert_effect, delete_effect}
use vecvec.Collection.Collecting.{gc_effect}
use vecvec.Examples.Data.{whole, listed}

abbrev pub hnsw : HnswConfig
hnsw = record {
  m = 16;
  m_max0 = 32;
  ef_construction = 100;
  ef_search = 64;
  seed = 1;
  keep_pruned = true;
  quantization = true;
}

abbrev pub config : CollectionConfig
config = record {
  name = "points";
  dim = 2;
  metric = dot;
  hnsw = hnsw;
  versioning = record { every_n_writes = none; interval_ms = none };
  compaction = record { max_segments = none; interval_ms = none };
}

abbrev given : Rows
given = (4, 1 ∷ 2 ∷ []) ∷ (9, 3 ∷ 4 ∷ []) ∷ []

append_all-reads_example :
    (b : AppendableSegment) × ((Appendable.new 2 dot >>= append_all given) ≡ ok b)
    × ((g : ℕ) → Appendable.vector_of g b ≡ ok (lookup g (stored_rows dot given)))
    × ((g : ℕ) → Appendable.contains g b ≡ is_some (lookup g (stored_rows dot given)))
    × (Appendable.iter_points b ≡ ok (stored_rows dot given))
    × ((g : ℕ)
        → Sealed.vector_of g (Appendable.seal 5 hnsw b) ≡ ok (lookup g (stored_rows dot given)))
    × ((g : ℕ)
        → Sealed.contains g (Appendable.seal 5 hnsw b) ≡ is_some (lookup g (stored_rows dot given)))
    × (Sealed.iter_points (Appendable.seal 5 hnsw b) ≡ ok (stored_rows dot given))
append_all-reads_example =
    append_all-reads 2 5 dot hnsw given (λ e. omega (arith, e)) (refl, refl, (refl, refl, tt))
      (omega arith)

abbrev pub blank : AppendableSegment
blank = record { vectors = Vector.blank 2 dot; ids = IdMap.new }

-- An empty collection; one with a point; the same after a commit; and after a later deletion.
abbrev start : Collection ℕ
start = record {
  config = config;
  appendable = blank;
  working = Sealed.empty;
  all_segments = [];
  working_deletions = Deletion.new;
  payloads = [];
  versions = Store.new;
  next_global_id = 0;
  next_segment_id = 0;
}

abbrev with_point : Collection ℕ
with_point = record start {
  appendable = appended 0 (1 ∷ 2 ∷ []) blank;
  next_global_id = 1;
  payloads = put_payload 0 (some 5) [];
}

abbrev sealed_point : Collection ℕ
sealed_point = sealed_with blank with_point

abbrev saved : Collection ℕ
saved = record sealed_point { versions = (filed_by "manual" none none 50 sealed_point).0 }

abbrev emptied : Collection ℕ
emptied = (delete 0 saved).0

created : create config ≡ ok start
unfolding create Appendable.new Vector.new
created = refl

start-IsSound : IsSound start
start-IsSound = create-IsSound config start created

inserting : insert_with_id_and_payload 0 (1 ∷ 2 ∷ []) (some 5) start ≡ ok with_point
unfolding insert_with_id_and_payload check_dim Appendable.append Vector.push
inserting = refl

saving : commit "manual" none none 50 with_point ≡ ok (saved, 0)
unfolding commit seal Appendable.new Vector.new Store.commit Store.new
saving = refl

Steps-IsSound_example : IsSound emptied × IsKept start emptied
Steps-IsSound_example =
    Steps-IsSound start emptied
      (then_step start saved emptied
        (then_step start with_point saved
          (then_step start start with_point (done start)
            (inserted 0 (1 ∷ 2 ∷ []) (some 5) start with_point inserting))
          (committed "manual" none none 50 with_point saved 0 (omega arith) saving))
        (deleted 0 saved))
      start-IsSound

rows_at-commit_example : rows_at (version 0) emptied ≡ rows_now with_point
rows_at-commit_example =
    rows_at-commit "manual" none none 50 with_point saved 0
      (Steps-IsSound start with_point
        (then_step start start with_point (done start)
          (inserted 0 (1 ∷ 2 ∷ []) (some 5) start with_point inserting))
        start-IsSound).0
      (omega arith) saving emptied (then_step saved saved emptied (done saved) (deleted 0 saved))

abbrev returned : Collection ℕ
returned =
    let back = rewound (filed_by "manual" none none 50 sealed_point).1 blank emptied in
    record back { versions = (filed_by "restore" (some "restore of v0") none 60 back).0 }

restoring : restore 0 60 emptied ≡ ok (returned, 1)
unfolding restore delete contains_any Appendable.contains Sealed.contains commit seal Appendable.new
    Vector.new Store.commit Store.new Store.get decimal IdMap.to_local Sealed.with_appended
    Appendable.seal IdMap.push
restoring = refl

rows_now-restore_example : rows_now returned ≡ rows_at (version 0) emptied
rows_now-restore_example = rows_now-restore 0 60 emptied returned 1 restoring

insert_effect_example :
    (d : Collection ℕ) × (insert_with_id_and_payload 0 (1 ∷ 2 ∷ []) (some 5) start ≡ ok d)
    × ((h : ℕ)
        → get_vector h d
          ≡ (if 0 == h then ok (some (stored dot (1 ∷ 2 ∷ []))) else get_vector h start))
    × ((h : ℕ) → payload h d ≡ (if 0 == h && true then some 5 else payload h start))
insert_effect_example =
    insert_effect 0 (1 ∷ 2 ∷ []) (some 5) start [] (new-Holds 2 dot) refl (omega arith) refl refl

delete_effect_example :
    ((delete 0 saved).0 ≡ (
      if contains_any 0 saved
      then record saved { working_deletions = (delete 0 saved).0.working_deletions }
      else saved))
    × ((h : ℕ)
        → Deletion.contains h (delete 0 saved).0.working_deletions
          ≡ ((contains_any 0 saved && h == 0) || Deletion.contains h saved.working_deletions))
    × ((delete 0 saved).1
        ≡ (contains_any 0 saved && not (Deletion.contains 0 saved.working_deletions)))
    × ((h : ℕ)
        → get_point h (delete 0 saved).0
          ≡ (if contains_any 0 saved && h == 0 then ok none else get_point h saved))
delete_effect_example = delete_effect 0 saved

abbrev last_one : RetentionRules
last_one = record { keep_last = some 1; keep_tagged = true; keep_branch_heads = true }

emptied_room : emptied.next_segment_id + 1 < 2 ^ 64
unfolding delete contains_any Appendable.contains Sealed.contains IdMap.to_local
    Sealed.with_appended Appendable.seal IdMap.push
emptied_room = omega arith

gc_effect_example :
    IsSound (gc last_one returned).0
    × ((v : ℕ) (m : Manifest)
        → Store.get v returned.versions ≡ some m
        → rows_at (version v) (gc last_one returned).0 ≡ (
            if mem v (retained_versions last_one returned.versions)
            then rows_at (version v) returned
            else err Error.version))
gc_effect_example =
    gc_effect last_one returned
      (restore-IsSound 0 60 emptied returned 1 Steps-IsSound_example.0 (emptied_room) restoring).0

-- Two live segments, of which the second has the smaller id.
abbrev two : Collection ℕ
two = record start {
  working = Sealed.from_sealed (
      Appendable.seal 0 hnsw (appended 7 (1 ∷ 2 ∷ []) blank)
      ∷ Appendable.seal 1 hnsw (appended 3 (4 ∷ 4 ∷ []) blank)
      ∷ []);
  next_segment_id = 2;
}

abbrev merged_points : Rows
merged_points = (7, 1 ∷ 2 ∷ []) ∷ (3, 4 ∷ 4 ∷ []) ∷ []

-- Compact at four segments, or each minute if there are two.
abbrev due : CompactionTrigger
due = record {
  policy = record { max_segments = some 4; interval_ms = some 60000 };
  last_compaction_ms = 1000;
}

should_compact_iff_example : (should_compact 2 70000 due ≡ true) ↔ (
    (1 < 2)
    × (((n : ℕ) × (some 4 ≡ some n) × (n ≤ 2))
        ⊎ ((ms : ℕ) × (some 60000 ≡ some ms) × (ms ≤ 70000 - 1000))))
should_compact_iff_example = should_compact_iff due 2 70000
