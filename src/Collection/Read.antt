-- ===== src/Collection/Read.antt =====
-- The operations that read a collection, crates/vecvec-core/src/collection.rs, searches left out.
use vecvec.Prelude.{
  ℕ, String, not, Option, none, some, List, [], ◌∷◌, ◌++◌, map, length, take, drop, keep,
  if◌then◌else◌,
}
use vecvec.Prelude.Maps.{lookup, nat_key}
use vecvec.Error.{version, Result, ok, err, panic, ◌>>=◌}
use vecvec.Distance.{Floats}
use vecvec.Segment.Sealed
use vecvec.Segment.Sealed.{SealedSegment}
use vecvec.Segment.Appendable
use vecvec.Version.Deletion
use vecvec.Version.Deletion.{Treemap, DeletionVector}
use vecvec.Version.Manifest.{Manifest, segment_ids}
use vecvec.Version.Store
use vecvec.Version.Store.{VersionSelector, Diff, Checked}
use vecvec.Collection.State.{Collection}
use vecvec.Collection.Loops.{registered, sort_by_id}

module _ ⦃fl : Floats⦄ ⦃tm : Treemap⦄ where
  -- `PointRecord`
  pub record PointRecord (P : Type 0) : Type 0 where
    pub id : ℕ
    pub vector : List fl.F32
    pub payload : Option P

  -- `find_map` over the working segments.
  abbrev pub find_vector : ℕ → List SealedSegment → Result (Option (List fl.F32))
  find_vector global [] = ok none
  find_vector global (s ∷ ss) =
      let rest = find_vector global ss in
      Sealed.vector_of global s >>= (λ v. elim v [ none ↦ rest | some w ↦ ok (some w) ])

  -- The rows of segments that are not deleted.
  abbrev pub undeleted : DeletionVector → List (ℕ × List fl.F32) → List (ℕ × List fl.F32)
  undeleted deletions = keep (λ p. not (Deletion.contains p.0 deletions))

  abbrev pub rows_of : DeletionVector → List SealedSegment → Result (List (ℕ × List fl.F32))
  rows_of deletions [] = ok []
  rows_of deletions (s ∷ ss) =
      let rest = rows_of deletions ss in
      Sealed.iter_points s
      >>= (λ points. rest >>= (λ more. ok (undeleted deletions points ++ more)))

  -- A version error carries only its text.
  abbrev pub checked : {A : Type 0} → Checked A → Result A
  checked (Store.ok a) = ok a
  checked (Store.err e) = err version

  module _ {P : Type 0} where
    unfoldable pub get_vector : ℕ → Collection P → Result (Option (List fl.F32))
    get_vector global c =
        Appendable.vector_of global c.appendable
        >>= (λ v. elim v [ none ↦ find_vector global c.working.sealed | some w ↦ ok (some w) ])

    unfoldable pub payload : ℕ → Collection P → Option P
    payload id c = lookup id c.payloads

    unfoldable pub get_point : ℕ → Collection P → Result (Option (PointRecord P))
    unfolding get_vector
    get_point global c =
        if Deletion.contains global c.working_deletions
        then ok none
        else (get_vector global c >>= (λ v. elim v [
          | none ↦ ok none
          | some w ↦
              ok (some (record { id = global; vector = w; payload = lookup global c.payloads }))
        ]))

    -- The rows that `scroll` gathers, now or at a version.
    unfoldable pub rows_now : Collection P → Result (List (ℕ × List fl.F32))
    rows_now c = rows_of c.working_deletions c.working.sealed >>= (λ rows.
        Appendable.iter_points c.appendable
        >>= (λ points. ok (rows ++ undeleted c.working_deletions points)))

    unfoldable pub rows_at : VersionSelector → Collection P → Result (List (ℕ × List fl.F32))
    rows_at selector c = elim (Store.resolve selector c.versions) [
      | none ↦ err version
      | some number ↦ elim (Store.get number c.versions) [
        | none ↦ panic
        | some m ↦ rows_of m.deletions (registered c.all_segments (segment_ids m))
      ]
    ]

    abbrev rows_for : Option VersionSelector → Collection P → Result (List (ℕ × List fl.F32))
    rows_for none c = rows_now c
    rows_for (some selector) c = rows_at selector c

    unfoldable pub scroll :
        Option VersionSelector → ℕ → ℕ → Collection P → Result (List (PointRecord P) × ℕ)
    unfolding rows_now rows_at
    scroll at offset limit c = rows_for at c >>= (λ rows.
        let page = take limit (drop offset (sort_by_id rows)) in
        ok (
          map
              (λ (p : ℕ × List fl.F32). record {
                id = p.0;
                vector = p.1;
                payload = lookup p.0 c.payloads;
              })
              page,
          length rows,
        ))

    unfoldable pub diff : ℕ → ℕ → Collection P → Result Diff
    diff from to c = checked (Store.diff from to c.versions)

    unfoldable pub create_tag : String → ℕ → Collection P → Result (Collection P)
    create_tag name number c =
        checked (Store.set_tag name number c.versions)
        >>= (λ versions. ok (record c { versions = versions }))

    unfoldable pub create_branch : String → ℕ → Collection P → Result (Collection P)
    create_branch name number c =
        checked (Store.set_branch name number c.versions)
        >>= (λ versions. ok (record c { versions = versions }))

    unfoldable pub list_versions : Collection P → List Manifest
    list_versions c = Store.list c.versions

    unfoldable pub head_version : Collection P → Option ℕ
    head_version c = c.versions.head
