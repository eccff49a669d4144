-- ===== src/Durable/Read.antt =====
-- The reads of a durable collection, crates/vecvec-core/src/durable.rs, which ask the collection in
-- memory.
use vecvec.Prelude.{ℕ, Bool, Option, List, ◌≡◌, none, refl}
use vecvec.Error.{Result}
use vecvec.Distance.{Floats}
use vecvec.Version.Deletion.{Treemap}
use vecvec.Version.Manifest.{Manifest}
use vecvec.Version.Store.{VersionSelector, Diff}
use vecvec.Collection.State
use vecvec.Collection.State.{Collection, CollectionConfig}
use vecvec.Collection.Read
use vecvec.Collection.Read.{PointRecord, rows_now}
use vecvec.Durable.State.{DurableCollection}

module _ ⦃fl : Floats⦄ ⦃tm : Treemap⦄ {P : Type 0} where
  abbrev pub config : DurableCollection P → CollectionConfig
  config d = d.collection.config

  abbrev pub len : DurableCollection P → ℕ
  len d = State.len d.collection

  abbrev pub is_empty : DurableCollection P → Bool
  is_empty d = State.is_empty d.collection

  abbrev pub scroll :
      Option VersionSelector → ℕ → ℕ → DurableCollection P → Result (List (PointRecord P) × ℕ)
  scroll at offset limit d = Read.scroll at offset limit d.collection

  abbrev pub get_point : ℕ → DurableCollection P → Result (Option (PointRecord P))
  get_point id d = Read.get_point id d.collection

  abbrev pub head_version : DurableCollection P → Option ℕ
  head_version d = Read.head_version d.collection

  abbrev pub payload : ℕ → DurableCollection P → Option P
  payload id d = Read.payload id d.collection

  abbrev pub diff : ℕ → ℕ → DurableCollection P → Result Diff
  diff from to d = Read.diff from to d.collection

  abbrev pub list_versions : DurableCollection P → List Manifest
  list_versions d = Read.list_versions d.collection

  -- A page is made of the live rows and the payloads.
  pub scroll-rows :
      (c d : Collection P)
      → rows_now c ≡ rows_now d
      → c.payloads ≡ d.payloads
      → (offset limit : ℕ) → Read.scroll none offset limit c ≡ Read.scroll none offset limit d
  unfolding Read.scroll
  scroll-rows c d rows payloads offset limit = rw (rows, payloads) refl
