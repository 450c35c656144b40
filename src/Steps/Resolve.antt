-- ===== src/Steps/Resolve.antt =====
-- builder/vsphere/common/step_resolve_datastore.go: the datastore of the virtual machine, and one for
-- each disk.
use packer_plugin_vsphere.Base.{
  ℕ, suc, Bool, ◌||◌, not, Option, none, some, List, [], ◌∷◌, map, leb, if◌then◌else◌, length,
  replicate, is_empty, exists, Result, ok, err, ◌>>=◌, map_err, Text, text_eq,
}
use packer_plugin_vsphere.Controller.{StorageError}
use packer_plugin_vsphere.Storage.{Disk, DiskDatastore, disk_datastore_from}
use packer_plugin_vsphere.Placement.{StoragePlacementInput}
use packer_plugin_vsphere.Placement.Select.{SelectionMethod}
use packer_plugin_vsphere.Steps.{
  Datastore, ChosenBy, direct, by_storage_policy, by_cluster, StepError, datastore_not_found,
  no_cluster_support, cluster_failed, policy_not_found, no_datastore_for_policy,
  no_primary_datastore, no_datastore_for_disk, Action, continue_build, StateBag, halt_with,
  PlacementDriver,
}

pub record ResolveDatastore : Type 0 where
  pub store : Text
  pub datastore_cluster : Text
  pub storage_policy : Text
  pub host : Text
  pub cluster : Text
  pub disk_count : ℕ

-- `DiskDatastoreFrom`.
abbrev pub placed_on : Datastore → DiskDatastore
placed_on ds = disk_datastore_from ds.name ds.ref

-- `StoragePolicyIDFromState`: the empty text where there is none.
abbrev pub policy_id_of : StateBag → Text
policy_id_of s = elim s.storage_policy_id [ none ↦ [] | some id ↦ id ]

-- The end of `Run`: a datastore and how it was chosen.
unfoldable pub keep_datastore :
    StateBag → Result StepError (Datastore × ChosenBy) → Action × StateBag
keep_datastore s (err e) = halt_with e s
keep_datastore s (ok (ds, by)) =
    (continue_build, record s { chosen_datastore = some ds; datastore_selection_method = some by })

-- The policy's ID joins the state once its datastore is found.
unfoldable pub keep_policy : StateBag → Text → Result StepError Datastore → Action × StateBag
unfolding keep_datastore
keep_policy s id (err e) = halt_with e s
keep_policy s id (ok ds) =
    keep_datastore (record s { storage_policy_id = some id }) (ok (ds, by_storage_policy))

from_cluster :
    Text
    → Option (Text → Result StorageError (Datastore × SelectionMethod))
    → Result StepError (Datastore × ChosenBy)
from_cluster name none = err no_cluster_support
from_cluster name (some select) =
    map_err (cluster_failed name) (select name) >>= λ p. ok (p.0, by_cluster p.1)

-- The names that the log shows apart, the first datastore gives its name.
unfoldable pub first_name : Text → List Datastore → Text
first_name name [] = name
first_name name (ds ∷ rest) = ds.name

unfoldable pub fallback_placements : Text → ℕ → Option Datastore → Text × List DiskDatastore
fallback_placements name n none = (name, [])
fallback_placements name n (some primary) = (name, replicate n (placed_on primary))

unfoldable pub multi_disk :
    Text
    → ℕ
    → Option Datastore
    → Result StorageError (List Datastore × SelectionMethod)
    → Text × List DiskDatastore
unfolding fallback_placements first_name
multi_disk name n primary (err e) = fallback_placements name n primary
multi_disk name n primary (ok (stores, method)) = (first_name name stores, map placed_on stores)

-- `cache[policyID]`, where the latest entry hides the earlier ones.
unfoldable pub cached_datastore : Text → List (Text × Datastore) → Option Datastore
cached_datastore id [] = none
cached_datastore id ((j, ds) ∷ cache) = if text_eq j id then some ds else cached_datastore id cache

unfoldable pub primary_for : ℕ → Option Datastore → Result StepError Datastore
primary_for i none = err (no_primary_datastore (suc i))
primary_for i (some ds) = ok ds

unfoldable pub has_policy : List Disk → Bool
has_policy disks = exists (λ disk. not (is_empty disk.storage_policy_id)) disks

unfoldable pub seeded_cache : Text → Option Datastore → List (Text × Datastore)
seeded_cache seed none = []
seeded_cache seed (some ds) = if is_empty seed then [] else (seed, ds) ∷ []

-- The name where none is given: that of the primary datastore, or of the first placement.
unfoldable pub name_of_placements : Text → Option Datastore → List DiskDatastore → Text
name_of_placements (c ∷ cs) primary placements = c ∷ cs
name_of_placements [] (some ds) placements = ds.name
name_of_placements [] none [] = []
name_of_placements [] none (p ∷ ps) = p.name

module _ (d : PlacementDriver) where
  unfoldable pub compatible_for : ResolveDatastore → Text → Result StepError Datastore
  compatible_for c id =
      map_err (no_datastore_for_policy c.storage_policy)
        (d.find_compatible_datastore id c.host c.cluster)

  unfoldable pub from_policy :
      ResolveDatastore → StateBag → Result StepError Text → Action × StateBag
  unfolding keep_policy
  from_policy c s (err e) = halt_with e s
  from_policy c s (ok id) = keep_policy s id (compatible_for c id)

  -- `StepResolveDatastore.Run`.
  unfoldable pub resolve_datastore : ResolveDatastore → StateBag → Action × StateBag
  unfolding keep_datastore from_cluster from_policy
  resolve_datastore c s =
      if not (is_empty c.store)
      then keep_datastore s (
          map_err (datastore_not_found c.store) (d.find_datastore c.store []) >>= λ ds.
          ok (ds, direct))
      else if not (is_empty c.datastore_cluster)
      then keep_datastore s (from_cluster c.datastore_cluster d.cluster_selector)
      else if not (is_empty c.storage_policy)
      then from_policy c s
          (map_err (policy_not_found c.storage_policy) (d.find_storage_policy_id c.storage_policy))
      else (continue_build, s)

  -- `ResolveMultiDiskDatastorePlacement`.
  unfoldable pub resolve_multi_disk :
      Text → StoragePlacementInput → Option Datastore → Text → Text × List DiskDatastore
  unfolding multi_disk
  resolve_multi_disk datastore_cluster input primary name =
      let n = length input.storage_config.storage in
      if is_empty datastore_cluster || leb n 1 then (name, []) else elim d.disk_selector [
        | none ↦ (name, [])
        | some select ↦ multi_disk name n primary (select datastore_cluster input)
      ]

  -- A lookup for the disk of index `i`.
  unfoldable pub look_up : Text → Text → ℕ → Text → Result StepError Datastore
  look_up host cluster i id =
      map_err (no_datastore_for_disk (suc i) id) (d.find_compatible_datastore id host cluster)

  -- The datastore of one disk, and the cache after it.
  unfoldable pub place_policy_disk :
      Text
      → Text
      → Option Datastore
      → ℕ
      → Disk
      → List (Text × Datastore)
      → Result StepError (Datastore × List (Text × Datastore))
  place_policy_disk host cluster primary i disk cache =
      if is_empty disk.storage_policy_id
      then (primary_for i primary >>= λ ds. ok (ds, cache))
      else elim (cached_datastore disk.storage_policy_id cache) [
        | some ds ↦ ok (ds, cache)
        | none ↦ look_up host cluster i disk.storage_policy_id >>= λ ds.
            ok (ds, (disk.storage_policy_id, ds) ∷ cache)
      ]

  -- The loop over the disks from index `i` on.
  unfoldable pub place_policy_disks :
      Text
      → Text
      → Option Datastore
      → ℕ
      → List Disk
      → List (Text × Datastore)
      → Result StepError (List DiskDatastore)
  place_policy_disks host cluster primary i [] cache = ok []
  place_policy_disks host cluster primary i (disk ∷ disks) cache = do
    p ← place_policy_disk host cluster primary i disk cache
    rest ← place_policy_disks host cluster primary (suc i) disks p.1
    ok (placed_on p.0 ∷ rest)

  -- `ResolveStoragePolicyDatastorePlacement`.
  unfoldable pub resolve_policy_placement :
      Text
      → Text
      → List Disk
      → Option Datastore
      → Text
      → Text
      → Text
      → Text
      → Result StepError (Text × List DiskDatastore)
  unfolding name_of_placements
  resolve_policy_placement host cluster disks primary name store datastore_cluster seed =
      if not (is_empty store) || not (is_empty datastore_cluster)
      then ok (name, [])
      else if not (has_policy disks)
      then ok (name, [])
      else (place_policy_disks host cluster primary 0 disks (seeded_cache seed primary)
          >>= λ placements. ok (name_of_placements name primary placements, placements))
