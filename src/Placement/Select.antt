-- ===== src/Placement/Select.antt =====
-- builder/vsphere/driver/storage_drs.go: the choice of datastores by Storage DRS, with the first
-- datastore of the cluster to fall back on. What vCenter answers is the parameter `vcenter`.
use packer_plugin_vsphere.Base.{
  ℕ, Option, none, some, List, [], ◌∷◌, ◌==◌, if◌then◌else◌, ℤ, length, is_empty, Result, ok, err,
  ◌>>=◌, ◌>>◌, fail_if, map_err, Text,
}
use packer_plugin_vsphere.Controller.{
  StorageError, library, no_datastore_in_cluster, no_disks_for_placement,
}
use packer_plugin_vsphere.Storage.{DeviceLibrary, DeviceConfigSpec}
use packer_plugin_vsphere.Placement.{
  StoragePlacementInput, Action, storage_placement, other_action,
  build_storage_placement_config_spec,
}
use packer_plugin_vsphere.Placement.Assign.{datastores_for_new_disks, duplicate_datastore}

-- The datastores of a cluster, the answer to a placement request (the actions of each
-- recommendation) from the device changes, and the datastore of a reference.
pub record VCenter (D : Type 0) : Type 0 where
  pub list_datastores : Text → Result Text (List D)
  pub request_storage_placement : Text → List DeviceConfigSpec → Result Text (List (List Action))
  pub resolve_datastore_ref : Text → Result Text D

pub data SelectionMethod : Type 0 where
  storage_drs first_available : SelectionMethod

-- Without an assignment by Storage DRS, the first datastore serves for every disk.
unfoldable pub chosen :
    {D : Type 0} → Option (List D) → D → ℕ → Result StorageError (List D × SelectionMethod)
chosen (some ds) fallback count = ok (ds, storage_drs)
chosen none fallback count = ok (duplicate_datastore fallback count, first_available)

module _ {D : Type 0} (g : DeviceLibrary) (vcenter : VCenter D) where
  -- `RequestStoragePlacement` fails where there is no recommendation.
  unfoldable pub recommendation : Result Text (List (List Action)) → Option (List Action)
  recommendation (err e) = none
  recommendation (ok []) = none
  recommendation (ok (r ∷ rs)) = some r

  unfoldable pub assigned : Option (List Action) → List ℤ → D → Option (List D)
  assigned none keys fallback = none
  assigned (some actions) keys fallback =
      datastores_for_new_disks vcenter.resolve_datastore_ref actions keys fallback

  unfoldable pub choose_for_disks :
      Text → StoragePlacementInput → D → Result StorageError (List D × SelectionMethod)
  choose_for_disks cluster input fallback =
      let count = length input.storage_config.storage in
      fail_if (count == 0) no_disks_for_placement
      >> (build_storage_placement_config_spec g input >>= λ changes.
          chosen
            (assigned (recommendation (vcenter.request_storage_placement cluster changes.0))
              changes.1 fallback)
            fallback count)

  unfoldable pub for_datastores :
      Text → StoragePlacementInput → List D → Result StorageError (List D × SelectionMethod)
  for_datastores cluster input [] = err (no_datastore_in_cluster cluster)
  for_datastores cluster input (d ∷ ds) = choose_for_disks cluster input d

  unfoldable pub select_datastores_for_disks :
      Text → StoragePlacementInput → Result StorageError (List D × SelectionMethod)
  unfolding for_datastores choose_for_disks recommendation assigned chosen
  select_datastores_for_disks cluster input =
      map_err library (vcenter.list_datastores cluster) >>= for_datastores cluster input

  -- The first placement action with a destination that is resolved.
  first_destination : List Action → Option D
  first_destination [] = none
  first_destination (other_action ∷ actions) = first_destination actions
  first_destination (storage_placement disks kind ref ∷ actions) =
      let rest = first_destination actions in
      elim (vcenter.resolve_datastore_ref ref) [
        | err e ↦ rest
        | ok d ↦ if is_empty kind then rest else some d
      ]

  destination_of : Option (List Action) → Option D
  destination_of none = none
  destination_of (some actions) = first_destination actions

  from_cluster : Text → List D → Result StorageError (D × SelectionMethod)
  from_cluster cluster [] = err (no_datastore_in_cluster cluster)
  from_cluster cluster (d ∷ ds) =
      elim (destination_of (recommendation (vcenter.request_storage_placement cluster []))) [
        | some e ↦ ok (e, storage_drs)
        | none ↦ ok (d, first_available)
      ]

  unfoldable pub select_datastore_from_cluster : Text → Result StorageError (D × SelectionMethod)
  unfolding from_cluster destination_of first_destination recommendation
  select_datastore_from_cluster cluster =
      map_err library (vcenter.list_datastores cluster) >>= from_cluster cluster
