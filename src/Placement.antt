-- ===== src/Placement.antt =====
-- builder/vsphere/driver/storage_placement.go: the device changes of a placement request, and what a
-- recommendation of Storage DRS holds. A reference is its text.
pub mod Select
pub mod Assign
pub mod Lengths
pub mod Keys
pub mod Sizes
pub mod Existing
use packer_plugin_vsphere.Base.{
  zero, suc, Bool, true, false, ◌&&◌, ◌||◌, not, List, [], ◌∷◌, ◌++◌, if◌then◌else◌, ℤ, pos, negsuc,
  is_empty, Result, ok, err, ◌>>=◌, ◌>>◌, map_err, Text, mul_int64,
}
use packer_plugin_vsphere.Controller.{
  VirtualDisk, Device, controller_device, disk_device, other_device, StorageError, no_disk,
  several_disks, resize_failed, storage_failed,
}
use packer_plugin_vsphere.Storage.{
  StorageConfig, DeviceLibrary, DeviceConfigSpec, Operation, add, edit,
}
use packer_plugin_vsphere.Storage.Attach.{add_storage_devices_for_placement}

pub record StoragePlacementInput : Type 0 where
  pub storage_config : StorageConfig
  pub existing_devices : List Device
  pub primary_disk_size : ℤ

abbrev pub disks_of : List Device → List VirtualDisk
disks_of [] = []
disks_of (disk_device d ∷ ds) = d ∷ disks_of ds
disks_of (controller_device c ∷ ds) = disks_of ds
disks_of (other_device v ∷ ds) = disks_of ds

-- `SelectByType` of the virtual disks, and of the controllers of any type.
unfoldable pub select_disks : List Device → List Device
select_disks [] = []
select_disks (disk_device d ∷ ds) = disk_device d ∷ select_disks ds
select_disks (controller_device c ∷ ds) = select_disks ds
select_disks (other_device v ∷ ds) = select_disks ds

unfoldable pub select_controllers : List Device → List Device
select_controllers [] = []
select_controllers (controller_device c ∷ ds) = controller_device c ∷ select_controllers ds
select_controllers (disk_device d ∷ ds) = select_controllers ds
select_controllers (other_device v ∷ ds) = select_controllers ds

unfoldable pub storage_existing_devices : List Device → List Device
storage_existing_devices ds = select_disks ds ++ select_controllers ds

only_disk : List VirtualDisk → Result StorageError VirtualDisk
only_disk [] = err no_disk
only_disk (d ∷ []) = ok d
only_disk (d ∷ e ∷ ds) = err several_disks

-- `findDisk` of builder/vsphere/driver/disk.go.
unfoldable pub find_disk : List Device → Result StorageError VirtualDisk
unfolding only_disk
find_disk ds = only_disk (disks_of ds)

unfoldable pub build_primary_disk_resize_spec :
    List Device → ℤ → Result StorageError (List DeviceConfigSpec)
unfolding find_disk
build_primary_disk_resize_spec ds size = do
  d ← find_disk ds
  let kb = mul_int64 size 1024
  let resized = record d { capacity_in_kb = kb; capacity_in_bytes = mul_int64 kb 1024 }
  ok (record { operation = edit; device = disk_device resized; profile = [] } ∷ [])

abbrev is_positive : ℤ → Bool
is_positive (pos zero) = false
is_positive (pos (suc n)) = true
is_positive (negsuc n) = false

abbrev spec_keys : Operation → Device → List ℤ
spec_keys add (disk_device d) = d.base.key ∷ []
spec_keys _ _ = []

unfoldable pub new_virtual_disk_keys : List DeviceConfigSpec → List ℤ
new_virtual_disk_keys [] = []
new_virtual_disk_keys (s ∷ ss) = spec_keys s.operation s.device ++ new_virtual_disk_keys ss

module _ (g : DeviceLibrary) where
  unfoldable pub resize_specs : StoragePlacementInput → Result StorageError (List DeviceConfigSpec)
  resize_specs input =
      if is_positive input.primary_disk_size && not (is_empty input.existing_devices)
      then map_err resize_failed
          (build_primary_disk_resize_spec input.existing_devices input.primary_disk_size)
      else ok []

  unfoldable pub build_storage_placement_config_spec :
      StoragePlacementInput → Result StorageError (List DeviceConfigSpec × List ℤ)
  unfolding resize_specs
  build_storage_placement_config_spec input = do
    resized ← resize_specs input
    specs ←
        map_err storage_failed
          (add_storage_devices_for_placement g input.storage_config input.existing_devices)
    ok (resized ++ specs, new_virtual_disk_keys specs)

-- An action of a recommendation: the placement of a virtual machine, with the datastores of disks by
-- their keys and a destination (its type and its reference), or an action of another type.
pub data Action : Type 0 where
  storage_placement : List (ℤ × Text) → Text → Text → Action
  other_action : Action

unfoldable pub disk_datastore_mappings : List Action → List (ℤ × Text)
disk_datastore_mappings [] = []
disk_datastore_mappings (storage_placement disks kind ref ∷ actions) =
    disks ++ disk_datastore_mappings actions
disk_datastore_mappings (other_action ∷ actions) = disk_datastore_mappings actions

unfoldable pub destination_only_actions : List Action → List Text
destination_only_actions [] = []
destination_only_actions (storage_placement disks kind ref ∷ actions) =
    let rest = destination_only_actions actions in
    if is_empty kind || not (is_empty disks) then rest else ref ∷ rest
destination_only_actions (other_action ∷ actions) = destination_only_actions actions
