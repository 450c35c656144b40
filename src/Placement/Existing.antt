-- ===== src/Placement/Existing.antt =====
-- builder/vsphere/driver/storage_placement.go: what `StorageExistingDevices` keeps of a device list.
use packer_plugin_vsphere.Base.{append_nil, ◌≡◌, refl, ap, ◌∙◌, List, [], ◌∷◌, ◌++◌, arith}
use packer_plugin_vsphere.Controller.{
  ControllerKind, Device, controller_device, disk_device, other_device,
}
use packer_plugin_vsphere.Controller.Capacity.{count_controllers_by_kind}
use packer_plugin_vsphere.Storage.Counts.{count_kind-append}
use packer_plugin_vsphere.Placement.{
  disks_of, find_disk, select_disks, select_controllers, storage_existing_devices,
}

disks_of-append : (xs ys : List Device) → disks_of (xs ++ ys) ≡ disks_of xs ++ disks_of ys
disks_of-append [] ys = refl
disks_of-append (disk_device d ∷ xs) ys = ap (λ l. d ∷ l) (disks_of-append xs ys)
disks_of-append (controller_device c ∷ xs) ys = disks_of-append xs ys
disks_of-append (other_device v ∷ xs) ys = disks_of-append xs ys

disks_of-select_disks : (ds : List Device) → disks_of (select_disks ds) ≡ disks_of ds
unfolding select_disks
disks_of-select_disks [] = refl
disks_of-select_disks (disk_device d ∷ ds) = ap (λ l. d ∷ l) (disks_of-select_disks ds)
disks_of-select_disks (controller_device c ∷ ds) = disks_of-select_disks ds
disks_of-select_disks (other_device v ∷ ds) = disks_of-select_disks ds

disks_of-select_controllers : (ds : List Device) → disks_of (select_controllers ds) ≡ []
unfolding select_controllers
disks_of-select_controllers [] = refl
disks_of-select_controllers (disk_device d ∷ ds) = disks_of-select_controllers ds
disks_of-select_controllers (controller_device c ∷ ds) = disks_of-select_controllers ds
disks_of-select_controllers (other_device v ∷ ds) = disks_of-select_controllers ds

disks_of-existing : (ds : List Device) → disks_of (storage_existing_devices ds) ≡ disks_of ds
unfolding storage_existing_devices
disks_of-existing ds =
    disks_of-append (select_disks ds) (select_controllers ds)
    ∙ ap (λ l. disks_of (select_disks ds) ++ l) (disks_of-select_controllers ds)
    ∙ append_nil _
    ∙ disks_of-select_disks ds

count_kind-select_disks :
    (k : ControllerKind) (ds : List Device) → count_controllers_by_kind (select_disks ds) k ≡ 0
unfolding select_disks count_controllers_by_kind
count_kind-select_disks k [] = refl
count_kind-select_disks k (disk_device d ∷ ds) = count_kind-select_disks k ds
count_kind-select_disks k (controller_device c ∷ ds) = count_kind-select_disks k ds
count_kind-select_disks k (other_device v ∷ ds) = count_kind-select_disks k ds

count_kind-select_controllers :
    (k : ControllerKind) (ds : List Device)
    → count_controllers_by_kind (select_controllers ds) k ≡ count_controllers_by_kind ds k
unfolding select_controllers count_controllers_by_kind
count_kind-select_controllers k [] = refl
count_kind-select_controllers k (disk_device d ∷ ds) = count_kind-select_controllers k ds
count_kind-select_controllers k (controller_device c ∷ ds) =
    ground (arith, count_kind-select_controllers k ds)
count_kind-select_controllers k (other_device v ∷ ds) = count_kind-select_controllers k ds

-- The devices that are kept for a placement request have the same disk to resize, or the same error,
-- and as many controllers of each kind as all devices of the virtual machine.
pub storage_existing_devices-find_disk :
    (ds : List Device) (k : ControllerKind)
    → (find_disk (storage_existing_devices ds) ≡ find_disk ds)
      × (count_controllers_by_kind (storage_existing_devices ds) k ≡ count_controllers_by_kind ds k)
unfolding find_disk storage_existing_devices
storage_existing_devices-find_disk ds k = (
  rw (disks_of-existing ds),
  omega (
    arith,
    count_kind-append k (select_disks ds) (select_controllers ds),
    count_kind-select_disks k ds,
    count_kind-select_controllers k ds,
  ),
)
