-- ===== src/Storage/Counts.antt =====
-- builder/vsphere/driver/disk.go: the number of disks and of controllers of a kind, under the
-- operations on device lists that the attachment makes.
use packer_plugin_vsphere.Base.{
  ℕ, suc, ◌+◌, ◌≤◌, ◌≡◌, refl, ap, Bool, true, false, List, [], ◌∷◌, ◌++◌, arith, ℤ,
}
use packer_plugin_vsphere.Controller.{
  ControllerKind, Device, controller_device, disk_device, other_device,
}
use packer_plugin_vsphere.Controller.Devices.{controller_bus_number}
use packer_plugin_vsphere.Controller.Capacity.{count_controllers_by_kind}
use packer_plugin_vsphere.Storage.Attach.{put_device_keys}
use packer_plugin_vsphere.Storage.Steps.{linked}

-- The number of disks in a device list.
unfoldable pub count_disks : List Device → ℕ
count_disks [] = 0
count_disks (disk_device d ∷ ds) = suc (count_disks ds)
count_disks (controller_device c ∷ ds) = count_disks ds
count_disks (other_device v ∷ ds) = count_disks ds

-- At most four controllers of each kind.
abbrev pub IsWithinControllerLimit : List Device → Type 0
IsWithinControllerLimit ds = (k : ControllerKind) → count_controllers_by_kind ds k ≤ 4

pub count_disks-append :
    (xs ys : List Device) → count_disks (xs ++ ys) ≡ count_disks xs + count_disks ys
unfolding count_disks
count_disks-append [] ys = omega arith
count_disks-append (disk_device d ∷ xs) ys = omega (arith, count_disks-append xs ys)
count_disks-append (controller_device c ∷ xs) ys = count_disks-append xs ys
count_disks-append (other_device v ∷ xs) ys = count_disks-append xs ys

pub count_disks-put :
    (key : ℤ) (keys : List ℤ) (ds : List Device)
    → count_disks (put_device_keys key keys ds) ≡ count_disks ds
unfolding count_disks put_device_keys
count_disks-put key keys [] = refl
count_disks-put key keys (disk_device d ∷ ds) = ap suc (count_disks-put key keys ds)
count_disks-put key keys (controller_device c ∷ ds) = count_disks-put key keys ds
count_disks-put key keys (other_device v ∷ ds) = count_disks-put key keys ds

pub count_disks-linked :
    (link : Bool) (key : ℤ) (keys : List ℤ) (ds : List Device)
    → count_disks (linked link key keys ds) ≡ count_disks ds
count_disks-linked true key keys ds = count_disks-put key keys ds
count_disks-linked false key keys ds = refl

pub count_kind-append :
    (k : ControllerKind) (xs ys : List Device)
    → count_controllers_by_kind (xs ++ ys) k
      ≡ count_controllers_by_kind xs k + count_controllers_by_kind ys k
unfolding count_controllers_by_kind
count_kind-append k [] ys = omega arith
count_kind-append k (controller_device c ∷ xs) ys = ground (arith, count_kind-append k xs ys)
count_kind-append k (disk_device d ∷ xs) ys = count_kind-append k xs ys
count_kind-append k (other_device v ∷ xs) ys = count_kind-append k xs ys

pub count_kind-put :
    (k : ControllerKind) (key : ℤ) (keys : List ℤ) (ds : List Device)
    → count_controllers_by_kind (put_device_keys key keys ds) k ≡ count_controllers_by_kind ds k
unfolding count_controllers_by_kind put_device_keys controller_bus_number
count_kind-put k key keys [] = refl
count_kind-put k key keys (controller_device c ∷ ds) = ground (arith, count_kind-put k key keys ds)
count_kind-put k key keys (disk_device d ∷ ds) = count_kind-put k key keys ds
count_kind-put k key keys (other_device v ∷ ds) = count_kind-put k key keys ds

pub count_kind-linked :
    (k : ControllerKind) (link : Bool) (key : ℤ) (keys : List ℤ) (ds : List Device)
    → count_controllers_by_kind (linked link key keys ds) k ≡ count_controllers_by_kind ds k
count_kind-linked k true key keys ds = count_kind-put k key keys ds
count_kind-linked k false key keys ds = refl

pub count_kind-disk :
    (k : ControllerKind) (xs : List Device) (d : Device)
    → count_disks (d ∷ []) ≡ 1
    → count_controllers_by_kind (xs ++ d ∷ []) k ≡ count_controllers_by_kind xs k
unfolding count_controllers_by_kind count_disks
count_kind-disk k xs (disk_device d) h = omega (arith, count_kind-append k xs (disk_device d ∷ []))
count_kind-disk k xs (controller_device c) h = absurd (omega arith)
count_kind-disk k xs (other_device v) h = absurd (omega arith)
