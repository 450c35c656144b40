-- ===== src/Storage/Limits.antt =====
-- builder/vsphere/driver/disk.go: the limit on the controllers of a virtual machine
-- hold after disks were attached.
use packer_plugin_vsphere.Base.{
  ℕ, suc, ◌≤◌, ◌≡◌, refl, sym, subst, Bool, some, List, [], ◌∷◌, ◌++◌, arith, ok, Text,
}
use packer_plugin_vsphere.Controller.{
  ControllerAddress, ControllerKind, Controller, Device, controller_device, disk_device,
  kind_for_type,
}
use packer_plugin_vsphere.Controller.Devices.{controller_bus_number}
use packer_plugin_vsphere.Controller.Capacity.{count_controllers_by_kind, validate_controller_count}
use packer_plugin_vsphere.Storage.{Disk, StorageConfig, DeviceLibrary, DeviceLibraryLaws}
use packer_plugin_vsphere.Storage.Attach.{
  StorageAttachOptions, AttachState, put_device_keys, write_device_keys, append_disk,
  add_controller, attach_legacy, attach_at_unit, attach_devices,
}
use packer_plugin_vsphere.Storage.Loops.{attach_devices_ind}
use packer_plugin_vsphere.Storage.Steps.{
  linked, add_controller_existing, attach_legacy_existing, Located, found, created,
  attach_at_unit-Attached,
}
use packer_plugin_vsphere.Storage.Counts.{
  count_disks, IsWithinControllerLimit, count_kind-append, count_kind-put, count_kind-linked,
  count_kind-disk,
}

abbrev Limited : ℕ → AttachState → Type 0
Limited n s = IsWithinControllerLimit s.existing

count_created :
    (k l : ControllerKind) (ds : List Device) (c : Controller) (b : ℕ)
    → controller_bus_number c ≡ some (l, b)
    → validate_controller_count ds l 1 ≡ ok tt
    → IsWithinControllerLimit ds
    → count_controllers_by_kind (ds ++ controller_device c ∷ []) k ≤ 4
unfolding count_controllers_by_kind validate_controller_count
count_created k l ds c b e h v =
    ground (arith, count_kind-append k ds (controller_device c ∷ []), v k)

module _ (g : DeviceLibrary) (laws : DeviceLibraryLaws g) (cfg : StorageConfig) (link : Bool) where
  on_controller :
      (n : ℕ) (s : AttachState) (t : Text) (p : Controller × AttachState)
      → add_controller g s t ≡ ok p
      → Limited n s
      → Limited n p.1
  on_controller n s t p h v =
      let (c, e₁, e₂, e₃, e) = add_controller_existing g s t p h in
      let (b, q) = laws.created_kind s.existing t c e₁ in
      subst (Limited n) (sym e) (λ k. count_created k (kind_for_type t) s.existing c b q e₂ v)

  on_legacy_disk :
      (n : ℕ) (s : AttachState) (d : ℕ × Disk) (s' : AttachState)
      → attach_legacy g cfg s d ≡ ok s'
      → Limited n s
      → Limited (suc n) s'
  unfolding append_disk write_device_keys count_disks
  on_legacy_disk n s d s' h v =
      let (disk, key, keys, e) = attach_legacy_existing g cfg s d s' h in
      subst (Limited (suc n)) (sym e) λ k.
        rw
          (
            count_kind-disk k (put_device_keys key keys s.existing) (disk_device disk) refl,
            count_kind-put k key keys s.existing,
          )
          (v k)

  Located-Limited :
      (n : ℕ) (s : AttachState) (p : Controller × AttachState) (a : ControllerAddress)
      → Located g s p a
      → Limited n s
      → Limited n p.1
  Located-Limited n s p a (found f e) v = subst (Limited n) (sym e) v
  Located-Limited n s p a (created t f h b) v =
      on_controller n (record s { type_index = suc s.type_index }) t p h v

  on_explicit_disk :
      (n : ℕ) (s : AttachState) (d : ℕ × Disk) (s' : AttachState)
      → attach_at_unit g cfg link s d ≡ ok s'
      → Limited n s
      → Limited (suc n) s'
  unfolding count_disks
  on_explicit_disk n s d s' h v k =
      let r = attach_at_unit-Attached g cfg link s d s' h in
      let key = r.place.0.base.key in
      rw
        (
          r.existing_eq,
          count_kind-disk k (linked link key r.keys r.place.1.existing) (disk_device r.disk) refl,
          count_kind-linked k link key r.keys r.place.1.existing,
        )
        (Located-Limited n s r.place r.address r.located v k)

-- Where govmomi creates a controller of the family that its type names, and the virtual machine has
-- at most four controllers of each kind, it has at most four of each kind after a successful
-- attachment.
pub attach_devices-IsWithinControllerLimit :
    (g : DeviceLibrary) (laws : DeviceLibraryLaws g) (cfg : StorageConfig)
    (opts : StorageAttachOptions) (existing : List Device) {s : AttachState}
    → attach_devices g cfg opts existing ≡ ok s
    → IsWithinControllerLimit existing
    → IsWithinControllerLimit s.existing
attach_devices-IsWithinControllerLimit g laws cfg opts existing {s} h v =
    let link = opts.link_controller_devices in
    attach_devices_ind g cfg Limited (on_controller g laws cfg link) (λ n t cs w. w) (λ n t i w. w)
      (on_legacy_disk g laws cfg link) link (on_explicit_disk g laws cfg link)
      opts.validate_aggregate existing s h v
