-- ===== src/Storage/Addresses.antt =====
-- builder/vsphere/driver/disk.go: where the disks with a `disk_controller_unit` stand.
use packer_plugin_vsphere.Base.{
  ℕ, suc, ◌≡◌, sym, ap, ◌∙◌, subst, Bool, some, List, [], ◌∷◌, arith, if◌then◌else◌, All, Result,
  ok, err, ◌>>◌, >>=-eq-ok, map_err-eq-ok, Text,
}
use packer_plugin_vsphere.Controller.{
  StorageError, ControllerAddress, Controller, Device, controller_device, disk_device, at_storage,
}
use packer_plugin_vsphere.Controller.Devices.{
  controller_bus_number, is_at_bus_iff, find_controller_by_bus-some,
}
use packer_plugin_vsphere.Storage.{Disk, StorageConfig, DeviceLibrary, DeviceLibraryLaws}
use packer_plugin_vsphere.Controller.Capacity.{validate_aggregate_storage_capacity}
use packer_plugin_vsphere.Storage.Places.{
  HasBus, IsAtAddress, HasDiskAt-last, HasBus-append, HasBus-last, HasController-HasBus,
  HasBus-linked, IsAtAddress-append, IsAtAddress-linked,
}
use packer_plugin_vsphere.Storage.Attach.{
  AttachState, StorageAttachOptions, attach_at_unit, attach_explicit, attach_explicit_all,
  add_legacy, legacy_disks, explicit_disks, initial, attach_devices,
}
use packer_plugin_vsphere.Storage.Steps.{
  linked, add_controller_existing, Located, found, created, attach_at_unit-Attached,
}

module _ (g : DeviceLibrary) (laws : DeviceLibraryLaws g) (cfg : StorageConfig) (link : Bool) where
  Located-HasBus :
      (s : AttachState) (p : Controller × AttachState) (a : ControllerAddress)
      → Located g s p a
      → HasBus p.0.base.key a.kind a.bus p.1.existing
  Located-HasBus s p a (found f e) =
      let (m, q) = find_controller_by_bus-some s.existing a.kind a.bus f in
      subst (λ z. HasBus p.0.base.key a.kind a.bus z.existing) (sym e)
        (HasController-HasBus s.existing p.0 a.kind a.bus m q)
  Located-HasBus s p a (created t f h b) =
      let (c, e, n, m, q) =
        add_controller_existing g (record s { type_index = suc s.type_index }) t p h in
      let z : p.0 ≡ c = laws.found_created _ c p.0 m in
      let y : controller_bus_number p.0 ≡ some (a.kind, a.bus) =
        (is_at_bus_iff a.kind a.bus p.0).0 b in
      rw (q, z) (HasBus-last s.existing c a.kind a.bus (sym (ap controller_bus_number z) ∙ y))

  Located-IsAtAddress :
      (raw : Text) (s : AttachState) (p : Controller × AttachState) (a : ControllerAddress)
      → Located g s p a
      → IsAtAddress raw s.existing
      → IsAtAddress raw p.1.existing
  Located-IsAtAddress raw s p a (found f e) v = subst (λ z. IsAtAddress raw z.existing) (sym e) v
  Located-IsAtAddress raw s p a (created t f h b) v =
      let (c, e, n, m, q) =
        add_controller_existing g (record s { type_index = suc s.type_index }) t p h in
      rw q (IsAtAddress-append raw s.existing (controller_device c ∷ []) v)

  attach_at_unit-IsAtAddress :
      (s : AttachState) (d : ℕ × Disk) (s' : AttachState)
      → attach_at_unit g cfg link s d ≡ ok s'
      → IsAtAddress d.1.controller_unit s'.existing
        × ((raw : Text) → IsAtAddress raw s.existing → IsAtAddress raw s'.existing)
  attach_at_unit-IsAtAddress s d s' h =
      let r = attach_at_unit-Attached g cfg link s d s' h in
      let key = r.place.0.base.key in
      let ds = linked link key r.keys r.place.1.existing in
      (
        subst (IsAtAddress d.1.controller_unit) (sym r.existing_eq) (record {
          address = r.address;
          key = key;
          parsed = r.parsed;
          disk_there = HasDiskAt-last _ key ds r.disk r.at_unit r.on_controller;
          controller_there =
              HasBus-append key r.address.kind r.address.bus ds (disk_device r.disk ∷ []) (
                HasBus-linked key r.address.kind r.address.bus link key r.keys r.place.1.existing
                  (Located-HasBus s r.place r.address r.located));
        }),
        λ raw v. subst (IsAtAddress raw) (sym r.existing_eq) (
            IsAtAddress-append raw ds (disk_device r.disk ∷ []) (
              IsAtAddress-linked raw link key r.keys r.place.1.existing
                (Located-IsAtAddress raw s r.place r.address r.located v))),
      )

  attach_explicit_all-IsAtAddress :
      (ds : List (ℕ × Disk)) (s s' : AttachState)
      → attach_explicit_all g cfg link s ds ≡ ok s'
      → All (λ d. IsAtAddress d.1.controller_unit s'.existing) ds
        × ((raw : Text) → IsAtAddress raw s.existing → IsAtAddress raw s'.existing)
  unfolding attach_explicit_all attach_explicit
  attach_explicit_all-IsAtAddress [] s s' h =
      let e : s ≡ s' = ground arith in (tt, λ raw v. subst (λ z. IsAtAddress raw z.existing) e v)
  attach_explicit_all-IsAtAddress (d ∷ ds) s s' h =
      let (t, e, r) = >>=-eq-ok (attach_explicit g cfg link s d) _ h in
      let (now, kept) = attach_at_unit-IsAtAddress s d t (map_err-eq-ok (at_storage d.0) _ e) in
      let (rest, later) = attach_explicit_all-IsAtAddress ds t s' r in
      ((later d.1.controller_unit now, rest), λ raw v. later raw (kept raw v))

last_of : (r : Result StorageError (Unit {0})) (s t : AttachState) → (r >> ok s) ≡ ok t → s ≡ t
last_of (ok u) s t h = ground arith
last_of (err e) s t h = absurd (ground arith)

-- Where govmomi finds the controllers that it creates, and the attachment succeeds, every storage
-- block with a unit names an address, and in the final device list a disk has the unit of that
-- address, converted to an int32 (which wraps one that is too large for it), on a controller of the
-- kind and the bus of that address.
pub attach_devices-IsAtAddress :
    (g : DeviceLibrary) (laws : DeviceLibraryLaws g) (cfg : StorageConfig)
    (opts : StorageAttachOptions) (existing : List Device) {s : AttachState}
    → attach_devices g cfg opts existing ≡ ok s
    → All (λ d. IsAtAddress d.1.controller_unit s.existing) (explicit_disks 0 cfg.storage)
unfolding attach_devices
attach_devices-IsAtAddress g laws cfg opts existing {s} h =
    let link = opts.link_controller_devices in
    let ds = explicit_disks 0 cfg.storage in
    let (s₁, e₁, r₁) =
      >>=-eq-ok (add_legacy g cfg (initial g existing) (legacy_disks 0 cfg.storage)) _ h in
    let (s₂, e₂, r₂) = >>=-eq-ok (attach_explicit_all g cfg link s₁ ds) _ r₁ in
    let e : s₂ ≡ s =
      last_of
        (if opts.validate_aggregate then validate_aggregate_storage_capacity s₂.existing else ok tt)
        s₂ s r₂ in
    subst (λ z. All (λ d. IsAtAddress d.1.controller_unit z.existing) ds) e
      (attach_explicit_all-IsAtAddress g laws cfg link ds s₁ s₂ e₂).0
