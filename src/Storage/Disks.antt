-- ===== src/Storage/Disks.antt =====
-- builder/vsphere/driver/disk.go: every storage block becomes one disk.
use packer_plugin_vsphere.Base.{
  ℕ, suc, ◌+◌, ◌≡◌, refl, sym, ap, subst, Bool, List, [], ◌∷◌, arith, length, ok, Text,
}
use packer_plugin_vsphere.Controller.{
  ControllerAddress, Controller, Device, controller_device, disk_device,
}
use packer_plugin_vsphere.Storage.{Disk, StorageConfig, DeviceLibrary}
use packer_plugin_vsphere.Storage.Attach.{
  StorageAttachOptions, AttachState, put_device_keys, write_device_keys, append_disk,
  add_controller, attach_legacy, attach_at_unit, attach_devices,
}
use packer_plugin_vsphere.Storage.Loops.{attach_devices_ind}
use packer_plugin_vsphere.Storage.Steps.{
  linked, add_controller_existing, attach_legacy_existing, Located, found, created,
  attach_at_unit-Attached,
}
use packer_plugin_vsphere.Storage.Counts.{
  count_disks, count_disks-append, count_disks-put, count_disks-linked,
}

-- The disks of both lists, when `n` were attached to a list that had `before`.
record Disks (before n : ℕ) (s : AttachState) : Type 0 where
  in_existing : count_disks s.existing ≡ before + n
  in_new : count_disks s.new_devices ≡ n

module _ (g : DeviceLibrary) (cfg : StorageConfig) (link : Bool) (before : ℕ) where
  on_controller :
      (n : ℕ) (s : AttachState) (t : Text) (p : Controller × AttachState)
      → add_controller g s t ≡ ok p
      → Disks before n s
      → Disks before n p.1
  unfolding count_disks
  on_controller n s t p h v =
      let (c, e₁, e₂, e₃, e) = add_controller_existing g s t p h in
      subst (Disks before n) (sym e) (record {
        in_existing = omega (arith, count_disks-append s.existing (controller_device c ∷ []));
        in_new = omega (arith, count_disks-append s.new_devices (controller_device c ∷ []));
      })

  on_legacy_disk :
      (n : ℕ) (s : AttachState) (d : ℕ × Disk) (s' : AttachState)
      → attach_legacy g cfg s d ≡ ok s'
      → Disks before n s
      → Disks before (suc n) s'
  unfolding count_disks append_disk write_device_keys
  on_legacy_disk n s d s' h v =
      let (disk, key, keys, e) = attach_legacy_existing g cfg s d s' h in
      subst (Disks before (suc n)) (sym e) (record {
        in_existing = omega (
          arith,
          count_disks-append (put_device_keys key keys s.existing) (disk_device disk ∷ []),
          count_disks-put key keys s.existing,
        );
        in_new = omega (
          arith,
          count_disks-append (put_device_keys key keys s.new_devices) (disk_device disk ∷ []),
          count_disks-put key keys s.new_devices,
        );
      })

  Located-Disks :
      (n : ℕ) (s : AttachState) (p : Controller × AttachState) (a : ControllerAddress)
      → Located g s p a
      → Disks before n s
      → Disks before n p.1
  Located-Disks n s p a (found f e) v = subst (Disks before n) (sym e) v
  Located-Disks n s p a (created t f h b) v =
      on_controller n (record s { type_index = suc s.type_index }) t p h
        (record { in_existing = v.in_existing; in_new = v.in_new })

  on_explicit_disk :
      (n : ℕ) (s : AttachState) (d : ℕ × Disk) (s' : AttachState)
      → attach_at_unit g cfg link s d ≡ ok s'
      → Disks before n s
      → Disks before (suc n) s'
  unfolding count_disks
  on_explicit_disk n s d s' h v =
      let r = attach_at_unit-Attached g cfg link s d s' h in
      let key = r.place.0.base.key in
      let w = Located-Disks n s r.place r.address r.located v in
      record {
        in_existing = omega (
          arith,
          ap count_disks r.existing_eq,
          count_disks-append (linked link key r.keys r.place.1.existing) (disk_device r.disk ∷ []),
          count_disks-linked link key r.keys r.place.1.existing,
        );
        in_new = omega (
          arith,
          ap count_disks r.new_devices_eq,
          count_disks-append (linked link key r.keys r.place.1.new_devices)
              (disk_device r.disk ∷ []),
          count_disks-linked link key r.keys r.place.1.new_devices,
        );
      }

-- Where the attachment succeeds, each storage block has become one disk: the device list has that
-- many disks more than before, and the new devices hold exactly those.
pub attach_devices-count_disks :
    (g : DeviceLibrary) (cfg : StorageConfig) (opts : StorageAttachOptions) (existing : List Device)
    {s : AttachState}
    → attach_devices g cfg opts existing ≡ ok s
    → (count_disks s.existing ≡ count_disks existing + length cfg.storage)
      × (count_disks s.new_devices ≡ length cfg.storage)
unfolding count_disks
attach_devices-count_disks g cfg opts existing {s} h =
    let link = opts.link_controller_devices in
    let before = count_disks existing in
    let r : Disks before (length cfg.storage) s =
      attach_devices_ind g cfg (Disks before) (on_controller g cfg link before)
        (λ n t cs v. record { in_existing = v.in_existing; in_new = v.in_new })
        (λ n t i v. record { in_existing = v.in_existing; in_new = v.in_new })
        (on_legacy_disk g cfg link before) link (on_explicit_disk g cfg link before)
        opts.validate_aggregate existing s h
        (record { in_existing = omega arith; in_new = refl }) in
    (r.in_existing, r.in_new)
