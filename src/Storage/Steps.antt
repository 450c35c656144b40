-- ===== src/Storage/Steps.antt =====
-- builder/vsphere/driver/disk.go: what each step of the attachment does to the device lists.

use packer_plugin_vsphere.Base.{
  ℕ, suc, ◌≡◌, refl, ap, ◌∙◌, inl, inr, Bool, true, not, none, some, List, [], ◌∷◌, ◌++◌, arith,
  if◌then◌else◌, Option-cases, ℤ, get_elem?, ok, ◌>>◌, fail_if, map_err, >>=-eq-ok, map_err-eq-ok,
  Text, to_int32,
}
use packer_plugin_vsphere.Controller.{
  ControllerAddress, Controller, VirtualDisk, Device, controller_device, disk_device, at_storage,
  library, kind_for_type, bus_does_not_match,
}
use packer_plugin_vsphere.Controller.Address.{parse_controller_unit}
use packer_plugin_vsphere.Controller.Devices.{find_controller_by_bus, is_at_bus}
use packer_plugin_vsphere.Controller.Capacity.{
  validate_controller_count, validate_controller_disk_capacity,
}
use packer_plugin_vsphere.Controller.Runtime.{validate_controller_unit_runtime}
use packer_plugin_vsphere.Storage.{
  Disk, StorageConfig, DeviceLibrary, create_controller, build_disk,
}
use packer_plugin_vsphere.Storage.Attach.{
  AttachState, put_device_keys, write_device_keys, append_disk, add_controller, legacy_controller,
  attach_legacy, attach_at_unit, controller_for, create_for_address, place_disk,
  assign_disk_at_unit,
}

-- The devices with the keys written to the controller, if the link is asked for.
abbrev pub linked : Bool → ℤ → List ℤ → List Device → List Device
linked link key keys ds = if link then put_device_keys key keys ds else ds

module _ (g : DeviceLibrary) where
  -- The device list after a controller was added: one controller more, of the limited kind.
  pub add_controller_existing :
      (s : AttachState) (t : Text) (p : Controller × AttachState)
      → add_controller g s t ≡ ok p
      → (c : Controller) × (create_controller g s.existing t ≡ ok c)
        × (validate_controller_count s.existing (kind_for_type t) 1 ≡ ok tt)
        × (g.find_disk_controller (s.existing ++ controller_device c ∷ []) c ≡ ok p.0)
        × (p.1 ≡ record s {
          existing = s.existing ++ controller_device c ∷ [];
          new_devices = s.new_devices ++ controller_device c ∷ [];
        })
  unfolding add_controller
  add_controller_existing s t p h =
      let (c, e₁, r₁) = >>=-eq-ok (create_controller g s.existing t) _ h in
      let (u, e₂, r₂) = >>=-eq-ok (validate_controller_count s.existing (kind_for_type t) 1) _ r₁ in
      let (f, e₃, r₃) =
        >>=-eq-ok
          (map_err library (g.find_disk_controller (s.existing ++ controller_device c ∷ []) c)) _
          r₂ in
      let e₄ : f ≡ p.0 = ground arith in
      (c, e₁, e₂, map_err-eq-ok library _ e₃ ∙ ap ok e₄, ground arith)

  -- The lists after a legacy disk was attached.
  pub attach_legacy_existing :
      (cfg : StorageConfig) (s : AttachState) (d : ℕ × Disk) (s' : AttachState)
      → attach_legacy g cfg s d ≡ ok s'
      → (disk : VirtualDisk) × (key : ℤ) × (keys : List ℤ) × (s'
          ≡ append_disk disk d.1.storage_policy_id (write_device_keys key keys s))
  unfolding attach_legacy
  attach_legacy_existing cfg s (i, d) s' h =
      let (c, e₁, r₁) =
        >>=-eq-ok (legacy_controller g i s.legacy_controllers d.controller_index) _ h in
      let (u, e₂, r₂) =
        >>=-eq-ok (map_err (at_storage i) (validate_controller_disk_capacity s.existing c 1)) _
          r₁ in
      let (disk, keys) = g.assign_controller s.existing (build_disk g cfg s.existing d i) c in
      (disk, c.base.key, keys, ground arith)

  -- The state in which a disk is placed: as it was, or after a controller was added.
  pub data Located (s : AttachState) (p : Controller × AttachState) (a : ControllerAddress)
      : Type 0 where
    found : find_controller_by_bus s.existing a.kind a.bus ≡ some p.0 → p.1 ≡ s → Located s p a
    created :
        (t : Text)
        → find_controller_by_bus s.existing a.kind a.bus ≡ none
        → add_controller g (record s { type_index = suc s.type_index }) t ≡ ok p
        → is_at_bus a.kind a.bus p.0 ≡ true
        → Located s p a

  created_for :
      (s : AttachState) (ts : List Text) (raw : Text) (a : ControllerAddress)
      (p : Controller × AttachState)
      → find_controller_by_bus s.existing a.kind a.bus ≡ none
      → create_for_address g s ts raw a ≡ ok p
      → Located s p a
  unfolding create_for_address
  created_for s ts raw a p e h = elim (Option-cases (get_elem? ts s.type_index)) [
    | inl q ↦ absurd (ground arith)
    | inr (t, q) ↦
        let (p', e₁, r₁) =
          >>=-eq-ok (add_controller g (record s { type_index = suc s.type_index }) t)
            (λ p. fail_if (not (is_at_bus a.kind a.bus p.0)) (bus_does_not_match raw) >> ok p)
            (rw (q, create_for_address) at h) in
        let w : p' ≡ p = ground arith in created t e (e₁ ∙ ap ok w) (ground arith)
  ]

  pub controller_for-Located :
      (s : AttachState) (ts : List Text) (raw : Text) (a : ControllerAddress)
      (p : Controller × AttachState)
      → controller_for g s ts raw a ≡ ok p
      → Located s p a
  unfolding controller_for create_for_address
  controller_for-Located s ts raw a p h =
      elim (Option-cases (find_controller_by_bus s.existing a.kind a.bus)) [
        | inr (c, e) ↦
            let q : ok (c, s) ≡ ok p = rw (e, controller_for) at h in
            found (ground arith) (ground arith)
        | inl e ↦ created_for s ts raw a p e (rw (e, controller_for) at h)
      ]

  -- A disk that was attached at its unit: its address, its controller, and the lists after it.
  pub record Attached (link : Bool) (s : AttachState) (raw : Text) (s' : AttachState) : Type 0 where
    pub address : ControllerAddress
    pub place : Controller × AttachState
    pub disk : VirtualDisk
    pub keys : List ℤ
    pub parsed : parse_controller_unit raw ≡ ok address
    pub located : Located s place address
    pub accepted : validate_controller_unit_runtime s.existing raw (some s.pending) ≡ ok tt
    pub on_controller : disk.base.controller_key ≡ place.0.base.key
    pub at_unit : disk.base.unit_number ≡ some (to_int32 address.unit)
    pub existing_eq :
        s'.existing ≡ linked link place.0.base.key keys place.1.existing ++ disk_device disk ∷ []
    pub new_devices_eq :
        s'.new_devices
        ≡ linked link place.0.base.key keys place.1.new_devices ++ disk_device disk ∷ []
    pub pending_eq : s'.pending ≡ raw ∷ place.1.pending

  pub attach_at_unit-Attached :
      (cfg : StorageConfig) (link : Bool) (s : AttachState) (d : ℕ × Disk) (s' : AttachState)
      → attach_at_unit g cfg link s d ≡ ok s'
      → Attached link s d.1.controller_unit s'
  unfolding attach_at_unit place_disk append_disk assign_disk_at_unit write_device_keys
  attach_at_unit-Attached cfg link s (i, d) s' h =
      let (u, e₁, r₁) =
        >>=-eq-ok (validate_controller_unit_runtime s.existing d.controller_unit (some s.pending)) _
          h in
      let (a, e₂, r₂) = >>=-eq-ok (parse_controller_unit d.controller_unit) _ r₁ in
      let (p, e₃, r₃) =
        >>=-eq-ok (controller_for g s cfg.disk_controller_type d.controller_unit a) _ r₂ in
      let (v, e₄, r₄) = >>=-eq-ok (validate_controller_disk_capacity p.1.existing p.0 1) _ r₃ in
      let disk : VirtualDisk =
        (assign_disk_at_unit g p.1 (build_disk g cfg p.1.existing d i) p.0 a.unit link).0 in
      record {
        address = a;
        place = p;
        disk = disk;
        keys = p.0.device ++ disk.base.key ∷ [];
        parsed = e₂;
        located = controller_for-Located s cfg.disk_controller_type d.controller_unit a p e₃;
        accepted = e₁;
        on_controller = refl;
        at_unit = refl;
        existing_eq = ground arith;
        new_devices_eq = ground arith;
        pending_eq = ground arith;
      }
