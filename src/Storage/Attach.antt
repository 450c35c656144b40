-- ===== src/Storage/Attach.antt =====
-- builder/vsphere/driver/disk.go: `StorageConfig.addStorageDevices`. A controller is shared by
-- pointer between the device list, the new devices and the list of legacy controllers: a write to it
-- goes to the controller with its key in each of them.
use packer_plugin_vsphere.Base.{
  ℕ, suc, Bool, true, false, not, Option, none, some, List, [], ◌∷◌, ◌++◌, if◌then◌else◌, ℤ, pos,
  negsuc, int_eq, length, get_elem?, is_empty, Result, ok, err, ◌>>=◌, ◌>>◌, fail_if, map_err, Text,
  to_int32,
}
use packer_plugin_vsphere.Controller.{
  ControllerAddress, Controller, VirtualDisk, Device, controller_device, disk_device, other_device,
  base_of, StorageError, kind_for_type, at_storage, unknown_disk_controller, controller_index_panic,
  bus_does_not_match, library,
}
use packer_plugin_vsphere.Controller.Address.{parse_controller_unit}
use packer_plugin_vsphere.Controller.Devices.{
  find_controller_by_bus, list_controller_addresses, is_at_bus,
}
use packer_plugin_vsphere.Controller.Capacity.{
  validate_controller_count, validate_controller_disk_capacity, validate_aggregate_storage_capacity,
}
use packer_plugin_vsphere.Controller.Runtime.{
  validate_controller_unit_runtime, controller_not_found_error, type_pool_exhausted_error,
}
use packer_plugin_vsphere.Storage.{
  Disk, StorageConfig, DeviceLibrary, DeviceConfigSpec, create_controller, build_disk, add,
}

pub record StorageAttachOptions : Type 0 where
  pub link_controller_devices : Bool
  pub validate_aggregate : Bool

-- The local variables of `addStorageDevices`.
pub record AttachState : Type 0 where
  pub existing : List Device
  pub new_devices : List Device
  pub legacy_controllers : List Controller
  pub type_index : ℕ
  pub policy_by_key : List (ℤ × Text)
  pub pending : List Text

-- A write of the device keys that a controller names, through the pointer to it.
unfoldable pub put_device_keys : ℤ → List ℤ → List Device → List Device
put_device_keys key keys [] = []
put_device_keys key keys (controller_device c ∷ ds) =
    controller_device (if int_eq c.base.key key then record c { device = keys } else c)
    ∷ put_device_keys key keys ds
put_device_keys key keys (disk_device d ∷ ds) = disk_device d ∷ put_device_keys key keys ds
put_device_keys key keys (other_device v ∷ ds) = other_device v ∷ put_device_keys key keys ds

put_legacy : ℤ → List ℤ → List Controller → List Controller
put_legacy key keys [] = []
put_legacy key keys (c ∷ cs) =
    (if int_eq c.base.key key then record c { device = keys } else c) ∷ put_legacy key keys cs

unfoldable pub write_device_keys : ℤ → List ℤ → AttachState → AttachState
unfolding put_legacy
write_device_keys key keys s = record s {
  existing = put_device_keys key keys s.existing;
  new_devices = put_device_keys key keys s.new_devices;
  legacy_controllers = put_legacy key keys s.legacy_controllers;
}

-- The disk joins both lists, and its policy is kept under its key.
unfoldable pub append_disk : VirtualDisk → Text → AttachState → AttachState
append_disk d policy s = record s {
  existing = s.existing ++ disk_device d ∷ [];
  new_devices = s.new_devices ++ disk_device d ∷ [];
  policy_by_key =
      if is_empty policy then s.policy_by_key else (d.base.key, policy) ∷ s.policy_by_key;
}

-- The storage blocks with their indices: those with no `disk_controller_unit`, and the others.
unfoldable pub legacy_disks : ℕ → List Disk → List (ℕ × Disk)
legacy_disks i [] = []
legacy_disks i (d ∷ ds) =
    let rest = legacy_disks (suc i) ds in if is_empty d.controller_unit then (i, d) ∷ rest else rest

unfoldable pub explicit_disks : ℕ → List Disk → List (ℕ × Disk)
explicit_disks i [] = []
explicit_disks i (d ∷ ds) =
    let rest = explicit_disks (suc i) ds in
    if is_empty d.controller_unit then rest else (i, d) ∷ rest

module _ (g : DeviceLibrary) where
  -- A controller is created, counted, and joins both lists; it is found again by its name.
  unfoldable pub add_controller :
      AttachState → Text → Result StorageError (Controller × AttachState)
  add_controller s t = do
    c ← create_controller g s.existing t
    validate_controller_count s.existing (kind_for_type t) 1
    let s' = record s {
      existing = s.existing ++ controller_device c ∷ [];
      new_devices = s.new_devices ++ controller_device c ∷ [];
    }
    found ← map_err library (g.find_disk_controller s'.existing c)
    ok (found, s')

  unfoldable pub add_legacy_controllers : AttachState → List Text → Result StorageError AttachState
  add_legacy_controllers s [] = ok s
  add_legacy_controllers s (t ∷ ts) = add_controller s t >>= λ p.
      add_legacy_controllers
        (record p.1 { legacy_controllers = p.1.legacy_controllers ++ p.0 ∷ [] }) ts

  -- `legacyControllers[index]`, which panics at a negative index: the test before it is
  -- `index >= len(legacyControllers)`.
  unfoldable pub legacy_controller : ℕ → List Controller → ℤ → Result StorageError Controller
  legacy_controller i cs (negsuc n) = err controller_index_panic
  legacy_controller i cs (pos n) = elim (get_elem? cs n) [
    | none ↦ err (at_storage i unknown_disk_controller)
    | some c ↦ ok c
  ]

  unfoldable pub attach_legacy :
      StorageConfig → AttachState → ℕ × Disk → Result StorageError AttachState
  unfolding legacy_controller
  attach_legacy cfg s (i, d) = do
    let disk = build_disk g cfg s.existing d i
    c ← legacy_controller i s.legacy_controllers d.controller_index
    map_err (at_storage i) (validate_controller_disk_capacity s.existing c 1)
    let assigned = g.assign_controller s.existing disk c
    ok (append_disk assigned.0 d.storage_policy_id (write_device_keys c.base.key assigned.1 s))

  unfoldable pub attach_legacy_all :
      StorageConfig → AttachState → List (ℕ × Disk) → Result StorageError AttachState
  attach_legacy_all cfg s [] = ok s
  attach_legacy_all cfg s (d ∷ ds) = attach_legacy cfg s d >>= λ s'. attach_legacy_all cfg s' ds

  unfoldable pub add_legacy :
      StorageConfig → AttachState → List (ℕ × Disk) → Result StorageError AttachState
  add_legacy cfg s [] = ok s
  add_legacy cfg s (d ∷ ds) = do
    s₁ ← add_legacy_controllers s cfg.disk_controller_type
    s₂ ← attach_legacy_all cfg s₁ (d ∷ ds)
    ok (record s₂ { type_index = length cfg.disk_controller_type })

  unfoldable pub assign_disk_at_unit :
      AttachState → VirtualDisk → Controller → ℕ → Bool → VirtualDisk × AttachState
  assign_disk_at_unit s disk c unit link =
      let d = record disk {
        base = record {
          key = if int_eq disk.base.key (pos 0) then g.new_key s.existing else disk.base.key;
          controller_key = c.base.key;
          unit_number = some (to_int32 unit);
        };
      } in
      (d, if link then write_device_keys c.base.key (c.device ++ d.base.key ∷ []) s else s)

  -- No controller is on the bus of the address: the next controller type makes one.
  unfoldable pub create_for_address :
      AttachState
      → List Text
      → Text
      → ControllerAddress
      → Result StorageError (Controller × AttachState)
  create_for_address s ts raw a =
      let available = list_controller_addresses s.existing in
      elim (get_elem? ts s.type_index) [
        | none ↦ err (
            if is_empty available
            then type_pool_exhausted_error raw
            else controller_not_found_error raw available)
        | some t ↦ add_controller (record s { type_index = suc s.type_index }) t >>= λ p.
            fail_if (not (is_at_bus a.kind a.bus p.0)) (bus_does_not_match raw) >> ok p
      ]

  unfoldable pub controller_for :
      AttachState
      → List Text
      → Text
      → ControllerAddress
      → Result StorageError (Controller × AttachState)
  controller_for s ts raw a = elim (find_controller_by_bus s.existing a.kind a.bus) [
    | some c ↦ ok (c, s)
    | none ↦ create_for_address s ts raw a
  ]

  -- The disk at its address.
  unfoldable pub place_disk :
      StorageConfig
      → Bool
      → ℕ × Disk
      → ControllerAddress
      → Controller × AttachState
      → Result StorageError AttachState
  place_disk cfg link (i, d) a (c, s) = do
    validate_controller_disk_capacity s.existing c 1
    let placed = assign_disk_at_unit s (build_disk g cfg s.existing d i) c a.unit link
    let s' = append_disk placed.0 d.storage_policy_id placed.1
    ok (record s' { pending = d.controller_unit ∷ s'.pending })

  unfoldable pub attach_at_unit :
      StorageConfig → Bool → AttachState → ℕ × Disk → Result StorageError AttachState
  attach_at_unit cfg link s (i, d) = do
    validate_controller_unit_runtime s.existing d.controller_unit (some s.pending)
    a ← parse_controller_unit d.controller_unit
    p ← controller_for s cfg.disk_controller_type d.controller_unit a
    place_disk cfg link (i, d) a p

  -- Every error of a round names the storage block.
  unfoldable pub attach_explicit :
      StorageConfig → Bool → AttachState → ℕ × Disk → Result StorageError AttachState
  attach_explicit cfg link s d = map_err (at_storage d.0) (attach_at_unit cfg link s d)

  unfoldable pub attach_explicit_all :
      StorageConfig → Bool → AttachState → List (ℕ × Disk) → Result StorageError AttachState
  attach_explicit_all cfg link s [] = ok s
  attach_explicit_all cfg link s (d ∷ ds) =
      attach_explicit cfg link s d >>= λ s'. attach_explicit_all cfg link s' ds

  abbrev pub initial : List Device → AttachState
  initial existing = record {
    existing = existing;
    new_devices = [];
    legacy_controllers = [];
    type_index = 0;
    policy_by_key = [];
    pending = [];
  }

  -- `addStorageDevices` up to the config specs.
  unfoldable pub attach_devices :
      StorageConfig → StorageAttachOptions → List Device → Result StorageError AttachState
  attach_devices cfg opts existing = do
    s₁ ← add_legacy cfg (initial existing) (legacy_disks 0 cfg.storage)
    s₂ ← attach_explicit_all cfg opts.link_controller_devices s₁ (explicit_disks 0 cfg.storage)
    if opts.validate_aggregate then validate_aggregate_storage_capacity s₂.existing else ok tt
    ok s₂

-- `policyByKey[key]`: a later write of a key hides the earlier ones.
policy_of : List (ℤ × Text) → ℤ → Option Text
policy_of [] key = none
policy_of ((k, p) ∷ ps) key = if int_eq k key then some p else policy_of ps key

unfoldable pub attach_policy : List (ℤ × Text) → DeviceConfigSpec → DeviceConfigSpec
unfolding policy_of
attach_policy policies spec = elim (policy_of policies (base_of spec.device).key) [
  | none ↦ spec
  | some p ↦ record spec { profile = p ∷ [] }
]

unfoldable pub attach_policies : List (ℤ × Text) → List DeviceConfigSpec → List DeviceConfigSpec
unfolding attach_policy
attach_policies policies [] = []
attach_policies policies (spec ∷ specs) =
    attach_policy policies spec ∷ attach_policies policies specs

module _ (g : DeviceLibrary) where
  unfoldable pub add_storage_devices_with :
      StorageConfig
      → StorageAttachOptions
      → List Device
      → Result StorageError (List DeviceConfigSpec)
  add_storage_devices_with cfg opts existing = if is_empty cfg.storage then ok [] else do
    s ← attach_devices g cfg opts existing
    specs ← map_err library (g.config_spec s.new_devices add)
    ok (attach_policies s.policy_by_key specs)

  abbrev pub attach_options : StorageAttachOptions
  attach_options = record { link_controller_devices = true; validate_aggregate = true }

  abbrev pub placement_options : StorageAttachOptions
  placement_options = record { link_controller_devices = false; validate_aggregate = false }

  unfoldable pub add_storage_devices :
      StorageConfig → List Device → Result StorageError (List DeviceConfigSpec)
  unfolding add_storage_devices_with
  add_storage_devices cfg = add_storage_devices_with cfg attach_options

  unfoldable pub add_storage_devices_for_placement :
      StorageConfig → List Device → Result StorageError (List DeviceConfigSpec)
  unfolding add_storage_devices_with
  add_storage_devices_for_placement cfg = add_storage_devices_with cfg placement_options
