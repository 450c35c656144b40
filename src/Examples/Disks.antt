-- ===== src/Examples/Disks.antt =====
-- builder/vsphere/driver/disk.go and storage_drs.go: the theorems where two disks are attached to a
-- virtual machine without devices, with a simple device library.
use packer_plugin_vsphere.Controller.Units.{
  unit_ranges, occupied_units, list_available_units, format_unit_range, format_available_units,
}
use packer_plugin_vsphere.Controller.Runtime.{
  validate_controller_unit_runtime, type_pool_exhausted_error, controller_not_found_error,
}
use packer_plugin_vsphere.Controller.Address.{parse_controller_unit, find_submatches, address_text}
use packer_plugin_vsphere.Base.{
  ℕ, ◌+◌, ◌≡◌, refl, ap, subst, inl, inr, true, false, none, some, List, [], ◌∷◌, ◌++◌, map, arith,
  Bool-cases, ℤ, pos, negsuc, length, All, Result, ok, err, Text, codes, text_eq, is_space,
  trim_space, itoa, read_digits, to_int32, mul_int64, atoi, trim_left,
}
use packer_plugin_vsphere.Controller.{
  kind_prefix, ControllerKind, scsi, nvme, sata, kind_for_type, Controller, VirtualDisk, Device,
  lsi_logic, virtual_nvme, virtual_sata, type_lsi_logic, type_nvme, type_sata, StorageError,
}
use packer_plugin_vsphere.Controller.Devices.{
  max_unit_for_kind, max_unit, list_controller_addresses, kind_for_controller, is_pvscsi_controller,
  is_at_bus, find_controller_by_bus, controller_display_name, controller_address_label,
  max_disks_per_controller, controller_bus_number,
}
use packer_plugin_vsphere.Controller.Capacity.{
  validate_aggregate_storage_capacity, has_pvscsi_controller_on_vm, count_virtual_disks_by_kind,
  count_disks_on_controller, validate_controller_disk_capacity, validate_controller_count,
  count_controllers_by_kind,
}
use packer_plugin_vsphere.Storage.{
  build_disk, StorageConfig, DeviceLibrary, DeviceLibraryLaws, DeviceConfigSpec, Operation,
  create_controller,
}
use packer_plugin_vsphere.Storage.Attach.{
  write_device_keys, put_device_keys, place_disk, legacy_controller, create_for_address,
  controller_for, attach_explicit, attach_at_unit, assign_disk_at_unit, append_disk, explicit_disks,
  attach_explicit_all, attach_legacy, attach_legacy_all, add_controller, add_legacy_controllers,
  legacy_disks, add_legacy, AttachState, attach_devices, attach_options, initial,
}
use packer_plugin_vsphere.Storage.Counts.{count_disks, IsWithinControllerLimit}
use packer_plugin_vsphere.Storage.Disks.{attach_devices-count_disks}
use packer_plugin_vsphere.Storage.Places.{IsAtAddress}
use packer_plugin_vsphere.Storage.Addresses.{attach_devices-IsAtAddress}
use packer_plugin_vsphere.Storage.Limits.{attach_devices-IsWithinControllerLimit}

-- Keys below zero, one for each device; a controller stands on the bus after those of its kind.
abbrev fresh : List Device → ℤ
fresh ds = negsuc (length ds)

abbrev new_controller : ControllerKind → List Device → Controller
new_controller scsi ds = record {
  base = record { key = fresh ds; controller_key = pos 100; unit_number = none };
  class = lsi_logic;
  bus_number = count_controllers_by_kind ds scsi;
  scsi_ctlr_unit_number = 7;
  device = [];
}
new_controller nvme ds = record {
  base = record { key = fresh ds; controller_key = pos 100; unit_number = none };
  class = virtual_nvme;
  bus_number = count_controllers_by_kind ds nvme;
  scsi_ctlr_unit_number = 0;
  device = [];
}
new_controller sata ds = record {
  base = record { key = fresh ds; controller_key = pos 100; unit_number = none };
  class = virtual_sata;
  bus_number = count_controllers_by_kind ds sata;
  scsi_ctlr_unit_number = 0;
  device = [];
}

abbrev spec_of : Operation → Device → DeviceConfigSpec
spec_of op d = record { operation = op; device = d; profile = [] }

abbrev on_unit_0 : List Device → VirtualDisk → Controller → VirtualDisk × List ℤ
on_unit_0 ds d c = (
  record d {
    base = record { key = d.base.key; controller_key = c.base.key; unit_number = some (pos 0) };
  },
  c.device ++ d.base.key ∷ [],
)

abbrev pub simple_library : DeviceLibrary
simple_library = record {
  new_key = fresh;
  create_nvme_controller = λ ds. ok (new_controller nvme ds);
  create_sata_controller = λ ds. ok (new_controller sata ds);
  create_scsi_controller = λ ds t. ok (new_controller scsi ds);
  find_disk_controller = λ ds c. ok c;
  assign_controller = on_unit_0;
  config_spec = λ ds op. ok (map (spec_of op) ds);
}

created :
    (ds : List Device) (t : Text) (c : Controller)
    → create_controller simple_library ds t ≡ ok c
    → (b : ℕ) × (controller_bus_number c ≡ some (kind_for_type t, b))
unfolding create_controller kind_for_type controller_bus_number
created ds t c h = elim (Bool-cases (text_eq t type_nvme)) [
  | inl e ↦
      let q : new_controller nvme ds ≡ c = ground arith in
      (count_controllers_by_kind ds nvme, rw (← q, e))
  | inr e ↦ elim (Bool-cases (text_eq t type_sata)) [
    | inl f ↦
        let q : new_controller sata ds ≡ c = ground arith in
        (count_controllers_by_kind ds sata, rw (← q, e, f))
    | inr f ↦
        let q : new_controller scsi ds ≡ c = ground arith in
        (count_controllers_by_kind ds scsi, rw (← q, e, f))
  ]
]

specs_given :
    (ds : List Device) (op : Operation)
    → (map (λ spec. spec.device) (map (spec_of op) ds) ≡ ds)
      × All (λ spec. spec.operation ≡ op) (map (spec_of op) ds)
specs_given [] op = (refl, tt)
specs_given (d ∷ ds) op = (ap (λ t. d ∷ t) (specs_given ds op).0, (refl, (specs_given ds op).1))

pub simple_library_laws : DeviceLibraryLaws simple_library
simple_library_laws = record {
  created_kind = created;
  found_created = λ ds c d h. ground arith;
  specified = λ ds op specs h.
      let q : map (spec_of op) ds ≡ specs = ground arith in
      subst (λ z. (map (λ spec. spec.device) z ≡ ds) × All (λ spec. spec.operation ≡ op) z) q
        (specs_given ds op);
}

-- A disk on the controller of index 0, and one at unit 3 of the NVMe controller.
abbrev pub two_disks : StorageConfig
two_disks = record {
  disk_controller_type = type_lsi_logic ∷ type_nvme ∷ [];
  storage =
      record {
        disk_size = pos 32768;
        disk_eagerly_scrub = false;
        disk_thin_provisioned = true;
        controller_index = pos 0;
        controller_unit = [];
        storage_policy_id = [];
      }
      ∷ record {
        disk_size = pos 1024;
        disk_eagerly_scrub = false;
        disk_thin_provisioned = true;
        controller_index = pos 0;
        controller_unit = codes "nvme0:3";
        storage_policy_id = codes "gold";
      }
      ∷ [];
  disk_datastores = [];
}

abbrev ok_or : {A : Type 0} → A → Result StorageError A → A
ok_or a (err e) = a
ok_or a (ok b) = b

abbrev attached : AttachState
attached =
    ok_or (initial simple_library [])
      (attach_devices simple_library two_disks (attach_options simple_library) [])

two_attached :
    attach_devices simple_library two_disks (attach_options simple_library) [] ≡ ok attached
unfolding attach_devices add_legacy legacy_disks add_legacy_controllers add_controller
    create_controller text_eq validate_controller_count count_controllers_by_kind
    controller_bus_number kind_for_type attach_legacy_all attach_legacy
    validate_controller_disk_capacity count_disks_on_controller max_disks_per_controller
    attach_explicit_all explicit_disks atoi is_space itoa read_digits trim_left trim_space mul_int64
    to_int32 address_text find_submatches parse_controller_unit count_virtual_disks_by_kind
    has_pvscsi_controller_on_vm validate_aggregate_storage_capacity controller_address_label
    controller_display_name find_controller_by_bus is_at_bus is_pvscsi_controller
    kind_for_controller list_controller_addresses max_unit max_unit_for_kind
    controller_not_found_error type_pool_exhausted_error validate_controller_unit_runtime
    format_available_units format_unit_range list_available_units occupied_units unit_ranges
    kind_prefix append_disk assign_disk_at_unit attach_at_unit attach_explicit controller_for
    create_for_address legacy_controller place_disk put_device_keys write_device_keys build_disk
two_attached = refl

attach_devices-count_disks_example :
    (count_disks attached.existing ≡ count_disks [] + length two_disks.storage)
    × (count_disks attached.new_devices ≡ length two_disks.storage)
attach_devices-count_disks_example =
    attach_devices-count_disks simple_library two_disks (attach_options simple_library) []
      two_attached

none_counted : IsWithinControllerLimit []
unfolding count_controllers_by_kind
none_counted k = omega arith

attach_devices-IsWithinControllerLimit_example : IsWithinControllerLimit attached.existing
attach_devices-IsWithinControllerLimit_example =
    attach_devices-IsWithinControllerLimit simple_library simple_library_laws two_disks
      (attach_options simple_library) [] two_attached none_counted

attach_devices-IsAtAddress_example :
    All
      (λ d. IsAtAddress d.1.controller_unit attached.existing)
      (explicit_disks 0 two_disks.storage)
attach_devices-IsAtAddress_example =
    attach_devices-IsAtAddress simple_library simple_library_laws two_disks
      (attach_options simple_library) [] two_attached
