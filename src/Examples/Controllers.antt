-- ===== src/Examples/Controllers.antt =====
-- builder/vsphere/driver/controller_address.go: the theorems on a virtual machine with one LSI Logic
-- controller, which holds a disk at unit 0, and one NVMe controller.
use packer_plugin_vsphere.Base.{
  ◌≡◌, refl, ◌↔◌, true, false, none, some, List, [], ◌∷◌, arith, ℤ, pos, ok, codes, text_eq,
  is_space, trim_space, atoi,
}
use packer_plugin_vsphere.Controller.{
  ControllerAddress, scsi, nvme, Controller, Device, controller_device, lsi_logic, virtual_nvme,
  disk_device, VirtualDisk, DiskBacking, type_pvscsi, type_nvme, is_scsi_class,
  scsi_reserved_unit_number,
}
use packer_plugin_vsphere.Controller.Address.{
  address_text, parse_controller_unit, parse-address_text,
}
use packer_plugin_vsphere.Controller.Units.{
  mem_unit, list_available_units, list_available_units_iff, IsFreeUnit, unit_ranges, expand,
  expand-unit_ranges,
}
use packer_plugin_vsphere.Controller.Static.{
  validate_controller_unit_static_for_config, IsWithinLimits, validate_static-IsWithinLimits,
}
use packer_plugin_vsphere.Placement.{find_disk, storage_existing_devices}
use packer_plugin_vsphere.Placement.Existing.{storage_existing_devices-find_disk}
use packer_plugin_vsphere.Controller.Capacity.{
  count_controllers_by_kind, validate_aggregate_storage_capacity, IsWithinVmLimits, HasOwnKeys,
  validate_aggregate_iff,
}
use packer_plugin_vsphere.Controller.Runtime.{
  validate_controller_unit_runtime, validate_runtime_iff,
}
use packer_plugin_vsphere.Controller.Devices.{
  controller_bus_number, find_controller_by_bus, HasController, find_controller_by_bus-some,
  find_controller_by_bus-none, max_unit,
}

abbrev scsi_0_3 : ControllerAddress
scsi_0_3 = record { kind = scsi; bus = 0; unit = 3 }

parse-address_text_example : parse_controller_unit (address_text scsi_0_3) ≡ ok scsi_0_3
parse-address_text_example =
    parse-address_text scsi_0_3 (record { bus_small = omega arith; unit_small = omega arith })

scsi_0_3_parsed : parse_controller_unit (codes " scsi0:03 ") ≡ ok scsi_0_3
unfolding parse_controller_unit packer_plugin_vsphere.Base.trim_space
    packer_plugin_vsphere.Base.is_space packer_plugin_vsphere.Base.text_eq
    packer_plugin_vsphere.Base.atoi
scsi_0_3_parsed = refl

abbrev pub no_backing : DiskBacking
no_backing = record {
  file_name = [];
  store = none;
  disk_mode = codes "persistent";
  thin_provisioned = true;
  eagerly_scrub = false;
}

abbrev pub disk_at : ℤ → ℤ → ℤ → VirtualDisk
disk_at key controller unit = record {
  base = record { key = key; controller_key = controller; unit_number = some unit };
  backing = no_backing;
  capacity_in_kb = pos 1024;
  capacity_in_bytes = pos 1048576;
}

abbrev pub lsi : Controller
lsi = record {
  base = record { key = pos 1000; controller_key = pos 100; unit_number = none };
  class = lsi_logic;
  bus_number = 0;
  scsi_ctlr_unit_number = 7;
  device = pos 2000 ∷ [];
}

abbrev pub nvme_0 : Controller
nvme_0 = record {
  base = record { key = pos 31000; controller_key = pos 100; unit_number = none };
  class = virtual_nvme;
  bus_number = 0;
  scsi_ctlr_unit_number = 0;
  device = [];
}

abbrev pub devices : List Device
devices =
    controller_device lsi
    ∷ controller_device nvme_0
    ∷ disk_device (disk_at (pos 2000) (pos 1000) (pos 0))
    ∷ []

list_available_units_iff_example :
    (mem_unit 5 (list_available_units devices lsi) ≡ true) ↔ IsFreeUnit devices lsi 5
list_available_units_iff_example = list_available_units_iff devices lsi 5

expand-unit_ranges_example : expand (unit_ranges (1 ∷ 2 ∷ 3 ∷ 8 ∷ [])) ≡ 1 ∷ 2 ∷ 3 ∷ 8 ∷ []
expand-unit_ranges_example = expand-unit_ranges (1 ∷ 2 ∷ 3 ∷ 8 ∷ [])

static_accepted :
    validate_controller_unit_static_for_config (codes "scsi1:40") (type_nvme ∷ type_pvscsi ∷ []) 1
    ≡ ok tt
unfolding validate_controller_unit_static_for_config parse_controller_unit
    packer_plugin_vsphere.Base.trim_space packer_plugin_vsphere.Base.is_space
    packer_plugin_vsphere.Base.text_eq packer_plugin_vsphere.Base.atoi
    packer_plugin_vsphere.Controller.kind_for_type
    packer_plugin_vsphere.Controller.Static.static_max_unit
static_accepted = refl

validate_static-IsWithinLimits_example :
    (a : ControllerAddress) × (parse_controller_unit (codes "scsi1:40") ≡ ok a)
    × IsWithinLimits (type_nvme ∷ type_pvscsi ∷ []) 1 a
validate_static-IsWithinLimits_example =
    validate_static-IsWithinLimits (codes "scsi1:40") (type_nvme ∷ type_pvscsi ∷ []) 1
      static_accepted

own_keys : HasOwnKeys devices
own_keys = ((λ e. absurd (ground arith), tt), (tt, tt))

validate_aggregate_iff_example :
    (validate_aggregate_storage_capacity devices ≡ ok tt) ↔ IsWithinVmLimits devices
validate_aggregate_iff_example = validate_aggregate_iff devices own_keys

text_parsed : parse_controller_unit (codes "scsi0:3") ≡ ok scsi_0_3
unfolding parse_controller_unit packer_plugin_vsphere.Base.trim_space
    packer_plugin_vsphere.Base.is_space packer_plugin_vsphere.Base.text_eq
    packer_plugin_vsphere.Base.atoi
text_parsed = refl

lsi_found : find_controller_by_bus devices scsi 0 ≡ some lsi
unfolding find_controller_by_bus packer_plugin_vsphere.Controller.Devices.is_at_bus
lsi_found = refl

validate_runtime_iff_example :
    (validate_controller_unit_runtime devices (codes "scsi0:3") (some (codes "nvme0:0" ∷ []))
      ≡ ok tt)
    ↔ (mem_unit 3 (list_available_units devices lsi) ≡ true)
unfolding packer_plugin_vsphere.Base.text_eq
validate_runtime_iff_example =
    validate_runtime_iff devices (codes "scsi0:3") (codes "nvme0:0" ∷ []) scsi_0_3 lsi text_parsed
      lsi_found (λ _. refl) refl

storage_existing_devices-find_disk_example :
    (find_disk (storage_existing_devices devices) ≡ find_disk devices)
    × (count_controllers_by_kind (storage_existing_devices devices) scsi
        ≡ count_controllers_by_kind devices scsi)
storage_existing_devices-find_disk_example = storage_existing_devices-find_disk devices scsi
