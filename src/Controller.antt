-- ===== src/Controller.antt =====
-- builder/vsphere/driver/controller_address.go: the limits, the kinds and types of controllers, and
-- the virtual devices as far as the plugin reads them. The devices are govmomi's `types`; a pointer
-- to a controller in a device list is the controller with that key.
pub mod Address
pub mod Devices
pub mod Units
pub mod Static
pub mod Capacity
pub mod Runtime
use packer_plugin_vsphere.Base.{
  ℕ, Bool, true, false, Option, List, [], ◌∷◌, if◌then◌else◌, ℤ, exists, Text, codes, text_eq,
}

abbrev pub max_controllers_per_type : ℕ
max_controllers_per_type = 4

abbrev pub max_controller_bus_number : ℕ
max_controller_bus_number = 3

abbrev pub scsi_reserved_unit_number : ℕ
scsi_reserved_unit_number = 7

abbrev pub max_lsi_scsi_unit : ℕ
max_lsi_scsi_unit = 15

abbrev pub max_pvscsi_unit : ℕ
max_pvscsi_unit = 64

abbrev pub max_lsi_scsi_disks_per_controller : ℕ
max_lsi_scsi_disks_per_controller = 15

abbrev pub max_pvscsi_disks_per_controller : ℕ
max_pvscsi_disks_per_controller = 64

abbrev pub max_nvme_unit : ℕ
max_nvme_unit = 14

abbrev pub max_sata_unit : ℕ
max_sata_unit = 29

abbrev pub max_scsi_disks_per_vm : ℕ
max_scsi_disks_per_vm = 256

abbrev pub max_lsi_scsi_disks_per_vm : ℕ
max_lsi_scsi_disks_per_vm = 60

abbrev pub max_sata_disks_per_vm : ℕ
max_sata_disks_per_vm = 120

abbrev pub max_nvme_disks_per_vm : ℕ
max_nvme_disks_per_vm = 60

abbrev pub type_lsi_logic : Text
type_lsi_logic = codes "lsilogic"

abbrev pub type_lsi_logic_sas : Text
type_lsi_logic_sas = codes "lsilogic-sas"

abbrev pub type_pvscsi : Text
type_pvscsi = codes "pvscsi"

abbrev pub type_nvme : Text
type_nvme = codes "nvme"

abbrev pub type_scsi : Text
type_scsi = codes "scsi"

abbrev pub type_sata : Text
type_sata = codes "sata"

-- The keys of `SupportedDiskControllerTypes`.
abbrev pub supported_disk_controller_types : List Text
supported_disk_controller_types =
    type_lsi_logic ∷ type_lsi_logic_sas ∷ type_pvscsi ∷ type_nvme ∷ type_scsi ∷ type_sata ∷ []

pub data ControllerKind : Type 0 where
  scsi nvme sata : ControllerKind

abbrev pub kind_eq : ControllerKind → ControllerKind → Bool
kind_eq scsi scsi = true
kind_eq nvme nvme = true
kind_eq sata sata = true
kind_eq _ _ = false

-- A parsed `controller:unit` address.
pub record ControllerAddress : Type 0 where
  pub kind : ControllerKind
  pub bus : ℕ
  pub unit : ℕ

unfoldable pub kind_prefix : ControllerKind → Text
kind_prefix nvme = codes "nvme"
kind_prefix sata = codes "sata"
kind_prefix scsi = codes "scsi"

unfoldable pub display_name_for_type : Text → Text
display_name_for_type t =
    if text_eq t type_lsi_logic
    then codes "LSI Logic"
    else if text_eq t type_lsi_logic_sas
    then codes "LSI Logic SAS"
    else if text_eq t type_pvscsi
    then codes "PVSCSI"
    else if text_eq t type_nvme
    then codes "NVMe"
    else if text_eq t type_sata
    then codes "SATA"
    else codes "SCSI"

unfoldable pub kind_for_type : Text → ControllerKind
kind_for_type t = if text_eq t type_nvme then nvme else if text_eq t type_sata then sata else scsi

-- `slices.Contains(diskControllerTypes, "pvscsi")`.
unfoldable pub contains_pvscsi_type : List Text → Bool
contains_pvscsi_type ts = exists (text_eq type_pvscsi) ts

-- What every virtual device has: its key, the key of its controller, its unit number there.
pub record VirtualDevice : Type 0 where
  pub key : ℤ
  pub controller_key : ℤ
  pub unit_number : Option ℤ

-- The concrete types of a controller; `other_controller` is one of no storage bus (IDE, USB, PCI).
pub data ControllerClass : Type 0 where
  virtual_scsi lsi_logic lsi_logic_sas para_virtual bus_logic : ControllerClass
  virtual_nvme virtual_sata virtual_ahci other_controller : ControllerClass

pub record Controller : Type 0 where
  pub base : VirtualDevice
  pub class : ControllerClass
  pub bus_number : ℕ
  pub scsi_ctlr_unit_number : ℕ
  pub device : List ℤ

-- `VirtualDiskFlatVer2BackingInfo`; `store` is the reference of the datastore.
pub record DiskBacking : Type 0 where
  pub file_name : Text
  pub store : Option Text
  pub disk_mode : Text
  pub thin_provisioned : Bool
  pub eagerly_scrub : Bool

pub record VirtualDisk : Type 0 where
  pub base : VirtualDevice
  pub backing : DiskBacking
  pub capacity_in_kb : ℤ
  pub capacity_in_bytes : ℤ

pub data Device : Type 0 where
  controller_device : Controller → Device
  disk_device : VirtualDisk → Device
  other_device : VirtualDevice → Device

-- `device.GetVirtualDevice()`.
abbrev pub base_of : Device → VirtualDevice
base_of (controller_device c) = c.base
base_of (disk_device d) = d.base
base_of (other_device v) = v

-- The type assertion to `types.BaseVirtualSCSIController`.
abbrev pub is_scsi_class : ControllerClass → Bool
is_scsi_class virtual_scsi = true
is_scsi_class lsi_logic = true
is_scsi_class lsi_logic_sas = true
is_scsi_class para_virtual = true
is_scsi_class bus_logic = true
is_scsi_class _ = false

abbrev pub is_pvscsi_class : ControllerClass → Bool
is_pvscsi_class para_virtual = true
is_pvscsi_class _ = false

-- The errors of the storage code; each holds what its message shows.
pub data StorageError : Type 0 where
  invalid_unit_format : Text → StorageError
  bus_not_number : Text → StorageError
  unit_not_number : Text → StorageError
  bus_out_of_range : Text → StorageError
  unit_is_reserved : Text → StorageError
  type_of_wrong_kind : Text → ControllerAddress → ℕ → Text → StorageError
  unit_out_of_range : Text → ℕ → Text → StorageError
  unsupported_type : Text → ℕ → StorageError
  too_many_disks : Text → Text → ℕ → ℕ → StorageError
  too_many_sata : ℕ → StorageError
  too_many_nvme : ℕ → StorageError
  too_many_scsi : ℕ → ℕ → StorageError
  unit_already_assigned : Text → StorageError
  unit_exceeds_maximum : Text → ℕ → StorageError
  unit_in_use : Text → Text → StorageError
  too_many_controllers : ControllerKind → StorageError
  unknown_disk_controller : StorageError
  no_type_left : Text → StorageError
  controller_not_found : Text → List Text → StorageError
  bus_does_not_match : Text → StorageError
  no_disk several_disks : StorageError
  no_datastore_in_cluster : Text → StorageError
  no_disks_for_placement : StorageError
  controller_index_panic : StorageError
  at_storage : ℕ → StorageError → StorageError
  resize_failed storage_failed : StorageError → StorageError
  -- An error that govmomi returned.
  library : Text → StorageError
