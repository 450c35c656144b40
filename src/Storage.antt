-- ===== src/Storage.antt =====
-- builder/vsphere/driver/disk.go: the disks of a configuration, and what the attachment of disks
-- takes from govmomi's `object.VirtualDeviceList`.
pub mod Attach
pub mod Loops
pub mod Steps
pub mod Counts
pub mod Disks
pub mod Limits
pub mod Places
pub mod Addresses
use packer_plugin_vsphere.Base.{
  ℕ, ◌≡◌, Bool, Option, none, some, List, [], ◌∷◌, ◌++◌, map, if◌then◌else◌, is_none, ℤ, pos,
  get_elem?, is_empty, All, Result, ok, map_err, Text, codes, text_eq, mul_int64,
}
use packer_plugin_vsphere.Controller.{
  ControllerKind, scsi, nvme, sata, Controller, VirtualDisk, VirtualDevice, DiskBacking, Device,
  controller_device, disk_device, other_device, StorageError, type_nvme, type_sata, library,
  kind_for_type,
}
use packer_plugin_vsphere.Controller.Devices.{controller_bus_number}

pub record Disk : Type 0 where
  pub disk_size : ℤ
  pub disk_eagerly_scrub : Bool
  pub disk_thin_provisioned : Bool
  pub controller_index : ℤ
  pub controller_unit : Text
  pub storage_policy_id : Text

pub record DiskDatastore : Type 0 where
  pub name : Text
  pub ref : Option Text

-- `DiskDatastoreFrom` of the name and the reference of a resolved datastore.
unfoldable pub disk_datastore_from : Text → Text → DiskDatastore
disk_datastore_from name ref = record { name = name; ref = some ref }

pub record StorageConfig : Type 0 where
  pub disk_controller_type : List Text
  pub storage : List Disk
  pub disk_datastores : List DiskDatastore

pub data Operation : Type 0 where
  add edit : Operation

-- `VirtualDeviceConfigSpec`; `profile` holds the ids of the defined profiles.
pub record DeviceConfigSpec : Type 0 where
  pub operation : Operation
  pub device : Device
  pub profile : List Text

-- The functions of govmomi's `object.VirtualDeviceList` that are called; an error is its message.
-- `find_disk_controller` is `FindDiskController(Name(device))`. `assign_controller` returns the disk
-- as it leaves it, and the keys of the devices that the controller then names.
pub record DeviceLibrary : Type 0 where
  pub new_key : List Device → ℤ
  pub create_nvme_controller : List Device → Result Text Controller
  pub create_sata_controller : List Device → Result Text Controller
  pub create_scsi_controller : List Device → Text → Result Text Controller
  pub find_disk_controller : List Device → Controller → Result Text Controller
  pub assign_controller : List Device → VirtualDisk → Controller → VirtualDisk × List ℤ
  pub config_spec : List Device → Operation → Result Text (List DeviceConfigSpec)

module _ (g : DeviceLibrary) where
  unfoldable pub create_controller : List Device → Text → Result StorageError Controller
  create_controller ds t = map_err library (
      if text_eq t type_nvme
      then g.create_nvme_controller ds
      else if text_eq t type_sata
      then g.create_sata_controller ds
      else g.create_scsi_controller ds t)

  datastore_backing : DiskBacking → Option DiskDatastore → DiskBacking
  datastore_backing b none = b
  datastore_backing b (some p) = record b {
    file_name = if is_empty p.name then b.file_name else b'[' ∷ (p.name ++ b']' ∷ []);
    store = if is_none p.ref then b.store else p.ref;
  }

  unfoldable pub build_disk : StorageConfig → List Device → Disk → ℕ → VirtualDisk
  unfolding datastore_backing
  build_disk c ds dc index = record {
    base = record { key = g.new_key ds; controller_key = pos 0; unit_number = none };
    backing =
        datastore_backing
          (record {
            file_name = [];
            store = none;
            disk_mode = codes "persistent";
            thin_provisioned = dc.disk_thin_provisioned;
            eagerly_scrub = dc.disk_eagerly_scrub;
          })
          (get_elem? c.disk_datastores index);
    capacity_in_kb = mul_int64 dc.disk_size 1024;
    capacity_in_bytes = pos 0;
  }

-- What govmomi documents of these functions, as far as the attachment relies on it: a controller is
-- created of the family that its type names, and is found by its name once it is in the list; there
-- is one config spec for each device, in order, with the operation that was asked for.
pub record DeviceLibraryLaws (g : DeviceLibrary) : Type 0 where
  pub created_kind :
      (ds : List Device) (t : Text) (c : Controller)
      → create_controller g ds t ≡ ok c
      → (b : ℕ) × (controller_bus_number c ≡ some (kind_for_type t, b))
  pub found_created :
      (ds : List Device) (c d : Controller) → g.find_disk_controller ds c ≡ ok d → d ≡ c
  pub specified :
      (ds : List Device) (op : Operation) (specs : List DeviceConfigSpec)
      → g.config_spec ds op ≡ ok specs
      → (map (λ spec. spec.device) specs ≡ ds) × All (λ spec. spec.operation ≡ op) specs
