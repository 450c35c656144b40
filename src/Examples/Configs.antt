-- ===== src/Examples/Configs.antt =====
-- builder/vsphere/common/storage_config.go and config_location.go, builder/vsphere/clone/
-- storage_prepare.go: the theorems on a configuration with two disks.
use packer_plugin_vsphere.Base.{
  ◌≡◌, refl, ◌↔◌, true, false, some, [], ◌∷◌, arith, if◌then◌else◌, pos, All, NoRepeat, codes,
  text_eq, is_space, trim_space, split, atoi,
}
use packer_plugin_vsphere.Controller.{ControllerAddress, scsi, nvme, type_lsi_logic, type_nvme}
use packer_plugin_vsphere.Config.{StorageConfig}
use packer_plugin_vsphere.Config.Disks.{prepare, IsDiskConfig, prepare-IsDiskConfig}
use packer_plugin_vsphere.Config.Location.{
  LocationConfig, prepare_location, IsLocation, is_rooted, prepare_location-IsLocation,
}
use packer_plugin_vsphere.Config.Clone.{
  bus_key_eq, PrepareState, BusKey, prepare_storage, index_of_bus, type_index_of,
}
use packer_plugin_vsphere.Config.Prepared.{IsPrepared, units_of, prepare_storage-IsPrepared}
use packer_plugin_vsphere.Config.Allocation.{IsAllocated, type_index_of-IsAllocated}

abbrev two_blocks : StorageConfig
two_blocks = record {
  disk_controller_type = type_lsi_logic ∷ type_nvme ∷ [];
  storage =
      record {
        disk_size = pos 32768;
        disk_thin_provisioned = true;
        disk_eagerly_scrub = false;
        disk_controller_index = pos 1;
        disk_controller_unit = [];
        storage_policy_name = [];
      }
      ∷ record {
        disk_size = pos 1024;
        disk_thin_provisioned = true;
        disk_eagerly_scrub = false;
        disk_controller_index = pos 0;
        disk_controller_unit = codes "nvme0:3";
        storage_policy_name = codes "gold";
      }
      ∷ [];
}

two_prepared : prepare two_blocks ≡ []
unfolding prepare
two_prepared = refl

prepare-IsDiskConfig_example : All (IsDiskConfig two_blocks.disk_controller_type) two_blocks.storage
prepare-IsDiskConfig_example = prepare-IsDiskConfig two_blocks two_prepared

two_accepted : prepare_storage two_blocks ≡ []
unfolding prepare_storage packer_plugin_vsphere.Controller.Static.validate_disk_controller_types
    packer_plugin_vsphere.Base.text_eq
    packer_plugin_vsphere.Controller.Static.validate_controller_unit_static_for_config
    packer_plugin_vsphere.Controller.Address.parse_controller_unit
    packer_plugin_vsphere.Base.trim_space packer_plugin_vsphere.Base.is_space
    packer_plugin_vsphere.Base.atoi index_of_bus
    packer_plugin_vsphere.Controller.Static.static_max_unit
    packer_plugin_vsphere.Config.Clone.index_of_unit
two_accepted = refl

prepare_storage-IsPrepared_example :
    All (IsPrepared two_blocks.disk_controller_type) two_blocks.storage
    × NoRepeat (units_of two_blocks.storage)
prepare_storage-IsPrepared_example = prepare_storage-IsPrepared two_blocks two_accepted

abbrev in_cluster : LocationConfig
in_cluster = record {
  vm_name = codes "alpine";
  folder = codes "/templates/../images/";
  cluster = codes "cluster1";
  host = [];
  resource_pool = [];
  store = codes "datastore1";
  datastore_cluster = [];
  set_host_for_datastore_uploads = false;
}

prepare_location-IsLocation_example :
    (((prepare_location in_cluster).1 ≡ []) ↔ IsLocation in_cluster)
    × (is_rooted (prepare_location in_cluster).0.folder ≡ false)
    × ((prepare_location in_cluster).0
        ≡ record in_cluster { folder = (prepare_location in_cluster).0.folder })
prepare_location-IsLocation_example = prepare_location-IsLocation in_cluster

images : (prepare_location in_cluster).0.folder ≡ codes "images"
unfolding prepare_location packer_plugin_vsphere.Config.Location.trim_slashes
    packer_plugin_vsphere.Config.Location.path_clean packer_plugin_vsphere.Base.split
    packer_plugin_vsphere.Base.text_eq
images = refl

abbrev scsi_0 : BusKey
scsi_0 = record { kind = scsi; bus = 0 }

abbrev one_bus : PrepareState
one_bus = record { next_type_index = 1; bus_type_index = (scsi_0, 0) ∷ []; seen_units = [] }

one_bus-IsAllocated : IsAllocated one_bus
unfolding index_of_bus
one_bus-IsAllocated = record {
  below = λ k i h. ground arith;
  not_shared = λ j k i h g. ground arith;
}

abbrev nvme_1_0 : ControllerAddress
nvme_1_0 = record { kind = nvme; bus = 1; unit = 0 }

type_index_of-IsAllocated_example :
    let (i, s') = type_index_of one_bus nvme_1_0 in
    IsAllocated s'
    × (index_of_bus scsi_0 s'.bus_type_index ≡ (
        if bus_key_eq (record { kind = nvme_1_0.kind; bus = nvme_1_0.bus }) scsi_0
        then some i
        else index_of_bus scsi_0 one_bus.bus_type_index))
type_index_of-IsAllocated_example =
    type_index_of-IsAllocated one_bus nvme_1_0 scsi_0 one_bus-IsAllocated
