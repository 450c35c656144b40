-- ===== src/Clone/Run.antt =====
-- builder/vsphere/clone/step_clone.go: the step that clones or deploys the virtual machine. What
-- vCenter answers to each request is a parameter; a request is a record with all its settings.
use packer_plugin_vsphere.Base.{
  Bool, true, ◌&&◌, ◌||◌, Option, none, some, List, [], ◌∷◌, ◌++◌, if◌then◌else◌, ℤ, is_empty,
  Result, ok, err, ◌>>=◌, fail_if, map_err, Text, to_lower,
}
use packer_plugin_vsphere.Controller.{Device}
use packer_plugin_vsphere.Storage.{Disk, DiskDatastore, StorageConfig}
use packer_plugin_vsphere.Placement.{StoragePlacementInput, storage_existing_devices}
use packer_plugin_vsphere.Config.{DiskConfig}
use packer_plugin_vsphere.Config.Location.{LocationConfig, path_clean}
use packer_plugin_vsphere.Steps.{
  Datastore, StepError, template_not_found, devices_unreadable, driver_failed, no_virtual_machine,
  no_datastore, policy_not_found, Action, continue_build, StateBag, halt_with, PlacementDriver,
}
use packer_plugin_vsphere.Steps.Resolve.{resolve_multi_disk, resolve_policy_placement, policy_id_of}
use packer_plugin_vsphere.Clone.{OvfSource, VAppConfig, CloneConfig}

pub record Template : Type 0 where
  pub name : Text
  pub devices : Result Text (List Device)

-- What `driver.CloneConfig` and `driver.ContentLibraryDeployConfig` share.
pub record Deployment : Type 0 where
  pub location : LocationConfig
  pub store : Text
  pub network : Text
  pub mac_address : Text
  pub annotation : Text
  pub vapp_properties : List (Text × Text)
  pub primary_disk_size : ℤ
  pub storage_config : StorageConfig

pub record CloneRequest : Type 0 where
  pub deployment : Deployment
  pub linked_clone : Bool

pub data ItemType : Type 0 where
  vm_template ovf_template : ItemType
  other_item : Text → ItemType

pub record LibraryItem : Type 0 where
  pub name : Text
  pub item_type : ItemType

pub record LibraryRequest : Type 0 where
  pub item : LibraryItem
  pub deployment : Deployment
  pub deployment_option : Text

-- `driver.OvfDeployConfig`; the locale is always `US`.
pub record OvfRequest : Type 0 where
  pub source : OvfSource
  pub authentication : Option (Text × Text)
  pub location : LocationConfig
  pub store : Text
  pub network : Text
  pub mac_address : Text
  pub annotation : Text
  pub vapp : VAppConfig

-- The calls of the driver. A virtual machine is named by its reference; `none` is one that is `nil`.
pub record CloneDriver : Type 0 where
  pub placement : PlacementDriver
  pub find_vm : Text → Result Text Template
  pub pre_clean_vm : Text → Bool → Text → Text → Text → Result Text (Unit {0})
  pub clone : Template → CloneRequest → Result Text (Option Text)
  pub resolve_item : Text → Text → Result Text LibraryItem
  pub deploy_item : LibraryRequest → Result Text (Option Text)
  pub ovf_options : OvfRequest → Result Text (List Text)
  pub deploy_ovf : OvfRequest → Result Text (Option Text)

-- `StepCloneVM`.
pub record CloneStep : Type 0 where
  pub config : CloneConfig
  pub location : LocationConfig
  pub force : Bool

-- `path.Join(folder, name)`.
unfoldable pub vm_path : LocationConfig → Text
vm_path l =
    if is_empty l.folder
    then (if is_empty l.vm_name then [] else path_clean l.vm_name)
    else if is_empty l.vm_name
    then path_clean l.folder
    else path_clean (l.folder ++ (b'/' ∷ l.vm_name))

-- The datastore of the state goes before that of the location.
unfoldable pub resolved_datastore : CloneStep → StateBag → Text × Option Datastore
resolved_datastore c s = elim s.chosen_datastore [
  | none ↦ (c.location.store, none)
  | some ds ↦ (ds.name, some ds)
]

-- The requests for a virtual machine.
pub data CloneCall : Type 0 where
  clone_vm : Template → CloneRequest → CloneCall
  deploy_item : LibraryRequest → CloneCall
  deploy_ovf : OvfRequest → CloneCall

-- What the step does: its requests in their order, its action, and the state.
abbrev pub Effect : Type 0
Effect = List CloneCall × (Action × StateBag)

-- An exit: the error is put into the state and the step halts, or it goes on.
unfoldable pub or_halt : {A : Type 0} → Result StepError A → StateBag → (A → Effect) → Effect
or_halt (err e) s rest = ([], halt_with e s)
or_halt (ok a) s rest = rest a

-- A request, and what follows it.
unfoldable pub requested : CloneCall → Effect → Effect
requested call (calls, r) = (call ∷ calls, r)

-- The end: `destroy_vm` joins the state where it is configured, then the virtual machine.
unfoldable pub go_on : Bool → StateBag → Text → Effect
go_on destroy s vm =
    ([], (continue_build, record s { destroy_vm = destroy || s.destroy_vm; vm = some vm }))

-- A call that returns `nil` and no error.
unfoldable pub not_nil : Option Text → Result StepError Text
not_nil none = err no_virtual_machine
not_nil (some vm) = ok vm

unfoldable pub deployment : CloneStep → List Disk → Text × List DiskDatastore → Deployment
deployment c disks (name, placements) = record {
  location = c.location;
  store = name;
  network = c.config.network;
  mac_address = to_lower c.config.mac_address;
  annotation = c.config.notes;
  vapp_properties = c.config.vapp.properties;
  primary_disk_size = c.config.disk_size;
  storage_config = record {
    disk_controller_type = c.config.storage_config.disk_controller_type;
    storage = disks;
    disk_datastores = placements;
  };
}

module _ (d : CloneDriver) where
  unfoldable pub policy_id : Text → Result StepError Text
  policy_id name =
      if is_empty name
      then ok []
      else map_err (policy_not_found name) (d.placement.find_storage_policy_id name)

  -- `disksFromStorageConfig`.
  unfoldable pub disks_from_storage_config : List DiskConfig → Result StepError (List Disk)
  disks_from_storage_config [] = ok []
  disks_from_storage_config (b ∷ bs) = do
    id ← policy_id b.storage_policy_name
    rest ← disks_from_storage_config bs
    ok (
        record {
          disk_size = b.disk_size;
          disk_eagerly_scrub = b.disk_eagerly_scrub;
          disk_thin_provisioned = b.disk_thin_provisioned;
          controller_index = b.disk_controller_index;
          controller_unit = b.disk_controller_unit;
          storage_policy_id = id;
        }
        ∷ rest)

  unfoldable pub pre_clean : CloneStep → Result StepError (Unit {0})
  pre_clean c = map_err driver_failed (
      d.pre_clean_vm (vm_path c.location) c.force c.location.cluster c.location.host
        c.location.resource_pool)

  -- By policies, where Storage DRS placed no disk.
  unfoldable pub or_by_policy :
      CloneStep
      → StateBag
      → List Disk
      → Option Datastore
      → Text × List DiskDatastore
      → Result StepError (Text × List DiskDatastore)
  or_by_policy c s disks primary (name, []) =
      resolve_policy_placement d.placement c.location.host c.location.cluster disks primary name
        c.location.store c.location.datastore_cluster (policy_id_of s)
  or_by_policy c s disks primary (name, p ∷ ps) = ok (name, p ∷ ps)

  -- The placement of all disks.
  unfoldable pub place_disks :
      CloneStep
      → StateBag
      → List Disk
      → Bool
      → List Device
      → Result StepError (Text × List DiskDatastore)
  place_disks c s disks by_cluster existing =
      let (name, primary) = resolved_datastore c s in
      let input : StoragePlacementInput = record {
        storage_config = record {
          disk_controller_type = c.config.storage_config.disk_controller_type;
          storage = disks;
          disk_datastores = [];
        };
        existing_devices = existing;
        primary_disk_size = c.config.disk_size;
      } in
      or_by_policy c s disks primary (
        if by_cluster
        then resolve_multi_disk d.placement c.location.datastore_cluster input primary name
        else (name, []))

  -- The check that some datastore is known.
  unfoldable pub known_datastore : CloneStep → Text → Result StepError (Unit {0})
  known_datastore c name =
      fail_if (is_empty name && is_empty c.location.datastore_cluster) no_datastore

  -- `cloneFromTemplate`.
  unfoldable pub clone_from_template : CloneStep → StateBag → Effect
  clone_from_template c s =
      or_halt (map_err template_not_found (d.find_vm c.config.template)) s λ template.
        or_halt (pre_clean c) s λ done.
          or_halt (disks_from_storage_config c.config.storage_config.storage) s λ disks.
            or_halt (map_err devices_unreadable template.devices) s λ devices.
              or_halt (place_disks c s disks true (storage_existing_devices devices)) s λ placed.
                or_halt (known_datastore c placed.0) s λ known.
                  let request : CloneRequest = record {
                    deployment = deployment c disks placed;
                    linked_clone = c.config.linked_clone;
                  } in
                  requested (clone_vm template request) (
                    or_halt (map_err driver_failed (d.clone template request)) s
                      λ answer. or_halt (not_nil answer) s λ vm. go_on c.config.destroy s vm)
