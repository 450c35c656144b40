-- ===== src/Examples/Cloning.antt =====
-- builder/vsphere/clone/step_clone.go and builder/vsphere/common/step_resolve_datastore.go: the
-- theorems on a clone with two disks, of which one has a storage policy.
use packer_plugin_vsphere.Base.{
  ◌≡◌, refl, ◌≢◌, true, false, none, some, List, [], ◌∷◌, if◌then◌else◌, pos, ok, err, codes,
  text_eq,
}
use packer_plugin_vsphere.Storage.{Disk}
use packer_plugin_vsphere.Controller.{type_pvscsi}
use packer_plugin_vsphere.Config.{StorageConfig}
use packer_plugin_vsphere.Placement.Select.{VCenter, select_datastores_for_disks}
use packer_plugin_vsphere.Steps.{Datastore, PlacementDriver, StateBag, continue_build}
use packer_plugin_vsphere.Steps.Resolve.{
  resolve_multi_disk, has_policy, place_policy_disks, place_policy_disk, cached_datastore, look_up,
  primary_for, name_of_placements, seeded_cache, ResolveDatastore, resolve_datastore,
  resolve_policy_placement, policy_id_of,
}
use packer_plugin_vsphere.Steps.Policies.{
  place_without_cache, resolve_policy_placement-place_without_cache,
}
use packer_plugin_vsphere.Clone.{CloneConfig}
use packer_plugin_vsphere.Clone.Prepare.{cleaned_source, prepare_clone}
use packer_plugin_vsphere.Clone.Accepted.{AreDisks, IsAccepted, prepare_clone-IsAccepted}
use packer_plugin_vsphere.Clone.Run.{
  clone_from_template, or_halt, requested, go_on, known_datastore, pre_clean,
  disks_from_storage_config, policy_id, place_disks, or_by_policy, resolved_datastore, deployment,
  not_nil, CloneDriver, CloneStep,
}
use packer_plugin_vsphere.Clone.Deploy.{run_from, deploy_or_clone, run_clone}
use packer_plugin_vsphere.Clone.Outcome.{
  IsOutcome, IsCloned, run_clone-IsOutcome, run_clone-prepare_clone,
}
use packer_plugin_vsphere.Examples.Disks.{simple_library, simple_library_laws}
use packer_plugin_vsphere.Examples.Ovfs.{simple_host, some_location}

abbrev gold_store : Datastore
gold_store = record { name = codes "gold-1"; ref = codes "datastore-1" }

abbrev silver_store : Datastore
silver_store = record { name = codes "silver-1"; ref = codes "datastore-2" }

abbrev some_vcenter : VCenter Datastore
some_vcenter = record {
  list_datastores = λ cluster. ok (gold_store ∷ silver_store ∷ []);
  request_storage_placement = λ cluster changes. ok [];
  resolve_datastore_ref = λ ref. ok gold_store;
}

-- A policy is its own ID, and the policy `gold` has a datastore of its own.
abbrev some_placement : PlacementDriver
some_placement = record {
  find_datastore = λ name host. ok silver_store;
  find_storage_policy_id = λ name. ok name;
  find_compatible_datastore =
      λ id host cluster. ok (if text_eq id (codes "gold") then gold_store else silver_store);
  cluster_selector = none;
  disk_selector = some (select_datastores_for_disks simple_library some_vcenter);
}

abbrev some_driver : CloneDriver
some_driver = record {
  placement = some_placement;
  find_vm = λ name. ok (record { name = name; devices = ok [] });
  pre_clean_vm = λ path force cluster host pool. ok tt;
  clone = λ template request. ok (some (codes "vm-9"));
  resolve_item = λ library name. err (codes "not found");
  deploy_item = λ request. err (codes "not found");
  ovf_options = λ request. ok [];
  deploy_ovf = λ request. err (codes "not found");
}

abbrev two_disks_config : StorageConfig
two_disks_config = record {
  disk_controller_type = type_pvscsi ∷ [];
  storage =
      record {
        disk_size = pos 32768;
        disk_thin_provisioned = true;
        disk_eagerly_scrub = false;
        disk_controller_index = pos 0;
        disk_controller_unit = [];
        storage_policy_name = codes "gold";
      }
      ∷ record {
        disk_size = pos 1024;
        disk_thin_provisioned = true;
        disk_eagerly_scrub = false;
        disk_controller_index = pos 0;
        disk_controller_unit = [];
        storage_policy_name = [];
      }
      ∷ [];
}

abbrev from_alpine : CloneConfig
from_alpine = record {
  template = codes "alpine-template";
  ovf_source = none;
  content_library_source = none;
  disk_size = pos 0;
  linked_clone = true;
  network = [];
  mac_address = [];
  notes = [];
  destroy = true;
  vapp = record { properties = []; deployment_option = [] };
  storage_config = two_disks_config;
}

alpine_prepared : (prepare_clone simple_host from_alpine).0 ≡ []
unfolding prepare_clone packer_plugin_vsphere.Clone.Prepare.source_errors
    packer_plugin_vsphere.Clone.Prepare.used_sources packer_plugin_vsphere.Config.Disks.prepare
    packer_plugin_vsphere.Config.Clone.prepare_storage
    packer_plugin_vsphere.Controller.Static.validate_disk_controller_types text_eq
    packer_plugin_vsphere.Clone.Prepare.combined_errors
alpine_prepared = refl

prepare_clone-IsAccepted_example : IsAccepted simple_host from_alpine
prepare_clone-IsAccepted_example = prepare_clone-IsAccepted simple_host from_alpine alpine_prepared

abbrev fresh : StateBag
fresh = record {
  chosen_datastore = none;
  datastore_selection_method = none;
  storage_policy_id = none;
  vm = none;
  destroy_vm = false;
  failure = none;
}

abbrev by_gold : ResolveDatastore
by_gold = record {
  store = [];
  datastore_cluster = [];
  storage_policy = codes "gold";
  host = [];
  cluster = codes "cluster1";
  disk_count = 2;
}

abbrev placed_disks : List Disk
placed_disks =
    record {
      disk_size = pos 32768;
      disk_eagerly_scrub = false;
      disk_thin_provisioned = true;
      controller_index = pos 0;
      controller_unit = [];
      storage_policy_id = codes "gold";
    }
    ∷ record {
      disk_size = pos 1024;
      disk_eagerly_scrub = false;
      disk_thin_provisioned = true;
      controller_index = pos 0;
      controller_unit = [];
      storage_policy_id = codes "silver";
    }
    ∷ []

resolve_policy_placement-place_without_cache_example :
    let s' = (resolve_datastore some_placement by_gold fresh).1 in
    resolve_policy_placement some_placement []
      (codes "cluster1")
      placed_disks
      s'.chosen_datastore
      []
      []
      []
      (policy_id_of s')
    ≡ place_without_cache some_placement by_gold placed_disks s'.chosen_datastore []
resolve_policy_placement-place_without_cache_example =
    resolve_policy_placement-place_without_cache some_placement by_gold fresh placed_disks [] refl

abbrev alpine_step : CloneStep
alpine_step = record {
  config = (prepare_clone simple_host from_alpine).1;
  location = some_location;
  force = false;
}

abbrev resolved : StateBag
resolved = record fresh { chosen_datastore = some gold_store }

run_clone-IsOutcome_example :
    IsOutcome some_driver alpine_step resolved (run_clone some_driver alpine_step resolved)
run_clone-IsOutcome_example = run_clone-IsOutcome some_driver alpine_step resolved

alpine_named : from_alpine.template ≢ []
alpine_named e = cc

alpine_cloned : (run_clone some_driver alpine_step resolved).1.0 ≡ continue_build
unfolding run_clone prepare_clone run_from deploy_or_clone cleaned_source clone_from_template
    or_halt requested go_on known_datastore pre_clean disks_from_storage_config policy_id
    place_disks or_by_policy resolve_multi_disk has_policy place_policy_disks place_policy_disk
    cached_datastore look_up primary_for name_of_placements resolved_datastore deployment not_nil
    seeded_cache text_eq resolve_policy_placement
alpine_cloned = refl

run_clone-prepare_clone_example :
    IsCloned some_driver alpine_step resolved (run_clone some_driver alpine_step resolved)
    × AreDisks alpine_step.config.storage_config
run_clone-prepare_clone_example =
    run_clone-prepare_clone some_driver simple_library simple_library_laws some_vcenter simple_host
      from_alpine alpine_step resolved refl alpine_prepared alpine_named refl alpine_cloned
