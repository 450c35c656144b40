-- ===== src/Examples/Datastores.antt =====
-- builder/vsphere/driver/storage_drs.go: the theorem on the choice of datastores, where Storage DRS
-- places the two disks on one datastore.
use packer_plugin_vsphere.Storage.Attach.{
  attach_policies, add_storage_devices_for_placement, write_device_keys, put_device_keys,
  place_disk, legacy_controller, create_for_address, controller_for, attach_explicit,
  attach_at_unit, assign_disk_at_unit, append_disk, explicit_disks, attach_explicit_all,
  attach_legacy, attach_legacy_all, add_controller, add_legacy_controllers, legacy_disks,
  add_legacy, attach_devices,
}
use packer_plugin_vsphere.Storage.{build_disk, create_controller}
use packer_plugin_vsphere.Controller.Capacity.{
  validate_aggregate_storage_capacity, has_pvscsi_controller_on_vm, count_virtual_disks_by_kind,
  count_disks_on_controller, validate_controller_disk_capacity, validate_controller_count,
  count_controllers_by_kind,
}
use packer_plugin_vsphere.Controller.Devices.{
  max_unit_for_kind, max_unit, list_controller_addresses, kind_for_controller, is_pvscsi_controller,
  is_at_bus, find_controller_by_bus, controller_display_name, controller_address_label,
  max_disks_per_controller, controller_bus_number,
}
use packer_plugin_vsphere.Controller.{kind_prefix, kind_for_type}
use packer_plugin_vsphere.Controller.Address.{parse_controller_unit, find_submatches, address_text}
use packer_plugin_vsphere.Controller.Runtime.{
  validate_controller_unit_runtime, type_pool_exhausted_error, controller_not_found_error,
}
use packer_plugin_vsphere.Controller.Units.{
  unit_ranges, occupied_units, list_available_units, format_unit_range, format_available_units,
}
use packer_plugin_vsphere.Base.{
  ◌≡◌, refl, [], ◌∷◌, pos, length, ok, Text, codes, text_eq, is_space, trim_space, itoa,
  read_digits, to_int32, mul_int64, atoi, trim_left,
}
use packer_plugin_vsphere.Placement.{
  resize_specs, new_virtual_disk_keys, destination_only_actions, disk_datastore_mappings,
  build_storage_placement_config_spec, StoragePlacementInput, storage_placement, other_action,
}
use packer_plugin_vsphere.Placement.Assign.{
  datastores_for_new_disks, fill_slots, fill_rest, place_mappings, place_destinations,
}
use packer_plugin_vsphere.Placement.Select.{VCenter, storage_drs, select_datastores_for_disks}
use packer_plugin_vsphere.Placement.Sizes.{select_datastores-length}
use packer_plugin_vsphere.Examples.Disks.{simple_library, simple_library_laws, two_disks}

abbrev simple_vcenter : VCenter Text
simple_vcenter = record {
  list_datastores = λ cluster. ok (codes "slow" ∷ codes "fast" ∷ []);
  request_storage_placement = λ cluster changes.
      ok ((other_action ∷ storage_placement [] (codes "Datastore") (codes "fast") ∷ []) ∷ []);
  resolve_datastore_ref = λ ref. ok ref;
}

abbrev new_machine : StoragePlacementInput
new_machine = record {
  storage_config = two_disks;
  existing_devices = [];
  primary_disk_size = pos 0;
}

both_on_fast :
    select_datastores_for_disks simple_library simple_vcenter (codes "cluster") new_machine
    ≡ ok (codes "fast" ∷ codes "fast" ∷ [], storage_drs)
unfolding select_datastores_for_disks build_storage_placement_config_spec
    add_storage_devices_for_placement disk_datastore_mappings destination_only_actions
    datastores_for_new_disks fill_slots fill_rest place_mappings place_destinations
    new_virtual_disk_keys attach_policies resize_specs attach_devices add_legacy legacy_disks
    add_legacy_controllers add_controller create_controller text_eq validate_controller_count
    count_controllers_by_kind controller_bus_number kind_for_type attach_legacy_all attach_legacy
    validate_controller_disk_capacity count_disks_on_controller max_disks_per_controller
    attach_explicit_all explicit_disks atoi is_space itoa read_digits trim_left trim_space mul_int64
    to_int32 address_text find_submatches parse_controller_unit count_virtual_disks_by_kind
    has_pvscsi_controller_on_vm validate_aggregate_storage_capacity controller_address_label
    controller_display_name find_controller_by_bus is_at_bus is_pvscsi_controller
    kind_for_controller list_controller_addresses max_unit max_unit_for_kind
    controller_not_found_error type_pool_exhausted_error validate_controller_unit_runtime
    format_available_units format_unit_range list_available_units occupied_units unit_ranges
    kind_prefix append_disk assign_disk_at_unit attach_at_unit attach_explicit controller_for
    create_for_address legacy_controller place_disk put_device_keys write_device_keys build_disk
both_on_fast = refl

select_datastores-length_example :
    length (codes "fast" ∷ codes "fast" ∷ []) ≡ length new_machine.storage_config.storage
select_datastores-length_example =
    select_datastores-length simple_library simple_library_laws simple_vcenter (codes "cluster")
      new_machine (codes "fast" ∷ codes "fast" ∷ []) storage_drs both_on_fast
