-- ===== src/Clone/Deploy.antt =====
-- builder/vsphere/clone/step_clone.go: the deployment from a content library item and from an OVF
-- source, and the choice among the three ways. A map of vApp properties is the list of its entries
-- in the order of the loop.
use packer_plugin_vsphere.Base.{
  suc, Bool, true, false, ◌&&◌, not, Option, none, some, List, [], ◌∷◌, ◌++◌, ltb, if◌then◌else◌,
  pos, int_eq, length, is_empty, exists, Result, ok, err, ◌>>=◌, ◌>>◌, fail_if, map_err, Text,
  codes, text_eq, byte_length, to_lower,
}
use packer_plugin_vsphere.Steps.{
  StepError, item_not_found, network_required, deployment_option_refused, not_for_ovf_items,
  deployment_failed, ovf_invalid, ovf_failed, options_unreadable, no_deployment_options,
  unknown_deployment_option, empty_property_key, property_key_too_long, property_value_too_long,
  StateBag,
}
use packer_plugin_vsphere.Clone.{OvfSource, ContentLibrarySource, CloneConfig}
use packer_plugin_vsphere.Clone.Run.{
  CloneStep, CloneDriver, ItemType, vm_template, ovf_template, other_item, LibraryRequest,
  OvfRequest, resolved_datastore, Effect, deploy_item, deploy_ovf, or_halt, requested, go_on,
  not_nil, deployment, disks_from_storage_config, pre_clean, place_disks, known_datastore,
  clone_from_template,
}

abbrev pub setting_if : Bool → Text → List Text
setting_if true name = name ∷ []
setting_if false name = []

-- The settings that an OVF item refuses.
unfoldable pub refused_settings : CloneConfig → List Text
refused_settings c =
    setting_if (not (int_eq c.disk_size (pos 0))) (codes "disk_size")
    ++ (setting_if (not (is_empty c.storage_config.disk_controller_type))
          (codes "disk_controller_type")
        ++ setting_if (not (is_empty c.storage_config.storage)) (codes "storage"))

-- The first of the settings and how many there are.
unfoldable pub first_refused : List Text → Result StepError (Unit {0})
first_refused [] = ok tt
first_refused (e ∷ es) = err (not_for_ovf_items e (suc (length es)))

-- `validateContentLibrarySourceOptions`.
unfoldable pub validate_library_options : CloneConfig → ItemType → Result StepError (Unit {0})
validate_library_options c vm_template =
    fail_if (not (is_empty c.mac_address) && is_empty c.network) network_required
    >> fail_if (not (is_empty c.vapp.deployment_option)) deployment_option_refused
validate_library_options c ovf_template = first_refused (refused_settings c)
validate_library_options c (other_item t) = ok tt

abbrev pub is_vm_template : ItemType → Bool
is_vm_template vm_template = true
is_vm_template ovf_template = false
is_vm_template (other_item t) = false

-- `validateOvfVAppProperties`.
unfoldable pub validate_properties : List (Text × Text) → Result StepError (Unit {0})
validate_properties [] = ok tt
validate_properties ((key, value) ∷ ps) =
    fail_if (is_empty key) empty_property_key
    >> fail_if (ltb 255 (byte_length key)) (property_key_too_long key)
    >> fail_if (ltb 65535 (byte_length value)) (property_value_too_long key)
    >> validate_properties ps

unfoldable pub option_among : Text → List Text → Result StepError (Unit {0})
option_among name options =
    if exists (text_eq name) options
    then ok tt
    else if is_empty options
    then err (no_deployment_options name)
    else err (unknown_deployment_option name options)

-- The settings of a deployment from an OVF source.
unfoldable pub ovf_request : CloneStep → OvfSource → Text → OvfRequest
ovf_request c o name = record {
  source = o;
  authentication =
      if not (is_empty o.username) && not (is_empty o.password)
      then some (o.username, o.password)
      else none;
  location = c.location;
  store = name;
  network = c.config.network;
  mac_address = to_lower c.config.mac_address;
  annotation = c.config.notes;
  vapp = c.config.vapp;
}

module _ (d : CloneDriver) where
  -- `deployFromContentLibrary`.
  unfoldable pub deploy_from_content_library : CloneStep → ContentLibrarySource → StateBag → Effect
  deploy_from_content_library c l s = or_halt (pre_clean d c) s λ done.
      or_halt (map_err item_not_found (d.resolve_item l.library l.name)) s λ item.
        or_halt (validate_library_options c.config item.item_type) s λ valid.
          or_halt (disks_from_storage_config d c.config.storage_config.storage) s λ disks.
            or_halt (place_disks d c s disks (is_vm_template item.item_type) []) s λ placed.
              or_halt (known_datastore d c placed.0) s λ known.
                let request : LibraryRequest = record {
                  item = item;
                  deployment = deployment c disks placed;
                  deployment_option = c.config.vapp.deployment_option;
                } in
                requested (deploy_item request) (
                  or_halt (map_err deployment_failed (d.deploy_item request)) s
                    λ answer. or_halt (not_nil answer) s λ vm. go_on c.config.destroy s vm)

  -- `validateOvfDeploymentOption`.
  unfoldable pub validate_deployment_option : OvfRequest → Result StepError (Unit {0})
  validate_deployment_option r =
      if is_empty r.vapp.deployment_option
      then ok tt
      else map_err options_unreadable (d.ovf_options r) >>= option_among r.vapp.deployment_option

  -- `validateOvfConfiguration`.
  unfoldable pub validate_ovf_configuration : OvfRequest → Result StepError (Unit {0})
  validate_ovf_configuration r =
      validate_deployment_option r >> validate_properties r.vapp.properties

  -- `deployFromOvf`; the messages show the source and the error without credentials.
  unfoldable pub deploy_from_ovf : CloneStep → OvfSource → StateBag → Effect
  deploy_from_ovf c o s =
      let name = (resolved_datastore c s).0 in
      let request = ovf_request c o name in
      or_halt (pre_clean d c) s λ done. or_halt (known_datastore d c name) s λ known.
        or_halt (map_err (ovf_invalid o.url o.path) (validate_ovf_configuration request)) s λ valid.
          requested (deploy_ovf request) (
            or_halt (map_err (ovf_failed o.url o.path) (d.deploy_ovf request)) s
              λ answer. or_halt (not_nil answer) s λ vm. go_on c.config.destroy s vm)

  unfoldable pub deploy_or_clone : CloneStep → Option OvfSource → StateBag → Effect
  deploy_or_clone c none s = clone_from_template d c s
  deploy_or_clone c (some o) s = deploy_from_ovf c o s

  unfoldable pub run_from : CloneStep → Option ContentLibrarySource → StateBag → Effect
  run_from c none s = deploy_or_clone c c.config.ovf_source s
  run_from c (some l) s = deploy_from_content_library c l s

  -- `StepCloneVM.Run`: a content library source goes before an OVF source, and that before a
  -- template.
  unfoldable pub run_clone : CloneStep → StateBag → Effect
  run_clone c s = run_from c c.config.content_library_source s
