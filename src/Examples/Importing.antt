-- ===== src/Examples/Importing.antt =====
-- builder/vsphere/common/step_import_to_content_library.go: the theorem at a concrete input.
use packer_plugin_vsphere.Base.{
  ◌≡◌, refl, true, false, none, [], ◌∷◌, Result, ok, Text, codes, text_eq,
}
use packer_plugin_vsphere.Config.Location.{LocationConfig}
use packer_plugin_vsphere.Steps.Import.{
  Destination, prepare_destination, overwrite_errors, template_name, Library, ImportState,
  run_import, only, import_vm_template, import_item, find_item,
}
use packer_plugin_vsphere.Steps.Import.Imported.{
  IsDestination, IsImported, run_import-prepare_destination,
}

abbrev machine : LocationConfig
machine = record {
  vm_name = codes "vm";
  folder = [];
  cluster = codes "c1";
  host = [];
  resource_pool = [];
  store = [];
  datastore_cluster = [];
  set_host_for_datastore_uploads = false;
}

abbrev golden : Destination
golden = record {
  library = codes "lib";
  name = codes "golden";
  description = [];
  cluster = [];
  folder = [];
  host = [];
  resource_pool = [];
  datastore = [];
  destroy = true;
  ovf = false;
  skip_import = false;
  ovf_flags = [];
  overwrite = true;
}

-- The item is there, and every call succeeds.
abbrev full_library : Library
full_library = record {
  call = λ c. none;
  list_items = λ l. ok (record { id = codes "item-1"; name = codes "golden" } ∷ []);
  find_uuid = λ l n. ok (codes "uuid-1");
  find_datastores = λ l. ok (codes "ds1" ∷ []);
}

abbrev renders : Text → Result Text Text
renders s = ok s

abbrev before_import : ImportState
before_import = record {
  error = none;
  destroy_vm = false;
  item_uuid = none;
  item_datastores = none;
}

abbrev prepared : Destination
prepared = (prepare_destination renders machine golden).0

golden_accepted : (prepare_destination renders machine golden).1 ≡ []
unfolding prepare_destination overwrite_errors template_name text_eq
golden_accepted = refl

golden_imported : prepared.skip_import ≡ false
unfolding prepare_destination
golden_imported = refl

golden_goes_on : (run_import full_library prepared before_import).1.0 ≡ true
unfolding prepare_destination run_import only import_vm_template import_item find_item text_eq
    template_name
golden_goes_on = refl

run_import-prepare_destination_example :
    IsDestination full_library renders machine golden prepared
    × IsImported full_library prepared (run_import full_library prepared before_import)
run_import-prepare_destination_example =
    run_import-prepare_destination full_library renders machine golden before_import golden_accepted
      golden_imported golden_goes_on
