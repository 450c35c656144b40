-- ===== src/Ovf.antt =====
-- builder/vsphere/driver/ovf.go: the deployment of an OVF or OVA file, its errors, and what it asks
-- of vCenter, of govmomi and of the archive of the source.
pub mod Source
pub mod Deploy
pub mod Lease
pub mod Checked
use packer_plugin_vsphere.Base.{Option, List, Result, Text}
use packer_plugin_vsphere.Clone.Run.{OvfRequest}

-- The errors; the messages show a source or an error of a call without its credentials.
pub data OvfError : Type 0 where
  both_url_and_path neither_url_nor_path : OvfError
  path_suffix credentials_with_path tls_with_path : OvfError
  invalid_url : Text → OvfError
  no_host no_file : OvfError
  unsupported_protocol : Text → OvfError
  url_suffix password_missing username_missing tls_with_http : OvfError
  vm_name_required : OvfError
  call_failed : Text → OvfError
  descriptor_faults : List Text → OvfError
  networks_unmapped : List Text → OvfError
  network_not_found host_not_found : Text → OvfError
  upload_failed : Text → Text → OvfError
  no_vm_reference : OvfError

-- What vCenter reads in the descriptor: its faults, its networks and the keys of its options.
pub record Descriptor : Type 0 where
  pub faults : List Text
  pub networks : List Text
  pub options : List Text

-- The parameters of the import: each network of the descriptor with the one it is mapped to.
pub record ImportParams : Type 0 where
  pub entity_name : Text
  pub deployment_option : Text
  pub network_mapping : List (Text × Text)
  pub property_mapping : List (Text × Text)
  pub host_system : Option Text

-- The files that a lease waits for, and the virtual machine of its entity, if it is one.
pub record LeaseInfo : Type 0 where
  pub items : List Text
  pub entity : Option Text

-- A change after the import: the notes, and the address of an adapter.
pub record PostImport : Type 0 where
  pub annotation : Option Text
  pub mac_address : Option (Text × Text)

pub record OvfDriver : Type 0 where
  pub descriptor : OvfRequest → Result Text Descriptor
  pub find_folder : Text → Result Text Text
  pub find_resource_pool : Text → Text → Text → Result Text Text
  pub find_datastore : Text → Text → Result Text Text
  pub find_network : Text → Result Text Text
  pub find_host : Text → Result Text Text
  pub create_import_spec : OvfRequest → Text → Text → ImportParams → Result Text (List Text)
  pub import_vapp : Text → Text → Result Text (Unit {0})
  pub lease_wait : Result Text LeaseInfo
  pub open_archive : OvfRequest → Result Text (Unit {0})
  pub upload : Text → Result Text (Unit {0})
  pub lease_complete : Result Text (Unit {0})
  pub network_adapter : Text → Result Text Text
  pub reconfigure : Text → PostImport → Result Text (Unit {0})
