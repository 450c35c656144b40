-- ===== src/Examples/Ovfs.antt =====
-- builder/vsphere/driver/ovf.go: the theorems on an OVA file at a web address.
use packer_plugin_vsphere.Base.{
  ◌≡◌, refl, ◌↔◌, ◌⊎◌, true, false, none, some, [], ◌∷◌, ◌++◌, if◌then◌else◌, pos, ok, err, codes,
  text_eq, has_prefix, has_suffix, to_lower,
}
use packer_plugin_vsphere.Config.Location.{LocationConfig}
use packer_plugin_vsphere.Clone.{OvfSource, CloneConfig, ParsedUrl, FileKind, file, Host}
use packer_plugin_vsphere.Clone.Prepare.{address_errors, credential_errors, cleaned}
use packer_plugin_vsphere.Clone.Address.{IsLocalFile, IsWebAddress, ovf_address_iff}
use packer_plugin_vsphere.Clone.Run.{CloneStep, OvfRequest}
use packer_plugin_vsphere.Clone.Deploy.{ovf_request}
use packer_plugin_vsphere.Ovf.{OvfDriver}
use packer_plugin_vsphere.Ovf.Source.{validate_source}
use packer_plugin_vsphere.Ovf.Deploy.{upload_and_complete}
use packer_plugin_vsphere.Ovf.Lease.{IsAborted, IsCompleted, upload_and_complete_cases}
use packer_plugin_vsphere.Ovf.Checked.{IsChecked, validate_source-IsChecked}

-- Every URL is taken for one of the same host, with itself as its path.
abbrev pub simple_host : Host
simple_host = record {
  parse_url =
      λ u. ok (record { scheme = codes "https"; authority = codes "example.com"; path = u });
  stat = λ p. file;
}

abbrev ova_source : OvfSource
ova_source = record {
  path = [];
  url = codes "https://example.com/alpine.ova";
  username = codes "packer";
  password = codes "secret";
  skip_tls_verify = true;
}

ova_accepted : address_errors simple_host ova_source ++ credential_errors ova_source ≡ []
unfolding address_errors credential_errors text_eq packer_plugin_vsphere.Clone.Prepare.is_ovf_file
    has_suffix has_prefix to_lower
ova_accepted = refl

ovf_address_iff_example :
    (address_errors simple_host ova_source ++ credential_errors ova_source ≡ [])
    ↔ (IsLocalFile simple_host ova_source ⊎ IsWebAddress simple_host ova_source)
ovf_address_iff_example = ovf_address_iff simple_host ova_source

abbrev pub some_location : LocationConfig
some_location = record {
  vm_name = codes "alpine";
  folder = codes "images";
  cluster = codes "cluster1";
  host = [];
  resource_pool = [];
  store = [];
  datastore_cluster = [];
  set_host_for_datastore_uploads = false;
}

abbrev from_ova : CloneConfig
from_ova = record {
  template = [];
  ovf_source = some ova_source;
  content_library_source = none;
  disk_size = pos 0;
  linked_clone = false;
  network = codes "lan";
  mac_address = codes "00:50:56:00:00:01";
  notes = [];
  destroy = false;
  vapp = record { properties = []; deployment_option = [] };
  storage_config = record { disk_controller_type = []; storage = [] };
}

abbrev ova_step : CloneStep
ova_step = record { config = from_ova; location = some_location; force = false }

validate_source-IsChecked_example :
    IsChecked simple_host ova_source
      (validate_source simple_host (ovf_request ova_step (cleaned ova_source) (codes "datastore1")))
validate_source-IsChecked_example =
    validate_source-IsChecked simple_host ova_step ova_source (codes "datastore1") ova_accepted

-- The second file of the lease is missing in the archive.
abbrev simple_driver : OvfDriver
simple_driver = record {
  descriptor = λ r. ok (record { faults = []; networks = codes "VM Network" ∷ []; options = [] });
  find_folder = λ name. ok name;
  find_resource_pool = λ cluster host pool. ok cluster;
  find_datastore = λ name host. ok name;
  find_network = λ name. ok name;
  find_host = λ name. ok name;
  create_import_spec = λ r pool store params. ok [];
  import_vapp = λ pool folder. ok tt;
  lease_wait = ok (record {
    items = codes "disk-0.vmdk" ∷ codes "disk-1.vmdk" ∷ [];
    entity = some (codes "vm-7");
  });
  open_archive = λ r. ok tt;
  upload = λ f. if text_eq f (codes "disk-1.vmdk") then err (codes "not found") else ok tt;
  lease_complete = ok tt;
  network_adapter = λ vm. ok (codes "ethernet-0");
  reconfigure = λ vm change. ok tt;
}

abbrev ova_request : OvfRequest
ova_request = ovf_request ova_step ova_source (codes "datastore1")

upload_and_complete_cases_example :
    IsAborted (upload_and_complete simple_driver ova_request)
    ⊎ IsCompleted simple_driver (upload_and_complete simple_driver ova_request)
upload_and_complete_cases_example = upload_and_complete_cases simple_driver ova_request
