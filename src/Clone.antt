-- ===== src/Clone.antt =====
-- builder/vsphere/clone/step_clone.go: what the user gives for a clone, and the errors of its
-- preparation. A parsed URL and the kind of a file are asked of the host.
pub mod Prepare
pub mod Address
pub mod Accepted
pub mod Run
pub mod Deploy
pub mod Placed
pub mod Outcome
use packer_plugin_vsphere.Base.{Bool, Option, List, ℤ, Result, Text}
use packer_plugin_vsphere.Config.{StorageConfig, ConfigError}

pub record OvfSource : Type 0 where
  pub path : Text
  pub url : Text
  pub username : Text
  pub password : Text
  pub skip_tls_verify : Bool

pub record ContentLibrarySource : Type 0 where
  pub library : Text
  pub name : Text

pub record VAppConfig : Type 0 where
  pub properties : List (Text × Text)
  pub deployment_option : Text

pub record CloneConfig : Type 0 where
  pub template : Text
  pub ovf_source : Option OvfSource
  pub content_library_source : Option ContentLibrarySource
  pub disk_size : ℤ
  pub linked_clone : Bool
  pub network : Text
  pub mac_address : Text
  pub notes : Text
  pub destroy : Bool
  pub vapp : VAppConfig
  pub storage_config : StorageConfig

-- The names of the three sources in the messages.
pub data SourceName : Type 0 where
  template_source ovf_source_name library_source : SourceName

pub data CloneError : Type 0 where
  source_required : CloneError
  both_sources : SourceName → SourceName → CloneError
  url_and_path url_or_path_required : CloneError
  invalid_url : Text → CloneError
  url_scheme url_suffix path_suffix : CloneError
  path_missing path_directory : Text → CloneError
  path_unreadable : Text → Text → CloneError
  credentials_without_url tls_without_url password_required username_required : CloneError
  disk_size_with_ovf linked_clone_with_ovf types_with_ovf storage_with_ovf : CloneError
  library_required name_required linked_clone_with_library : CloneError
  storage_invalid : ConfigError → CloneError
  linked_clone_and_disk_size network_for_mac deployment_option_with_template : CloneError

-- `url.Parse`: the scheme, the host and the path.
pub record ParsedUrl : Type 0 where
  pub scheme : Text
  pub authority : Text
  pub path : Text

-- `os.Stat`, where `unreadable` holds the message of an error that is not `IsNotExist`.
pub data FileKind : Type 0 where
  missing directory file : FileKind
  unreadable : Text → FileKind

pub record Host : Type 0 where
  pub parse_url : Text → Result Text ParsedUrl
  pub stat : Text → FileKind
