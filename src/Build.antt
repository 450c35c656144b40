-- ===== src/Build.antt =====
-- builder/vsphere/clone/config.go and iso/config.go, with the parts of a configuration under
-- builder/vsphere/common: what the user gives for a build, and the errors of its preparation.
pub mod Hardware
pub mod Options
pub mod Configure
use packer_plugin_vsphere.Base.{ℕ, Bool, Option, List, ℤ, Text}

pub data BuildError : Type 0 where
  server_required username_required password_required : BuildError
  reserve_twice unknown_firmware vtpm_needs_efi unknown_clock boot_delay_range : BuildError
  vbs_needs_vvtd vbs_needs_nested vbs_needs_secure_boot : BuildError
  periodic_needs_sync : BuildError
  invalid_wait_address : Text → BuildError
  negative_adapter_index : BuildError
  host_for_disabled_wait : BuildError

pub record PciDevice : Type 0 where
  pub vendor_id : Text
  pub device_id : Text
  pub sub_vendor_id : Text
  pub sub_device_id : Text

pub record HardwareConfig : Type 0 where
  pub cpus : ℤ
  pub cpu_cores : ℤ
  pub cpu_reservation : ℤ
  pub cpu_limit : ℤ
  pub cpu_hot_add : Bool
  pub ram : ℤ
  pub ram_reservation : ℤ
  pub ram_reserve_all : Bool
  pub memory_hot_add : Bool
  pub video_ram : ℤ
  pub displays : ℤ
  pub allowed_devices : List PciDevice
  pub vgpu_profile : Text
  pub nested_hv : Bool
  pub firmware : Text
  pub force_bios_setup : Bool
  pub boot_delay : ℤ
  pub vtpm_enabled : Bool
  pub precision_clock : Text

pub record FlagConfig : Type 0 where
  pub vbs_enabled : Bool
  pub vvtd_enabled : Bool

-- A pointer that is `nil` is `none`.
pub record ParamsConfig : Type 0 where
  pub tools_sync_time : Option Bool
  pub tools_sync_time_periodically : Option Bool
  pub tools_upgrade_policy : Bool
  pub config_params : List (Text × Text)

pub record ConnectConfig : Type 0 where
  pub vcenter_server : Text
  pub username : Text
  pub password : Text

-- Times are in nanoseconds.
pub record WaitConfig : Type 0 where
  pub wait_timeout : ℕ
  pub settle_timeout : ℕ
  pub wait_address : Option Text
  pub wait_adapter_index : Option ℤ
  pub disable_ip_wait : Bool
