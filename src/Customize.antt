-- ===== src/Customize.antt =====
-- builder/vsphere/clone/step_customize.go: the options of a customization, their preparation and the
-- identity they give the guest.
pub mod Interfaces
pub mod Gateways
pub mod Turns
use packer_plugin_vsphere.Base.{
  ℕ, ◌+◌, Bool, true, false, not, Option, none, some, List, [], ◌∷◌, ◌++◌, ltb, ◌==◌, if◌then◌else◌,
  is_none, ℤ, pos, is_empty, Result, ok, err, map_err, Text, codes,
}
use packer_plugin_vsphere.Config.{error_if}

pub record LinuxOptions : Type 0 where
  pub domain : Text
  pub host_name : Text
  pub hw_clock_utc : Option Bool
  pub time_zone : Text

-- A pointer that is `nil` is `none`.
pub record WindowsOptions : Type 0 where
  pub run_once_command_list : List Text
  pub auto_logon : Option Bool
  pub auto_logon_count : Option ℤ
  pub admin_password : Option Text
  pub time_zone : Option ℤ
  pub workgroup : Text
  pub computer_name : Text
  pub full_name : Text
  pub organization_name : Text
  pub product_key : Text

pub record NetworkInterface : Type 0 where
  pub dns_server_list : List Text
  pub dns_domain : Text
  pub ipv4_address : Text
  pub ipv4_netmask : ℤ
  pub ipv6_address : Text
  pub ipv6_netmask : ℤ

pub record CustomizeConfig : Type 0 where
  pub linux_options : Option LinuxOptions
  pub windows_options : Option WindowsOptions
  pub windows_sysprep_file : Text
  pub windows_sysprep_text : Text
  pub network_interfaces : List NetworkInterface
  pub ipv4_gateway : Text
  pub ipv6_gateway : Text
  pub dns_server_list : List Text
  pub dns_suffix_list : List Text

pub data CustomizeError : Type 0 where
  no_interface several_options no_option : CustomizeError
  host_name_required domain_required computer_name_required : CustomizeError
  customize_failed : Text → CustomizeError
  file_unreadable : Text → Text → CustomizeError
  no_identity : CustomizeError

abbrev pub count_if : Bool → ℕ
count_if true = 1
count_if false = 0

-- `optionsNumber`.
unfoldable pub options_number : CustomizeConfig → ℕ
options_number c =
    count_if (not (is_none c.linux_options))
    + (count_if (not (is_none c.windows_options))
        + (count_if (not (is_empty c.windows_sysprep_file))
            + count_if (not (is_empty c.windows_sysprep_text))))

abbrev pub linux_errors : Option LinuxOptions → List CustomizeError
linux_errors none = []
linux_errors (some l) =
    error_if (is_empty l.host_name) host_name_required
    ++ error_if (is_empty l.domain) domain_required

abbrev pub windows_errors : Option WindowsOptions → List CustomizeError
windows_errors none = []
windows_errors (some w) = error_if (is_empty w.computer_name) computer_name_required

-- The errors of `CustomizeConfig.Prepare`.
unfoldable pub prepare_customize : CustomizeConfig → List CustomizeError
prepare_customize c =
    error_if (is_empty c.network_interfaces) no_interface
    ++ ((if ltb 1 (options_number c)
          then several_options ∷ []
          else error_if (options_number c == 0) no_option)
        ++ (linux_errors c.linux_options ++ windows_errors c.windows_options))

-- The defaults that the preparation of the options sets.
unfoldable pub linux_defaults : LinuxOptions → LinuxOptions
linux_defaults l = record l {
  hw_clock_utc = elim l.hw_clock_utc [ none ↦ some true | some b ↦ some b ];
  time_zone = if is_empty l.time_zone then codes "UTC" else l.time_zone;
}

unfoldable pub windows_defaults : WindowsOptions → WindowsOptions
windows_defaults w = record w {
  full_name = if is_empty w.full_name then codes "Administrator" else w.full_name;
  organization_name =
      if is_empty w.organization_name then codes "Built by Packer" else w.organization_name;
}

-- The library's `CustomizationLinuxPrep` and `CustomizationSysprep`.
pub record LinuxPrep : Type 0 where
  pub host_name : Text
  pub domain : Text
  pub time_zone : Text
  pub hw_clock_utc : Option Bool

pub record Sysprep : Type 0 where
  pub time_zone : ℤ
  pub auto_logon : Bool
  pub auto_logon_count : ℤ
  pub password : Option Text
  pub full_name : Text
  pub org_name : Text
  pub computer_name : Text
  pub product_id : Text
  pub command_list : List Text
  pub join_workgroup : Text

-- `linuxPrep`.
unfoldable pub linux_prep : LinuxOptions → LinuxPrep
linux_prep l = record {
  host_name = l.host_name;
  domain = l.domain;
  time_zone = l.time_zone;
  hw_clock_utc = l.hw_clock_utc;
}

-- `intValue` and `boolValue`.
abbrev pub value_or {ℓ} : {A : Type ℓ} → Option A → A → A
value_or none fallback = fallback
value_or (some x) fallback = x

-- `guiRunOnce`.
unfoldable pub gui_run_once : WindowsOptions → List Text
gui_run_once w = if is_empty w.run_once_command_list then [] ∷ [] else w.run_once_command_list

-- `sysprep`, with `guiUnattended`, `userData` and `identification`.
unfoldable pub sysprep : WindowsOptions → Sysprep
sysprep w = record {
  time_zone = value_or w.time_zone (pos 85);
  auto_logon = value_or w.auto_logon false;
  auto_logon_count = value_or w.auto_logon_count (pos 1);
  password = w.admin_password;
  full_name = w.full_name;
  org_name = w.organization_name;
  computer_name = w.computer_name;
  product_id = w.product_key;
  command_list = gui_run_once w;
  join_workgroup = w.workgroup;
}

pub data Identity : Type 0 where
  linux_identity : LinuxPrep → Identity
  windows_identity : Sysprep → Identity
  sysprep_text : Text → Identity

abbrev pub sysprep_of : Result CustomizeError Text → Result CustomizeError Identity
sysprep_of (err e) = err e
sysprep_of (ok text) = ok (sysprep_text text)

-- The identity where no options are given, with the reading of a file.
unfoldable pub sysprep_settings :
    (Text → Result Text Text) → CustomizeConfig → Result CustomizeError Identity
sysprep_settings read c =
    let file = c.windows_sysprep_file in
    if not (is_empty file)
    then sysprep_of (map_err (file_unreadable file) (read file))
    else if not (is_empty c.windows_sysprep_text)
    then ok (sysprep_text c.windows_sysprep_text)
    else err no_identity

unfoldable pub identity_from :
    (Text → Result Text Text)
    → CustomizeConfig
    → Option LinuxOptions
    → Option WindowsOptions
    → Result CustomizeError Identity
identity_from read c (some l) windows = ok (linux_identity (linux_prep l))
identity_from read c none (some w) = ok (windows_identity (sysprep w))
identity_from read c none none = sysprep_settings read c

-- `identitySettings`.
unfoldable pub identity_settings :
    (Text → Result Text Text) → CustomizeConfig → Result CustomizeError Identity
identity_settings read c = identity_from read c c.linux_options c.windows_options
