-- ===== src/Examples/Guests.antt =====
-- builder/vsphere/clone/step_customize.go, and step_shutdown.go, step_hardware.go and step_add_flag.go of
-- builder/vsphere/common and builder/vsphere/driver/vm.go: the theorems at
-- concrete inputs.
use packer_plugin_vsphere.Base.{
  codes, text_eq, pos, codes, text_eq, pos, codes, text_eq, pos, codes, text_eq, pos, ◌≡◌, refl,
  sym, ap, ◌∙◌, ◌⊎◌, inr, true, false, Option, none, some, List, [], ◌∷◌, arith, ℤ, pos, exists,
  All, Result, ok, Text, codes, text_eq, itoa,
}
use packer_plugin_vsphere.Build.{HardwareConfig, FlagConfig}
use packer_plugin_vsphere.Build.Configure.{
  Hardware, virtual_tpm, video_card, pci_passthrough, other_hardware, NewDevice, new_tpm, new_clock,
  Machine, is_tpm, configure,
}
use packer_plugin_vsphere.Build.Configure.Configured.{
  MachineLaws, IsSkipped, IsConfigured, configure-Configured,
}
use packer_plugin_vsphere.Build.Hardware.{
  prepare_hardware, prepare_flags, IsHardware, IsSecure, prepare_flags-IsHardware,
}
use packer_plugin_vsphere.Customize.{NetworkInterface, CustomizeConfig}
use packer_plugin_vsphere.Customize.Interfaces.{
  IpSettings, NetPackage, match_gateway, takes_gateway, ip_settings, nic_settings, nic_settings_map,
  mask_to_dotted,
}
use packer_plugin_vsphere.Customize.Gateways.{IsMask, IsMaskable}
use packer_plugin_vsphere.Customize.Turns.{InTurn, nic_settings_map-InTurn}
use packer_plugin_vsphere.Steps.Shutdown.{
  powered_off, powered_on, sleeps, PowerRound, ShutdownConfig, run_shutdown, power_round,
  is_powered_off,
}
use packer_plugin_vsphere.Steps.Shutdown.Off.{IsShutdown, is_last, run_shutdown-IsShutdown}

abbrev at_address : Text → NetworkInterface
at_address a = record {
  dns_server_list = [];
  dns_domain = [];
  ipv4_address = a;
  ipv4_netmask = pos 24;
  ipv6_address = [];
  ipv6_netmask = pos 0;
}

-- Three interfaces in the network of the gateway.
abbrev three_interfaces : CustomizeConfig
three_interfaces = record {
  linux_options = none;
  windows_options = none;
  windows_sysprep_file = [];
  windows_sysprep_text = codes "<unattend/>";
  network_interfaces =
      at_address (codes "10.0.0.2")
      ∷ at_address (codes "10.0.0.3")
      ∷ at_address (codes "10.0.0.4")
      ∷ [];
  ipv4_gateway = codes "10.0.0.1";
  ipv6_gateway = [];
  dns_server_list = [];
  dns_suffix_list = [];
}

-- Addresses are texts; a mask of 24 bits leaves the first five characters.
abbrev first_five : Text → Text
first_five (a ∷ b ∷ c ∷ d ∷ e ∷ s) = a ∷ b ∷ c ∷ d ∷ e ∷ []
first_five s = s

abbrev text_net : NetPackage Text
text_net = record {
  parse_ip = λ s. s;
  is_v4 = λ s. true;
  mask_ip = λ s mask. elim mask [ none ↦ [] | some bytes ↦ first_five s ];
  equal_ip = text_eq;
}

is_24 : IsMask (pos 24)
is_24 = (24, refl, ground arith)

three_masks : All IsMaskable three_interfaces.network_interfaces
three_masks = (inr is_24, (inr is_24, (inr is_24, tt)))

mask_24 : mask_to_dotted (pos 24) ≡ some (codes "255.255.255.0")
unfolding mask_to_dotted packer_plugin_vsphere.Customize.Interfaces.cidr_mask
    packer_plugin_vsphere.Customize.Interfaces.mask_byte itoa
    packer_plugin_vsphere.Customize.Interfaces.mask_bytes
mask_24 = refl

nic_settings_map-InTurn_example :
    (rs : List IpSettings) × (nic_settings_map (match_gateway text_net) three_interfaces ≡ some rs)
    × InTurn text_net three_interfaces false three_interfaces.network_interfaces rs
nic_settings_map-InTurn_example = nic_settings_map-InTurn text_net three_interfaces three_masks

abbrev command_config : ShutdownConfig
command_config = record { command = codes "poweroff"; timeout = 300; disable_shutdown = false }

abbrev started : Text → Option Text
started command = none

abbrev going_off : List PowerRound
going_off =
    record { answer = ok powered_on; selected = sleeps }
    ∷ record { answer = ok powered_off; selected = sleeps }
    ∷ []

goes_off : exists is_last going_off ≡ true
unfolding power_round is_powered_off
goes_off = refl

run_shutdown-IsShutdown_example :
    IsShutdown
      (ok powered_on)
      going_off
      (run_shutdown command_config (some started) none (ok powered_on) going_off)
run_shutdown-IsShutdown_example =
    run_shutdown-IsShutdown command_config (some started) none (ok powered_on) going_off goes_off

abbrev secure_hardware : HardwareConfig
secure_hardware = record {
  cpus = pos 2;
  cpu_cores = pos 1;
  cpu_reservation = pos 0;
  cpu_limit = pos 0;
  cpu_hot_add = false;
  ram = pos 4096;
  ram_reservation = pos 0;
  ram_reserve_all = true;
  memory_hot_add = false;
  video_ram = pos 0;
  displays = pos 0;
  allowed_devices = [];
  vgpu_profile = [];
  nested_hv = true;
  firmware = codes "efi-secure";
  force_bios_setup = false;
  boot_delay = pos 1000;
  vtpm_enabled = true;
  precision_clock = codes "ptp";
}

abbrev secure_flags : FlagConfig
secure_flags = record { vbs_enabled = true; vvtd_enabled = true }

hardware_accepted : prepare_hardware secure_hardware ≡ []
unfolding prepare_hardware text_eq
hardware_accepted = refl

flags_accepted : prepare_flags secure_flags secure_hardware ≡ []
unfolding prepare_flags text_eq
flags_accepted = refl

prepare_flags-IsHardware_example :
    IsHardware secure_hardware × (true ≡ false ⊎ IsSecure secure_flags secure_hardware)
prepare_flags-IsHardware_example =
    prepare_flags-IsHardware secure_hardware secure_flags hardware_accepted flags_accepted

-- A machine is its list of devices.
abbrev without_tpms : List Hardware → List Hardware
without_tpms [] = []
without_tpms (virtual_tpm ∷ ds) = without_tpms ds
without_tpms (video_card v ∷ ds) = video_card v ∷ without_tpms ds
without_tpms (pci_passthrough b ∷ ds) = pci_passthrough b ∷ without_tpms ds
without_tpms (other_hardware ∷ ds) = other_hardware ∷ without_tpms ds

abbrev add_to : NewDevice → List Hardware → Result Text (List Hardware)
add_to new_tpm h = ok (virtual_tpm ∷ h)
add_to (new_clock k) h = ok (other_hardware ∷ h)

abbrev listed : Machine (List Hardware)
listed = record {
  devices = λ h. ok h;
  reconfigure = λ s h. ok h;
  add_device = add_to;
  remove_tpms = λ h. ok (without_tpms h);
}

without_tpms-none : (ds : List Hardware) → exists is_tpm (without_tpms ds) ≡ false
without_tpms-none [] = refl
without_tpms-none (virtual_tpm ∷ ds) = without_tpms-none ds
without_tpms-none (video_card v ∷ ds) = without_tpms-none ds
without_tpms-none (pci_passthrough b ∷ ds) = without_tpms-none ds
without_tpms-none (other_hardware ∷ ds) = without_tpms-none ds

listed_laws : MachineLaws listed
listed_laws = record {
  add_tpm = λ h h' ds e d. let p : virtual_tpm ∷ h ≡ ds = cc in ap (exists is_tpm) (sym p);
  remove_tpm = λ h h' ds e d.
      let p : without_tpms h ≡ ds = cc in ap (exists is_tpm) (sym p) ∙ without_tpms-none h;
  add_clock = λ k h h' ds e d.
      let p : other_hardware ∷ h ≡ ds = cc in (h, refl, ap (exists is_tpm) (sym p));
}

abbrev parses : Text → Result Text ℤ
parses s = ok (pos 16)

secure_configured :
    configure listed parses secure_hardware [] ≡ ok (other_hardware ∷ virtual_tpm ∷ [])
unfolding configure packer_plugin_vsphere.Build.Configure.with_vgpu
    packer_plugin_vsphere.Build.Configure.apply_spec
    packer_plugin_vsphere.Build.Configure.change_allowed text_eq
secure_configured = refl

configure-Configured_example :
    ([] ≡ other_hardware ∷ virtual_tpm ∷ [])
      × IsSkipped listed listed_laws parses secure_hardware []
    ⊎ IsConfigured listed listed_laws parses secure_hardware [] (other_hardware ∷ virtual_tpm ∷ [])
configure-Configured_example =
    configure-Configured listed listed_laws parses secure_hardware []
      (other_hardware ∷ virtual_tpm ∷ []) secure_configured
