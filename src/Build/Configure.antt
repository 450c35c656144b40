-- ===== src/Build/Configure.antt =====
-- builder/vsphere/common/step_hardware.go, and Configure and RemoveVTPM of
-- builder/vsphere/driver/vm.go: the hardware that a step gives a machine. What vSphere makes of a call
-- is a parameter; the hardware after a failed call is not followed.
pub mod Changes
pub mod Configured
use packer_plugin_vsphere.Base.{
  ℕ, ◌+◌, Bool, true, false, ◌&&◌, ◌||◌, not, Option, none, some, List, [], ◌∷◌, ◌++◌, ltb, ◌==◌,
  if◌then◌else◌, ℤ, length, is_empty, exists, Result, ok, ◌>>=◌, ◌>>◌, map_err, Text, codes,
  text_eq,
}
use packer_plugin_vsphere.Build.{HardwareConfig, FlagConfig, PciDevice}
use packer_plugin_vsphere.Build.Hardware.{is_zero, is_positive}

pub record VideoCard : Type 0 where
  pub key : ℤ
  pub video_ram : ℤ
  pub num_displays : ℤ

-- A passthrough device says whether it is backed by a vGPU.
pub data Hardware : Type 0 where
  video_card : VideoCard → Hardware
  pci_passthrough : Bool → Hardware
  virtual_tpm other_hardware : Hardware

-- The identifiers of an allowed device.
pub record PciIds : Type 0 where
  pub device_id : ℤ
  pub vendor_id : ℤ
  pub sub_vendor_id : ℤ
  pub sub_device_id : ℤ

pub data Operation : Type 0 where
  add edit unset : Operation

pub data HardwareChange : Type 0 where
  edit_card : VideoCard → HardwareChange
  vgpu_profile : Operation → Text → HardwareChange
  allow_devices : List PciIds → HardwareChange

pub record BootOptions : Type 0 where
  pub enter_bios_setup : Bool
  pub efi_secure_boot : Bool
  pub boot_delay : ℤ

-- A pointer that is left `nil` is `none`.
pub record ConfigSpec : Type 0 where
  pub num_cpus : ℤ
  pub cores_per_socket : Option ℤ
  pub memory_mb : ℤ
  pub cpu_reservation : Option ℤ
  pub cpu_limit : Option ℤ
  pub memory_reservation : Option ℤ
  pub reservation_locked : Option Bool
  pub nested_hv : Option Bool
  pub cpu_hot_add : Option Bool
  pub memory_hot_add : Option Bool
  pub device_change : List HardwareChange
  pub firmware : Text
  pub boot_options : Option BootOptions

pub data NewDevice : Type 0 where
  new_tpm : NewDevice
  new_clock : Text → NewDevice

-- The calls of the driver on a machine, each with the wait for its task.
pub record Machine (H : Type 0) : Type 0 where
  pub devices : H → Result Text (List Hardware)
  pub reconfigure : ConfigSpec → H → Result Text H
  pub add_device : NewDevice → H → Result Text H
  pub remove_tpms : H → Result Text H

abbrev pub given : ℤ → Option ℤ
given n = if is_zero n then none else some n

abbrev pub when_true : Bool → Option Bool
when_true true = some true
when_true false = none

-- The specification, with the changes of devices.
unfoldable pub config_spec : HardwareConfig → List HardwareChange → ConfigSpec
config_spec c changes =
    let secure = text_eq c.firmware (codes "efi-secure") in
    record {
      num_cpus = c.cpus;
      cores_per_socket = given c.cpu_cores;
      memory_mb = c.ram;
      cpu_reservation = given c.cpu_reservation;
      cpu_limit = given c.cpu_limit;
      memory_reservation = given c.ram_reservation;
      reservation_locked = when_true c.ram_reserve_all;
      nested_hv = when_true c.nested_hv;
      cpu_hot_add = when_true c.cpu_hot_add;
      memory_hot_add = when_true c.memory_hot_add;
      device_change = changes;
      firmware = if secure then codes "efi" else c.firmware;
      boot_options =
          if not (is_empty c.firmware) || c.force_bios_setup || is_positive c.boot_delay
          then some (record {
            enter_bios_setup = c.force_bios_setup;
            efi_secure_boot = secure;
            boot_delay = c.boot_delay;
          })
          else none;
    }

abbrev pub video_cards : List Hardware → List VideoCard
video_cards [] = []
video_cards (video_card v ∷ ds) = v ∷ video_cards ds
video_cards (pci_passthrough b ∷ ds) = video_cards ds
video_cards (virtual_tpm ∷ ds) = video_cards ds
video_cards (other_hardware ∷ ds) = video_cards ds

-- For each passthrough device, whether it is a vGPU.
abbrev pub pci_devices : List Hardware → List Bool
pci_devices [] = []
pci_devices (pci_passthrough b ∷ ds) = b ∷ pci_devices ds
pci_devices (video_card v ∷ ds) = pci_devices ds
pci_devices (virtual_tpm ∷ ds) = pci_devices ds
pci_devices (other_hardware ∷ ds) = pci_devices ds

abbrev pub count_true : List Bool → ℕ
count_true [] = 0
count_true (true ∷ bs) = 1 + count_true bs
count_true (false ∷ bs) = count_true bs

abbrev pub is_tpm : Hardware → Bool
is_tpm virtual_tpm = true
is_tpm (video_card v) = false
is_tpm (pci_passthrough b) = false
is_tpm other_hardware = false

abbrev pub changed : ℤ → ℤ → ℤ
changed old new = if is_zero new then old else new

-- The edit of the only video card; without exactly one, `Configure` returns no error (`none`).
abbrev pub edit_video : HardwareConfig → List VideoCard → Option (List HardwareChange)
edit_video c [] = none
edit_video c (v ∷ []) = some (
    edit_card (record v {
      video_ram = changed v.video_ram c.video_ram;
      num_displays = changed v.num_displays c.displays;
    })
    ∷ [])
edit_video c (v ∷ w ∷ vs) = none

abbrev pub asks_video : HardwareConfig → Bool
asks_video c = not (is_zero c.video_ram) || not (is_zero c.displays)

abbrev pub operation_for : ℕ → Operation
operation_for n = if n == 1 then edit else if n == 0 then add else unset

-- The change for a vGPU; with several, `Configure` returns no error (`none`).
abbrev pub change_vgpu : HardwareConfig → List Bool → Option (List HardwareChange)
change_vgpu c pci =
    if ltb 1 (count_true pci)
    then none
    else some (vgpu_profile (operation_for (length pci)) c.vgpu_profile ∷ [])

-- `newVirtualPCIPassthroughAllowedDevice`, with `strconv.ParseInt(s, 16, 32)`.
unfoldable pub allowed_ids : (Text → Result Text ℤ) → List PciDevice → Result Text (List PciIds)
allowed_ids parse [] = ok []
allowed_ids parse (d ∷ ds) =
    let rest = allowed_ids parse ds in
    do
      device ← parse d.device_id
      vendor ← parse d.vendor_id
      sub_vendor ← parse d.sub_vendor_id
      sub_device ← parse d.sub_device_id
      ids ← rest
      ok (
          record {
            device_id = device;
            vendor_id = vendor;
            sub_vendor_id = sub_vendor;
            sub_device_id = sub_device;
          }
          ∷ ids)

unfoldable pub change_allowed :
    (Text → Result Text ℤ) → List PciDevice → Result Text (List HardwareChange)
change_allowed parse [] = ok []
change_allowed parse (d ∷ ds) = do ids ← allowed_ids parse (d ∷ ds); ok (allow_devices ids ∷ [])

module _ {H : Type 0} (v : Machine H) (parse : Text → Result Text ℤ) (c : HardwareConfig) where
  -- `RemoveVTPM`.
  unfoldable pub remove_vtpm : H → Result Text H
  remove_vtpm h = do
    ds ← map_err (λ e. codes "error retrieving devices: " ++ e) (v.devices h)
    if exists is_tpm ds
        then map_err (λ e. codes "error removing vTPM: " ++ e) (v.remove_tpms h)
        else ok h

  abbrev pub match_tpm : H → List Hardware → Result Text H
  match_tpm h ds =
      let has = exists is_tpm ds in
      if (c.vtpm_enabled && has) || (not c.vtpm_enabled && not has)
      then ok h
      else if has
      then remove_vtpm h
      else v.add_device new_tpm h

  abbrev pub add_clock : H → Result Text H
  add_clock h =
      if not (is_empty c.precision_clock) && not (text_eq c.precision_clock (codes "none"))
      then v.add_device (new_clock c.precision_clock) h
      else ok h

  -- The end of `Configure`, with the changes of the devices.
  unfoldable pub apply_spec : H → List HardwareChange → Result Text H
  apply_spec h changes = do
    h₁ ← v.reconfigure (config_spec c changes) h
    ds ← v.devices h₁
    h₂ ← match_tpm h₁ ds
    add_clock h₂

  abbrev pub after_vgpu : H → List HardwareChange → Option (List HardwareChange) → Result Text H
  after_vgpu h video none = ok h
  after_vgpu h video (some vgpu) = do
    allowed ← change_allowed parse c.allowed_devices
    apply_spec h (video ++ (vgpu ++ allowed))

  unfoldable pub with_vgpu : H → List HardwareChange → Result Text H
  with_vgpu h video =
      if is_empty c.vgpu_profile
      then after_vgpu h video (some [])
      else v.devices h >>= λ ds. after_vgpu h video (change_vgpu c (pci_devices ds))

  abbrev pub after_video : H → Option (List HardwareChange) → Result Text H
  after_video h none = ok h
  after_video h (some video) = with_vgpu h video

  -- `Configure`, which `StepConfigureHardware.Run` calls with the settings as they are.
  unfoldable pub configure : H → Result Text H
  configure h =
      if asks_video c
      then (v.devices h >>= λ ds. after_video h (edit_video c (video_cards ds)))
      else after_video h (some [])
