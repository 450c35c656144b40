-- ===== src/Build/Hardware.antt =====
-- builder/vsphere/common/step_hardware.go and step_add_flag.go: the settings of the hardware.
use packer_plugin_vsphere.Base.{
  ℕ, zero, suc, ◌≤◌, ◌≡◌, refl, ◌⊎◌, inl, inr, Bool, true, false, ◌&&◌, ◌||◌, not, List, [], ◌∷◌,
  ◌++◌, arith, ltb, if◌then◌else◌, Bool-cases, ℤ, pos, negsuc, int_eq, is_empty, Text, codes,
  text_eq, text_eq_iff,
}
use packer_plugin_vsphere.Config.{error_if, error_if-nil, append_nil_left}
use packer_plugin_vsphere.Build.{
  BuildError, reserve_twice, unknown_firmware, vtpm_needs_efi, unknown_clock, boot_delay_range,
  vbs_needs_vvtd, vbs_needs_nested, vbs_needs_secure_boot, HardwareConfig, FlagConfig,
}

abbrev pub is_positive : ℤ → Bool
is_positive (pos zero) = false
is_positive (pos (suc n)) = true
is_positive (negsuc n) = false

abbrev pub is_zero : ℤ → Bool
is_zero n = int_eq n (pos 0)

-- `n < 0 || n > limit`.
abbrev pub is_outside : ℕ → ℤ → Bool
is_outside limit (pos n) = ltb limit n
is_outside limit (negsuc n) = true

abbrev pub is_efi : Text → Bool
is_efi f = text_eq f (codes "efi") || text_eq f (codes "efi-secure")

-- `HardwareConfig.Prepare`.
unfoldable pub prepare_hardware : HardwareConfig → List BuildError
prepare_hardware c =
    error_if (is_positive c.ram_reservation && c.ram_reserve_all) reserve_twice
    ++ (error_if
          (not (is_empty c.firmware)
            && (not (text_eq c.firmware (codes "bios")) && not (is_efi c.firmware)))
          unknown_firmware
        ++ (error_if (c.vtpm_enabled && not (is_efi c.firmware)) vtpm_needs_efi
            ++ (error_if
                  (not (is_empty c.precision_clock)
                    && (not (text_eq c.precision_clock (codes "ptp"))
                        && (not (text_eq c.precision_clock (codes "ntp"))
                            && not (text_eq c.precision_clock (codes "none")))))
                  unknown_clock
                ++ error_if (is_outside 10000 c.boot_delay) boot_delay_range)))

-- `FlagConfig.Prepare`, where the hardware is given.
unfoldable pub prepare_flags : FlagConfig → HardwareConfig → List BuildError
prepare_flags c h =
    if c.vbs_enabled
    then error_if (not c.vvtd_enabled) vbs_needs_vvtd
      ++ (error_if (not h.nested_hv) vbs_needs_nested
          ++ error_if (not (text_eq h.firmware (codes "efi-secure"))) vbs_needs_secure_boot)
    else []

-- `hasCustomHardwareConfig`.
unfoldable pub has_custom_hardware : HardwareConfig → Bool
has_custom_hardware c =
    (not (is_zero c.cpus)
      || not (is_zero c.cpu_cores)
      || not (is_zero c.cpu_reservation)
      || not (is_zero c.cpu_limit))
    || (not (is_zero c.ram) || not (is_zero c.ram_reservation) || c.ram_reserve_all)
    || (c.cpu_hot_add || c.memory_hot_add)
    || (not (is_zero c.video_ram) || not (is_zero c.displays))
    || c.nested_hv
    || not (is_empty c.vgpu_profile)
    || (not (is_empty c.firmware)
        || c.force_bios_setup
        || is_positive c.boot_delay
        || c.vtpm_enabled)
    || not (is_empty c.precision_clock)
    || not (is_empty c.allowed_devices)

-- What accepted hardware and flags are.
pub record IsHardware (c : HardwareConfig) : Type 0 where
  pub reserved_once : is_positive c.ram_reservation ≡ false ⊎ (c.ram_reserve_all ≡ false)
  pub known_firmware :
      c.firmware ≡ []
      ⊎ (c.firmware ≡ codes "bios" ⊎ (c.firmware ≡ codes "efi" ⊎ (c.firmware ≡ codes "efi-secure")))
  pub vtpm_on_efi :
      c.vtpm_enabled ≡ false ⊎ (c.firmware ≡ codes "efi" ⊎ (c.firmware ≡ codes "efi-secure"))
  pub known_clock :
      c.precision_clock ≡ []
      ⊎ (c.precision_clock ≡ codes "ptp"
          ⊎ (c.precision_clock ≡ codes "ntp" ⊎ (c.precision_clock ≡ codes "none")))
  pub boot_delay : (n : ℕ) × (c.boot_delay ≡ pos n) × (n ≤ 10000)

pub record IsSecure (c : FlagConfig) (h : HardwareConfig) : Type 0 where
  pub vvtd : c.vvtd_enabled ≡ true
  pub nested : h.nested_hv ≡ true
  pub secure_boot : h.firmware ≡ codes "efi-secure"

delay_inside : (n : ℤ) → is_outside 10000 n ≡ false → (k : ℕ) × (n ≡ pos k) × (k ≤ 10000)
delay_inside (pos n) h = (n, refl, ground arith)
delay_inside (negsuc n) h = absurd (ground arith)

firmware_known :
    (f : Text)
    → (not (is_empty f) && (not (text_eq f (codes "bios")) && not (is_efi f))) ≡ false
    → f ≡ [] ⊎ (f ≡ codes "bios" ⊎ (f ≡ codes "efi" ⊎ (f ≡ codes "efi-secure")))
firmware_known [] h = inl refl
firmware_known (c ∷ cs) h = ground (
  arith,
  text_eq_iff (c ∷ cs) (codes "bios"),
  text_eq_iff (c ∷ cs) (codes "efi"),
  text_eq_iff (c ∷ cs) (codes "efi-secure"),
)

vtpm_known :
    (b : Bool) (f : Text)
    → (b && not (is_efi f)) ≡ false
    → b ≡ false ⊎ (f ≡ codes "efi" ⊎ (f ≡ codes "efi-secure"))
vtpm_known false f h = inl refl
vtpm_known true f h =
    ground (arith, text_eq_iff f (codes "efi"), text_eq_iff f (codes "efi-secure"))

clock_known :
    (k : Text)
    → (not (is_empty k)
        && (not (text_eq k (codes "ptp"))
            && (not (text_eq k (codes "ntp")) && not (text_eq k (codes "none")))))
      ≡ false
    → k ≡ [] ⊎ (k ≡ codes "ptp" ⊎ (k ≡ codes "ntp" ⊎ (k ≡ codes "none")))
clock_known [] h = inl refl
clock_known (c ∷ cs) h = ground (
  arith,
  text_eq_iff (c ∷ cs) (codes "ptp"),
  text_eq_iff (c ∷ cs) (codes "ntp"),
  text_eq_iff (c ∷ cs) (codes "none"),
)

prepare_hardware-IsHardware : (c : HardwareConfig) → prepare_hardware c ≡ [] → IsHardware c
unfolding prepare_hardware
prepare_hardware-IsHardware c h =
    let (a, h₁) =
      append_nil_left (error_if (is_positive c.ram_reservation && c.ram_reserve_all) reserve_twice)
        _ h in
    let (b, h₂) =
      append_nil_left
        (error_if
          (not (is_empty c.firmware)
            && (not (text_eq c.firmware (codes "bios")) && not (is_efi c.firmware)))
          unknown_firmware)
        _ h₁ in
    let (v, h₃) =
      append_nil_left (error_if (c.vtpm_enabled && not (is_efi c.firmware)) vtpm_needs_efi) _ h₂ in
    let (p, d) = append_nil_left (error_if _ unknown_clock) _ h₃ in
    let once = error_if-nil (is_positive c.ram_reservation && c.ram_reserve_all) reserve_twice a in
    record {
      reserved_once = ground arith;
      known_firmware = firmware_known c.firmware (error_if-nil _ unknown_firmware b);
      vtpm_on_efi = vtpm_known c.vtpm_enabled c.firmware (error_if-nil _ vtpm_needs_efi v);
      known_clock = clock_known c.precision_clock (error_if-nil _ unknown_clock p);
      boot_delay = delay_inside c.boot_delay (error_if-nil _ boot_delay_range d);
    }

prepare_flags-IsSecure :
    (c : FlagConfig) (h : HardwareConfig)
    → prepare_flags c h ≡ []
    → c.vbs_enabled ≡ false ⊎ IsSecure c h
unfolding prepare_flags
prepare_flags-IsSecure c h q = elim (Bool-cases c.vbs_enabled) [
  | inr e ↦ inl e
  | inl e ↦ inr (record {
    vvtd = ground arith;
    nested = ground arith;
    secure_boot = ground (arith, text_eq_iff h.firmware (codes "efi-secure"));
  })
]

-- Hardware that `Prepare` accepts reserves memory in one way at most, has a firmware and a precision
-- clock that are known or not given, a vTPM only with EFI firmware, and a boot delay of 0 to 10000;
-- and if the flags are accepted with it and ask for virtualization-based security, they ask for VVTD
-- and the hardware has nested virtualization and EFI firmware with secure boot.
pub prepare_flags-IsHardware :
    (h : HardwareConfig) (c : FlagConfig)
    → prepare_hardware h ≡ []
    → prepare_flags c h ≡ []
    → IsHardware h × (c.vbs_enabled ≡ false ⊎ IsSecure c h)
prepare_flags-IsHardware h c a b = (prepare_hardware-IsHardware h a, prepare_flags-IsSecure c h b)
