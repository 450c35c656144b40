-- ===== src/Controller/Static.antt =====
-- builder/vsphere/driver/controller_address.go: the validation of an address against the limits of
-- vSphere and the configured controller types, before any device is read.
use packer_plugin_vsphere.Base.{
  ℕ, zero, suc, ◌≤◌, ◌≡◌, ◌≢◌, inl, inr, true, false, ◌&&◌, not, Option, none, some, List, [], ◌∷◌,
  arith, ltb, ◌==◌, if◌then◌else◌, Option-cases, get_elem?, exists, Result, ok, err, ◌>>=◌, ◌>>◌,
  fail_if, Result-cases, Text, codes, text_eq, text_eq_iff,
}
use packer_plugin_vsphere.Controller.{
  ControllerKind, scsi, nvme, sata, kind_eq, ControllerAddress, kind_for_type,
  display_name_for_type, contains_pvscsi_type, type_pvscsi, type_nvme, type_sata, max_pvscsi_unit,
  max_lsi_scsi_unit, max_nvme_unit, max_sata_unit, max_controller_bus_number,
  scsi_reserved_unit_number, supported_disk_controller_types, StorageError, bus_out_of_range,
  unit_is_reserved, type_of_wrong_kind, unit_out_of_range, unsupported_type,
}
use packer_plugin_vsphere.Controller.Address.{parse_controller_unit}
use packer_plugin_vsphere.Controller.Devices.{max_unit_for_kind}

unfoldable pub max_unit_for_type : Text → ControllerKind → ℕ
max_unit_for_type t nvme = max_nvme_unit
max_unit_for_type t sata = max_sata_unit
max_unit_for_type t scsi = if text_eq t type_pvscsi then max_pvscsi_unit else max_lsi_scsi_unit

unfoldable pub static_display_name : ControllerKind → List Text → ℕ → Text
unfolding display_name_for_type contains_pvscsi_type
static_display_name nvme ts i = display_name_for_type type_nvme
static_display_name sata ts i = display_name_for_type type_sata
static_display_name scsi ts i = elim (get_elem? ts i) [
  | some t ↦ display_name_for_type t
  | none ↦ if contains_pvscsi_type ts then display_name_for_type type_pvscsi else codes "SCSI"
]

unfoldable pub static_max_unit : ControllerKind → List Text → ℕ → ℕ
unfolding max_unit_for_type max_unit_for_kind
static_max_unit k ts i = elim (get_elem? ts i) [
  | some t ↦ max_unit_for_type t k
  | none ↦
      if kind_eq k scsi && contains_pvscsi_type ts
      then max_pvscsi_unit
      else max_unit_for_kind k none
]

-- The entry of `disk_controller_type` at the index is of the family of the address.
check_type_entry : Text → ControllerAddress → ℕ → Option Text → Result StorageError (Unit {0})
check_type_entry raw a i none = ok tt
check_type_entry raw a i (some t) =
    fail_if (not (kind_eq (kind_for_type t) a.kind)) (type_of_wrong_kind raw a i t)

-- The checks of a parsed address; its numbers are not negative.
check_address : Text → List Text → ℕ → ControllerAddress → Result StorageError (Unit {0})
unfolding check_type_entry
check_address raw ts i a = do
  fail_if (ltb max_controller_bus_number a.bus) (bus_out_of_range raw)
  fail_if (kind_eq a.kind scsi && a.unit == scsi_reserved_unit_number) (unit_is_reserved raw)
  check_type_entry raw a i (get_elem? ts i)
  fail_if (ltb (static_max_unit a.kind ts i) a.unit)
      (unit_out_of_range raw (static_max_unit a.kind ts i) (static_display_name a.kind ts i))

unfoldable pub validate_controller_unit_static_for_config :
    Text → List Text → ℕ → Result StorageError (Unit {0})
unfolding check_address
validate_controller_unit_static_for_config raw ts i =
    parse_controller_unit raw >>= check_address raw ts i

unfoldable pub validate_controller_unit_static : Text → Result StorageError (Unit {0})
unfolding validate_controller_unit_static_for_config
validate_controller_unit_static raw = validate_controller_unit_static_for_config raw [] 0

-- The loop of `ValidateDiskControllerTypes`, from the index of the first type.
unsupported_from : ℕ → List Text → Result StorageError (Unit {0})
unsupported_from i [] = ok tt
unsupported_from i (t ∷ ts) =
    let rest = unsupported_from (suc i) ts in
    if exists (text_eq t) supported_disk_controller_types then rest else err (unsupported_type t i)

unfoldable pub validate_disk_controller_types : List Text → Result StorageError (Unit {0})
unfolding unsupported_from
validate_disk_controller_types ts = unsupported_from 0 ts

-- What vSphere allows of an address, where the controller types are the configured ones.
pub record IsWithinLimits (ts : List Text) (i : ℕ) (a : ControllerAddress) : Type 0 where
  pub bus_limit : a.bus ≤ 3
  pub nvme_limit : a.kind ≡ nvme → a.unit ≤ 14
  pub sata_limit : a.kind ≡ sata → a.unit ≤ 29
  pub scsi_limit : a.kind ≡ scsi → a.unit ≤ 64
  pub lsi_limit : a.kind ≡ scsi → contains_pvscsi_type ts ≡ false → a.unit ≤ 15
  pub not_reserved : a.kind ≡ scsi → a.unit ≢ 7

get_elem-contains :
    (ts : List Text) (i : ℕ) {t : Text}
    → get_elem? ts i ≡ some t
    → text_eq t type_pvscsi ≡ true
    → contains_pvscsi_type ts ≡ true
unfolding contains_pvscsi_type
get_elem-contains [] i h e = absurd (ground arith)
get_elem-contains (s ∷ ts) zero {t} h e =
    ground (arith, text_eq_iff t type_pvscsi, text_eq_iff type_pvscsi s)
get_elem-contains (s ∷ ts) (suc i) h e = ground (arith, get_elem-contains ts i h e)

-- The largest unit that the validation allows, by kind.
static_max_unit_bounds :
    (k : ControllerKind) (ts : List Text) (i : ℕ)
    → (k ≡ nvme → static_max_unit k ts i ≤ 14)
      × (k ≡ sata → static_max_unit k ts i ≤ 29)
      × (k ≡ scsi → static_max_unit k ts i ≤ 64)
      × (k ≡ scsi → contains_pvscsi_type ts ≡ false → static_max_unit k ts i ≤ 15)
unfolding static_max_unit
static_max_unit_bounds k ts i = elim (Option-cases (get_elem? ts i)) [
  | inl e ↦ (λ q. ground arith, λ q. ground arith, λ q. ground arith, λ q r. ground arith)
  | inr (t, e) ↦ (
    λ q. ground arith,
    λ q. ground arith,
    λ q. ground arith,
    λ q r. ground (arith, get_elem-contains ts i {t = t} e),
  )
]

check_address-limits :
    (raw : Text) (ts : List Text) (i : ℕ) (a : ControllerAddress)
    → check_address raw ts i a ≡ ok tt
    → IsWithinLimits ts i a
unfolding check_address
check_address-limits raw ts i a h =
    let (nv, sa, sc, ls) = static_max_unit_bounds a.kind ts i in
    record {
      bus_limit = ground arith;
      nvme_limit = λ q. ground (arith, nv q);
      sata_limit = λ q. ground (arith, sa q);
      scsi_limit = λ q. ground (arith, sc q);
      lsi_limit = λ q r. ground (arith, ls q r);
      not_reserved = λ q. ground arith;
    }

-- An address that the static validation accepts is parsed, and keeps vSphere's limits: bus 0 to 3;
-- unit at most 14 for NVMe, 29 for SATA, 64 for SCSI, where it is not the reserved unit 7, and at
-- most 15 unless some configured controller type is PVSCSI.
pub validate_static-IsWithinLimits :
    (raw : Text) (ts : List Text) (i : ℕ)
    → validate_controller_unit_static_for_config raw ts i ≡ ok tt
    → (a : ControllerAddress) × (parse_controller_unit raw ≡ ok a) × IsWithinLimits ts i a
unfolding validate_controller_unit_static_for_config
validate_static-IsWithinLimits raw ts i h = elim (Result-cases (parse_controller_unit raw)) [
  | inl (e, q) ↦ absurd (ground arith)
  | inr (a, q) ↦ (a, q, check_address-limits raw ts i a (rw q at h))
]
