-- ===== src/Controller/Runtime.antt =====
-- builder/vsphere/driver/controller_address.go: the validation of an address against the devices of
-- the virtual machine, when the disks are attached.
use packer_plugin_vsphere.Base.{
  ℕ, ◌≡◌, ◌↔◌, Bool, true, false, Option, none, some, List, ◌++◌, arith, ltb, exists, Result, ok,
  err, ◌>>=◌, ◌>>◌, fail_if, Text, text_eq, itoa,
}
use packer_plugin_vsphere.Controller.{
  ControllerKind, ControllerAddress, kind_prefix, Controller, Device, is_scsi_class, StorageError,
  unit_already_assigned, unit_exceeds_maximum, unit_in_use, controller_not_found, no_type_left,
}
use packer_plugin_vsphere.Controller.Address.{parse_controller_unit, address_text}
use packer_plugin_vsphere.Controller.Devices.{
  find_controller_by_bus, max_unit_for_kind, max_unit, find_controller_by_bus-some,
  controller_bus_number,
}
use packer_plugin_vsphere.Controller.Units.{
  occupied_units, list_available_units, format_available_units, mem_unit,
  mem_unit-list_available_units,
}

-- The key `raw` is in the map; a nil map has no keys.
is_pending : Text → Option (List Text) → Bool
is_pending raw none = false
is_pending raw (some units) = exists (text_eq raw) units

check_unit : List Device → Text → ControllerAddress → Controller → Result StorageError (Unit {0})
check_unit ds raw a c = do
  fail_if (ltb (max_unit_for_kind a.kind (some c)) a.unit)
      (unit_exceeds_maximum raw (max_unit_for_kind a.kind (some c)))
  fail_if (mem_unit a.unit (occupied_units ds c))
      (unit_in_use (address_text a) (format_available_units (list_available_units ds c)))

check_controller :
    List Device → Text → ControllerAddress → Option Controller → Result StorageError (Unit {0})
check_controller ds raw a none = ok tt
check_controller ds raw a (some c) = check_unit ds raw a c

check_runtime :
    List Device → Text → Option (List Text) → ControllerAddress → Result StorageError (Unit {0})
check_runtime ds raw pending a = do
  fail_if (is_pending raw pending) (unit_already_assigned raw)
  check_controller ds raw a (find_controller_by_bus ds a.kind a.bus)

unfoldable pub validate_controller_unit_runtime :
    List Device → Text → Option (List Text) → Result StorageError (Unit {0})
unfolding check_runtime check_controller check_unit is_pending
validate_controller_unit_runtime ds raw pending =
    parse_controller_unit raw >>= check_runtime ds raw pending

controller_label : ControllerAddress → Text
controller_label a = kind_prefix a.kind ++ itoa a.bus

not_found_of : List Text → Result StorageError ControllerAddress → StorageError
not_found_of available (err e) = e
not_found_of available (ok a) = controller_not_found (controller_label a) available

unfoldable pub controller_not_found_error : Text → List Text → StorageError
unfolding not_found_of controller_label
controller_not_found_error raw available = not_found_of available (parse_controller_unit raw)

exhausted_of : Result StorageError ControllerAddress → StorageError
exhausted_of (err e) = e
exhausted_of (ok a) = no_type_left (controller_label a)

unfoldable pub type_pool_exhausted_error : Text → StorageError
unfolding exhausted_of controller_label
type_pool_exhausted_error raw = exhausted_of (parse_controller_unit raw)

-- A SCSI controller sits on its own bus at unit 7, as vSphere places it.
abbrev pub HasReservedUnit : Controller → Type 0
HasReservedUnit c = is_scsi_class c.class ≡ true → c.scsi_ctlr_unit_number ≡ 7

reserved_occupied :
    (ds : List Device) (c : Controller)
    → HasReservedUnit c
    → is_scsi_class c.class ≡ true
    → mem_unit 7 (occupied_units ds c) ≡ true
unfolding occupied_units
reserved_occupied ds c h s = ground (arith, h s)

max_unit_at_bus :
    (c : Controller) (k : ControllerKind) (b : ℕ)
    → controller_bus_number c ≡ some (k, b)
    → max_unit_for_kind k (some c) ≡ max_unit c
unfolding max_unit
max_unit_at_bus c k b h = ground arith

-- Where the controller of an address exists, carries its own unit at 7 if it is a SCSI one, and the
-- address is not pending, the address is accepted exactly if its unit is one of those that are
-- listed as available.
pub validate_runtime_iff :
    (ds : List Device) (raw : Text) (pending : List Text) (a : ControllerAddress) (c : Controller)
    → parse_controller_unit raw ≡ ok a
    → find_controller_by_bus ds a.kind a.bus ≡ some c
    → HasReservedUnit c
    → exists (text_eq raw) pending ≡ false
    → (validate_controller_unit_runtime ds raw (some pending) ≡ ok tt)
      ↔ (mem_unit a.unit (list_available_units ds c) ≡ true)
unfolding validate_controller_unit_runtime
validate_runtime_iff ds raw pending a c p f r q = (
  λ h. ground (
    arith,
    mem_unit-list_available_units ds c a.unit,
    reserved_occupied ds c r,
    max_unit_at_bus c a.kind a.bus (find_controller_by_bus-some ds a.kind a.bus f).1,
  ),
  λ h. ground (
    arith,
    mem_unit-list_available_units ds c a.unit,
    max_unit_at_bus c a.kind a.bus (find_controller_by_bus-some ds a.kind a.bus f).1,
  ),
)
