-- ===== src/Config/Clone.antt =====
-- builder/vsphere/clone/storage_prepare.go: `CloneConfig.prepareStorage`. The maps are association
-- lists; the errors are collected in the order of the loop.
use packer_plugin_vsphere.Base.{
  ℕ, suc, Bool, ◌&&◌, not, Option, none, some, List, [], ◌∷◌, ◌++◌, ◌==◌, if◌then◌else◌, pos,
  int_eq, length, is_empty, exists, Result, ok, err, Text, text_eq,
}
use packer_plugin_vsphere.Controller.{ControllerKind, kind_eq, ControllerAddress, StorageError}
use packer_plugin_vsphere.Controller.Address.{parse_controller_unit}
use packer_plugin_vsphere.Controller.Static.{
  validate_controller_unit_static_for_config, validate_disk_controller_types,
}
use packer_plugin_vsphere.Config.{
  DiskConfig, StorageConfig, ConfigError, storage_error, at_storage, unit_and_index, unit_repeated,
  types_required, error_if,
}

-- A controller bus, of any unit.
pub record BusKey : Type 0 where
  pub kind : ControllerKind
  pub bus : ℕ

abbrev pub bus_key_eq : BusKey → BusKey → Bool
bus_key_eq a b = kind_eq a.kind b.kind && a.bus == b.bus

-- The variables of the loop; `all_explicit` is found by the caller.
pub record PrepareState : Type 0 where
  pub next_type_index : ℕ
  pub bus_type_index : List (BusKey × ℕ)
  pub seen_units : List (Text × ℕ)

unfoldable pub index_of_bus : BusKey → List (BusKey × ℕ) → Option ℕ
index_of_bus k [] = none
index_of_bus k ((j, i) ∷ m) = if bus_key_eq j k then some i else index_of_bus k m

unfoldable pub index_of_unit : Text → List (Text × ℕ) → Option ℕ
index_of_unit k [] = none
index_of_unit k ((j, i) ∷ m) = if text_eq j k then some i else index_of_unit k m

abbrev pub has_legacy : List DiskConfig → Bool
has_legacy ds = exists (λ d. is_empty d.disk_controller_unit) ds

-- The type index of an address: that of its bus, or the next one, which its bus then has.
unfoldable pub type_index_of : PrepareState → ControllerAddress → ℕ × PrepareState
type_index_of s a =
    let key : BusKey = record { kind = a.kind; bus = a.bus } in
    elim (index_of_bus key s.bus_type_index) [
      | some i ↦ (i, s)
      | none ↦ (
        s.next_type_index,
        record s {
          next_type_index = suc s.next_type_index;
          bus_type_index = (key, s.next_type_index) ∷ s.bus_type_index;
        },
      )
    ]

-- An address that is not parsed has the type index 0.
unfoldable pub type_index_or_zero :
    PrepareState → Result StorageError ControllerAddress → ℕ × PrepareState
unfolding type_index_of
type_index_or_zero s (err e) = (0, s)
type_index_or_zero s (ok a) = type_index_of s a

abbrev pub static_error : ℕ → Result StorageError (Unit {0}) → List ConfigError
static_error i (ok u) = []
static_error i (err e) = at_storage i e ∷ []

unfoldable pub note_unit : ℕ → Text → PrepareState → List ConfigError × PrepareState
note_unit i raw s = elim (index_of_unit raw s.seen_units) [
  | some prior ↦ (unit_repeated i raw prior ∷ [], s)
  | none ↦ ([], record s { seen_units = (raw, i) ∷ s.seen_units })
]

-- One storage block with a unit.
unfoldable pub prepare_explicit :
    List Text → ℕ → DiskConfig → PrepareState → List ConfigError × PrepareState
unfolding note_unit type_index_or_zero
prepare_explicit types i d s =
    let raw = d.disk_controller_unit in
    let located = type_index_or_zero s (parse_controller_unit raw) in
    let noted = note_unit i raw located.1 in
    (
      error_if (not (int_eq d.disk_controller_index (pos 0))) (unit_and_index i)
          ++ (static_error i (validate_controller_unit_static_for_config raw types located.0)
              ++ noted.0),
      noted.1,
    )

-- The loop. A block with no unit adds nothing.
unfoldable pub prepare_blocks : List Text → ℕ → List DiskConfig → PrepareState → List ConfigError
unfolding prepare_explicit
prepare_blocks types i [] s = []
prepare_blocks types i (d ∷ ds) s =
    let step = if is_empty d.disk_controller_unit then ([], s) else prepare_explicit types i d s in
    step.0 ++ prepare_blocks types (suc i) ds step.1

abbrev pub types_error : Result StorageError (Unit {0}) → List ConfigError
types_error (ok u) = []
types_error (err e) = storage_error e ∷ []

abbrev pub start : StorageConfig → PrepareState
start c = record {
  next_type_index = if has_legacy c.storage then length c.disk_controller_type else 0;
  bus_type_index = [];
  seen_units = [];
}

unfoldable pub prepare_storage : StorageConfig → List ConfigError
unfolding prepare_blocks
prepare_storage c =
    if is_empty c.storage
    then []
    else types_error (validate_disk_controller_types c.disk_controller_type)
      ++ (prepare_blocks c.disk_controller_type 0 c.storage (start c)
          ++ error_if (has_legacy c.storage && is_empty c.disk_controller_type) types_required)
