-- ===== src/Controller/Devices.antt =====
-- builder/vsphere/driver/controller_address.go: what a controller is and where it stands, and the
-- search for one by its bus.
use packer_plugin_vsphere.Base.{
  ℕ, ◌+◌, ◌≡◌, refl, ◌≢◌, ◌↔◌, ◌⊎◌, inl, inr, Bool, true, false, ◌&&◌, ◌||◌, Option, none, some,
  List, [], ◌∷◌, ◌++◌, arith, ltb, ◌==◌, if◌then◌else◌, Bool-cases, Text, codes, itoa,
}
use packer_plugin_vsphere.Controller.{
  ControllerKind, scsi, nvme, sata, kind_eq, kind_prefix, ControllerClass, virtual_scsi, lsi_logic,
  lsi_logic_sas, para_virtual, bus_logic, virtual_nvme, virtual_sata, virtual_ahci,
  other_controller, Controller, Device, controller_device, disk_device, other_device,
  is_pvscsi_class, is_scsi_class, max_pvscsi_unit, max_lsi_scsi_unit, max_nvme_unit, max_sata_unit,
  max_pvscsi_disks_per_controller, max_lsi_scsi_disks_per_controller,
}

class_kind : ControllerClass → Option ControllerKind
class_kind virtual_scsi = some scsi
class_kind lsi_logic = some scsi
class_kind lsi_logic_sas = some scsi
class_kind para_virtual = some scsi
class_kind bus_logic = some scsi
class_kind virtual_nvme = some nvme
class_kind virtual_sata = some sata
class_kind virtual_ahci = some sata
class_kind other_controller = none

-- `none` is a result whose `ok` is false.
unfoldable pub controller_bus_number : Controller → Option (ControllerKind × ℕ)
unfolding class_kind
controller_bus_number c = elim (class_kind c.class) [
  | none ↦ none
  | some k ↦ some (k, c.bus_number)
]

unfoldable pub kind_for_controller : Controller → ControllerKind
unfolding controller_bus_number
kind_for_controller c = elim (controller_bus_number c) [ none ↦ scsi | some (k, b) ↦ k ]

unfoldable pub controller_address_label : Controller → Text
unfolding controller_bus_number kind_prefix
controller_address_label c = elim (controller_bus_number c) [
  | none ↦ codes "unknown"
  | some (k, b) ↦ kind_prefix k ++ itoa b
]

unfoldable pub is_pvscsi_controller : Controller → Bool
is_pvscsi_controller c = is_pvscsi_class c.class

class_display_name : ControllerClass → Text
class_display_name para_virtual = codes "PVSCSI"
class_display_name lsi_logic_sas = codes "LSI Logic SAS"
class_display_name lsi_logic = codes "LSI Logic"
class_display_name bus_logic = codes "BusLogic"
class_display_name virtual_nvme = codes "NVMe"
class_display_name virtual_sata = codes "SATA"
class_display_name virtual_ahci = codes "SATA"
class_display_name _ = codes "SCSI"

unfoldable pub controller_display_name : Controller → Text
unfolding class_display_name
controller_display_name c = class_display_name c.class

-- The controller may be nil. The error of an unknown kind cannot arise.
unfoldable pub max_unit_for_kind : ControllerKind → Option Controller → ℕ
unfolding is_pvscsi_controller
max_unit_for_kind scsi none = max_lsi_scsi_unit
max_unit_for_kind scsi (some c) =
    if is_scsi_class c.class && is_pvscsi_controller c then max_pvscsi_unit else max_lsi_scsi_unit
max_unit_for_kind nvme c = max_nvme_unit
max_unit_for_kind sata c = max_sata_unit

-- The largest unit of a controller itself.
unfoldable pub max_unit : Controller → ℕ
unfolding max_unit_for_kind kind_for_controller
max_unit c = max_unit_for_kind (kind_for_controller c) (some c)

unfoldable pub max_disks_per_controller : Controller → ℕ
unfolding max_unit
max_disks_per_controller c =
    if is_scsi_class c.class
    then (if max_unit c == max_pvscsi_unit
        then max_pvscsi_disks_per_controller
        else max_lsi_scsi_disks_per_controller)
    else max_unit c + 1

-- The test of the loop: a controller of that kind on that bus.
unfoldable pub is_at_bus : ControllerKind → ℕ → Controller → Bool
unfolding controller_bus_number
is_at_bus k b c = elim (controller_bus_number c) [
  | none ↦ false
  | some (k', b') ↦ kind_eq k' k && b' == b
]

unfoldable pub find_controller_by_bus : List Device → ControllerKind → ℕ → Option Controller
find_controller_by_bus [] k b = none
find_controller_by_bus (controller_device c ∷ ds) k b =
    if is_at_bus k b c then some c else find_controller_by_bus ds k b
find_controller_by_bus (disk_device d ∷ ds) k b = find_controller_by_bus ds k b
find_controller_by_bus (other_device v ∷ ds) k b = find_controller_by_bus ds k b

text_leb : Text → Text → Bool
text_leb [] t = true
text_leb (x ∷ xs) [] = false
text_leb (x ∷ xs) (y ∷ ys) = ltb x y || (x == y && text_leb xs ys)

insert_sorted : Text → List Text → List Text
insert_sorted t [] = t ∷ []
insert_sorted t (u ∷ us) = if text_leb t u then t ∷ u ∷ us else u ∷ insert_sorted t us

-- `sort.Strings`.
sort_strings : List Text → List Text
sort_strings [] = []
sort_strings (t ∷ ts) = insert_sorted t (sort_strings ts)

controller_labels : List Device → List Text
controller_labels [] = []
controller_labels (controller_device c ∷ ds) = controller_address_label c ∷ controller_labels ds
controller_labels (disk_device d ∷ ds) = controller_labels ds
controller_labels (other_device v ∷ ds) = controller_labels ds

unfoldable pub list_controller_addresses : List Device → List Text
unfolding controller_labels sort_strings insert_sorted text_leb
list_controller_addresses ds = sort_strings (controller_labels ds)

-- The controller stands in the list.
abbrev pub HasController : Controller → List Device → Type 0
HasController c [] = ⊥
HasController c (controller_device d ∷ ds) = (c ≡ d) ⊎ HasController c ds
HasController c (disk_device d ∷ ds) = HasController c ds
HasController c (other_device v ∷ ds) = HasController c ds

kind_eq_refl : (k : ControllerKind) → kind_eq k k ≡ true
kind_eq_refl scsi = refl
kind_eq_refl nvme = refl
kind_eq_refl sata = refl

pub kind_eq→eq : (k l : ControllerKind) → kind_eq k l ≡ true → k ≡ l
kind_eq→eq k l h = ground arith

pub is_at_bus_iff :
    (k : ControllerKind) (b : ℕ) (c : Controller)
    → (is_at_bus k b c ≡ true) ↔ (controller_bus_number c ≡ some (k, b))
unfolding is_at_bus
is_at_bus_iff k b c = (λ h. ground arith, λ h. ground arith)

-- A controller that is found stands in the list, on the bus that was asked for.
pub find_controller_by_bus-some :
    (ds : List Device) (k : ControllerKind) (b : ℕ) {c : Controller}
    → find_controller_by_bus ds k b ≡ some c
    → HasController c ds × (controller_bus_number c ≡ some (k, b))
unfolding find_controller_by_bus
find_controller_by_bus-some [] k b h = absurd (ground arith)
find_controller_by_bus-some (controller_device d ∷ ds) k b {c} h =
    elim (Bool-cases (is_at_bus k b d)) [
      | inl e ↦ let p : c ≡ d = ground arith in (inl p, rw p ((is_at_bus_iff k b d).0 e))
      | inr e ↦ let r = find_controller_by_bus-some ds k b (rw e at h) in (inr r.0, r.1)
    ]
find_controller_by_bus-some (disk_device d ∷ ds) k b h = find_controller_by_bus-some ds k b h
find_controller_by_bus-some (other_device v ∷ ds) k b h = find_controller_by_bus-some ds k b h

-- None is found only where no controller of the list stands on the bus.
pub find_controller_by_bus-none :
    (ds : List Device) (k : ControllerKind) (b : ℕ) (c : Controller)
    → find_controller_by_bus ds k b ≡ none
    → HasController c ds
    → controller_bus_number c ≢ some (k, b)
unfolding find_controller_by_bus
find_controller_by_bus-none [] k b c h m = absurd m
find_controller_by_bus-none (controller_device d ∷ ds) k b c h (inl e) =
    λ q. let t : is_at_bus k b d ≡ true = (is_at_bus_iff k b d).1 (rw (← e) q) in ground arith
find_controller_by_bus-none (controller_device d ∷ ds) k b c h (inr m) =
    find_controller_by_bus-none ds k b c (ground arith) m
find_controller_by_bus-none (disk_device d ∷ ds) k b c h m =
    find_controller_by_bus-none ds k b c h m
find_controller_by_bus-none (other_device v ∷ ds) k b c h m =
    find_controller_by_bus-none ds k b c h m
