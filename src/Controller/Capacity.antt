-- ===== src/Controller/Capacity.antt =====
-- builder/vsphere/driver/controller_address.go: how many disks a controller and a virtual machine
-- hold, and how many controllers of a kind there are.
use packer_plugin_vsphere.Base.{
  ℕ, suc, ◌+◌, ◌≤◌, ◌≡◌, refl, ap, ◌∙◌, subst, ◌≢◌, ◌↔◌, inl, inr, Bool, true, false, ◌&&◌, ◌||◌,
  Option, none, some, List, [], ◌∷◌, arith, ltb, leb, if◌then◌else◌, Bool-cases, ℤ, int_eq,
  int_eq_iff, exists, All, Result, ok, err, ◌>>◌, fail_if,
}
use packer_plugin_vsphere.Controller.{
  ControllerKind, scsi, nvme, sata, kind_eq, Controller, Device, controller_device, disk_device,
  other_device, is_scsi_class, max_pvscsi_disks_per_controller, max_lsi_scsi_disks_per_controller,
  max_sata_disks_per_vm, max_nvme_disks_per_vm, max_lsi_scsi_disks_per_vm, max_scsi_disks_per_vm,
  max_controllers_per_type, StorageError, too_many_disks, too_many_sata, too_many_nvme,
  too_many_scsi, too_many_controllers,
}
use packer_plugin_vsphere.Controller.Devices.{
  controller_bus_number, controller_address_label, controller_display_name,
  max_disks_per_controller, is_pvscsi_controller,
}

unfoldable pub count_disks_on_controller : List Device → Controller → ℕ
count_disks_on_controller [] c = 0
count_disks_on_controller (disk_device d ∷ ds) c =
    let rest = count_disks_on_controller ds c in
    if int_eq d.base.controller_key c.base.key then suc rest else rest
count_disks_on_controller (controller_device d ∷ ds) c = count_disks_on_controller ds c
count_disks_on_controller (other_device v ∷ ds) c = count_disks_on_controller ds c

-- The limit that the message names.
shown_limit : Controller → ℕ
shown_limit c =
    if is_pvscsi_controller c
    then max_pvscsi_disks_per_controller
    else if is_scsi_class c.class
    then max_lsi_scsi_disks_per_controller
    else max_disks_per_controller c

unfoldable pub validate_controller_disk_capacity :
    List Device → Controller → ℕ → Result StorageError (Unit {0})
unfolding shown_limit
validate_controller_disk_capacity ds c adding =
    let requested = count_disks_on_controller ds c + adding in
    if leb requested (max_disks_per_controller c)
    then ok tt
    else err (
        too_many_disks (controller_display_name c) (controller_address_label c) (shown_limit c)
          requested)

kind_of_bus : Option (ControllerKind × ℕ) → Option ControllerKind
kind_of_bus none = none
kind_of_bus (some (k, b)) = some k

-- The inner loop: the kind of the first controller with the key, if it is on a storage bus.
kind_of_key : List Device → ℤ → Option ControllerKind
unfolding kind_of_bus
kind_of_key [] key = none
kind_of_key (controller_device c ∷ ds) key =
    let rest = kind_of_key ds key in
    if int_eq c.base.key key then kind_of_bus (controller_bus_number c) else rest
kind_of_key (disk_device d ∷ ds) key = kind_of_key ds key
kind_of_key (other_device v ∷ ds) key = kind_of_key ds key

abbrev counts_as : ControllerKind → Option ControllerKind → ℕ → ℕ
counts_as k none n = n
counts_as k (some k') n = if kind_eq k' k then suc n else n

-- The outer loop over the devices that are left; `all` is the whole list.
count_disks_from : List Device → List Device → ControllerKind → ℕ
unfolding kind_of_key
count_disks_from all [] k = 0
count_disks_from all (disk_device d ∷ ds) k =
    counts_as k (kind_of_key all d.base.controller_key) (count_disks_from all ds k)
count_disks_from all (controller_device c ∷ ds) k = count_disks_from all ds k
count_disks_from all (other_device v ∷ ds) k = count_disks_from all ds k

-- The entry of the map at a kind.
unfoldable pub count_virtual_disks_by_kind : List Device → ControllerKind → ℕ
unfolding count_disks_from
count_virtual_disks_by_kind ds k = count_disks_from ds ds k

unfoldable pub has_pvscsi_controller_on_vm : List Device → Bool
has_pvscsi_controller_on_vm [] = false
has_pvscsi_controller_on_vm (controller_device c ∷ ds) =
    is_pvscsi_controller c || has_pvscsi_controller_on_vm ds
has_pvscsi_controller_on_vm (disk_device d ∷ ds) = has_pvscsi_controller_on_vm ds
has_pvscsi_controller_on_vm (other_device v ∷ ds) = has_pvscsi_controller_on_vm ds

scsi_max : List Device → ℕ
scsi_max ds =
    if has_pvscsi_controller_on_vm ds then max_scsi_disks_per_vm else max_lsi_scsi_disks_per_vm

unfoldable pub validate_aggregate_storage_capacity : List Device → Result StorageError (Unit {0})
unfolding scsi_max
validate_aggregate_storage_capacity ds = do
  let count = count_virtual_disks_by_kind ds
  fail_if (ltb max_sata_disks_per_vm (count sata)) (too_many_sata (count sata))
  fail_if (ltb max_nvme_disks_per_vm (count nvme)) (too_many_nvme (count nvme))
  fail_if (ltb (scsi_max ds) (count scsi)) (too_many_scsi (scsi_max ds) (count scsi))

unfoldable pub count_controllers_by_kind : List Device → ControllerKind → ℕ
unfolding kind_of_bus
count_controllers_by_kind [] k = 0
count_controllers_by_kind (controller_device c ∷ ds) k =
    counts_as k (kind_of_bus (controller_bus_number c)) (count_controllers_by_kind ds k)
count_controllers_by_kind (disk_device d ∷ ds) k = count_controllers_by_kind ds k
count_controllers_by_kind (other_device v ∷ ds) k = count_controllers_by_kind ds k

unfoldable pub validate_controller_count :
    List Device → ControllerKind → ℕ → Result StorageError (Unit {0})
validate_controller_count ds k adding =
    fail_if (ltb max_controllers_per_type (count_controllers_by_kind ds k + adding))
      (too_many_controllers k)

abbrev pub on_kind : ControllerKind → Option (ControllerKind × ℕ) → Bool
on_kind k none = false
on_kind k (some (k', b)) = kind_eq k' k

-- A controller of a kind with a key, and a disk whose controller is one.
abbrev pub is_controller_of : ControllerKind → ℤ → Device → Bool
is_controller_of k key (controller_device c) =
    int_eq c.base.key key && on_kind k (controller_bus_number c)
is_controller_of k key (disk_device d) = false
is_controller_of k key (other_device v) = false

abbrev pub disks_on_kind : List Device → ControllerKind → List Device → ℕ
disks_on_kind all k [] = 0
disks_on_kind all k (disk_device d ∷ ds) =
    let rest = disks_on_kind all k ds in
    if exists (is_controller_of k d.base.controller_key) all then suc rest else rest
disks_on_kind all k (controller_device c ∷ ds) = disks_on_kind all k ds
disks_on_kind all k (other_device v ∷ ds) = disks_on_kind all k ds

-- The controllers have keys of their own.
abbrev pub controller_keys : List Device → List ℤ
controller_keys [] = []
controller_keys (controller_device c ∷ ds) = c.base.key ∷ controller_keys ds
controller_keys (disk_device d ∷ ds) = controller_keys ds
controller_keys (other_device v ∷ ds) = controller_keys ds

no_controller :
    (k : ControllerKind) (key : ℤ) (ds : List Device)
    → All (λ z. z ≢ key) (controller_keys ds)
    → exists (is_controller_of k key) ds ≡ false
no_controller k key [] h = refl
no_controller k key (controller_device c ∷ ds) (n, h) =
    ground (arith, no_controller k key ds h, int_eq_iff c.base.key key)
no_controller k key (disk_device d ∷ ds) h = no_controller k key ds h
no_controller k key (other_device v ∷ ds) h = no_controller k key ds h

abbrev pub IsPvscsi : Device → Type 0
IsPvscsi (controller_device c) = is_pvscsi_controller c ≡ true
IsPvscsi (disk_device d) = ⊥
IsPvscsi (other_device v) = ⊥

abbrev pub HasOwnKeys : List Device → Type 0
HasOwnKeys [] = Unit
HasOwnKeys (controller_device c ∷ ds) =
    All (λ z. z ≢ c.base.key) (controller_keys ds) × HasOwnKeys ds
HasOwnKeys (disk_device d ∷ ds) = HasOwnKeys ds
HasOwnKeys (other_device v ∷ ds) = HasOwnKeys ds

counted_bus :
    (k : ControllerKind) (b : Option (ControllerKind × ℕ)) (r : Bool) (n : ℕ)
    → r ≡ false
    → counts_as k (kind_of_bus b) n ≡ (if (true && on_kind k b) || r then suc n else n)
unfolding kind_of_bus
counted_bus k none r n e = rw e refl
counted_bus k (some (k', b)) r n e = ground arith

-- The first controller with a key is the only one.
counted_key :
    (k : ControllerKind) (key : ℤ) (ds : List Device) (n : ℕ)
    → HasOwnKeys ds
    → counts_as k (kind_of_key ds key) n ≡ (if exists (is_controller_of k key) ds then suc n else n)
unfolding kind_of_key
counted_key k key [] n h = refl
counted_key k key (controller_device c ∷ ds) n (o, h) = elim (Bool-cases (int_eq c.base.key key)) [
  | inl e ↦
      let same : c.base.key ≡ key = (int_eq_iff c.base.key key).0 e in
      rw e (
        counted_bus k (controller_bus_number c) (exists (is_controller_of k key) ds) n
          (no_controller k key ds (subst (λ z. All (λ y. y ≢ z) (controller_keys ds)) same o)))
  | inr e ↦ rw e (counted_key k key ds n h)
]
counted_key k key (disk_device d ∷ ds) n h = counted_key k key ds n h
counted_key k key (other_device v ∷ ds) n h = counted_key k key ds n h

-- The count of the code is the number of disks with a controller of the kind.
count_virtual_disks-disks_on_kind :
    (all ds : List Device) (k : ControllerKind)
    → HasOwnKeys all
    → count_disks_from all ds k ≡ disks_on_kind all k ds
unfolding count_disks_from
count_virtual_disks-disks_on_kind all [] k h = refl
count_virtual_disks-disks_on_kind all (disk_device d ∷ ds) k h =
    counted_key k d.base.controller_key all (count_disks_from all ds k) h
    ∙ ap (λ n. if exists (is_controller_of k d.base.controller_key) all then suc n else n)
        (count_virtual_disks-disks_on_kind all ds k h)
count_virtual_disks-disks_on_kind all (controller_device c ∷ ds) k h =
    count_virtual_disks-disks_on_kind all ds k h
count_virtual_disks-disks_on_kind all (other_device v ∷ ds) k h =
    count_virtual_disks-disks_on_kind all ds k h

-- The limits of a virtual machine: 120 SATA disks, 60 NVMe disks, and 256 SCSI disks with a PVSCSI
-- controller, 60 without. A disk is one of a kind if the list has a controller of that kind with the
-- key that the disk names.
pub record IsWithinVmLimits (ds : List Device) : Type 0 where
  pub sata_disks : disks_on_kind ds sata ds ≤ 120
  pub nvme_disks : disks_on_kind ds nvme ds ≤ 60
  pub scsi_disks : disks_on_kind ds scsi ds ≤ 256
  pub lsi_disks : All (λ d. IsPvscsi d → ⊥) ds → disks_on_kind ds scsi ds ≤ 60

has-IsPvscsi_iff :
    (ds : List Device) → (has_pvscsi_controller_on_vm ds ≡ false) ↔ All (λ d. IsPvscsi d → ⊥) ds
unfolding has_pvscsi_controller_on_vm
has-IsPvscsi_iff [] = (λ h. tt, λ h. refl)
has-IsPvscsi_iff (controller_device c ∷ ds) = (
  λ h. (λ p. absurd (ground arith), (has-IsPvscsi_iff ds).0 (ground arith)),
  λ (n, h). elim (Bool-cases (is_pvscsi_controller c)) [
    | inl e ↦ absurd (n e)
    | inr e ↦ rw e ((has-IsPvscsi_iff ds).1 h)
  ],
)
has-IsPvscsi_iff (disk_device d ∷ ds) =
    (λ h. (λ p. p, (has-IsPvscsi_iff ds).0 h), λ h. (has-IsPvscsi_iff ds).1 h.1)
has-IsPvscsi_iff (other_device v ∷ ds) =
    (λ h. (λ p. p, (has-IsPvscsi_iff ds).0 h), λ h. (has-IsPvscsi_iff ds).1 h.1)

-- Where the controllers have keys of their own, the aggregate validation accepts exactly the device
-- lists with at most 120 disks on SATA controllers, 60 on NVMe controllers and 256 on SCSI
-- controllers, and at most 60 on SCSI controllers where none of them is a PVSCSI controller.
pub validate_aggregate_iff :
    (ds : List Device)
    → HasOwnKeys ds
    → (validate_aggregate_storage_capacity ds ≡ ok tt) ↔ IsWithinVmLimits ds
unfolding validate_aggregate_storage_capacity count_virtual_disks_by_kind
validate_aggregate_iff ds h =
    let a = count_virtual_disks-disks_on_kind ds ds sata h in
    let b = count_virtual_disks-disks_on_kind ds ds nvme h in
    let c = count_virtual_disks-disks_on_kind ds ds scsi h in
    (
      λ q. record {
        sata_disks = ground arith;
        nvme_disks = ground arith;
        scsi_disks = ground arith;
        lsi_disks = λ n. let none_there = (has-IsPvscsi_iff ds).1 n in ground arith;
      },
      λ w. elim (Bool-cases (has_pvscsi_controller_on_vm ds)) [
        | inl e ↦ ground (arith, w.sata_disks, w.nvme_disks, w.scsi_disks)
        | inr e ↦
            let lsi = w.lsi_disks ((has-IsPvscsi_iff ds).0 e) in
            ground (arith, w.sata_disks, w.nvme_disks, lsi)
      ],
    )
