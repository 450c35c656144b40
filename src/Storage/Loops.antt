-- ===== src/Storage/Loops.antt =====
-- builder/vsphere/driver/disk.go: an induction rule for the loops of `addStorageDevices`, for
-- properties of the attachment state and of the number of disks attached.
use packer_plugin_vsphere.Base.{
  ℕ, suc, ◌+◌, ◌≡◌, refl, subst, Bool, List, [], ◌∷◌, arith, if◌then◌else◌, length, ok, >>=-eq-ok,
  map_err-eq-ok, Text,
}
use packer_plugin_vsphere.Controller.{Controller, Device, at_storage}
use packer_plugin_vsphere.Controller.Capacity.{validate_aggregate_storage_capacity}
use packer_plugin_vsphere.Storage.{Disk, StorageConfig, DeviceLibrary}
use packer_plugin_vsphere.Storage.Attach.{
  AttachState, add_controller, add_legacy_controllers, attach_legacy, attach_legacy_all, add_legacy,
  attach_at_unit, attach_explicit, attach_explicit_all, legacy_disks, explicit_disks, initial,
  attach_devices,
}

-- Every storage block is of one of the two sorts.
pub length-legacy-explicit :
    (i : ℕ) (ds : List Disk) → length (legacy_disks i ds) + length (explicit_disks i ds) ≡ length ds
unfolding legacy_disks explicit_disks
length-legacy-explicit i [] = refl
length-legacy-explicit i (d ∷ ds) = ground (arith, length-legacy-explicit (suc i) ds)

module _ {ℓ} (g : DeviceLibrary) (cfg : StorageConfig) (P : ℕ → AttachState → Type ℓ)
    (on_controller : (n : ℕ) (s : AttachState) (t : Text) (p : Controller × AttachState)
      → add_controller g s t ≡ ok p
      → P n s
      → P n p.1)
    (on_legacy : (n : ℕ) (s : AttachState) (cs : List Controller)
      → P n s
      → P n (record s { legacy_controllers = cs }))
    (on_index : (n : ℕ) (s : AttachState) (i : ℕ) → P n s → P n (record s { type_index = i }))
    (on_legacy_disk : (n : ℕ) (s : AttachState) (d : ℕ × Disk) (s' : AttachState)
      → attach_legacy g cfg s d ≡ ok s'
      → P n s
      → P (suc n) s')
    (link : Bool)
    (on_explicit_disk : (n : ℕ) (s : AttachState) (d : ℕ × Disk) (s' : AttachState)
      → attach_at_unit g cfg link s d ≡ ok s'
      → P n s
      → P (suc n) s') where
  add_legacy_controllers_ind :
      (n : ℕ) (ts : List Text) (s s' : AttachState)
      → add_legacy_controllers g s ts ≡ ok s'
      → P n s
      → P n s'
  unfolding add_legacy_controllers
  add_legacy_controllers_ind n [] s s' h v = let e : s ≡ s' = ground arith in subst (P n) e v
  add_legacy_controllers_ind n (t ∷ ts) s s' h v =
      let (p, e, r) = >>=-eq-ok (add_controller g s t) _ h in
      add_legacy_controllers_ind n ts _ s' r (on_legacy n p.1 _ (on_controller n s t p e v))

  attach_legacy_all_ind :
      (n : ℕ) (ds : List (ℕ × Disk)) (s s' : AttachState)
      → attach_legacy_all g cfg s ds ≡ ok s'
      → P n s
      → P (n + length ds) s'
  unfolding attach_legacy_all
  attach_legacy_all_ind n [] s s' h v =
      let e : s ≡ s' = ground arith in
      subst (λ k. P k s') (let q : n ≡ n + 0 = omega arith in q) (subst (P n) e v)
  attach_legacy_all_ind n (d ∷ ds) s s' h v =
      let (t, e, r) = >>=-eq-ok (attach_legacy g cfg s d) _ h in
      subst (λ k. P k s') (let q : suc n + length ds ≡ n + suc (length ds) = omega arith in q)
        (attach_legacy_all_ind (suc n) ds t s' r (on_legacy_disk n s d t e v))

  add_legacy_ind :
      (ds : List (ℕ × Disk)) (s s' : AttachState)
      → add_legacy g cfg s ds ≡ ok s'
      → P 0 s
      → P (length ds) s'
  unfolding add_legacy
  add_legacy_ind [] s s' h v = let e : s ≡ s' = ground arith in subst (P 0) e v
  add_legacy_ind (d ∷ ds) s s' h v =
      let (s₁, e₁, r₁) = >>=-eq-ok (add_legacy_controllers g s cfg.disk_controller_type) _ h in
      let (s₂, e₂, r₂) = >>=-eq-ok (attach_legacy_all g cfg s₁ (d ∷ ds)) _ r₁ in
      let e : record s₂ { type_index = length cfg.disk_controller_type } ≡ s' = ground arith in
      let q : 0 + length (d ∷ ds) ≡ length (d ∷ ds) = omega arith in
      subst (P (length (d ∷ ds))) e (
        on_index (length (d ∷ ds)) s₂ _ (
          subst (λ k. P k s₂) q
            (attach_legacy_all_ind 0 (d ∷ ds) s₁ s₂ e₂
              (add_legacy_controllers_ind 0 cfg.disk_controller_type s s₁ e₁ v))))

  attach_explicit_all_ind :
      (n : ℕ) (ds : List (ℕ × Disk)) (s s' : AttachState)
      → attach_explicit_all g cfg link s ds ≡ ok s'
      → P n s
      → P (n + length ds) s'
  unfolding attach_explicit_all attach_explicit
  attach_explicit_all_ind n [] s s' h v =
      let e : s ≡ s' = ground arith in
      subst (λ k. P k s') (let q : n ≡ n + 0 = omega arith in q) (subst (P n) e v)
  attach_explicit_all_ind n (d ∷ ds) s s' h v =
      let (t, e, r) = >>=-eq-ok (attach_explicit g cfg link s d) _ h in
      subst (λ k. P k s') (let q : suc n + length ds ≡ n + suc (length ds) = omega arith in q)
        (attach_explicit_all_ind (suc n) ds t s' r
          (on_explicit_disk n s d t (map_err-eq-ok (at_storage d.0) _ e) v))

  -- What holds of the initial state with no disk attached, and is kept by each step, holds of the
  -- final state with every storage block attached.
  pub attach_devices_ind :
      (aggregate : Bool) (existing : List Device) (s : AttachState)
      → attach_devices g cfg
          (record { link_controller_devices = link; validate_aggregate = aggregate })
          existing
        ≡ ok s
      → P 0 (initial g existing)
      → P (length cfg.storage) s
  unfolding attach_devices
  attach_devices_ind aggregate existing s h v =
      let legacy = legacy_disks 0 cfg.storage in
      let explicit = explicit_disks 0 cfg.storage in
      let (s₁, e₁, r₁) = >>=-eq-ok (add_legacy g cfg (initial g existing) legacy) _ h in
      let (s₂, e₂, r₂) = >>=-eq-ok (attach_explicit_all g cfg link s₁ explicit) _ r₁ in
      let (u, e₃, r₃) =
        >>=-eq-ok (if aggregate then validate_aggregate_storage_capacity s₂.existing else ok tt) _
          r₂ in
      let e : s₂ ≡ s = ground arith in
      subst (λ k. P k s) (length-legacy-explicit 0 cfg.storage)
        (subst (P (length legacy + length explicit)) e (
          attach_explicit_all_ind (length legacy) explicit s₁ s₂ e₂
            (add_legacy_ind legacy (initial g existing) s₁ e₁ v)))
