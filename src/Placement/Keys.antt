-- ===== src/Placement/Keys.antt =====
-- builder/vsphere/driver/storage_placement.go: how many new disks a placement request has.
use mathlib.Core.Path.{ap₂}
use packer_plugin_vsphere.Base.{
  suc, ◌≡◌, refl, sym, ap, ◌∙◌, inl, inr, true, List, [], ◌∷◌, ◌++◌, map, arith, Bool-cases, ℤ,
  length, is_empty, All, ok, map_err, >>=-eq-ok, map_err-eq-ok, Text,
}
use packer_plugin_vsphere.Controller.{
  Device, controller_device, disk_device, other_device, library, storage_failed,
}
use packer_plugin_vsphere.Storage.{
  DeviceLibrary, DeviceLibraryLaws, DeviceConfigSpec, StorageConfig, Operation, add, edit,
}
use packer_plugin_vsphere.Storage.Attach.{
  AttachState, attach_policies, attach_policy, attach_devices, add_storage_devices_with,
  placement_options, add_storage_devices_for_placement,
}
use packer_plugin_vsphere.Storage.Counts.{count_disks}
use packer_plugin_vsphere.Storage.Disks.{attach_devices-count_disks}
use packer_plugin_vsphere.Placement.{
  spec_keys, StoragePlacementInput, new_virtual_disk_keys, build_storage_placement_config_spec,
  resize_specs,
}

attach_policy-keeps :
    (policies : List (ℤ × Text)) (spec : DeviceConfigSpec)
    → ((attach_policy policies spec).device ≡ spec.device)
      × ((attach_policy policies spec).operation ≡ spec.operation)
unfolding attach_policy
attach_policy-keeps policies spec = (ground arith, ground arith)

attach_policies-devices :
    (policies : List (ℤ × Text)) (specs : List DeviceConfigSpec)
    → map (λ spec. spec.device) (attach_policies policies specs) ≡ map (λ spec. spec.device) specs
unfolding attach_policies
attach_policies-devices policies [] = refl
attach_policies-devices policies (spec ∷ specs) =
    ap₂ (λ d ds. d ∷ ds) (attach_policy-keeps policies spec).0
      (attach_policies-devices policies specs)

attach_policies-operations :
    (policies : List (ℤ × Text)) (specs : List DeviceConfigSpec)
    → All (λ spec. spec.operation ≡ add) specs
    → All (λ spec. spec.operation ≡ add) (attach_policies policies specs)
unfolding attach_policies
attach_policies-operations policies [] h = tt
attach_policies-operations policies (spec ∷ specs) h =
    ((attach_policy-keeps policies spec).1 ∙ h.0, attach_policies-operations policies specs h.1)

one_key :
    (op : Operation) (d : Device) (ks : List ℤ) (ds : List Device)
    → op ≡ add
    → length ks ≡ count_disks ds
    → length (spec_keys op d ++ ks) ≡ count_disks (d ∷ ds)
unfolding count_disks
one_key add (disk_device d) ks ds e h = ap suc h
one_key add (controller_device c) ks ds e h = h
one_key add (other_device v) ks ds e h = h
one_key edit d ks ds e h = absurd (ground arith)

-- As many keys as there are disks among the added devices.
length-new_virtual_disk_keys :
    (specs : List DeviceConfigSpec)
    → All (λ spec. spec.operation ≡ add) specs
    → length (new_virtual_disk_keys specs) ≡ count_disks (map (λ spec. spec.device) specs)
unfolding new_virtual_disk_keys count_disks
length-new_virtual_disk_keys [] h = refl
length-new_virtual_disk_keys (spec ∷ specs) h =
    one_key spec.operation spec.device (new_virtual_disk_keys specs) _ h.0
      (length-new_virtual_disk_keys specs h.1)

no_keys :
    {A : Type 0} (xs : List A) (specs : List DeviceConfigSpec)
    → is_empty xs ≡ true
    → specs ≡ []
    → length (new_virtual_disk_keys specs) ≡ length xs
unfolding new_virtual_disk_keys
no_keys [] specs h e = rw e
no_keys (x ∷ xs) specs h e = cc

module _ (g : DeviceLibrary) (laws : DeviceLibraryLaws g) where
  attached_keys :
      (cfg : StorageConfig) (existing : List Device) (s : AttachState)
      (specs : List DeviceConfigSpec)
      → attach_devices g cfg (placement_options g) existing ≡ ok s
      → g.config_spec s.new_devices add ≡ ok specs
      → length (new_virtual_disk_keys (attach_policies s.policy_by_key specs)) ≡ length cfg.storage
  attached_keys cfg existing s specs h e =
      let (d, o) = laws.specified s.new_devices add specs e in
      length-new_virtual_disk_keys (attach_policies s.policy_by_key specs)
        (attach_policies-operations s.policy_by_key specs o)
      ∙ ap count_disks (attach_policies-devices s.policy_by_key specs ∙ d)
      ∙ (attach_devices-count_disks g cfg (placement_options g) existing h).1

  added_keys :
      (cfg : StorageConfig) (existing : List Device) (specs : List DeviceConfigSpec)
      → add_storage_devices_for_placement g cfg existing ≡ ok specs
      → length (new_virtual_disk_keys specs) ≡ length cfg.storage
  unfolding add_storage_devices_for_placement add_storage_devices_with
  added_keys cfg existing specs h = elim (Bool-cases (is_empty cfg.storage)) [
    | inl e ↦ let q : ok [] ≡ ok specs = rw e at h in no_keys cfg.storage specs e (ground arith)
    | inr e ↦
        let (s, e₁, q₁) =
          >>=-eq-ok (attach_devices g cfg (placement_options g) existing) _ (rw e at h) in
        let (raw, e₂, q₂) = >>=-eq-ok (map_err library (g.config_spec s.new_devices add)) _ q₁ in
        let e₃ : attach_policies s.policy_by_key raw ≡ specs = ground arith in
        ap (λ z. length (new_virtual_disk_keys z)) (sym e₃)
        ∙ attached_keys cfg existing s raw e₁ (map_err-eq-ok library _ e₂)
  ]

  -- A placement request has one new disk for each storage block.
  pub placement_keys :
      (input : StoragePlacementInput) (changes : List DeviceConfigSpec × List ℤ)
      → build_storage_placement_config_spec g input ≡ ok changes
      → length changes.1 ≡ length input.storage_config.storage
  unfolding build_storage_placement_config_spec
  placement_keys input changes h =
      let (r, e₁, q₁) = >>=-eq-ok (resize_specs g input) _ h in
      let (specs, e₂, q₂) =
        >>=-eq-ok
          (map_err storage_failed
            (add_storage_devices_for_placement g input.storage_config input.existing_devices))
          _ q₁ in
      let e₃ : new_virtual_disk_keys specs ≡ changes.1 = ground arith in
      ap length (sym e₃)
      ∙ added_keys input.storage_config input.existing_devices specs
          (map_err-eq-ok storage_failed _ e₂)
