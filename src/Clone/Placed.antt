-- ===== src/Clone/Placed.antt =====
-- builder/vsphere/clone/step_clone.go and common/step_resolve_datastore.go: the disks of a clone and
-- their datastores.
use packer_plugin_vsphere.Base.{
  ℕ, suc, ◌≡◌, refl, sym, ◌∙◌, subst, ◌⊎◌, inl, inr, ◌||◌, not, Option, none, some, List, [], ◌∷◌,
  arith, leb, Bool-cases, length, is_empty, length-replicate, All2, map-length, Result, ok, err,
  >>=-eq-ok, Text,
}
use packer_plugin_vsphere.Controller.{StorageError}
use packer_plugin_vsphere.Storage.{Disk, DiskDatastore, DeviceLibrary, DeviceLibraryLaws}
use packer_plugin_vsphere.Placement.{StoragePlacementInput}
use packer_plugin_vsphere.Placement.Select.{VCenter, SelectionMethod, select_datastores_for_disks}
use packer_plugin_vsphere.Placement.Sizes.{select_datastores-length}
use packer_plugin_vsphere.Config.{DiskConfig}
use packer_plugin_vsphere.Steps.{Datastore, PlacementDriver}
use packer_plugin_vsphere.Steps.Resolve.{
  placed_on, multi_disk, fallback_placements, resolve_multi_disk, place_policy_disk,
  place_policy_disks, has_policy, seeded_cache, resolve_policy_placement,
}
use packer_plugin_vsphere.Clone.Run.{CloneDriver, policy_id, disks_from_storage_config}

-- The disk of a storage block: its settings, and the ID of its policy.
pub record IsDiskOf (d : CloneDriver) (b : DiskConfig) (x : Disk) : Type 0 where
  pub same_size : x.disk_size ≡ b.disk_size
  pub same_scrub : x.disk_eagerly_scrub ≡ b.disk_eagerly_scrub
  pub same_thin : x.disk_thin_provisioned ≡ b.disk_thin_provisioned
  pub same_index : x.controller_index ≡ b.disk_controller_index
  pub same_unit : x.controller_unit ≡ b.disk_controller_unit
  pub policy : policy_id d b.storage_policy_name ≡ ok x.storage_policy_id

pub disks_of_blocks :
    (d : CloneDriver) (bs : List DiskConfig) (xs : List Disk)
    → disks_from_storage_config d bs ≡ ok xs
    → All2 (IsDiskOf d) bs xs
unfolding disks_from_storage_config
disks_of_blocks d [] [] h = tt
disks_of_blocks d [] (x ∷ xs) h = absurd (ground arith)
disks_of_blocks d (b ∷ bs) xs h =
    let (id, p, h₁) = >>=-eq-ok (policy_id d b.storage_policy_name) _ h in
    let (rest, q, h₂) = >>=-eq-ok (disks_from_storage_config d bs) _ h₁ in
    let made : xs ≡ _ ∷ rest = ground arith in
    subst (All2 (IsDiskOf d) (b ∷ bs)) (sym made) (
      record {
        same_size = refl;
        same_scrub = refl;
        same_thin = refl;
        same_index = refl;
        same_unit = refl;
        policy = p;
      },
      disks_of_blocks d bs rest q,
    )

-- No datastore for the disks, or one for each.
abbrev pub IsOnePerDisk : ℕ → List DiskDatastore → Type 0
IsOnePerDisk n placements = placements ≡ [] ⊎ (length placements ≡ n)

length-place_policy_disks :
    (d : PlacementDriver) (host cluster : Text) (primary : Option Datastore) (i : ℕ)
    (disks : List Disk) (cache : List (Text × Datastore)) {placements : List DiskDatastore}
    → place_policy_disks d host cluster primary i disks cache ≡ ok placements
    → length placements ≡ length disks
unfolding place_policy_disks
length-place_policy_disks d host cluster primary i [] cache h = ground arith
length-place_policy_disks d host cluster primary i (x ∷ xs) cache h =
    let (p, e, h₁) = >>=-eq-ok (place_policy_disk d host cluster primary i x cache) _ h in
    let (rest, e₂, h₂) =
      >>=-eq-ok (place_policy_disks d host cluster primary (suc i) xs p.1) _ h₁ in
    let k = length-place_policy_disks d host cluster primary (suc i) xs p.1 e₂ in ground arith

module _ (d : PlacementDriver) (g : DeviceLibrary) (laws : DeviceLibraryLaws g)
    (vcenter : VCenter Datastore)
    (selects : d.disk_selector ≡ some (select_datastores_for_disks g vcenter)) where
  multi_disk-IsOnePerDisk :
      (cluster : Text) (input : StoragePlacementInput) (primary : Option Datastore) (name : Text)
      (r : Result StorageError (List Datastore × SelectionMethod))
      → r ≡ select_datastores_for_disks g vcenter cluster input
      → IsOnePerDisk
          (length input.storage_config.storage)
          (multi_disk name (length input.storage_config.storage) primary r).1
  unfolding multi_disk fallback_placements
  multi_disk-IsOnePerDisk cluster input none name (err e) h = inl refl
  multi_disk-IsOnePerDisk cluster input (some ds) name (err e) h = inr (length-replicate _ _)
  multi_disk-IsOnePerDisk cluster input primary name (ok (ds, m)) h =
      inr (
        map-length placed_on ds
        ∙ select_datastores-length g laws vcenter cluster input ds m (sym h))

  pub resolve_multi_disk-IsOnePerDisk :
      (cluster : Text) (input : StoragePlacementInput) (primary : Option Datastore) (name : Text)
      → IsOnePerDisk
          (length input.storage_config.storage)
          (resolve_multi_disk d cluster input primary name).1
  unfolding resolve_multi_disk
  resolve_multi_disk-IsOnePerDisk cluster input primary name =
      elim (Bool-cases (is_empty cluster || leb (length input.storage_config.storage) 1)) [
        | inl e ↦ rw e (inl refl)
        | inr e ↦ rw (e, selects) (multi_disk-IsOnePerDisk cluster input primary name _ refl)
      ]

pub resolve_policy_placement-IsOnePerDisk :
    (d : PlacementDriver) (host cluster : Text) (disks : List Disk) (primary : Option Datastore)
    (name store store_cluster seed : Text) {r : Text × List DiskDatastore}
    → resolve_policy_placement d host cluster disks primary name store store_cluster seed ≡ ok r
    → IsOnePerDisk (length disks) r.1
unfolding resolve_policy_placement
resolve_policy_placement-IsOnePerDisk d host cluster disks primary name store store_cluster seed h =
    elim (Bool-cases (not (is_empty store) || not (is_empty store_cluster))) [
      | inl e ↦ inl (ground arith)
      | inr e ↦ elim (Bool-cases (has_policy disks)) [
        | inr f ↦ inl (ground arith)
        | inl f ↦
            let (p, k, q) =
              >>=-eq-ok
                (place_policy_disks d host cluster primary 0 disks (seeded_cache seed primary)) _
                (rw (e, f) at h) in
            inr (
              ground (
                arith,
                length-place_policy_disks d host cluster primary 0 disks (seeded_cache seed primary)
                    k,
              ))
      ]
    ]
