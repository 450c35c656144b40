-- ===== src/Config/Disks.antt =====
-- builder/vsphere/common/storage_config.go: `StorageConfig.Prepare` and `FirstStoragePolicyName`.
use packer_plugin_vsphere.Base.{
  ℕ, suc, ◌<◌, ◌≡◌, ◌≢◌, Bool, false, ◌&&◌, List, [], ◌∷◌, ◌++◌, arith, leb, if◌then◌else◌, ℤ, pos,
  negsuc, int_eq, int_eq_iff, length, is_empty, All, Text,
}
use packer_plugin_vsphere.Config.{
  DiskConfig, StorageConfig, ConfigError, disk_size_required, unknown_disk_controller, error_if,
  append_nil_left,
}

-- `index >= n` for a signed index.
abbrev pub index_at_least : ℤ → ℕ → Bool
index_at_least (pos i) n = leb n i
index_at_least (negsuc i) n = false

first_policy : List DiskConfig → Text
first_policy [] = []
first_policy (d ∷ ds) =
    let rest = first_policy ds in
    if is_empty d.storage_policy_name then rest else d.storage_policy_name

unfoldable pub first_storage_policy_name : StorageConfig → Text
unfolding first_policy
first_storage_policy_name c = first_policy c.storage

prepare_disk : List Text → ℕ → DiskConfig → List ConfigError
prepare_disk types i d =
    error_if (int_eq d.disk_size (pos 0)) (disk_size_required i)
    ++ error_if
        (is_empty d.disk_controller_unit && index_at_least d.disk_controller_index (length types))
        (unknown_disk_controller i)

prepare_disks : List Text → ℕ → List DiskConfig → List ConfigError
unfolding prepare_disk
prepare_disks types i [] = []
prepare_disks types i (d ∷ ds) = prepare_disk types i d ++ prepare_disks types (suc i) ds

unfoldable pub prepare : StorageConfig → List ConfigError
unfolding prepare_disks
prepare c = prepare_disks c.disk_controller_type 0 c.storage

-- What a block must have. A negative index is not refused.
pub record IsDiskConfig (types : List Text) (d : DiskConfig) : Type 0 where
  pub size_given : d.disk_size ≢ pos 0
  pub controller_known :
      (i : ℕ) → d.disk_controller_unit ≡ [] → d.disk_controller_index ≡ pos i → i < length types

prepare_disk-valid :
    (types : List Text) (i : ℕ) (d : DiskConfig)
    → prepare_disk types i d ≡ []
    → IsDiskConfig types d
unfolding prepare_disk
prepare_disk-valid types i d h = record {
  size_given = λ e. ground (arith, int_eq_iff d.disk_size (pos 0));
  controller_known = λ n e k. ground arith;
}

prepare_disks-valid :
    (types : List Text) (i : ℕ) (ds : List DiskConfig)
    → prepare_disks types i ds ≡ []
    → All (IsDiskConfig types) ds
unfolding prepare_disks
prepare_disks-valid types i [] h = tt
prepare_disks-valid types i (d ∷ ds) h =
    let (p, q) = append_nil_left (prepare_disk types i d) (prepare_disks types (suc i) ds) h in
    (prepare_disk-valid types i d p, prepare_disks-valid types (suc i) ds q)

-- Where the preparation reports no error, every storage block has a size, and every block with no
-- unit whose controller index is not negative names one of the controller types.
pub prepare-IsDiskConfig :
    (c : StorageConfig) → prepare c ≡ [] → All (IsDiskConfig c.disk_controller_type) c.storage
unfolding prepare
prepare-IsDiskConfig c h = prepare_disks-valid c.disk_controller_type 0 c.storage h
