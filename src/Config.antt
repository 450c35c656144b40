-- ===== src/Config.antt =====
-- builder/vsphere/common/storage_config.go and config_location.go: the configuration of the disks
-- and of the location, and the errors that their preparation collects.
pub mod Disks
pub mod Location
pub mod Clone
pub mod Prepared
pub mod Allocation
use packer_plugin_vsphere.Base.{
  ℕ, ◌≡◌, refl, Bool, true, false, List, [], ◌∷◌, ◌++◌, arith, ℤ, Text,
}
use packer_plugin_vsphere.Controller.{StorageError}

pub record DiskConfig : Type 0 where
  pub disk_size : ℤ
  pub disk_thin_provisioned : Bool
  pub disk_eagerly_scrub : Bool
  pub disk_controller_index : ℤ
  pub disk_controller_unit : Text
  pub storage_policy_name : Text

pub record StorageConfig : Type 0 where
  pub disk_controller_type : List Text
  pub storage : List DiskConfig

-- The messages; a number is the index of a storage block.
pub data ConfigError : Type 0 where
  disk_size_required : ℕ → ConfigError
  unknown_disk_controller : ℕ → ConfigError
  storage_error : StorageError → ConfigError
  at_storage : ℕ → StorageError → ConfigError
  unit_and_index : ℕ → ConfigError
  unit_repeated : ℕ → Text → ℕ → ConfigError
  types_required : ConfigError
  vm_name_required : ConfigError
  host_or_cluster_required : ConfigError
  datastore_and_cluster : ConfigError

-- `if failed { errs = append(errs, e) }`.
abbrev pub error_if {ℓ} : {E : Type ℓ} → Bool → E → List E
error_if true e = e ∷ []
error_if false e = []

pub append_nil_left {ℓ} : {E : Type ℓ} (xs ys : List E) → xs ++ ys ≡ [] → (xs ≡ []) × (ys ≡ [])
append_nil_left [] ys h = (refl, h)
append_nil_left (x ∷ xs) ys h = absurd (ground arith)

pub error_if-nil {ℓ} : {E : Type ℓ} (b : Bool) (e : E) → error_if b e ≡ [] → b ≡ false
error_if-nil true e h = absurd (ground arith)
error_if-nil false e h = refl
