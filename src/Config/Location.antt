-- ===== src/Config/Location.antt =====
-- builder/vsphere/common/config_location.go: `LocationConfig.Prepare`, with Go's `path.Clean`.
use mathlib.Core.List.{reverse}
use packer_plugin_vsphere.Base.{
  ◌≡◌, refl, ◌≢◌, ◌↔◌, ◌⊎◌, Bool, true, false, ◌&&◌, ◌||◌, not, List, [], ◌∷◌, ◌++◌, arith, ◌==◌,
  if◌then◌else◌, is_empty, Text, codes, text_eq, split,
}
use packer_plugin_vsphere.Config.{
  ConfigError, vm_name_required, host_or_cluster_required, datastore_and_cluster, error_if,
}

pub record LocationConfig : Type 0 where
  pub vm_name : Text
  pub folder : Text
  pub cluster : Text
  pub host : Text
  pub resource_pool : Text
  pub store : Text
  pub datastore_cluster : Text
  pub set_host_for_datastore_uploads : Bool

-- The element `..`: it removes the last element, unless that is `..` too; at the front it stays,
-- and is dropped at the root. The last element stands first.
up : Bool → List Text → List Text
up true [] = []
up false [] = codes ".." ∷ []
up rooted (e ∷ es) = if text_eq e (codes "..") then codes ".." ∷ e ∷ es else es

clean_elements : Bool → List Text → List Text → List Text
unfolding up
clean_elements rooted [] done = done
clean_elements rooted (e ∷ es) done = clean_elements rooted es (
    if is_empty e || text_eq e (codes ".")
    then done
    else if text_eq e (codes "..")
    then up rooted done
    else e ∷ done)

join_slash : List Text → Text
join_slash [] = []
join_slash (e ∷ []) = e
join_slash (e ∷ f ∷ es) = e ++ (b'/' ∷ join_slash (f ∷ es))

or_dot : Text → Text
or_dot [] = codes "."
or_dot (c ∷ cs) = c ∷ cs

unfoldable pub is_rooted : Text → Bool
is_rooted [] = false
is_rooted (c ∷ cs) = c == b'/'

-- `path.Clean`.
unfoldable pub path_clean : Text → Text
unfolding clean_elements join_slash or_dot is_rooted
path_clean p =
    let body = join_slash (reverse (clean_elements (is_rooted p) (split b'/' p) [])) in
    if is_rooted p then b'/' ∷ body else or_dot body

-- `strings.TrimLeft(s, "/")`.
unfoldable pub trim_slashes : Text → Text
trim_slashes [] = []
trim_slashes (c ∷ cs) = if c == b'/' then trim_slashes cs else c ∷ cs

unfoldable pub prepare_location : LocationConfig → LocationConfig × List ConfigError
prepare_location c = (
  record c { folder = trim_slashes (path_clean c.folder) },
  error_if (is_empty c.vm_name) vm_name_required
      ++ (error_if (is_empty c.cluster && is_empty c.host) host_or_cluster_required
          ++ error_if (not (is_empty c.store) && not (is_empty c.datastore_cluster))
              datastore_and_cluster),
)

-- What a location that is accepted must have.
pub record IsLocation (c : LocationConfig) : Type 0 where
  pub named : c.vm_name ≢ []
  pub placed : c.cluster ≡ [] → c.host ≢ []
  pub one_store : c.store ≡ [] ⊎ (c.datastore_cluster ≡ [])

trim_slashes_relative : (p : Text) → is_rooted (trim_slashes p) ≡ false
unfolding trim_slashes is_rooted
trim_slashes_relative [] = refl
trim_slashes_relative (c ∷ cs) = ground (arith, trim_slashes_relative cs)

-- The preparation reports no error exactly if the virtual machine has a name, a cluster or a host is
-- given, and no datastore or no datastore cluster is. In any case the folder becomes a path with no
-- leading slash, and nothing else of the location changes.
pub prepare_location-IsLocation :
    (c : LocationConfig)
    → (((prepare_location c).1 ≡ []) ↔ IsLocation c)
      × (is_rooted (prepare_location c).0.folder ≡ false)
      × ((prepare_location c).0 ≡ record c { folder = (prepare_location c).0.folder })
unfolding prepare_location
prepare_location-IsLocation c = (
  (
    λ h. record { named = ground arith; placed = ground arith; one_store = ground arith },
    λ v. ground arith,
  ),
  trim_slashes_relative (path_clean c.folder),
  refl,
)
