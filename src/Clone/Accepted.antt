-- ===== src/Clone/Accepted.antt =====
-- builder/vsphere/clone/step_clone.go: what holds of the configurations that `Prepare` accepts.
use packer_plugin_vsphere.Base.{
  ◌≡◌, refl, ◌≢◌, ◌⊎◌, inl, inr, false, ◌||◌, not, none, some, List, [], ◌∷◌, map, arith,
  if◌then◌else◌, Bool-cases, Option-cases, is_none, pos, int_eq_iff, is_empty, All, NoRepeat,
}
use packer_plugin_vsphere.Config.{append_nil_left}
use packer_plugin_vsphere.Config.Disks.{prepare, IsDiskConfig, prepare-IsDiskConfig}
use packer_plugin_vsphere.Config.Clone.{prepare_storage}
use packer_plugin_vsphere.Config.Prepared.{IsPrepared, units_of, prepare_storage-IsPrepared}
use packer_plugin_vsphere.Clone.{
  ContentLibrarySource, storage_invalid, CloneConfig, StorageConfig, ConfigError, OvfSource, Host,
}
use packer_plugin_vsphere.Clone.Prepare.{
  library_errors, ovf_errors, combined_errors, prepare_clone, prepare_content_library_source,
  used_sources, source_errors, prepare_ovf_source, address_errors, credential_errors,
}
use packer_plugin_vsphere.Clone.Address.{
  IsLocalFile, IsWebAddress, empty_iff, not_empty, address_cases,
}

-- What is asked of a source that is an OVF or OVA file.
pub record IsOvfClone (h : Host) (c : CloneConfig) (o : OvfSource) : Type 0 where
  pub no_template : c.template ≡ []
  pub source : c.ovf_source ≡ some o
  pub no_library : c.content_library_source ≡ none
  pub address : IsLocalFile h o ⊎ IsWebAddress h o
  pub no_disk_size : c.disk_size ≡ pos 0
  pub not_linked : c.linked_clone ≡ false
  pub no_types : c.storage_config.disk_controller_type ≡ []
  pub no_storage : c.storage_config.storage ≡ []

-- The storage blocks of a clone: each alone, and the units of all.
abbrev pub AreDisks : StorageConfig → Type 0
AreDisks s =
    All (IsDiskConfig s.disk_controller_type) s.storage
    × All (IsPrepared s.disk_controller_type) s.storage
    × NoRepeat (units_of s.storage)

pub record IsLibraryClone (c : CloneConfig) (l : ContentLibrarySource) : Type 0 where
  pub no_template : c.template ≡ []
  pub no_ovf : c.ovf_source ≡ none
  pub source : c.content_library_source ≡ some l
  pub in_library : l.library ≢ []
  pub named : l.name ≢ []
  pub not_linked : c.linked_clone ≡ false
  pub disks : AreDisks c.storage_config

pub record IsTemplateClone (c : CloneConfig) : Type 0 where
  pub has_template : c.template ≢ []
  pub no_ovf : c.ovf_source ≡ none
  pub no_library : c.content_library_source ≡ none
  pub disks : AreDisks c.storage_config
  pub linked_or_resized : c.linked_clone ≡ false ⊎ (c.disk_size ≡ pos 0)
  pub network_of_mac : c.mac_address ≡ [] ⊎ (c.network ≢ [])
  pub no_option : c.vapp.deployment_option ≡ []

-- The ways in which a clone is accepted.
pub data IsAccepted (h : Host) (c : CloneConfig) : Type 0 where
  from_template : IsTemplateClone c → IsAccepted h c
  from_ovf : (o : OvfSource) → IsOvfClone h c o → IsAccepted h c
  from_library : (l : ContentLibrarySource) → IsLibraryClone c l → IsAccepted h c

map_nil : (es : List ConfigError) → map storage_invalid es ≡ [] → es ≡ []
map_nil [] q = refl
map_nil (e ∷ es) q = absurd (ground arith)

module _ (h : Host) (c : CloneConfig) where
  prepare_ovf_source-nil :
      (o : OvfSource)
      → prepare_ovf_source h c o ≡ []
      → (IsLocalFile h o ⊎ IsWebAddress h o)
        × (c.disk_size ≡ pos 0)
        × (c.linked_clone ≡ false)
        × (c.storage_config.disk_controller_type ≡ [])
        × (c.storage_config.storage ≡ [])
  unfolding prepare_ovf_source
  prepare_ovf_source-nil o q =
      let (a, q₁) = append_nil_left (address_errors h o) _ q in
      let (b, q₂) = append_nil_left (credential_errors o) _ q₁ in
      (
        address_cases h o a b,
        (int_eq_iff c.disk_size (pos 0)).0 (ground arith),
        ground arith,
        (empty_iff _).0 (ground arith),
        (empty_iff _).0 (ground arith),
      )

  -- Exactly one source is used.
  source_cases :
      source_errors (used_sources c) ≡ []
      → ((c.template ≢ []) × (c.ovf_source ≡ none) × (c.content_library_source ≡ none))
        ⊎ (((o : OvfSource) × (c.template ≡ [])
              × (c.ovf_source ≡ some o)
              × (c.content_library_source ≡ none))
            ⊎ ((l : ContentLibrarySource) × (c.template ≡ [])
                × (c.ovf_source ≡ none)
                × (c.content_library_source ≡ some l)))
  unfolding source_errors used_sources
  source_cases q = elim (Bool-cases (is_empty c.template)) [
    | inl t ↦ elim (Option-cases c.ovf_source) [
      | inl a ↦ elim (Option-cases c.content_library_source) [
        | inl b ↦ absurd (ground arith)
        | inr (l, b) ↦ inr (inr (l, (empty_iff _).0 t, a, b))
      ]
      | inr (o, a) ↦ elim (Option-cases c.content_library_source) [
        | inl b ↦ inr (inl (o, (empty_iff _).0 t, a, b))
        | inr (l, b) ↦ absurd (ground arith)
      ]
    ]
    | inr t ↦ elim (Option-cases c.ovf_source) [
      | inl a ↦ elim (Option-cases c.content_library_source) [
        | inl b ↦ inl (ground arith, a, b)
        | inr (l, b) ↦ absurd (ground arith)
      ]
      | inr (o, a) ↦ absurd (ground arith)
    ]
  ]

  disks_of_storage :
      prepare c.storage_config ≡ []
      → prepare_storage c.storage_config ≡ []
      → AreDisks c.storage_config
  disks_of_storage p q =
      let (u, n) = prepare_storage-IsPrepared c.storage_config q in
      (prepare-IsDiskConfig c.storage_config p, u, n)

  prepare_content_library_source-nil :
      (l : ContentLibrarySource)
      → prepare_content_library_source c l ≡ []
      → (l.library ≢ []) × (l.name ≢ []) × (c.linked_clone ≡ false)
  unfolding prepare_content_library_source
  prepare_content_library_source-nil l q = (ground arith, ground arith, ground arith)

  combined_errors-nil :
      c.template ≢ []
      → c.ovf_source ≡ none
      → c.content_library_source ≡ none
      → combined_errors c ≡ []
      → (c.linked_clone ≡ false ⊎ (c.disk_size ≡ pos 0))
        × (c.mac_address ≡ [] ⊎ (c.network ≢ []))
        × (c.vapp.deployment_option ≡ [])
  unfolding combined_errors
  combined_errors-nil t o l q =
      (ground (arith, int_eq_iff c.disk_size (pos 0)), ground arith, ground arith)

  -- Where the preparation of a clone reports no error, exactly one source is used, and what is asked
  -- of that source holds: an OVF source has an accepted address and no setting of disks; a template
  -- and a content library item have storage blocks that are accepted each alone and together, and a
  -- template is not both linked and resized, has a network with a MAC address, and no deployment
  -- option.
  pub prepare_clone-IsAccepted : (prepare_clone h c).0 ≡ [] → IsAccepted h c
  unfolding prepare_clone prepare_ovf_source prepare_content_library_source
  prepare_clone-IsAccepted q =
      let (s, q₁) = append_nil_left (source_errors (used_sources c)) _ q in
      let (a, q₂) = append_nil_left (ovf_errors h c c.ovf_source) _ q₁ in
      let (b, q₃) = append_nil_left (library_errors c c.content_library_source) _ q₂ in
      let (p, q₄) = append_nil_left (map storage_invalid (prepare c.storage_config)) _ q₃ in
      let (u, v) =
        append_nil_left
          (if not (is_empty c.template) || not (is_none c.content_library_source)
            then map storage_invalid (prepare_storage c.storage_config)
            else [])
          _ q₄ in
      let sound = map_nil _ p in
      elim (source_cases s) [
        | inl (t, o, l) ↦
            let (x, y, z) = combined_errors-nil t o l v in
            from_template (record {
              has_template = t;
              no_ovf = o;
              no_library = l;
              disks = disks_of_storage sound (map_nil _ (rw (not_empty c.template t) at u));
              linked_or_resized = x;
              network_of_mac = y;
              no_option = z;
            })
        | inr (inl (o, t, e, l)) ↦
            let (x, y, z, w, m) = prepare_ovf_source-nil o (rw e at a) in
            from_ovf o (record {
              no_template = t;
              source = e;
              no_library = l;
              address = x;
              no_disk_size = y;
              not_linked = z;
              no_types = w;
              no_storage = m;
            })
        | inr (inr (l, t, o, e)) ↦
            let (x, y, z) = prepare_content_library_source-nil l (rw e at b) in
            from_library l (record {
              no_template = t;
              no_ovf = o;
              source = e;
              in_library = x;
              named = y;
              not_linked = z;
              disks = disks_of_storage sound (map_nil _ (rw (t, e) at u));
            })
      ]
