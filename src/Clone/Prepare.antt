-- ===== src/Clone/Prepare.antt =====
-- builder/vsphere/clone/step_clone.go: `CloneConfig.Prepare`, with the checks of the sources.
use packer_plugin_vsphere.Base.{
  Bool, ◌&&◌, ◌||◌, not, Option, none, some, List, [], ◌∷◌, ◌++◌, map, if◌then◌else◌, is_none, pos,
  int_eq, is_empty, Result, ok, err, Text, codes, text_eq, has_suffix, to_lower,
}
use packer_plugin_vsphere.Config.{error_if}
use packer_plugin_vsphere.Config.Disks.{prepare}
use packer_plugin_vsphere.Config.Clone.{prepare_storage}
use packer_plugin_vsphere.Config.Location.{path_clean}
use packer_plugin_vsphere.Clone.{
  OvfSource, ContentLibrarySource, CloneConfig, SourceName, template_source, ovf_source_name,
  library_source, CloneError, source_required, both_sources, url_and_path, url_or_path_required,
  invalid_url, url_scheme, url_suffix, path_suffix, path_missing, path_directory, path_unreadable,
  credentials_without_url, tls_without_url, password_required, username_required,
  disk_size_with_ovf, linked_clone_with_ovf, types_with_ovf, storage_with_ovf, library_required,
  name_required, linked_clone_with_library, storage_invalid, linked_clone_and_disk_size,
  network_for_mac, deployment_option_with_template, ParsedUrl, FileKind, missing, directory, file,
  unreadable, Host,
}

-- The sources that are used, in their order.
unfoldable pub used_sources : CloneConfig → List SourceName
used_sources c =
    error_if (not (is_empty c.template)) template_source
    ++ (error_if (not (is_none c.ovf_source)) ovf_source_name
        ++ error_if (not (is_none c.content_library_source)) library_source)

-- Two neighbours of the used sources, one error for each such pair.
unfoldable pub neighbours : SourceName → List SourceName → List CloneError
neighbours a [] = []
neighbours a (b ∷ rest) = both_sources a b ∷ neighbours b rest

unfoldable pub source_errors : List SourceName → List CloneError
unfolding neighbours
source_errors [] = source_required ∷ []
source_errors (a ∷ rest) = neighbours a rest

-- Whether a file is named as OVF or OVA.
unfoldable pub is_ovf_file : Text → Bool
is_ovf_file p = has_suffix (to_lower p) (codes ".ovf") || has_suffix (to_lower p) (codes ".ova")

abbrev pub url_errors : Result Text ParsedUrl → List CloneError
url_errors (err e) = invalid_url e ∷ []
url_errors (ok u) =
    if not (text_eq u.scheme (codes "http")) && not (text_eq u.scheme (codes "https"))
    then url_scheme ∷ []
    else error_if (not (is_ovf_file u.path)) url_suffix

abbrev pub stat_errors : Text → FileKind → List CloneError
stat_errors p missing = path_missing p ∷ []
stat_errors p (unreadable e) = path_unreadable p e ∷ []
stat_errors p directory = path_directory p ∷ []
stat_errors p file = []

-- `c.OvfSource.Path = cleaned`, with `filepath.Clean` as on Unix.
unfoldable pub cleaned : OvfSource → OvfSource
cleaned o = if is_empty o.path then o else record o { path = path_clean o.path }

unfoldable pub cleaned_source : Option OvfSource → Option OvfSource
cleaned_source none = none
cleaned_source (some o) = some (cleaned o)

unfoldable pub credential_errors : OvfSource → List CloneError
credential_errors o =
    let has_username = not (is_empty o.username) in
    let has_password = not (is_empty o.password) in
    if not (is_empty o.url)
    then error_if (has_username && not has_password) password_required
      ++ error_if (has_password && not has_username) username_required
    else []

-- `prepareContentLibrarySource`.
unfoldable pub prepare_content_library_source : CloneConfig → ContentLibrarySource → List CloneError
prepare_content_library_source c l =
    error_if (is_empty l.library) library_required
    ++ (error_if (is_empty l.name) name_required
        ++ error_if c.linked_clone linked_clone_with_library)

abbrev pub library_errors : CloneConfig → Option ContentLibrarySource → List CloneError
library_errors c none = []
library_errors c (some l) = prepare_content_library_source c l

-- The checks that read several settings.
unfoldable pub combined_errors : CloneConfig → List CloneError
combined_errors c =
    error_if (c.linked_clone && not (int_eq c.disk_size (pos 0))) linked_clone_and_disk_size
    ++ (error_if
          (not (is_empty c.mac_address)
            && (is_empty c.network && (is_none c.ovf_source && is_none c.content_library_source)))
          network_for_mac
        ++ error_if (not (is_empty c.template) && not (is_empty c.vapp.deployment_option))
            deployment_option_with_template)

module _ (h : Host) where
  unfoldable pub path_errors : Text → List CloneError
  path_errors cleaned =
      if not (is_ovf_file cleaned) then path_suffix ∷ [] else stat_errors cleaned (h.stat cleaned)

  -- The checks of the location of the file, and of the credentials.
  unfoldable pub address_errors : OvfSource → List CloneError
  address_errors o =
      let has_url = not (is_empty o.url) in
      let has_path = not (is_empty o.path) in
      error_if (has_url && has_path) url_and_path
      ++ (error_if (not has_url && not has_path) url_or_path_required
          ++ ((if has_url then url_errors (h.parse_url o.url) else [])
              ++ (if has_path
                  then path_errors (path_clean o.path)
                    ++ (error_if (not (is_empty o.username) || not (is_empty o.password))
                          credentials_without_url
                        ++ error_if o.skip_tls_verify tls_without_url)
                  else [])))

  -- `prepareOvfSource`, without the cleaned path that it keeps.
  unfoldable pub prepare_ovf_source : CloneConfig → OvfSource → List CloneError
  prepare_ovf_source c o =
      address_errors o
      ++ (credential_errors o
          ++ (error_if (not (int_eq c.disk_size (pos 0))) disk_size_with_ovf
              ++ (error_if c.linked_clone linked_clone_with_ovf
                  ++ (error_if (not (is_empty c.storage_config.disk_controller_type)) types_with_ovf
                      ++ error_if (not (is_empty c.storage_config.storage)) storage_with_ovf))))

  abbrev pub ovf_errors : CloneConfig → Option OvfSource → List CloneError
  ovf_errors c none = []
  ovf_errors c (some o) = prepare_ovf_source c o

  -- `CloneConfig.Prepare`: the errors, and the configuration as it leaves it.
  unfoldable pub prepare_clone : CloneConfig → List CloneError × CloneConfig
  prepare_clone c = (
    source_errors (used_sources c)
        ++ (ovf_errors c c.ovf_source
            ++ (library_errors c c.content_library_source
                ++ (map storage_invalid (prepare c.storage_config)
                    ++ ((if not (is_empty c.template) || not (is_none c.content_library_source)
                          then map storage_invalid (prepare_storage c.storage_config)
                          else [])
                        ++ combined_errors c)))),
    record c { ovf_source = cleaned_source c.ovf_source },
  )
