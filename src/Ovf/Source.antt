-- ===== src/Ovf/Source.antt =====
-- builder/vsphere/driver/ovf.go: the validation of a source, and the parameters of the import.
use packer_plugin_vsphere.Base.{
  Bool, false, ◌&&◌, ◌||◌, not, Option, none, some, List, [], ◌∷◌, map, if◌then◌else◌, is_empty,
  Result, ok, err, ◌>>=◌, ◌>>◌, fail_if, map_err, Text, codes, text_eq,
}
use packer_plugin_vsphere.Clone.{ParsedUrl, Host}
use packer_plugin_vsphere.Clone.Prepare.{is_ovf_file}
use packer_plugin_vsphere.Clone.Run.{OvfRequest}
use packer_plugin_vsphere.Ovf.{
  OvfError, both_url_and_path, neither_url_nor_path, path_suffix, credentials_with_path,
  tls_with_path, invalid_url, no_host, no_file, unsupported_protocol, url_suffix, password_missing,
  username_missing, tls_with_http, vm_name_required, networks_unmapped, network_not_found,
  host_not_found, Descriptor, ImportParams, OvfDriver,
}

-- `validateOvfAuthentication`.
unfoldable pub validate_authentication : Option (Text × Text) → Result OvfError (Unit {0})
validate_authentication none = ok tt
validate_authentication (some (username, password)) =
    fail_if (not (is_empty username) && is_empty password) password_missing
    >> fail_if (is_empty username && not (is_empty password)) username_missing

-- `isOvfFileExtension`.
unfoldable pub is_ovf_extension : Text → Bool
is_ovf_extension p = not (is_empty p) && is_ovf_file p

abbrev pub is_web_scheme : Text → Bool
is_web_scheme s = text_eq s (codes "http") || text_eq s (codes "https")

-- `validateOvfURL`.
unfoldable pub validate_url : Result Text ParsedUrl → Result OvfError (Unit {0})
validate_url (err e) = err (invalid_url e)
validate_url (ok u) =
    if is_web_scheme u.scheme
    then fail_if (is_empty u.authority) no_host >> fail_if (is_empty u.path) no_file
    else err (unsupported_protocol u.scheme)

-- `isOvfFileURL`.
unfoldable pub is_ovf_url : Result Text ParsedUrl → Bool
is_ovf_url (err e) = false
is_ovf_url (ok u) = is_ovf_extension u.path

abbrev pub is_plain_http : Result Text ParsedUrl → Bool
is_plain_http (err e) = false
is_plain_http (ok u) = text_eq u.scheme (codes "http")

abbrev pub has_credentials : Option (Text × Text) → Bool
has_credentials none = false
has_credentials (some (username, password)) = not (is_empty username) || not (is_empty password)

unfoldable pub validate_path : OvfRequest → Result OvfError (Unit {0})
validate_path r =
    fail_if (not (is_ovf_extension r.source.path)) path_suffix
    >> fail_if (has_credentials r.authentication) credentials_with_path
    >> fail_if r.source.skip_tls_verify tls_with_path

unfoldable pub validate_remote : OvfRequest → Result Text ParsedUrl → Result OvfError (Unit {0})
validate_remote r parsed =
    validate_url parsed
    >> fail_if (not (is_ovf_url parsed)) url_suffix
    >> validate_authentication r.authentication
    >> fail_if (r.source.skip_tls_verify && is_plain_http parsed) tls_with_http

-- `validateOvfSource`.
unfoldable pub validate_source : Host → OvfRequest → Result OvfError (Unit {0})
validate_source h r =
    let has_url = not (is_empty r.source.url) in
    let has_path = not (is_empty r.source.path) in
    fail_if (has_url && has_path) both_url_and_path
    >> fail_if (not has_url && not has_path) neither_url_nor_path
    >> (if has_path then validate_path r else validate_remote r (h.parse_url r.source.url))

-- `validateOvfDeploymentConfig`.
unfoldable pub validate_deployment : Host → OvfRequest → Result OvfError (Unit {0})
validate_deployment h r =
    fail_if (is_empty r.location.vm_name) vm_name_required >> validate_source h r

module _ (d : OvfDriver) where
  -- `buildOvfNetworkMappings`.
  unfoldable pub network_mappings : List Text → Text → Result OvfError (List (Text × Text))
  network_mappings [] network = ok []
  network_mappings (n ∷ ns) network =
      if is_empty network
      then err (networks_unmapped (n ∷ ns))
      else map_err network_not_found (d.find_network network) >>= λ ref.
          ok (map (λ name. (name, ref)) (n ∷ ns))

  -- The host is looked up only where one is configured.
  unfoldable pub host_of : Text → Result OvfError (Option Text)
  host_of host =
      if is_empty host
      then ok none
      else map_err host_not_found (d.find_host host) >>= λ ref. ok (some ref)

  -- `createOvfImportParams`.
  unfoldable pub import_params : OvfRequest → Descriptor → Result OvfError ImportParams
  import_params r x = do
    networks ← network_mappings x.networks r.network
    host ← host_of r.location.host
    ok (record {
      entity_name = r.location.vm_name;
      deployment_option = r.vapp.deployment_option;
      network_mapping = networks;
      property_mapping = r.vapp.properties;
      host_system = host;
    })
