-- ===== src/Ovf/Checked.antt =====
-- builder/vsphere/driver/ovf.go and builder/vsphere/clone/step_clone.go: what the driver makes of a
-- source that the preparation accepted.
use packer_plugin_vsphere.Base.{
  ◌≡◌, refl, sym, ap, ◌∙◌, subst, ◌≢◌, ◌⊎◌, inl, inr, Bool, true, false, ◌&&◌, [], ◌∷◌, ◌++◌, arith,
  if◌then◌else◌, Bool-cases, is_empty, Result, ok, err, fail_if, Text, codes, text_eq, text_eq_iff,
  has_prefix, has_suffix, to_lower,
}
use packer_plugin_vsphere.Clone.{OvfSource, ParsedUrl, Host}
use packer_plugin_vsphere.Clone.Prepare.{address_errors, credential_errors, is_ovf_file, cleaned}
use packer_plugin_vsphere.Clone.Address.{ovf_address_iff, IsLocalFile, IsWebAddress, not_empty}
use packer_plugin_vsphere.Config.Location.{path_clean}
use packer_plugin_vsphere.Clone.Run.{CloneStep}
use packer_plugin_vsphere.Clone.Deploy.{ovf_request}
use packer_plugin_vsphere.Ovf.{OvfError, no_host, tls_with_http}
use packer_plugin_vsphere.Ovf.Source.{
  validate_authentication, is_ovf_extension, is_web_scheme, validate_url, is_ovf_url, validate_path,
  validate_remote, validate_source,
}

no_empty_file : is_ovf_file [] ≡ false
unfolding is_ovf_file packer_plugin_vsphere.Base.has_suffix packer_plugin_vsphere.Base.has_prefix
    packer_plugin_vsphere.Base.to_lower
no_empty_file = refl

ovf_file_named : (p : Text) → is_ovf_file p ≡ true → is_empty p ≡ false
ovf_file_named [] h = absurd (ground (arith, no_empty_file))
ovf_file_named (c ∷ cs) h = refl

-- What the driver answers to a source that is prepared: it accepts it, but for a URL without a
-- host, which it misses, and for `skip_tls_verify` with a URL of the scheme http, which it refuses.
pub data IsChecked (h : Host) (o : OvfSource) (r : Result OvfError (Unit {0})) : Type 0 where
  accepted_path : o.path ≢ [] → r ≡ ok tt → IsChecked h o r
  accepted_url :
      (u : ParsedUrl)
      → h.parse_url o.url ≡ ok u
      → u.authority ≢ []
      → o.skip_tls_verify ≡ false ⊎ (u.scheme ≡ codes "https")
      → r ≡ ok tt
      → IsChecked h o r
  without_host :
      (u : ParsedUrl)
      → h.parse_url o.url ≡ ok u
      → u.authority ≡ []
      → r ≡ err no_host
      → IsChecked h o r
  plain_http :
      (u : ParsedUrl)
      → h.parse_url o.url ≡ ok u
      → u.authority ≢ []
      → u.scheme ≡ codes "http"
      → o.skip_tls_verify ≡ true
      → r ≡ err tls_with_http
      → IsChecked h o r

empty_nil : (s : Text) → is_empty s ≡ true → s ≡ []
empty_nil [] e = refl
empty_nil (c ∷ s) e = absurd (ground arith)

given_not_nil : (s : Text) → is_empty s ≡ false → s ≢ []
given_not_nil s e = λ n. absurd (ground arith)

plain_scheme :
    (s : Text) (b : Bool)
    → s ≡ codes "http" ⊎ (s ≡ codes "https")
    → (b && text_eq s (codes "http")) ≡ false
    → b ≡ false ⊎ (s ≡ codes "https")
plain_scheme s false w e = inl refl
plain_scheme s true (inr w) e = inr w
plain_scheme s true (inl w) e = absurd (ground (arith, text_eq_iff s (codes "http")))

module _ (h : Host) (c : CloneStep) (o : OvfSource) (name : Text) where
  local_checked :
      IsLocalFile h o
      → validate_source h (ovf_request c (record o { path = path_clean o.path }) name) ≡ ok tt
  unfolding validate_source validate_path ovf_request is_ovf_extension
  local_checked a =
      rw (a.no_url, ovf_file_named _ a.suffix, a.suffix, a.no_username, a.checked_tls) refl

  checked_authentication :
      is_empty o.username ≡ is_empty o.password
      → validate_authentication (ovf_request c o name).authentication ≡ ok tt
  unfolding validate_authentication ovf_request
  checked_authentication e = elim (Bool-cases (is_empty o.password)) [
    | inl p ↦ rw (e, p) refl
    | inr p ↦ rw (e, p) (rw (e, p) refl)
  ]

  web_scheme : (s : Text) → s ≡ codes "http" ⊎ (s ≡ codes "https") → is_web_scheme s ≡ true
  web_scheme s q = ground (arith, text_eq_iff s (codes "http"), text_eq_iff s (codes "https"))

  no_host_checked :
      (a : IsWebAddress h o)
      → is_empty a.parsed_url.authority ≡ true
      → validate_source h (ovf_request c o name) ≡ err no_host
  unfolding validate_source validate_remote validate_url ovf_request
  no_host_checked a e =
      let web = web_scheme a.parsed_url.scheme a.scheme in
      rw (a.no_path, not_empty o.url a.has_url, a.parsed, web, e) refl

  web_checked :
      (a : IsWebAddress h o)
      → is_empty a.parsed_url.authority ≡ false
      → validate_source h (ovf_request c o name)
        ≡ fail_if (o.skip_tls_verify && text_eq a.parsed_url.scheme (codes "http")) tls_with_http
  unfolding validate_source validate_remote validate_url is_ovf_url is_ovf_extension ovf_request
  web_checked a e =
      let web = web_scheme a.parsed_url.scheme a.scheme in
      let named = ovf_file_named a.parsed_url.path a.suffix in
      let auth = checked_authentication a.credentials in
      rw (a.no_path, not_empty o.url a.has_url, a.parsed, web, e, named, a.suffix, auth) refl

  cleaned-if :
      (b : Bool)
      → is_empty o.path ≡ b
      → cleaned o ≡ (if b then o else record o { path = path_clean o.path })
  unfolding cleaned
  cleaned-if b e = ap (λ z. if z then o else record o { path = path_clean o.path }) e

  web_cases : (a : IsWebAddress h o) → IsChecked h o (validate_source h (ovf_request c o name))
  web_cases a =
      let u = a.parsed_url in
      elim (Bool-cases (is_empty u.authority)) [
        | inl e ↦ without_host u a.parsed (empty_nil u.authority e) (no_host_checked a e)
        | inr e ↦ elim (Bool-cases (o.skip_tls_verify && text_eq u.scheme (codes "http"))) [
          | inl t ↦
              plain_http u a.parsed (given_not_nil u.authority e)
                (ground (arith, text_eq_iff u.scheme (codes "http"))) (ground arith)
                (web_checked a e ∙ ap (λ b. fail_if b tls_with_http) t)
          | inr t ↦
              accepted_url u a.parsed (given_not_nil u.authority e)
                (plain_scheme u.scheme o.skip_tls_verify a.scheme t)
                (web_checked a e ∙ ap (λ b. fail_if b tls_with_http) t)
        ]
      ]

  -- A source whose address the preparation accepts, with its path cleaned, is accepted by the driver
  -- where it is a path, and where it is a URL with a host that is https or does not skip the
  -- verification of TLS. A URL without a host is refused for that; `skip_tls_verify` with a host and
  -- the scheme http is refused for that; and no other source is refused.
  pub validate_source-IsChecked :
      address_errors h o ++ credential_errors o ≡ []
      → IsChecked h o (validate_source h (ovf_request c (cleaned o) name))
  validate_source-IsChecked p = elim ((ovf_address_iff h o).0 p) [
    | inl a ↦
        subst (λ z. IsChecked h o (validate_source h (ovf_request c z name)))
          (sym (cleaned-if false (not_empty o.path a.has_path)))
          (accepted_path a.has_path (local_checked a))
    | inr a ↦
        subst (λ z. IsChecked h o (validate_source h (ovf_request c z name)))
          (sym (cleaned-if true (ap is_empty a.no_path))) (web_cases a)
  ]
