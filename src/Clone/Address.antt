-- ===== src/Clone/Address.antt =====
-- builder/vsphere/clone/step_clone.go: the addresses of OVF sources that `prepareOvfSource` accepts.
use packer_plugin_vsphere.Base.{
  ◌≡◌, refl, ◌≢◌, ◌↔◌, ◌⊎◌, inl, inr, true, false, ◌&&◌, not, List, [], ◌∷◌, ◌++◌, arith,
  Bool-cases, is_empty, Result, ok, err, Text, codes, text_eq, text_eq_iff,
}
use packer_plugin_vsphere.Config.{append_nil_left}
use packer_plugin_vsphere.Config.Location.{path_clean}
use packer_plugin_vsphere.Clone.{
  OvfSource, ParsedUrl, FileKind, missing, directory, file, unreadable, Host,
}
use packer_plugin_vsphere.Clone.Prepare.{
  is_ovf_file, url_errors, stat_errors, path_errors, address_errors, credential_errors,
}

-- A file of the host, which needs no credentials.
pub record IsLocalFile (h : Host) (o : OvfSource) : Type 0 where
  pub no_url : o.url ≡ []
  pub has_path : o.path ≢ []
  pub suffix : is_ovf_file (path_clean o.path) ≡ true
  pub a_file : h.stat (path_clean o.path) ≡ file
  pub no_username : o.username ≡ []
  pub no_password : o.password ≡ []
  pub checked_tls : o.skip_tls_verify ≡ false

-- A web address, with both credentials or with none.
pub record IsWebAddress (h : Host) (o : OvfSource) : Type 0 where
  pub no_path : o.path ≡ []
  pub has_url : o.url ≢ []
  pub parsed_url : ParsedUrl
  pub parsed : h.parse_url o.url ≡ ok parsed_url
  pub scheme : parsed_url.scheme ≡ codes "http" ⊎ (parsed_url.scheme ≡ codes "https")
  pub suffix : is_ovf_file parsed_url.path ≡ true
  pub credentials : is_empty o.username ≡ is_empty o.password

pub empty_iff {ℓ} : {A : Type ℓ} (xs : List A) → (is_empty xs ≡ true) ↔ (xs ≡ [])
empty_iff [] = ground arith
empty_iff (x ∷ xs) = ground arith

pub not_empty {ℓ} : {A : Type ℓ} (xs : List A) → xs ≢ [] → is_empty xs ≡ false
not_empty [] n = absurd (n refl)
not_empty (x ∷ xs) n = refl

module _ (h : Host) where
  url_errors-nil :
      (r : Result Text ParsedUrl)
      → url_errors r ≡ []
      → (u : ParsedUrl) × (r ≡ ok u)
        × (u.scheme ≡ codes "http" ⊎ (u.scheme ≡ codes "https"))
        × (is_ovf_file u.path ≡ true)
  url_errors-nil (err e) q = absurd (ground arith)
  url_errors-nil (ok u) q = (
    u,
    refl,
    ground (arith, text_eq_iff u.scheme (codes "http"), text_eq_iff u.scheme (codes "https")),
    ground arith,
  )

  stat_errors-nil : (p : Text) (k : FileKind) → stat_errors p k ≡ [] → k ≡ file
  stat_errors-nil p missing q = absurd (ground arith)
  stat_errors-nil p directory q = absurd (ground arith)
  stat_errors-nil p file q = refl
  stat_errors-nil p (unreadable e) q = absurd (ground arith)

  path_errors-nil : (p : Text) → path_errors h p ≡ [] → (is_ovf_file p ≡ true) × (h.stat p ≡ file)
  unfolding path_errors
  path_errors-nil p q = elim (Bool-cases (is_ovf_file p)) [
    | inl e ↦ (e, stat_errors-nil p (h.stat p) (rw e at q))
    | inr e ↦ absurd (ground arith)
  ]

  pub address_cases :
      (o : OvfSource)
      → address_errors h o ≡ []
      → credential_errors o ≡ []
      → IsLocalFile h o ⊎ IsWebAddress h o
  unfolding address_errors credential_errors
  address_cases o p q = elim (Bool-cases (is_empty o.url)) [
    | inl u ↦ elim (Bool-cases (is_empty o.path)) [
      | inl v ↦ absurd (ground arith)
      | inr v ↦
          let (a, b) = append_nil_left (path_errors h (path_clean o.path)) _ (rw (u, v) at p) in
          let (s, f) = path_errors-nil (path_clean o.path) a in
          inl (record {
            no_url = (empty_iff o.url).0 u;
            has_path = ground arith;
            suffix = s;
            a_file = f;
            no_username = ground arith;
            no_password = ground arith;
            checked_tls = ground arith;
          })
    ]
    | inr u ↦ elim (Bool-cases (is_empty o.path)) [
      | inr v ↦ absurd (ground arith)
      | inl v ↦
          let (a, b) = append_nil_left (url_errors (h.parse_url o.url)) _ (rw (u, v) at p) in
          let (x, y, z, w) = url_errors-nil (h.parse_url o.url) a in
          inr (record {
            no_path = (empty_iff o.path).0 v;
            has_url = ground arith;
            parsed_url = x;
            parsed = y;
            scheme = z;
            suffix = w;
            credentials = ground arith;
          })
    ]
  ]

  web_scheme :
      (s : Text)
      → s ≡ codes "http" ⊎ (s ≡ codes "https")
      → (not (text_eq s (codes "http")) && not (text_eq s (codes "https"))) ≡ false
  web_scheme s q = ground (arith, text_eq_iff s (codes "http"), text_eq_iff s (codes "https"))

  accepted_address :
      (o : OvfSource)
      → IsLocalFile h o ⊎ IsWebAddress h o
      → address_errors h o ++ credential_errors o ≡ []
  unfolding address_errors credential_errors path_errors
  accepted_address o (inl a) =
      rw
        (
          a.no_url,
          a.no_username,
          a.no_password,
          a.checked_tls,
          not_empty o.path a.has_path,
          a.suffix,
          a.a_file,
        )
        refl
  accepted_address o (inr a) = elim (Bool-cases (is_empty o.password)) [
    | inl e ↦
        rw
          (
            a.no_path,
            not_empty o.url a.has_url,
            a.parsed,
            a.credentials,
            a.suffix,
            web_scheme a.parsed_url.scheme a.scheme,
            e,
          )
          refl
    | inr e ↦
        rw
          (
            a.no_path,
            not_empty o.url a.has_url,
            a.parsed,
            a.credentials,
            a.suffix,
            web_scheme a.parsed_url.scheme a.scheme,
            e,
          )
          refl
  ]

  -- The checks of the address and of the credentials of an OVF source report no error exactly if it
  -- is the path of an OVF or OVA file that is there, with no credentials and no TLS setting, or a
  -- web address of such a file with both credentials or none; never both a path and a URL.
  pub ovf_address_iff :
      (o : OvfSource)
      → (address_errors h o ++ credential_errors o ≡ []) ↔ (IsLocalFile h o ⊎ IsWebAddress h o)
  ovf_address_iff o = (
    λ q. let (a, b) = append_nil_left (address_errors h o) _ q in address_cases o a b,
    accepted_address o,
  )
