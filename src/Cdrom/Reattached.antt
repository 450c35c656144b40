-- ===== src/Cdrom/Reattached.antt =====
-- builder/vsphere/common/step_reattach_cdrom.go: the number of CD-ROM devices after the step.
use packer_plugin_vsphere.Base.{
  ℕ, zero, suc, ◌+◌, ◌-◌, ◌≤◌, ◌≡◌, refl, sym, ap, ◌∙◌, subst, ◌⊎◌, inl, inr, Bool, true, false,
  none, List, [], ◌∷◌, arith, ltb, if◌then◌else◌, Bool-cases, ℤ, pos, negsuc, length, Result, ok,
  err, fail_if, map_err, >>=-eq-ok, map_err-eq-ok, fail_if-eq-ok, Text, codes, text_eq,
}
use packer_plugin_vsphere.Config.{append_nil_left, error_if, error_if-nil}
use packer_plugin_vsphere.Cdrom.{
  Cdrom, Hardware, CdromError, call_failed, invalid_count, listing_failed, removing_failed,
  invalid_number, ejecting_failed, CdromServer, CdromLaws, drop,
}
use packer_plugin_vsphere.Cdrom.Devices.{
  cdrom_devices, find_sata_controller, add_sata_controller, remove_last, remove_n_cdroms,
  eject_each, eject_cdroms, cdrom_controller, add_cdrom,
}
use packer_plugin_vsphere.Cdrom.Run.{
  CdromConfig, prepare_cdrom, is_unknown_type, unknown_type, reattach_out_of_range, is_no_sata,
  sata_for_reattach, add_empty, add_missing, run_reattach,
}

pub length-drop {ℓ} : {A : Type ℓ} (n : ℕ) (xs : List A) → length (drop n xs) ≡ length xs - n
length-drop zero xs = omega arith
length-drop (suc n) [] = omega arith
length-drop (suc n) (x ∷ xs) = omega (arith, length-drop n xs)

module _ (v : CdromServer) (laws : CdromLaws v) where
  length-eject_each :
      (cs : List Cdrom) (h h' : Hardware)
      → eject_each v cs h ≡ ok h'
      → length h'.cdroms ≡ length h.cdroms
  unfolding eject_each
  length-eject_each [] h h' q = ground (arith, q)
  length-eject_each (c ∷ cs) h h' q =
      let (h₁, e, r) =
        >>=-eq-ok (map_err call_failed (v.edit_device (record c { medium = none }) h)) _ q in
      length-eject_each cs h₁ h' r ∙ laws.edited _ h h₁ (map_err-eq-ok call_failed _ e)

  length-eject_cdroms :
      (h h' : Hardware) → eject_cdroms v h ≡ ok h' → length h'.cdroms ≡ length h.cdroms
  unfolding eject_cdroms
  length-eject_cdroms h h' q =
      let (cs, e, r) = >>=-eq-ok (cdrom_devices v h) _ q in length-eject_each cs h h' r

  cdrom_devices-eq-ok : (h : Hardware) (cs : List Cdrom) → cdrom_devices v h ≡ ok cs → h.cdroms ≡ cs
  unfolding cdrom_devices
  cdrom_devices-eq-ok h cs q =
      let (u, e, r) = >>=-eq-ok (map_err call_failed (v.read h)) _ q in ground (arith, r)

  length-remove_n_cdroms :
      (n : ℕ) (h h' : Hardware)
      → remove_n_cdroms v n h ≡ ok h'
      → length h'.cdroms + n ≡ length h.cdroms
  unfolding remove_n_cdroms remove_last
  length-remove_n_cdroms zero h h' q = ground (arith, q)
  length-remove_n_cdroms (suc n) h h' q =
      let (cs, e, r) = >>=-eq-ok (cdrom_devices v h) _ q in
      let same = cdrom_devices-eq-ok h cs e in
      let (u, e₂, r₂) =
        >>=-eq-ok (fail_if (ltb (length cs) (suc n)) (invalid_number (length cs))) _ r in
      let enough = fail_if-eq-ok _ _ e₂ in
      let gone = laws.removed (length h.cdroms - suc n) h h' (
        subst (λ z. v.remove_cdroms (drop (length z - suc n) z) h ≡ ok h') (sym same)
          (map_err-eq-ok call_failed _ r₂)) in
      let left = length-drop (length h.cdroms - suc n) h.cdroms in
      let fits = ap length same in ground (arith, gone, left, enough)

  length-add_cdrom :
      (t path : Text) (h h' : Hardware)
      → add_cdrom v t path h ≡ ok h'
      → length h'.cdroms ≡ suc (length h.cdroms)
  unfolding add_cdrom
  length-add_cdrom t path h h' q =
      let (u, e, r) = >>=-eq-ok (map_err call_failed (v.read h)) _ q in
      let (k, e₂, r₂) = >>=-eq-ok (cdrom_controller v t h) _ r in
      let (c, e₃, r₃) = >>=-eq-ok (map_err call_failed (v.create_cdrom h k path)) _ r₂ in
      laws.added c h h' (map_err-eq-ok call_failed _ r₃)

  length-sata_for_reattach :
      (h h' : Hardware) (r : Result CdromError ℤ)
      → sata_for_reattach v h r ≡ ok h'
      → length h'.cdroms ≡ length h.cdroms
  unfolding sata_for_reattach add_sata_controller
  length-sata_for_reattach h h' (ok k) q = ground (arith, q)
  length-sata_for_reattach h h' (err e) q = elim (Bool-cases (is_no_sata e)) [
    | inl b ↦ laws.added_sata h h' (map_err-eq-ok _ _ (map_err-eq-ok _ _ (rw b at q)))
    | inr b ↦ ground (arith, rw b at q)
  ]

  length-add_empty :
      (t : Text) (n : ℕ) (h h' : Hardware)
      → add_empty v t n h ≡ ok h'
      → length h'.cdroms ≡ length h.cdroms + n
  unfolding add_empty
  length-add_empty t zero h h' q = ground (arith, q)
  length-add_empty t (suc n) h h' q =
      let (h₁, e, r) = >>=-eq-ok (add_cdrom v t [] h) _ q in
      ground (arith, length-add_cdrom t [] h h₁ e, length-add_empty t n h₁ h' r)

  before_adding :
      (b : Bool) (h h' : Hardware)
      → (if b then sata_for_reattach v h (find_sata_controller v h) else ok h) ≡ ok h'
      → length h'.cdroms ≡ length h.cdroms
  before_adding true h h' q = length-sata_for_reattach h h' _ q
  before_adding false h h' q = ground (arith, q)

  length-add_missing :
      (t : Text) (n : ℕ) (h h' : Hardware)
      → add_missing v t n h ≡ ok h'
      → length h'.cdroms ≡ length h.cdroms + n
  unfolding add_missing
  length-add_missing t zero h h' q = ground (arith, q)
  length-add_missing t (suc n) h h' q =
      let (h₁, e, r) =
        >>=-eq-ok
          (if text_eq t (codes "sata")
            then sata_for_reattach v h (find_sata_controller v h)
            else ok h)
          _ q in
      ground (arith, before_adding _ h h₁ e, length-add_empty t (suc n) h₁ h' r)

  not_reattached : (t : Text) (h h' : Hardware) → run_reattach v t (pos zero) h ≡ ok h' → h' ≡ h
  unfolding run_reattach
  not_reattached t h h' q = ground arith

  reattached :
      (t : Text) (n : ℕ) (h h' : Hardware)
      → run_reattach v t (pos (suc n)) h ≡ ok h'
      → length h'.cdroms ≡ suc n
  unfolding run_reattach
  reattached t n h h' q =
      let (u, e, r) = >>=-eq-ok (fail_if (ltb 4 (suc n)) invalid_count) _ q in
      let (cs, e₁, r₁) = >>=-eq-ok (map_err listing_failed (cdrom_devices v h)) _ r in
      let same = cdrom_devices-eq-ok h cs (map_err-eq-ok _ _ e₁) in
      let (h₁, e₂, r₂) =
        >>=-eq-ok (map_err removing_failed (remove_n_cdroms v (length cs - suc n) h)) _ r₁ in
      let (h₂, e₃, r₃) = >>=-eq-ok (map_err ejecting_failed (eject_cdroms v h₁)) _ r₂ in
      let a = length-remove_n_cdroms (length cs - suc n) h h₁ (map_err-eq-ok _ _ e₂) in
      let b = length-eject_cdroms h₁ h₂ (map_err-eq-ok _ _ e₃) in
      let c = length-add_missing t (suc n - length cs) h₂ h' r₃ in
      omega (arith, a, b, c, ap length same)

  -- Where the settings are accepted and vSphere does as documented, a step that succeeds leaves as many
  -- CD-ROM devices as `reattach_cdroms` says, at most four, however many there were before; with 0 it
  -- changes nothing.
  pub length-run_reattach :
      (c : CdromConfig) (n : ℤ) (h h' : Hardware)
      → prepare_cdrom c n ≡ []
      → run_reattach v c.cdrom_type n h ≡ ok h'
      → ((n ≡ pos 0) × (h' ≡ h)) ⊎ ((k : ℕ) × (n ≡ pos k) × (k ≤ 4) × (length h'.cdroms ≡ k))
  unfolding prepare_cdrom
  length-run_reattach c (negsuc n) h h' p q =
      let (u, w) = append_nil_left (error_if (is_unknown_type c.cdrom_type) unknown_type) _ p in
      absurd (ground (arith, error_if-nil true reattach_out_of_range w))
  length-run_reattach c (pos zero) h h' p q = inl (refl, not_reattached c.cdrom_type h h' q)
  length-run_reattach c (pos (suc n)) h h' p q =
      let (u, w) = append_nil_left (error_if (is_unknown_type c.cdrom_type) unknown_type) _ p in
      inr (
        suc n,
        refl,
        ground (arith, error_if-nil (ltb 4 (suc n)) reattach_out_of_range w),
        reattached c.cdrom_type n h h' q,
      )
