-- ===== src/Build/Configure/Configured.antt =====
-- builder/vsphere/driver/vm.go: what Configure leaves behind.
use packer_plugin_vsphere.Base.{
  ◌≡◌, refl, ap, ◌∙◌, ◌≢◌, ◌⊎◌, inl, inr, Bool, true, false, ◌&&◌, ◌||◌, not, Option, none, some,
  List, [], ◌∷◌, ◌++◌, arith, ltb, if◌then◌else◌, ℤ, length, is_empty, exists, Result, ok, map_err,
  >>=-eq-ok, map_err-eq-ok, Text, codes, text_eq, text_eq_iff,
}
use packer_plugin_vsphere.Build.{HardwareConfig}
use packer_plugin_vsphere.Build.Configure.{
  Hardware, video_cards, pci_devices, count_true, is_tpm, edit_video, asks_video, change_vgpu,
  change_allowed, HardwareChange, new_tpm, new_clock, Machine, config_spec, match_tpm, add_clock,
  remove_vtpm, apply_spec, after_vgpu, with_vgpu, after_video, configure,
}
use packer_plugin_vsphere.Build.Configure.Changes.{
  IsVideo, IsVgpu, IsAllowed, empty_nil, zero_pos, change_allowed-IsAllowed, change_vgpu-none,
  change_vgpu-IsVgpu, edit_video-none, edit_video-IsVideo,
}

-- What vSphere is documented to do with virtual TPMs.
pub record MachineLaws {H : Type 0} (v : Machine H) : Type 0 where
  pub add_tpm :
      (h h' : H) (ds : List Hardware)
      → v.add_device new_tpm h ≡ ok h'
      → v.devices h' ≡ ok ds
      → exists is_tpm ds ≡ true
  pub remove_tpm :
      (h h' : H) (ds : List Hardware)
      → v.remove_tpms h ≡ ok h'
      → v.devices h' ≡ ok ds
      → exists is_tpm ds ≡ false
  pub add_clock :
      (k : Text) (h h' : H) (ds : List Hardware)
      → v.add_device (new_clock k) h ≡ ok h'
      → v.devices h' ≡ ok ds
      → (old : List Hardware) × (v.devices h ≡ ok old) × (exists is_tpm ds ≡ exists is_tpm old)

module _ {H : Type 0} (v : Machine H) (laws : MachineLaws v) (parse : Text → Result Text ℤ)
    (c : HardwareConfig) where
  -- The devices of a machine have a virtual TPM exactly if the settings say so.
  abbrev pub HasTpmAsSet : H → Type 0
  HasTpmAsSet h = (ds : List Hardware) → v.devices h ≡ ok ds → exists is_tpm ds ≡ c.vtpm_enabled

  -- The settings ask for what the machine cannot have: a change of the video card where there is not
  -- exactly one, or a vGPU where there are several.
  abbrev pub IsSkipped : H → Type 0
  IsSkipped h =
      (ds : List Hardware) × (v.devices h ≡ ok ds)
      × ((asks_video c ≡ true) × (length (video_cards ds) ≢ 1)
          ⊎ (is_empty c.vgpu_profile ≡ false) × (ltb 1 (count_true (pci_devices ds)) ≡ true))

  -- The calls after the reconfiguration: at most one for a virtual TPM, then one for a clock where a
  -- clock is set.
  abbrev pub IsTpmCall : H → H → Type 0
  IsTpmCall h h' = h ≡ h' ⊎ (v.add_device new_tpm h ≡ ok h' ⊎ v.remove_tpms h ≡ ok h')

  abbrev pub IsClockCall : H → H → Type 0
  IsClockCall h h' =
      (c.precision_clock ≡ [] ⊎ (c.precision_clock ≡ codes "none")) × (h ≡ h')
      ⊎ (c.precision_clock ≢ [])
        × (c.precision_clock ≢ codes "none")
        × (v.add_device (new_clock c.precision_clock) h ≡ ok h')

  -- A machine that was reconfigured with the changes that the settings ask for, from the one before.
  pub record IsConfigured (h h' : H) : Type 0 where
    pub video : List HardwareChange
    pub vgpu : List HardwareChange
    pub allowed : List HardwareChange
    pub reconfigured : H
    pub with_tpm : H
    pub is_video : IsVideo v c h video
    pub is_vgpu : IsVgpu v c h vgpu
    pub is_allowed : IsAllowed parse c allowed
    pub sent : v.reconfigure (config_spec c (video ++ (vgpu ++ allowed))) h ≡ ok reconfigured
    pub tpm_call : IsTpmCall reconfigured with_tpm
    pub clock_call : IsClockCall with_tpm h'
    pub tpm_as_set : HasTpmAsSet h'

  if_ok :
      (b : Bool) (x y : Result Text H) (h' : H)
      → (if b then x else y) ≡ ok h'
      → (b ≡ true) × (x ≡ ok h') ⊎ (b ≡ false) × (y ≡ ok h')
  if_ok true x y h' e = inl (refl, e)
  if_ok false x y h' e = inr (refl, e)

  same_devices :
      (h h' : H) (ds ds' : List Hardware)
      → v.devices h ≡ ok ds
      → h ≡ h'
      → v.devices h' ≡ ok ds'
      → ds ≡ ds'
  same_devices h h' ds ds' q e r = cc

  remove_vtpm-no_tpm :
      (h h' : H) (ds : List Hardware)
      → remove_vtpm v parse c h ≡ ok h'
      → v.devices h' ≡ ok ds
      → exists is_tpm ds ≡ false
  unfolding remove_vtpm
  remove_vtpm-no_tpm h h' ds e q =
      let (old, d, r) = >>=-eq-ok (map_err _ (v.devices h)) _ e in
      elim (if_ok (exists is_tpm old) (map_err _ (v.remove_tpms h)) (ok h) h' r) [
        | inl (b, x) ↦ laws.remove_tpm h h' ds (map_err-eq-ok _ (v.remove_tpms h) x) q
        | inr (b, x) ↦ rw (← same_devices h h' old ds (map_err-eq-ok _ (v.devices h) d) (cc) q) b
      ]

  match_tpm-HasTpmAsSet :
      (h h' : H) (ds : List Hardware)
      → v.devices h ≡ ok ds
      → match_tpm v parse c h ds ≡ ok h'
      → HasTpmAsSet h'
  match_tpm-HasTpmAsSet h h' ds q e ds' q' =
      let same =
        (c.vtpm_enabled && exists is_tpm ds) || (not c.vtpm_enabled && not (exists is_tpm ds)) in
      elim (if_ok same (ok h) _ h' e) [
        | inl (b, x) ↦
            let s : ds ≡ ds' = same_devices h h' ds ds' q (cc) q' in rw (← s) (ground arith)
        | inr (b, x) ↦ elim (if_ok (exists is_tpm ds) (remove_vtpm v parse c h) _ h' x) [
          | inl (t, y) ↦ remove_vtpm-no_tpm h h' ds' y q' ∙ ground arith
          | inr (t, y) ↦ laws.add_tpm h h' ds' y q' ∙ ground arith
        ]
      ]

  add_clock-HasTpmAsSet :
      (h h' : H) → HasTpmAsSet h → add_clock v parse c h ≡ ok h' → HasTpmAsSet h'
  add_clock-HasTpmAsSet h h' t e ds q =
      elim (if_ok _ (v.add_device (new_clock c.precision_clock) h) (ok h) h' e) [
        | inl (b, x) ↦ let (old, d, s) = laws.add_clock c.precision_clock h h' ds x q in s ∙ t old d
        | inr (b, x) ↦ let p : h ≡ h' = cc in t ds (ap v.devices p ∙ q)
      ]

  remove_vtpm-IsTpmCall : (h h' : H) → remove_vtpm v parse c h ≡ ok h' → IsTpmCall h h'
  unfolding remove_vtpm
  remove_vtpm-IsTpmCall h h' e =
      let (old, d, r) = >>=-eq-ok (map_err _ (v.devices h)) _ e in
      elim (if_ok (exists is_tpm old) (map_err _ (v.remove_tpms h)) (ok h) h' r) [
        | inl (b, x) ↦ inr (inr (map_err-eq-ok _ (v.remove_tpms h) x))
        | inr (b, x) ↦ inl (cc)
      ]

  match_tpm-IsTpmCall :
      (h h' : H) (ds : List Hardware) → match_tpm v parse c h ds ≡ ok h' → IsTpmCall h h'
  match_tpm-IsTpmCall h h' ds e =
      let same =
        (c.vtpm_enabled && exists is_tpm ds) || (not c.vtpm_enabled && not (exists is_tpm ds)) in
      elim (if_ok same (ok h) _ h' e) [
        | inl (b, x) ↦ inl (cc)
        | inr (b, x) ↦ elim (if_ok (exists is_tpm ds) (remove_vtpm v parse c h) _ h' x) [
          | inl (t, y) ↦ remove_vtpm-IsTpmCall h h' y
          | inr (t, y) ↦ inr (inl y)
        ]
      ]

  clock_set :
      (k : Text)
      → (not (is_empty k) && not (text_eq k (codes "none"))) ≡ false
      → k ≡ [] ⊎ (k ≡ codes "none")
  clock_set [] e = inl refl
  clock_set (x ∷ k) e = ground (arith, text_eq_iff (x ∷ k) (codes "none"))

  add_clock-IsClockCall : (h h' : H) → add_clock v parse c h ≡ ok h' → IsClockCall h h'
  add_clock-IsClockCall h h' e =
      let k = c.precision_clock in
      elim (if_ok (not (is_empty k) && not (text_eq k (codes "none")))
        (v.add_device (new_clock k) h) (ok h) h' e) [
          | inl (b, x) ↦ inr (
            λ q. absurd (ground arith),
            λ q. absurd (ground (arith, text_eq_iff k (codes "none"))),
            x,
          )
          | inr (b, x) ↦ inl (clock_set k b, cc)
        ]

  apply_spec-IsConfigured :
      (h h' : H) (video vgpu allowed : List HardwareChange)
      → IsVideo v c h video
      → IsVgpu v c h vgpu
      → IsAllowed parse c allowed
      → apply_spec v parse c h (video ++ (vgpu ++ allowed)) ≡ ok h'
      → IsConfigured h h'
  unfolding apply_spec
  apply_spec-IsConfigured h h' video vgpu allowed a b w e =
      let changes = video ++ (vgpu ++ allowed) in
      let (h₁, r, e₁) = >>=-eq-ok (v.reconfigure (config_spec c changes) h) _ e in
      let (ds, d, e₂) = >>=-eq-ok (v.devices h₁) _ e₁ in
      let (h₂, m, e₃) = >>=-eq-ok (match_tpm v parse c h₁ ds) _ e₂ in
      record {
        video = video;
        vgpu = vgpu;
        allowed = allowed;
        reconfigured = h₁;
        with_tpm = h₂;
        is_video = a;
        is_vgpu = b;
        is_allowed = w;
        sent = r;
        tpm_call = match_tpm-IsTpmCall h₁ h₂ ds m;
        clock_call = add_clock-IsClockCall h₂ h' e₃;
        tpm_as_set = add_clock-HasTpmAsSet h₂ h' (match_tpm-HasTpmAsSet h₁ h₂ ds d m) e₃;
      }

  after_vgpu-Configured :
      (h h' : H) (video : List HardwareChange) (o : Option (List HardwareChange))
      → IsVideo v c h video
      → (o ≡ none → IsSkipped h)
      → ((vgpu : List HardwareChange) → o ≡ some vgpu → IsVgpu v c h vgpu)
      → after_vgpu v parse c h video o ≡ ok h'
      → (h ≡ h') × IsSkipped h ⊎ IsConfigured h h'
  after_vgpu-Configured h h' video none a skip b e = inl (cc, skip refl)
  after_vgpu-Configured h h' video (some vgpu) a skip b e =
      let (allowed, w, r) = >>=-eq-ok (change_allowed parse c.allowed_devices) _ e in
      inr (
        apply_spec-IsConfigured h h' video vgpu allowed a (b vgpu refl)
          (change_allowed-IsAllowed parse c c.allowed_devices allowed refl w) r)

  with_vgpu-Configured :
      (h h' : H) (video : List HardwareChange)
      → IsVideo v c h video
      → with_vgpu v parse c h video ≡ ok h'
      → (h ≡ h') × IsSkipped h ⊎ IsConfigured h h'
  unfolding with_vgpu
  with_vgpu-Configured h h' video a e = elim (if_ok (is_empty c.vgpu_profile) _ _ h' e) [
    | inl (b, x) ↦
        after_vgpu-Configured h h' video (some []) a (λ z. absurd (ground arith))
          (λ g q. inl (empty_nil c.vgpu_profile b, cc)) x
    | inr (b, x) ↦
        let (ds, d, r) = >>=-eq-ok (v.devices h) _ x in
        after_vgpu-Configured h h' video (change_vgpu c (pci_devices ds)) a
          (λ z. (ds, d, inr (b, change_vgpu-none c (pci_devices ds) z)))
          (λ g q. change_vgpu-IsVgpu v c h ds g d q) r
  ]

  after_video-Configured :
      (h h' : H) (o : Option (List HardwareChange))
      → (o ≡ none → IsSkipped h)
      → ((video : List HardwareChange) → o ≡ some video → IsVideo v c h video)
      → after_video v parse c h o ≡ ok h'
      → (h ≡ h') × IsSkipped h ⊎ IsConfigured h h'
  after_video-Configured h h' none skip a e = inl (cc, skip refl)
  after_video-Configured h h' (some video) skip a e =
      with_vgpu-Configured h h' video (a video refl) e

  -- Where virtual TPMs behave as documented: if Configure returns no error, either it has changed
  -- nothing, and the settings ask for a change of the video card where there is not exactly one, or for
  -- a vGPU where there are several; or the machine was reconfigured with the specification of the
  -- settings, whose changes are that of the only video card, where its memory or displays are set, that
  -- of the vGPU, where a profile is set, and that of all allowed devices with their numbers, where
  -- there are some; and after that at most one call for a virtual TPM and one for the precision clock,
  -- where one is set, lead to the machine, which has a virtual TPM exactly if the settings say so.
  pub configure-Configured :
      (h h' : H) → configure v parse c h ≡ ok h' → (h ≡ h') × IsSkipped h ⊎ IsConfigured h h'
  unfolding configure
  configure-Configured h h' e = elim (if_ok (asks_video c) _ _ h' e) [
    | inr (b, x) ↦
        after_video-Configured h h' (some []) (λ z. absurd (ground arith))
          (λ g q. inl (zero_pos c.video_ram (ground arith), zero_pos c.displays (ground arith), cc))
          x
    | inl (b, x) ↦
        let (ds, d, r) = >>=-eq-ok (v.devices h) _ x in
        after_video-Configured h h' (edit_video c (video_cards ds))
          (λ z. (ds, d, inl (b, edit_video-none c (video_cards ds) z)))
          (λ g q. edit_video-IsVideo v c h ds (video_cards ds) g d refl q) r
  ]
