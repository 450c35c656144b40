-- ===== src/Build/Configure/Changes.antt =====
-- builder/vsphere/driver/vm.go: the changes of devices that Configure sends.
use packer_plugin_vsphere.Base.{
  ℕ, ◌≤◌, ◌≡◌, refl, sym, subst, ◌≢◌, ◌⊎◌, inl, inr, Bool, true, false, none, some, List, [], ◌∷◌,
  arith, ltb, Bool-cases, ℤ, pos, negsuc, length, is_empty, All2, Result, ok, >>=-eq-ok, Text,
}
use packer_plugin_vsphere.Build.{HardwareConfig, PciDevice}
use packer_plugin_vsphere.Build.Hardware.{is_zero}
use packer_plugin_vsphere.Build.Configure.{
  PciIds, Operation, edit, add, edit_card, vgpu_profile, allow_devices, changed, operation_for,
  allowed_ids, VideoCard, Hardware, video_cards, pci_devices, count_true, edit_video, change_vgpu,
  change_allowed, HardwareChange, Machine,
}

-- The value of a card: the one that is asked for, or the old one where none is.
abbrev pub IsGivenValue : ℤ → ℤ → ℤ → Type 0
IsGivenValue old asked new = (asked ≡ pos 0) × (new ≡ old) ⊎ (asked ≢ pos 0) × (new ≡ asked)

pub empty_nil : (s : Text) → is_empty s ≡ true → s ≡ []
empty_nil [] e = refl
empty_nil (x ∷ s) e = absurd (ground arith)

pub zero_pos : (n : ℤ) → is_zero n ≡ true → n ≡ pos 0
zero_pos (pos n) e = ground arith
zero_pos (negsuc n) e = absurd (ground arith)

not_zero : (n : ℤ) → is_zero n ≡ false → n ≢ pos 0
not_zero (pos n) e = λ q. absurd (ground arith)
not_zero (negsuc n) e = λ q. absurd (ground arith)

changed-IsGivenValue : (old asked : ℤ) → IsGivenValue old asked (changed old asked)
changed-IsGivenValue old asked = elim (Bool-cases (is_zero asked)) [
  | inl e ↦ inl (zero_pos asked e, rw e refl)
  | inr e ↦ inr (not_zero asked e, rw e refl)
]

operation-edit : (n : ℕ) → n ≡ 1 → operation_for n ≡ edit
operation-edit n e = rw e refl

operation-add : (n : ℕ) → n ≡ 0 → operation_for n ≡ add
operation-add n e = rw e refl

module _ (c : HardwareConfig) where
  pub change_vgpu-none :
      (pci : List Bool) → change_vgpu c pci ≡ none → ltb 1 (count_true pci) ≡ true
  change_vgpu-none pci e = ground arith

  pub edit_video-none : (vs : List VideoCard) → edit_video c vs ≡ none → length vs ≢ 1
  edit_video-none [] e = λ l. absurd (ground arith)
  edit_video-none (x ∷ []) e = absurd (ground arith)
  edit_video-none (x ∷ y ∷ vs) e = λ l. absurd (ground arith)

module _ {H : Type 0} (v : Machine H) (c : HardwareConfig) where
  -- The change of the only video card, where one is asked for.
  abbrev pub IsVideo : H → List HardwareChange → Type 0
  IsVideo h video =
      (c.video_ram ≡ pos 0) × (c.displays ≡ pos 0) × (video ≡ [])
      ⊎ (ds : List Hardware) × (card : VideoCard) × (new : VideoCard) × (v.devices h ≡ ok ds)
        × (video_cards ds ≡ card ∷ [])
        × (new.key ≡ card.key)
        × IsGivenValue card.video_ram c.video_ram new.video_ram
        × IsGivenValue card.num_displays c.displays new.num_displays
        × (video ≡ edit_card new ∷ [])

  -- The change for a vGPU, where there is a profile: an edit of the only passthrough device, or a new
  -- device where there is none.
  abbrev pub IsVgpu : H → List HardwareChange → Type 0
  IsVgpu h vgpu =
      (c.vgpu_profile ≡ []) × (vgpu ≡ [])
      ⊎ (ds : List Hardware) × (op : Operation) × (v.devices h ≡ ok ds)
        × (count_true (pci_devices ds) ≤ 1)
        × (length (pci_devices ds) ≡ 1 → op ≡ edit)
        × (length (pci_devices ds) ≡ 0 → op ≡ add)
        × (vgpu ≡ vgpu_profile op c.vgpu_profile ∷ [])

  pub change_vgpu-IsVgpu :
      (h : H) (ds : List Hardware) (vgpu : List HardwareChange)
      → v.devices h ≡ ok ds
      → change_vgpu c (pci_devices ds) ≡ some vgpu
      → IsVgpu h vgpu
  change_vgpu-IsVgpu h ds vgpu d e = elim (Bool-cases (ltb 1 (count_true (pci_devices ds)))) [
    | inl b ↦ absurd (ground arith)
    | inr b ↦ inr (
      ds,
      operation_for (length (pci_devices ds)),
      d,
      ground arith,
      operation-edit (length (pci_devices ds)),
      operation-add (length (pci_devices ds)),
      ground (arith, rw b at e),
    )
  ]

  pub edit_video-IsVideo :
      (h : H) (ds : List Hardware) (vs : List VideoCard) (video : List HardwareChange)
      → v.devices h ≡ ok ds
      → video_cards ds ≡ vs
      → edit_video c vs ≡ some video
      → IsVideo h video
  edit_video-IsVideo h ds [] video d q e = absurd (ground arith)
  edit_video-IsVideo h ds (x ∷ y ∷ vs) video d q e = absurd (ground arith)
  edit_video-IsVideo h ds (x ∷ []) video d q e = inr (
    ds,
    x,
    record x {
      video_ram = changed x.video_ram c.video_ram;
      num_displays = changed x.num_displays c.displays;
    },
    d,
    q,
    refl,
    changed-IsGivenValue x.video_ram c.video_ram,
    changed-IsGivenValue x.num_displays c.displays,
    cc,
  )

module _ (parse : Text → Result Text ℤ) where
  abbrev pub AreIds : PciDevice → PciIds → Type 0
  AreIds d i =
      (parse d.device_id ≡ ok i.device_id)
      × (parse d.vendor_id ≡ ok i.vendor_id)
      × (parse d.sub_vendor_id ≡ ok i.sub_vendor_id)
      × (parse d.sub_device_id ≡ ok i.sub_device_id)

  allowed_ids-AreIds :
      (ds : List PciDevice) (ids : List PciIds) → allowed_ids parse ds ≡ ok ids → All2 AreIds ds ids
  unfolding allowed_ids
  allowed_ids-AreIds [] [] e = tt
  allowed_ids-AreIds [] (i ∷ ids) e = absurd (ground arith)
  allowed_ids-AreIds (d ∷ ds) ids e =
      let (x, p, e₁) = >>=-eq-ok (parse d.device_id) _ e in
      let (y, q, e₂) = >>=-eq-ok (parse d.vendor_id) _ e₁ in
      let (z, r, e₃) = >>=-eq-ok (parse d.sub_vendor_id) _ e₂ in
      let (w, s, e₄) = >>=-eq-ok (parse d.sub_device_id) _ e₃ in
      let (rest, t, e₅) = >>=-eq-ok (allowed_ids parse ds) _ e₄ in
      let first : PciIds = record {
        device_id = x;
        vendor_id = y;
        sub_vendor_id = z;
        sub_device_id = w;
      } in
      let all : All2 AreIds (d ∷ ds) (first ∷ rest) =
        ((p, q, r, s), allowed_ids-AreIds ds rest t) in
      subst (All2 AreIds (d ∷ ds)) {x = first ∷ rest} (cc) all

module _ (parse : Text → Result Text ℤ) (c : HardwareConfig) where
  -- One change with the numbers of all allowed devices, where there are some.
  abbrev pub IsAllowed : List HardwareChange → Type 0
  IsAllowed allowed =
      (c.allowed_devices ≡ []) × (allowed ≡ [])
      ⊎ (ids : List PciIds) × All2 (AreIds parse) c.allowed_devices ids
        × (allowed ≡ allow_devices ids ∷ [])

  pub change_allowed-IsAllowed :
      (ds : List PciDevice) (allowed : List HardwareChange)
      → c.allowed_devices ≡ ds
      → change_allowed parse ds ≡ ok allowed
      → IsAllowed allowed
  unfolding change_allowed
  change_allowed-IsAllowed [] allowed q e = inl (q, cc)
  change_allowed-IsAllowed (d ∷ ds) allowed q e =
      let (ids, a, r) = >>=-eq-ok (allowed_ids parse (d ∷ ds)) _ e in
      inr (
        ids,
        subst (λ z. All2 (AreIds parse) z ids) (sym q) (allowed_ids-AreIds parse (d ∷ ds) ids a),
        cc,
      )
