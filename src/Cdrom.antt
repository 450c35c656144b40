-- ===== src/Cdrom.antt =====
-- builder/vsphere/driver/vm_cdrom.go and vm.go, builder/vsphere/common/step_add_cdrom.go,
-- step_remove_cdrom.go and step_reattach_cdrom.go: the CD-ROM devices of a virtual machine. What
-- vSphere makes of a change is a parameter; the hardware after a failed call is not modelled.
pub mod Devices
pub mod Run
pub mod Reattached
use packer_plugin_vsphere.Base.{
  ℕ, zero, suc, ◌+◌, ◌≡◌, Option, List, [], ◌∷◌, ℤ, length, Result, ok, Text,
}

-- A CD-ROM device: its key, and the path of its medium, none where it is ejected.
pub record Cdrom : Type 0 where
  pub key : ℤ
  pub medium : Option Text

-- The CD-ROM devices in their order, and the SATA controllers.
pub record Hardware : Type 0 where
  pub cdroms : List Cdrom
  pub sata : List ℤ

pub data CdromError : Type 0 where
  call_failed : Text → CdromError
  no_sata_controller : CdromError
  invalid_number : ℕ → CdromError
  invalid_count : CdromError
  listing_failed : CdromError → CdromError
  removing_failed ejecting_failed adding_sata_failed finding_sata_failed : CdromError → CdromError
  empty_path : CdromError
  mounting_failed : Text → CdromError → CdromError

-- The calls of vSphere and govmomi on some hardware. `pick_sata` is `PickController` for SATA
-- controllers. `create_cdrom` is a new device on a controller, with its
-- medium mounted; the others change the hardware.
pub record CdromServer : Type 0 where
  pub read : Hardware → Result Text (Unit {0})
  pub pick_sata : Hardware → Option ℤ
  pub find_ide : Hardware → Result Text ℤ
  pub create_cdrom : Hardware → ℤ → Text → Result Text Cdrom
  pub add_device : Cdrom → Hardware → Result Text Hardware
  pub add_sata : Hardware → Result Text Hardware
  pub remove_cdroms : List Cdrom → Hardware → Result Text Hardware
  pub remove_sata : List ℤ → Hardware → Result Text Hardware
  pub edit_device : Cdrom → Hardware → Result Text Hardware

-- The items from the index on.
abbrev pub drop {ℓ} : {A : Type ℓ} → ℕ → List A → List A
drop zero xs = xs
drop (suc n) [] = []
drop (suc n) (x ∷ xs) = drop n xs

-- What vSphere documents of these calls: an added device is one more, with a key that the server
-- gives it; the devices that are removed are those that were read and given, and no others; an edit and a
-- new controller change the number of no CD-ROM device.
pub record CdromLaws (v : CdromServer) : Type 0 where
  pub added :
      (c : Cdrom) (h h' : Hardware)
      → v.add_device c h ≡ ok h'
      → length h'.cdroms ≡ suc (length h.cdroms)
  pub removed :
      (n : ℕ) (h h' : Hardware)
      → v.remove_cdroms (drop n h.cdroms) h ≡ ok h'
      → length h'.cdroms + length (drop n h.cdroms) ≡ length h.cdroms
  pub edited :
      (c : Cdrom) (h h' : Hardware) → v.edit_device c h ≡ ok h' → length h'.cdroms ≡ length h.cdroms
  pub added_sata : (h h' : Hardware) → v.add_sata h ≡ ok h' → length h'.cdroms ≡ length h.cdroms
