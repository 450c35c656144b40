-- ===== src/Cdrom/Run.antt =====
-- builder/vsphere/common/step_add_cdrom.go, step_remove_cdrom.go and step_reattach_cdrom.go: the
-- steps, and the check of their settings.
use packer_plugin_vsphere.Base.{
  ℕ, zero, suc, ◌-◌, Bool, true, false, ◌&&◌, not, Option, none, some, List, [], ◌∷◌, ◌++◌, ltb,
  if◌then◌else◌, ℤ, pos, negsuc, length, is_empty, Result, ok, err, ◌>>=◌, ◌>>◌, fail_if, map_err,
  Text, codes, text_eq,
}
use packer_plugin_vsphere.Config.{error_if}
use packer_plugin_vsphere.Cdrom.{
  Hardware, CdromError, no_sata_controller, invalid_count, listing_failed, removing_failed,
  ejecting_failed, adding_sata_failed, finding_sata_failed, empty_path, mounting_failed,
  CdromServer,
}
use packer_plugin_vsphere.Cdrom.Devices.{
  cdrom_devices, find_sata_controller, add_sata_controller, remove_all_cdroms, remove_n_cdroms,
  eject_cdroms, add_cdrom,
}

pub record CdromConfig : Type 0 where
  pub cdrom_type : Text
  pub iso_paths : List Text

pub data CdromConfigError : Type 0 where
  unknown_type reattach_out_of_range : CdromConfigError

abbrev pub is_unknown_type : Text → Bool
is_unknown_type t =
    not (is_empty t) && (not (text_eq t (codes "ide")) && not (text_eq t (codes "sata")))

-- `CDRomConfig.Prepare`, with the number of `reattach_cdroms`.
unfoldable pub prepare_cdrom : CdromConfig → ℤ → List CdromConfigError
prepare_cdrom c n =
    error_if (is_unknown_type c.cdrom_type) unknown_type
    ++ error_if (elim n [ pos k ↦ ltb 4 k | negsuc k ↦ true ]) reattach_out_of_range

abbrev pub is_no_sata : CdromError → Bool
is_no_sata no_sata_controller = true
is_no_sata _ = false

-- The paths in the order of the mounts: the downloaded image first, the image of the files last.
unfoldable pub paths_to_mount : Option Text → Option Text → List Text → List Text
paths_to_mount remote cd paths =
    elim remote [ none ↦ [] | some p ↦ p ∷ [] ]
    ++ (paths ++ elim cd [ none ↦ [] | some p ↦ if is_empty p then [] else p ∷ [] ])

module _ (v : CdromServer) where
  unfoldable pub sata_if_missing : Hardware → Result CdromError ℤ → Result CdromError Hardware
  sata_if_missing h (ok k) = ok h
  sata_if_missing h (err e) =
      if is_no_sata e
      then map_err adding_sata_failed (add_sata_controller v h)
      else err (finding_sata_failed e)

  unfoldable pub mount_each : Text → List Text → Hardware → Result CdromError Hardware
  mount_each t [] h = ok h
  mount_each t (p ∷ ps) h =
      fail_if (is_empty p) empty_path
      >> map_err (mounting_failed p) (add_cdrom v t p h)
      >>= mount_each t ps

  -- `StepAddCDRom.Run`, with the two paths of the state.
  unfoldable pub run_add :
      CdromConfig → Option Text → Option Text → Hardware → Result CdromError Hardware
  run_add c remote cd h =
      (if text_eq c.cdrom_type (codes "sata")
        then sata_if_missing h (find_sata_controller v h)
        else ok h)
      >>= mount_each c.cdrom_type (paths_to_mount remote cd c.iso_paths)

  -- `StepRemoveCDRom.Run`.
  unfoldable pub run_remove : Bool → Hardware → Result CdromError Hardware
  run_remove remove h = do
    ejected ← map_err ejecting_failed (eject_cdroms v h)
    if remove then map_err removing_failed (remove_all_cdroms v ejected) else ok ejected

  -- Here only a missing controller is looked at, another error is passed over.
  unfoldable pub sata_for_reattach : Hardware → Result CdromError ℤ → Result CdromError Hardware
  sata_for_reattach h (ok k) = ok h
  sata_for_reattach h (err e) =
      if is_no_sata e then map_err adding_sata_failed (add_sata_controller v h) else ok h

  unfoldable pub add_empty : Text → ℕ → Hardware → Result CdromError Hardware
  add_empty t zero h = ok h
  add_empty t (suc n) h = add_cdrom v t [] h >>= add_empty t n

  -- The missing devices are added, where some are missing.
  unfoldable pub add_missing : Text → ℕ → Hardware → Result CdromError Hardware
  add_missing t zero h = ok h
  add_missing t (suc n) h =
      (if text_eq t (codes "sata") then sata_for_reattach h (find_sata_controller v h) else ok h)
      >>= add_empty t (suc n)

  -- `StepReattachCDRom.Run`; a number outside of 0 to 4 is refused. `n - length cdroms` devices are
  -- added, or as many as are too many removed.
  unfoldable pub run_reattach : Text → ℤ → Hardware → Result CdromError Hardware
  run_reattach t (negsuc n) h = err invalid_count
  run_reattach t (pos zero) h = ok h
  run_reattach t (pos (suc n)) h = do
    valid ← fail_if (ltb 4 (suc n)) invalid_count
    cdroms ← map_err listing_failed (cdrom_devices v h)
    kept ← map_err removing_failed (remove_n_cdroms v (length cdroms - suc n) h)
    ejected ← map_err ejecting_failed (eject_cdroms v kept)
    add_missing t (suc n - length cdroms) ejected
