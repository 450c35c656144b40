-- ===== src/Cdrom/Devices.antt =====
-- builder/vsphere/driver/vm_cdrom.go, and `AddCdrom` and `CdromDevices` of vm.go.
use packer_plugin_vsphere.Base.{
  ℕ, zero, suc, ◌-◌, none, some, List, [], ◌∷◌, ltb, if◌then◌else◌, ℤ, length, Result, ok, err,
  ◌>>=◌, ◌>>◌, fail_if, map_err, Text, codes, text_eq,
}
use packer_plugin_vsphere.Cdrom.{
  Cdrom, Hardware, CdromError, call_failed, no_sata_controller, invalid_number, CdromServer, drop,
}

module _ (v : CdromServer) where
  -- `CdromDevices`.
  unfoldable pub cdrom_devices : Hardware → Result CdromError (List Cdrom)
  cdrom_devices h = map_err call_failed (v.read h) >> ok h.cdroms

  -- `FindSATAController`.
  unfoldable pub find_sata_controller : Hardware → Result CdromError ℤ
  find_sata_controller h =
      map_err call_failed (v.read h)
      >> elim (v.pick_sata h) [ none ↦ err no_sata_controller | some k ↦ ok k ]

  -- `AddSATAController`.
  unfoldable pub add_sata_controller : Hardware → Result CdromError Hardware
  add_sata_controller h = map_err call_failed (v.add_sata h)

  -- `RemoveCdroms`: the devices, then the SATA controllers that were read with them.
  unfoldable pub remove_all_cdroms : Hardware → Result CdromError Hardware
  remove_all_cdroms h = do
    done ← map_err call_failed (v.read h)
    without ← map_err call_failed (v.remove_cdroms h.cdroms h)
    map_err call_failed (v.remove_sata h.sata without)

  unfoldable pub remove_last : ℕ → Hardware → List Cdrom → Result CdromError Hardware
  remove_last n h cdroms =
      fail_if (ltb (length cdroms) n) (invalid_number (length cdroms))
      >> map_err call_failed (v.remove_cdroms (drop (length cdroms - n) cdroms) h)

  -- `RemoveNCdroms` of a number that is not negative: the last devices.
  unfoldable pub remove_n_cdroms : ℕ → Hardware → Result CdromError Hardware
  remove_n_cdroms zero h = ok h
  remove_n_cdroms (suc n) h = cdrom_devices h >>= remove_last (suc n) h

  unfoldable pub eject_each : List Cdrom → Hardware → Result CdromError Hardware
  eject_each [] h = ok h
  eject_each (c ∷ cs) h =
      map_err call_failed (v.edit_device (record c { medium = none }) h) >>= eject_each cs

  -- `EjectCdroms`.
  unfoldable pub eject_cdroms : Hardware → Result CdromError Hardware
  eject_cdroms h = cdrom_devices h >>= λ cs. eject_each cs h

  unfoldable pub cdrom_controller : Text → Hardware → Result CdromError ℤ
  cdrom_controller t h =
      if text_eq t (codes "sata")
      then find_sata_controller h
      else map_err call_failed (v.find_ide h)

  -- `AddCdrom`; an empty path stands for no medium.
  unfoldable pub add_cdrom : Text → Text → Hardware → Result CdromError Hardware
  add_cdrom t path h = do
    done ← map_err call_failed (v.read h)
    controller ← cdrom_controller t h
    c ← map_err call_failed (v.create_cdrom h controller path)
    map_err call_failed (v.add_device c h)
