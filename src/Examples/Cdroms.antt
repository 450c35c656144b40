-- ===== src/Examples/Cdroms.antt =====
-- builder/vsphere/common/step_reattach_cdrom.go: the theorem on a virtual machine with one CD-ROM
-- device, of which three are kept.
use packer_plugin_vsphere.Base.{
  ℕ, ◌+◌, ◌≤◌, ◌≡◌, refl, sym, ap, ◌∙◌, ◌⊎◌, none, some, List, [], ◌∷◌, arith, pos, negsuc, length,
  ok, codes, text_eq,
}
use packer_plugin_vsphere.Cdrom.{Cdrom, Hardware, CdromServer, CdromLaws, drop}
use packer_plugin_vsphere.Cdrom.Run.{CdromConfig, prepare_cdrom, run_reattach}
use packer_plugin_vsphere.Cdrom.Reattached.{length-drop, length-run_reattach}

-- Every call succeeds. The server gives an added device a key of its own, and lists it first.
abbrev simple_server : CdromServer
simple_server = record {
  read = λ h. ok tt;
  pick_sata = λ h. elim h.sata [ [] ↦ none | k ∷ ks ↦ some k ];
  find_ide = λ h. ok (pos 200);
  create_cdrom = λ h controller path. ok (record { key = negsuc 200; medium = some path });
  add_device =
      λ c h. ok (record h { cdroms = record c { key = pos (3000 + length h.cdroms) } ∷ h.cdroms });
  add_sata = λ h. ok (record h { sata = pos 15000 ∷ [] });
  remove_cdroms = λ cs h. ok (record h { cdroms = drop (length cs) h.cdroms });
  remove_sata = λ ks h. ok (record h { sata = [] });
  edit_device = λ c h. ok h;
}

length-drop-drop :
    (n : ℕ) (cs : List Cdrom)
    → length (drop (length (drop n cs)) cs) + length (drop n cs) ≡ length cs
length-drop-drop n cs = omega (arith, length-drop n cs, length-drop (length (drop n cs)) cs)

simple_server_laws : CdromLaws simple_server
simple_server_laws = record {
  added = λ c h h' e. ground arith;
  removed = λ n h h' e.
      let same : record h { cdroms = drop (length (drop n h.cdroms)) h.cdroms } ≡ h' =
        ground arith in
      ap (λ z. length z.cdroms + length (drop n h.cdroms)) (sym same) ∙ length-drop-drop n h.cdroms;
  edited = λ c h h' e. ground arith;
  added_sata = λ h h' e. ground arith;
}

abbrev on_sata : CdromConfig
on_sata = record { cdrom_type = codes "sata"; iso_paths = [] }

abbrev one_device : Hardware
one_device = record { cdroms = record { key = pos 3000; medium = none } ∷ []; sata = [] }

abbrev three_devices : Hardware
three_devices = record {
  cdroms =
      record { key = pos 3002; medium = some [] }
      ∷ record { key = pos 3001; medium = some [] }
      ∷ record { key = pos 3000; medium = none }
      ∷ [];
  sata = pos 15000 ∷ [];
}

on_sata_prepared : prepare_cdrom on_sata (pos 3) ≡ []
unfolding prepare_cdrom text_eq
on_sata_prepared = refl

three_kept : run_reattach simple_server (codes "sata") (pos 3) one_device ≡ ok three_devices
unfolding run_reattach packer_plugin_vsphere.Cdrom.Devices.cdrom_devices
    packer_plugin_vsphere.Cdrom.Devices.remove_n_cdroms
    packer_plugin_vsphere.Cdrom.Devices.eject_cdroms packer_plugin_vsphere.Cdrom.Devices.eject_each
    packer_plugin_vsphere.Cdrom.Run.add_missing text_eq
    packer_plugin_vsphere.Cdrom.Run.sata_for_reattach
    packer_plugin_vsphere.Cdrom.Devices.find_sata_controller
    packer_plugin_vsphere.Cdrom.Devices.add_sata_controller
    packer_plugin_vsphere.Cdrom.Run.add_empty packer_plugin_vsphere.Cdrom.Devices.add_cdrom
    packer_plugin_vsphere.Cdrom.Devices.cdrom_controller
three_kept = refl

length-run_reattach_example :
    ((pos 3 ≡ pos 0) × (three_devices ≡ one_device))
    ⊎ ((k : ℕ) × (pos 3 ≡ pos k) × (k ≤ 4) × (length three_devices.cdroms ≡ k))
length-run_reattach_example =
    length-run_reattach simple_server simple_server_laws on_sata (pos 3) one_device three_devices
      on_sata_prepared three_kept
