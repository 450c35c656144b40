-- ===== src/Ovf/Deploy.antt =====
-- builder/vsphere/driver/ovf.go: `DeployOvf` and `GetOvfOptions`. The calls of the NFC lease that are
-- made are listed in their order.
use packer_plugin_vsphere.Base.{
  ℕ, zero, suc, ◌&&◌, Option, none, some, List, [], ◌∷◌, ◌++◌, if◌then◌else◌, length, is_empty,
  Result, ok, err, ◌>>=◌, ◌>>◌, map_err, Text,
}
use packer_plugin_vsphere.Clone.{Host}
use packer_plugin_vsphere.Clone.Run.{OvfRequest}
use packer_plugin_vsphere.Ovf.{
  OvfError, call_failed, descriptor_faults, upload_failed, no_vm_reference, Descriptor, LeaseInfo,
  OvfDriver,
}
use packer_plugin_vsphere.Ovf.Source.{
  validate_source, validate_deployment, validate_authentication, import_params,
}

pub data LeaseCall : Type 0 where
  upload_file : Text → LeaseCall
  abort_lease complete_lease : LeaseCall

-- A list of faults that is not empty is an error.
unfoldable pub no_faults : List Text → Result OvfError (Unit {0})
no_faults [] = ok tt
no_faults (f ∷ fs) = err (descriptor_faults (f ∷ fs))

-- The lines of `handleOvfValidationErrors` for several faults: five of them, then how many more.
pub data FaultLine : Type 0 where
  fault : Text → FaultLine
  more_faults : ℕ → FaultLine

unfoldable pub fault_lines : ℕ → List Text → List FaultLine
fault_lines n [] = []
fault_lines zero (f ∷ fs) = more_faults (length (f ∷ fs)) ∷ []
fault_lines (suc n) (f ∷ fs) = fault f ∷ fault_lines n fs

-- A file that fails aborts the lease, and ends the loop.
unfoldable pub after_upload :
    Text
    → Result Text (Unit {0})
    → List LeaseCall × Result OvfError (Unit {0})
    → List LeaseCall × Result OvfError (Unit {0})
after_upload f (err e) rest = (upload_file f ∷ abort_lease ∷ [], err (upload_failed f e))
after_upload f (ok u) (calls, result) = (upload_file f ∷ calls, result)

module _ (d : OvfDriver) where
  -- `validateOvfAccessibility`, where the descriptor is read.
  unfoldable pub readable_descriptor : OvfRequest → Result OvfError Descriptor
  readable_descriptor r = map_err call_failed (d.descriptor r) >>= λ x. no_faults x.faults >> ok x

  -- The loop over the files of the lease.
  unfoldable pub upload_files : List Text → List LeaseCall × Result OvfError (Unit {0})
  upload_files [] = ([], ok tt)
  upload_files (f ∷ fs) = after_upload f (d.upload f) (upload_files fs)

  -- The end of the lease after the uploads.
  unfoldable pub complete :
      LeaseInfo
      → List LeaseCall × Result OvfError (Unit {0})
      → List LeaseCall × Result OvfError LeaseInfo
  complete info (calls, err e) = (calls, err e)
  complete info (calls, ok u) =
      (calls ++ complete_lease ∷ [], map_err call_failed d.lease_complete >>= λ done. ok info)

  unfoldable pub with_archive :
      LeaseInfo → Result Text (Unit {0}) → List LeaseCall × Result OvfError LeaseInfo
  with_archive info (err e) = (abort_lease ∷ [], err (call_failed e))
  with_archive info (ok u) = complete info (upload_files info.items)

  unfoldable pub upload_to :
      OvfRequest → Result Text LeaseInfo → List LeaseCall × Result OvfError LeaseInfo
  upload_to r (err e) = (abort_lease ∷ [], err (call_failed e))
  upload_to r (ok info) = with_archive info (d.open_archive r)

  -- `uploadAndCompleteOvfImport`.
  unfoldable pub upload_and_complete : OvfRequest → List LeaseCall × Result OvfError LeaseInfo
  upload_and_complete r = upload_to r d.lease_wait

  -- The adapter is looked up only where an address is configured.
  unfoldable pub adapter_change : Text → Text → Result OvfError (Option (Text × Text))
  adapter_change vm mac =
      if is_empty mac
      then ok none
      else map_err call_failed (d.network_adapter vm) >>= λ adapter. ok (some (adapter, mac))

  -- `applyOvfPostImportConfig`.
  unfoldable pub post_import : Text → OvfRequest → Result OvfError (Unit {0})
  post_import vm r =
      if is_empty r.annotation && is_empty r.mac_address
      then ok tt
      else (adapter_change vm r.mac_address >>= λ change. map_err call_failed (
          d.reconfigure vm (record {
            annotation = if is_empty r.annotation then none else some r.annotation;
            mac_address = change;
          })))

  unfoldable pub imported_vm : OvfRequest → LeaseInfo → Result OvfError Text
  imported_vm r info = elim info.entity [
    | none ↦ err no_vm_reference
    | some vm ↦ post_import vm r >> ok vm
  ]

  -- Up to the start of the import.
  unfoldable pub start_import : Host → OvfRequest → Result OvfError (Unit {0})
  start_import h r = do
    valid ← validate_deployment h r
    auth ← validate_authentication r.authentication
    descriptor ← readable_descriptor r
    folder ← map_err call_failed (d.find_folder r.location.folder)
    pool ←
        map_err call_failed
          (d.find_resource_pool r.location.cluster r.location.host r.location.resource_pool)
    store ← map_err call_failed (d.find_datastore r.store r.location.host)
    params ← import_params d r descriptor
    faults ← map_err call_failed (d.create_import_spec r pool store params)
    sound ← no_faults faults
    map_err call_failed (d.import_vapp pool folder)

  unfoldable pub finish_import :
      OvfRequest
      → List LeaseCall × Result OvfError LeaseInfo
      → List LeaseCall × Result OvfError Text
  finish_import r (calls, info) = (calls, info >>= imported_vm r)

  unfoldable pub deploy_started :
      OvfRequest → Result OvfError (Unit {0}) → List LeaseCall × Result OvfError Text
  deploy_started r (err e) = ([], err e)
  deploy_started r (ok u) = finish_import r (upload_and_complete r)

  -- `DeployOvf`.
  unfoldable pub deploy_ovf : Host → OvfRequest → List LeaseCall × Result OvfError Text
  deploy_ovf h r = deploy_started r (start_import h r)

  -- `GetOvfOptions`.
  unfoldable pub ovf_options : Host → OvfRequest → Result OvfError (List Text)
  ovf_options h r = do
    valid ← validate_source h r
    auth ← validate_authentication r.authentication
    descriptor ← readable_descriptor r
    ok descriptor.options
