-- ===== src/Ovf/Lease.antt =====
-- builder/vsphere/driver/ovf.go: how the NFC lease of an import ends.
use packer_plugin_vsphere.Base.{
  ◌≡◌, refl, ap, ◌∙◌, ◌⊎◌, inl, inr, List, [], ◌∷◌, ◌++◌, map, arith, All, Result, ok, err, ◌>>=◌,
  map_err, Text,
}
use packer_plugin_vsphere.Clone.Run.{OvfRequest}
use packer_plugin_vsphere.Ovf.{OvfError, call_failed, upload_failed, LeaseInfo, OvfDriver}
use packer_plugin_vsphere.Ovf.Deploy.{
  LeaseCall, upload_file, abort_lease, complete_lease, upload_files, after_upload, with_archive,
  complete, upload_to, upload_and_complete,
}

abbrev pub Outcome : Type 0
Outcome = List LeaseCall × Result OvfError LeaseInfo

-- Some uploads, then the lease is aborted.
pub record IsAborted (r : Outcome) : Type 0 where
  pub tried : List Text
  pub calls : r.0 ≡ map upload_file tried ++ abort_lease ∷ []
  pub reason : OvfError
  pub failed : r.1 ≡ err reason

-- Every file of the lease is uploaded in its order, then the lease is completed.
pub record IsCompleted (d : OvfDriver) (r : Outcome) : Type 0 where
  pub info : LeaseInfo
  pub waited : d.lease_wait ≡ ok info
  pub calls : r.0 ≡ map upload_file info.items ++ complete_lease ∷ []
  pub uploaded : All (λ f. d.upload f ≡ ok tt) info.items
  pub result : r.1 ≡ (map_err call_failed d.lease_complete >>= λ done. ok info)

module _ (d : OvfDriver) where
  IsUploaded : List Text → List LeaseCall × Result OvfError (Unit {0}) → Type 0
  IsUploaded fs r =
      ((tried : List Text) × (r.0 ≡ map upload_file tried ++ abort_lease ∷ [])
        × (e : OvfError) × (r.1 ≡ err e))
      ⊎ ((r ≡ (map upload_file fs, ok tt)) × All (λ f. d.upload f ≡ ok tt) fs)

  after_upload_cases :
      (f : Text) (fs : List Text) (u : Result Text (Unit {0}))
      (rest : List LeaseCall × Result OvfError (Unit {0}))
      → d.upload f ≡ u
      → IsUploaded fs rest
      → IsUploaded (f ∷ fs) (after_upload f u rest)
  unfolding IsUploaded after_upload
  after_upload_cases f fs (err e) rest q h = inl (f ∷ [], refl, upload_failed f e, refl)
  after_upload_cases f fs (ok u) rest q (inl (tried, calls, e, r)) =
      inl (f ∷ tried, ap (λ z. upload_file f ∷ z) calls, e, r)
  after_upload_cases f fs (ok u) rest q (inr (same, all)) =
      inr (ap (λ z. (upload_file f ∷ z.0, z.1)) same, (q, all))

  upload_files_cases : (fs : List Text) → IsUploaded fs (upload_files d fs)
  unfolding upload_files IsUploaded
  upload_files_cases [] = inr (refl, tt)
  upload_files_cases (f ∷ fs) =
      after_upload_cases f fs (d.upload f) (upload_files d fs) refl (upload_files_cases fs)

  complete_cases :
      (info : LeaseInfo)
      → d.lease_wait ≡ ok info
      → (r : List LeaseCall × Result OvfError (Unit {0})) → r ≡ upload_files d info.items
      → IsAborted (complete d info r) ⊎ IsCompleted d (complete d info r)
  unfolding complete IsUploaded
  complete_cases info w (calls, err e) h = elim (upload_files_cases info.items) [
    | inl (tried, c, e', q) ↦
        inl (record { tried = tried; calls = ap (λ z. z.0) h ∙ c; reason = e; failed = refl })
    | inr (same, all) ↦ absurd (ground (arith, ap (λ z. z.1) (h ∙ same)))
  ]
  complete_cases info w (calls, ok u) h = elim (upload_files_cases info.items) [
    | inl (tried, c, e', q) ↦ absurd (ground (arith, ap (λ z. z.1) h ∙ q))
    | inr (same, all) ↦ inr (record {
      info = info;
      waited = w;
      calls = ap (λ z. z.0 ++ complete_lease ∷ []) (h ∙ same);
      uploaded = all;
      result = refl;
    })
  ]

  with_archive_cases :
      (info : LeaseInfo) (u : Result Text (Unit {0}))
      → d.lease_wait ≡ ok info
      → IsAborted (with_archive d info u) ⊎ IsCompleted d (with_archive d info u)
  unfolding with_archive
  with_archive_cases info (err e) h =
      inl (record { tried = []; calls = refl; reason = call_failed e; failed = refl })
  with_archive_cases info (ok u) h = complete_cases info h (upload_files d info.items) refl

  upload_to_cases :
      (r : OvfRequest) (w : Result Text LeaseInfo)
      → d.lease_wait ≡ w
      → IsAborted (upload_to d r w) ⊎ IsCompleted d (upload_to d r w)
  unfolding upload_to
  upload_to_cases r (err e) h =
      inl (record { tried = []; calls = refl; reason = call_failed e; failed = refl })
  upload_to_cases r (ok info) h = with_archive_cases info (d.open_archive r) h

  -- A lease always ends in one of two ways: it is aborted after some uploads, and the import fails;
  -- or every file that it waits for is uploaded, in order and without an error, and it is completed
  -- once, and the import succeeds exactly if the completion does.
  pub upload_and_complete_cases :
      (r : OvfRequest)
      → IsAborted (upload_and_complete d r) ⊎ IsCompleted d (upload_and_complete d r)
  unfolding upload_and_complete
  upload_and_complete_cases r = upload_to_cases r d.lease_wait refl
