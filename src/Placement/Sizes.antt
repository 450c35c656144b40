-- ===== src/Placement/Sizes.antt =====
-- builder/vsphere/driver/storage_drs.go: every storage block gets a datastore.
use packer_plugin_vsphere.Base.{
  ℕ, ◌≡◌, refl, sym, ap, ◌∙◌, ◌≢◌, false, Option, none, some, List, [], ◌∷◌, arith, ◌==◌, ℤ, length,
  length-replicate, ok, fail_if, map_err, >>=-eq-ok, fail_if-eq-ok, Text,
}
use packer_plugin_vsphere.Controller.{no_disks_for_placement, library}
use packer_plugin_vsphere.Storage.{DeviceLibrary, DeviceLibraryLaws}
use packer_plugin_vsphere.Placement.{
  StoragePlacementInput, Action, build_storage_placement_config_spec,
}
use packer_plugin_vsphere.Placement.Assign.{duplicate_datastore}
use packer_plugin_vsphere.Placement.Select.{
  VCenter, SelectionMethod, choose_for_disks, for_datastores, chosen, select_datastores_for_disks,
  recommendation, assigned,
}
use packer_plugin_vsphere.Placement.Lengths.{length-datastores}
use packer_plugin_vsphere.Placement.Keys.{placement_keys}

module _ (g : DeviceLibrary) (laws : DeviceLibraryLaws g) where
  assigned-length :
      {D : Type 0} (vcenter : VCenter D) (r : Option (List Action)) (keys : List ℤ) (fallback : D)
      (count : ℕ) {ds : List D}
      → length keys ≡ count
      → keys ≢ []
      → assigned g vcenter r keys fallback ≡ some ds
      → length ds ≡ count
  unfolding assigned
  assigned-length vcenter none keys fallback count k n h = absurd (ground arith)
  assigned-length vcenter (some actions) keys fallback count k n h =
      length-datastores vcenter.resolve_datastore_ref actions keys fallback h n ∙ k

  outcome_length :
      {D : Type 0} (o : Option (List D)) (fallback : D) (count : ℕ) (ds : List D)
      (m : SelectionMethod)
      → ((es : List D) → o ≡ some es → length es ≡ count)
      → chosen o fallback count ≡ ok (ds, m)
      → length ds ≡ count
  unfolding chosen duplicate_datastore
  outcome_length (some es) fallback count ds m k h =
      let q : es ≡ ds = ground arith in ap length (sym q) ∙ k es refl
  outcome_length none fallback count ds m k h =
      let q : duplicate_datastore fallback count ≡ ds = ground arith in
      ap length (sym q) ∙ length-replicate count fallback

  not_empty : {A : Type 0} (xs : List A) (n : ℕ) → length xs ≡ n → (n == 0) ≡ false → xs ≢ []
  not_empty [] n h z e = absurd (ground arith)
  not_empty (x ∷ xs) n h z e = cc

  chosen_length :
      {D : Type 0} (vcenter : VCenter D) (cluster : Text) (input : StoragePlacementInput)
      (fallback : D) (ds : List D) (m : SelectionMethod)
      → choose_for_disks g vcenter cluster input fallback ≡ ok (ds, m)
      → length ds ≡ length input.storage_config.storage
  unfolding choose_for_disks
  chosen_length vcenter cluster input fallback ds m h =
      let count = length input.storage_config.storage in
      let (u, e₁, q₁) = >>=-eq-ok (fail_if (count == 0) no_disks_for_placement) _ h in
      let (changes, e₂, q₂) = >>=-eq-ok (build_storage_placement_config_spec g input) _ q₁ in
      let k = placement_keys g laws input changes e₂ in
      let none_left = fail_if-eq-ok (count == 0) no_disks_for_placement e₁ in
      let r = recommendation g vcenter (vcenter.request_storage_placement cluster changes.0) in
      outcome_length (assigned g vcenter r changes.1 fallback) fallback count ds m
        (λ es q.
          assigned-length vcenter r changes.1 fallback count k
            (not_empty changes.1 count k none_left) q)
        q₂

  from_datastores :
      {D : Type 0} (vcenter : VCenter D) (cluster : Text) (input : StoragePlacementInput)
      (all ds : List D) (m : SelectionMethod)
      → for_datastores g vcenter cluster input all ≡ ok (ds, m)
      → length ds ≡ length input.storage_config.storage
  unfolding for_datastores
  from_datastores vcenter cluster input [] ds m h = absurd (ground arith)
  from_datastores vcenter cluster input (d ∷ rest) ds m h =
      chosen_length vcenter cluster input d ds m h

  -- Where govmomi gives one config spec for each added device, a successful choice gives each
  -- storage block a datastore: there are as many datastores as storage blocks, whether Storage DRS
  -- chose them or the first datastore of the cluster serves for all.
  pub select_datastores-length :
      {D : Type 0} (vcenter : VCenter D) (cluster : Text) (input : StoragePlacementInput)
      (ds : List D) (m : SelectionMethod)
      → select_datastores_for_disks g vcenter cluster input ≡ ok (ds, m)
      → length ds ≡ length input.storage_config.storage
  unfolding select_datastores_for_disks choose_for_disks
  select_datastores-length vcenter cluster input ds m h =
      let (all, e, q) = >>=-eq-ok (map_err library (vcenter.list_datastores cluster)) _ h in
      from_datastores vcenter cluster input all ds m q
