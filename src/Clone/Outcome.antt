-- ===== src/Clone/Outcome.antt =====
-- builder/vsphere/clone/step_clone.go: what the step leaves behind, and what it asked vCenter for.
use packer_plugin_vsphere.Base.{
  ◌≤◌, ◌≡◌, refl, sym, ap, ◌∙◌, subst, ◌≢◌, ◌⊎◌, inl, inr, true, ◌||◌, Option, none, some, List, [],
  ◌∷◌, arith, length, All2, Result, ok, err, map_err, map_err-eq-ok, Text,
}
use packer_plugin_vsphere.Controller.{Device}
use packer_plugin_vsphere.Storage.{Disk, DiskDatastore, DeviceLibrary, DeviceLibraryLaws}
use packer_plugin_vsphere.Placement.{storage_existing_devices}
use packer_plugin_vsphere.Placement.Select.{VCenter, select_datastores_for_disks}
use packer_plugin_vsphere.Steps.{
  no_virtual_machine, ovf_failed, deployment_failed, Datastore, StepError, template_not_found,
  devices_unreadable, driver_failed, no_virtual_machine, item_not_found, deployment_failed,
  ovf_invalid, ovf_failed, continue_build, StateBag, halt_with,
}
use packer_plugin_vsphere.Clone.{OvfSource, ContentLibrarySource, CloneConfig, Host}
use packer_plugin_vsphere.Clone.Prepare.{prepare_clone, cleaned_source}
use packer_plugin_vsphere.Clone.Accepted.{
  AreDisks, from_template, from_ovf, from_library, prepare_clone-IsAccepted,
}
use packer_plugin_vsphere.Clone.Run.{
  CloneStep, CloneDriver, Template, CloneRequest, deployment, resolved_datastore,
  disks_from_storage_config, or_by_policy, place_disks, known_datastore, not_nil, pre_clean,
  clone_from_template, CloneCall, clone_vm, deploy_item, deploy_ovf, Effect, or_halt, requested,
  go_on,
}
use packer_plugin_vsphere.Clone.Deploy.{
  ovf_request, validate_library_options, is_vm_template, validate_ovf_configuration,
  deploy_from_content_library, deploy_from_ovf, deploy_or_clone, run_from, run_clone,
}
use packer_plugin_vsphere.Clone.Placed.{
  IsDiskOf, disks_of_blocks, IsOnePerDisk, resolve_multi_disk-IsOnePerDisk,
  resolve_policy_placement-IsOnePerDisk,
}

-- The datastore of a request, and the answer to it.
abbrev pub store_of : CloneCall → Text
store_of (clone_vm template r) = r.deployment.store
store_of (deploy_item r) = r.deployment.store
store_of (deploy_ovf r) = r.store

abbrev pub answer_to : CloneDriver → CloneCall → Result Text (Option Text)
answer_to d (clone_vm template r) = d.clone template r
answer_to d (deploy_item r) = d.deploy_item r
answer_to d (deploy_ovf r) = d.deploy_ovf r

-- A step that halts with an error, after at most one request; or one that goes on with the virtual
-- machine that is the answer to its one request.
pub data IsOutcome (d : CloneDriver) (c : CloneStep) (s : StateBag) (r : Effect) : Type 0 where
  halted : (e : StepError) → r.1 ≡ halt_with e s → length r.0 ≤ 1 → IsOutcome d c s r
  went_on :
      (vm : Text) (call : CloneCall)
      → r.0 ≡ call ∷ []
      → answer_to d call ≡ ok (some vm)
      → store_of call ≢ [] ⊎ (c.location.datastore_cluster ≢ [])
      → r.1
        ≡ (continue_build, record s { destroy_vm = c.config.destroy || s.destroy_vm; vm = some vm })
      → IsOutcome d c s r

or_halt-IsOutcome :
    {A : Type 0} (d : CloneDriver) (c : CloneStep) (s : StateBag) (r : Result StepError A)
    (rest : A → Effect)
    → ((a : A) → r ≡ ok a → IsOutcome d c s (rest a))
    → IsOutcome d c s (or_halt r s rest)
unfolding or_halt
or_halt-IsOutcome d c s (err e) rest next = halted e refl (omega arith)
or_halt-IsOutcome d c s (ok a) rest next = next a refl

known-IsOutcome :
    (d : CloneDriver) (c : CloneStep) (name : Text)
    → known_datastore d c name ≡ ok tt
    → name ≢ [] ⊎ (c.location.datastore_cluster ≢ [])
unfolding known_datastore
known-IsOutcome d c [] h = inr (λ e. absurd (ground arith))
known-IsOutcome d c (x ∷ name) h = inl (λ e. cc)

-- The end of each way, from the request on.
requested-IsOutcome :
    (d : CloneDriver) (c : CloneStep) (s : StateBag) (call : CloneCall) (f : Text → StepError)
    (got : Result Text (Option Text))
    → answer_to d call ≡ got
    → store_of call ≢ [] ⊎ (c.location.datastore_cluster ≢ [])
    → IsOutcome d c s (
        requested call (
          or_halt
            (map_err f got)
            s
            λ answer. or_halt (not_nil answer) s λ vm. go_on c.config.destroy s vm))
unfolding not_nil or_halt requested go_on
requested-IsOutcome d c s call f (err e) q k = halted (f e) refl (omega arith)
requested-IsOutcome d c s call f (ok none) q k = halted no_virtual_machine refl (omega arith)
requested-IsOutcome d c s call f (ok (some vm)) q k = went_on vm call refl q k refl

module _ (d : CloneDriver) (c : CloneStep) (s : StateBag) where
  clone_from_template-IsOutcome : IsOutcome d c s (clone_from_template d c s)
  unfolding clone_from_template deployment
  clone_from_template-IsOutcome =
      or_halt-IsOutcome d c s (map_err template_not_found (d.find_vm c.config.template)) _
        λ template a. or_halt-IsOutcome d c s (pre_clean d c) _ λ done b.
          or_halt-IsOutcome d c s (disks_from_storage_config d c.config.storage_config.storage) _
            λ disks x.
              or_halt-IsOutcome d c s (map_err devices_unreadable template.devices) _ λ devices y.
                or_halt-IsOutcome d c s
                  (place_disks d c s disks true (storage_existing_devices devices)) _
                  λ placed z. or_halt-IsOutcome d c s (known_datastore d c placed.0) _ λ known k.
                    requested-IsOutcome d c s (clone_vm template _) driver_failed _ refl
                      (known-IsOutcome d c placed.0 k)

  deploy_from_content_library-IsOutcome :
      (l : ContentLibrarySource) → IsOutcome d c s (deploy_from_content_library d c l s)
  unfolding deploy_from_content_library deployment
  deploy_from_content_library-IsOutcome l = or_halt-IsOutcome d c s (pre_clean d c) _ λ done a.
      or_halt-IsOutcome d c s (map_err item_not_found (d.resolve_item l.library l.name)) _ λ item b.
        or_halt-IsOutcome d c s (validate_library_options c.config item.item_type) _ λ valid x.
          or_halt-IsOutcome d c s (disks_from_storage_config d c.config.storage_config.storage) _
            λ disks y.
              or_halt-IsOutcome d c s (place_disks d c s disks (is_vm_template item.item_type) []) _
                λ placed z. or_halt-IsOutcome d c s (known_datastore d c placed.0) _ λ known k.
                  requested-IsOutcome d c s (deploy_item _) deployment_failed _ refl
                    (known-IsOutcome d c placed.0 k)

  deploy_from_ovf-IsOutcome : (o : OvfSource) → IsOutcome d c s (deploy_from_ovf d c o s)
  unfolding deploy_from_ovf ovf_request
  deploy_from_ovf-IsOutcome o =
      let name = (resolved_datastore c s).0 in
      or_halt-IsOutcome d c s (pre_clean d c) _ λ done a.
        or_halt-IsOutcome d c s (known_datastore d c name) _ λ known k.
          or_halt-IsOutcome d c s
            (map_err (ovf_invalid o.url o.path)
              (validate_ovf_configuration d (ovf_request c o name)))
            _
            λ valid x.
              requested-IsOutcome d c s (deploy_ovf _) (ovf_failed o.url o.path) _ refl
                (known-IsOutcome d c name k)

  deploy_or_clone-IsOutcome : (o : Option OvfSource) → IsOutcome d c s (deploy_or_clone d c o s)
  unfolding deploy_or_clone
  deploy_or_clone-IsOutcome none = clone_from_template-IsOutcome
  deploy_or_clone-IsOutcome (some o) = deploy_from_ovf-IsOutcome o

  run_from-IsOutcome : (l : Option ContentLibrarySource) → IsOutcome d c s (run_from d c l s)
  unfolding run_from
  run_from-IsOutcome none = deploy_or_clone-IsOutcome c.config.ovf_source
  run_from-IsOutcome (some l) = deploy_from_content_library-IsOutcome l

  -- Whatever the source is, the step either halts after at most one request to vCenter for a virtual
  -- machine, puts its error into the state, and keeps the virtual machine of the state and the wish to
  -- destroy it; or it has made exactly one such request, with a datastore or in a datastore cluster,
  -- and goes on with the virtual machine that is the answer in the state, which is to be destroyed if
  -- the configuration says so.
  pub run_clone-IsOutcome : IsOutcome d c s (run_clone d c s)
  unfolding run_clone
  run_clone-IsOutcome = run_from-IsOutcome c.config.content_library_source

run_clone-template :
    (d : CloneDriver) (c : CloneStep) (s : StateBag)
    → c.config.content_library_source ≡ none
    → c.config.ovf_source ≡ none
    → run_clone d c s ≡ clone_from_template d c s
unfolding run_clone run_from deploy_or_clone
run_clone-template d c s l o = ap (λ z. run_from d c z s) l ∙ ap (λ z. deploy_or_clone d c z s) o

-- What vCenter is asked to clone: the template that was found, with one disk for each storage block,
-- no datastore for the disks or one for each, on a datastore or in a datastore cluster.
pub record IsRequest (d : CloneDriver) (c : CloneStep) (template : Template)
    (request : CloneRequest) : Type 0 where
  pub found : d.find_vm c.config.template ≡ ok template
  pub disks :
      All2 (IsDiskOf d) c.config.storage_config.storage request.deployment.storage_config.storage
  pub placed :
      IsOnePerDisk
        (length request.deployment.storage_config.storage)
        request.deployment.storage_config.disk_datastores
  pub somewhere : request.deployment.store ≢ [] ⊎ (c.location.datastore_cluster ≢ [])
  pub same_types :
      request.deployment.storage_config.disk_controller_type
      ≡ c.config.storage_config.disk_controller_type
  pub same_linked : request.linked_clone ≡ c.config.linked_clone

-- Such a request is the only one, and the answer to it is the virtual machine of the state.
pub record IsCloned (d : CloneDriver) (c : CloneStep) (s : StateBag) (r : Effect) : Type 0 where
  pub template : Template
  pub request : CloneRequest
  pub vm : Text
  pub sent : IsRequest d c template request
  pub once : r.0 ≡ clone_vm template request ∷ []
  pub answered : d.clone template request ≡ ok (some vm)
  pub state : r.1.1 ≡ record s { destroy_vm = c.config.destroy || s.destroy_vm; vm = some vm }

-- A step that goes on has cloned.
record Clones (d : CloneDriver) (c : CloneStep) (s : StateBag) (r : Effect) : Type 0 where
  cloned : r.1.0 ≡ continue_build → IsCloned d c s r

or_halt-IsCloned :
    {A : Type 0} (d : CloneDriver) (c : CloneStep) (s : StateBag) (r : Result StepError A)
    {rest : A → Effect}
    → ((a : A) → r ≡ ok a → Clones d c s (rest a))
    → Clones d c s (or_halt r s rest)
unfolding halt_with or_halt
or_halt-IsCloned d c s (err e) next = record { cloned = λ h. absurd (ground arith) }
or_halt-IsCloned d c s (ok a) next = next a refl

requested-IsCloned :
    (d : CloneDriver) (c : CloneStep) (s : StateBag) (template : Template) (request : CloneRequest)
    (got : Result Text (Option Text))
    → d.clone template request ≡ got
    → IsRequest d c template request
    → Clones d c s (
        requested (clone_vm template request) (
          or_halt
            (map_err driver_failed got)
            s
            λ answer. or_halt (not_nil answer) s λ vm. go_on c.config.destroy s vm))
unfolding not_nil halt_with or_halt requested go_on
requested-IsCloned d c s template request (err e) q k = record {
  cloned = λ h. absurd (ground arith);
}
requested-IsCloned d c s template request (ok none) q k = record {
  cloned = λ h. absurd (ground arith);
}
requested-IsCloned d c s template request (ok (some vm)) q k = record {
  cloned = λ h. record {
    template = template;
    request = request;
    vm = vm;
    sent = k;
    once = refl;
    answered = q;
    state = refl;
  };
}

module _ (d : CloneDriver) (g : DeviceLibrary) (laws : DeviceLibraryLaws g)
    (vcenter : VCenter Datastore) where
  or_by_policy-IsOnePerDisk :
      (c : CloneStep) (s : StateBag) (disks : List Disk) (primary : Option Datastore)
      (p : Text × List DiskDatastore) {r : Text × List DiskDatastore}
      → IsOnePerDisk (length disks) p.1
      → or_by_policy d c s disks primary p ≡ ok r
      → IsOnePerDisk (length disks) r.1
  unfolding or_by_policy
  or_by_policy-IsOnePerDisk c s disks primary (name, []) k h =
      resolve_policy_placement-IsOnePerDisk _ _ _ _ _ _ _ _ _ h
  or_by_policy-IsOnePerDisk c s disks primary (name, p ∷ ps) k h = ground arith

  placed_in_cluster :
      (selects : d.placement.disk_selector ≡ some (select_datastores_for_disks g vcenter))
      (c : CloneStep) (s : StateBag) (disks : List Disk) (existing : List Device)
      {r : Text × List DiskDatastore}
      → place_disks d c s disks true existing ≡ ok r
      → IsOnePerDisk (length disks) r.1
  unfolding place_disks
  placed_in_cluster selects c s disks existing h =
      let (name, primary) = resolved_datastore c s in
      or_by_policy-IsOnePerDisk c s disks primary _
        (resolve_multi_disk-IsOnePerDisk d.placement g laws vcenter selects
          c.location.datastore_cluster _ primary name)
        h

  -- Where the driver selects datastores for disks as Storage DRS is asked, and the driver is as
  -- documented, a clone from a template that goes on has sent one request, for the template that was
  -- found: one disk for each storage block in order, no datastore for the disks or one for each, and
  -- a datastore or a datastore cluster; the answer is the virtual machine of the state.
  clone_from_template-IsCloned :
      (c : CloneStep) (s : StateBag)
      → d.placement.disk_selector ≡ some (select_datastores_for_disks g vcenter)
      → Clones d c s (clone_from_template d c s)
  unfolding clone_from_template deployment
  clone_from_template-IsCloned c s selects =
      let blocks = c.config.storage_config.storage in
      or_halt-IsCloned d c s (map_err template_not_found (d.find_vm c.config.template))
        λ template a. or_halt-IsCloned d c s (pre_clean d c) λ done b.
          or_halt-IsCloned d c s (disks_from_storage_config d blocks) λ disks x.
            or_halt-IsCloned d c s (map_err devices_unreadable template.devices) λ devices y.
              or_halt-IsCloned d c s
                (place_disks d c s disks true (storage_existing_devices devices))
                λ placed z. or_halt-IsCloned d c s (known_datastore d c placed.0) λ known k.
                  requested-IsCloned d c s template _ _ refl (record {
                    found = map_err-eq-ok template_not_found _ a;
                    disks = disks_of_blocks d blocks disks x;
                    placed =
                        placed_in_cluster selects c s disks (storage_existing_devices devices) z;
                    somewhere = known-IsOutcome d c placed.0 k;
                    same_types = refl;
                    same_linked = refl;
                  })

  -- Where Storage DRS is asked through SelectDatastoresForDisks and govmomi is as documented: if Prepare
  -- reports no error for a configuration with a template, and the step goes on with it, then the one
  -- request that it made to vCenter for a virtual machine is a clone of that template, with one disk for
  -- each storage block in order, no datastore for the disks or one for each, and a datastore or a
  -- datastore cluster; the answer is the virtual machine of the state; and every storage block is
  -- accepted alone, names an address within the limits of vSphere if it has a unit, and shares its
  -- unit with no other.
  pub run_clone-prepare_clone :
      (host : Host) (k : CloneConfig) (c : CloneStep) (s : StateBag)
      → d.placement.disk_selector ≡ some (select_datastores_for_disks g vcenter)
      → (prepare_clone host k).0 ≡ []
      → k.template ≢ []
      → c.config ≡ (prepare_clone host k).1
      → (run_clone d c s).1.0 ≡ continue_build
      → IsCloned d c s (run_clone d c s) × AreDisks c.config.storage_config
  unfolding prepare_clone cleaned_source
  run_clone-prepare_clone host k c s selects p t e h = elim (prepare_clone-IsAccepted host k p) [
    | from_template a ↦
        let library : c.config.content_library_source ≡ none =
          ap (λ z. z.content_library_source) e ∙ a.no_library in
        let ovf : c.config.ovf_source ≡ none =
          ap (λ z. z.ovf_source) e ∙ ap cleaned_source a.no_ovf in
        let storage = ap (λ z. z.storage_config) e in
        let same = run_clone-template d c s library ovf in
        (
          subst (λ r. IsCloned d c s r) (sym same)
              ((clone_from_template-IsCloned c s selects).cloned (ap (λ r. r.1.0) (sym same) ∙ h)),
          subst AreDisks (sym storage) a.disks,
        )
    | from_ovf o a ↦ absurd (t a.no_template)
    | from_library l a ↦ absurd (t a.no_template)
  ]
