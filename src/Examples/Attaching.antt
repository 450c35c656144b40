-- ===== src/Examples/Attaching.antt =====
-- builder/vsphere/common/tags_errors.go, tags_retry.go and tags_manager.go: the theorems on a vCenter
-- whose state is the list of the tag IDs that are attached.
use packer_plugin_vsphere.Base.{
  ℕ, zero, suc, ◌<◌, ◌≡◌, refl, subst, ◌↔◌, ◌⊎◌, true, false, none, some, List, [], ◌∷◌, arith,
  exists, All, ok, err, Text, codes, text_eq, text_eq_iff, has_prefix, contains_text, to_lower,
  split,
}
use packer_plugin_vsphere.Tags.{
  Error, nil, external, TagConfig, TagsConfig, Tag, TagCategory, is_nil,
}
use packer_plugin_vsphere.Tags.Errors.{wrap_tag_operation_error, is_structured, is_retryable_error}
use packer_plugin_vsphere.Tags.Wrap.{Wraps, wrap-wrap, wrap-Wraps}
use packer_plugin_vsphere.Tags.Retry.{Wait, Action, default_retry_config, with_retry, next_delay}
use packer_plugin_vsphere.Tags.Attempts.{
  Retried, here, again, Run, with_retry-Run, Retried-delay, doubling, doubled_delay,
}
use packer_plugin_vsphere.Tags.Validate.{validate_config}
use packer_plugin_vsphere.Tags.Valid.{IsValidConfig, validate_config-IsValidConfig}
use packer_plugin_vsphere.Tags.Manager.{TagApi, ManagerState}
use packer_plugin_vsphere.Tags.Resolve.{resolve_tag_ids, Distinct, resolve_tag_ids-Distinct}
use packer_plugin_vsphere.Tags.Apply.{apply_tags, AttachLaws, apply_tags-IsAttached}

abbrev refused_access : Error
refused_access = external (codes "NoPermission")

wrap-wrap_example :
    (wrap_tag_operation_error
        (codes "list")
        (wrap_tag_operation_error (codes "get") refused_access [])
        []
      ≡ wrap_tag_operation_error (codes "get") refused_access [])
    × ((wrap_tag_operation_error (codes "get") refused_access [] ≡ nil)
        ⊎ (is_structured (wrap_tag_operation_error (codes "get") refused_access []) ≡ true))
wrap-wrap_example = wrap-wrap (codes "get") (codes "list") refused_access [] []

wrap-Wraps_example :
    Wraps (wrap_tag_operation_error (codes "get") refused_access []) refused_access
    × ((wrap_tag_operation_error (codes "get") refused_access [] ≡ nil) ↔ (refused_access ≡ nil))
    × ((is_structured refused_access ≡ false)
        ⊎ (wrap_tag_operation_error (codes "get") refused_access [] ≡ refused_access))
wrap-Wraps_example = wrap-Wraps (codes "get") refused_access []

abbrev timed_out : Error
timed_out = external (codes "i/o timeout")

-- The first attempt times out, the next one succeeds.
abbrev second_time : Action ℕ ℕ
second_time zero = (err timed_out, 1)
second_time (suc n) = (ok n, suc n)

abbrev never_done : Wait ℕ
never_done n d = (none, n)

with_retry-Run_example :
    Run default_retry_config never_done second_time default_retry_config.max_attempts 0
      default_retry_config.initial_delay
      (with_retry default_retry_config never_done second_time 0)
unfolding default_retry_config
with_retry-Run_example = with_retry-Run default_retry_config never_done second_time 0 (omega arith)

-- The default configuration allows 3 attempts, with delays of 1 to 30 seconds.
one_failure :
    Retried (doubling 3 1000000000 30000000000) never_done second_time 1 0 1000000000 1 2000000000
unfolding is_retryable_error next_delay contains_text to_lower
    packer_plugin_vsphere.Tags.Errors.error_text
one_failure = again timed_out 1 1 refl refl refl here

Retried-delay_example : 2000000000 ≡ doubled_delay 1 1000000000 30000000000
Retried-delay_example = Retried-delay 3 1000000000 30000000000 never_done second_time one_failure

abbrev urn : Text
urn = codes "urn:vmomi:InventoryServiceTag:01234567-89ab-cdef-0123-456789abcdef:GLOBAL"

abbrev one_id : TagsConfig
one_id = record {
  tags = urn ∷ [];
  tag = record { category = codes "stage"; name = codes "test"; id = [] } ∷ [];
}

one_id_accepted : validate_config (some one_id) ≡ ok tt
unfolding validate_config packer_plugin_vsphere.Tags.Validate.is_valid_tag_urn has_prefix split
    text_eq
one_id_accepted = refl

validate_config-IsValidConfig_example : IsValidConfig one_id
validate_config-IsValidConfig_example = validate_config-IsValidConfig one_id one_id_accepted

abbrev stage : TagCategory
stage = record {
  id = codes "category";
  name = codes "stage";
  description = [];
  cardinality = codes "SINGLE";
  associable_types = codes "VirtualMachine" ∷ [];
}

abbrev tag_named : Text → Tag
tag_named id = record { id = id; name = id; description = []; category_id = codes "category" }

abbrev simple_api : TagApi (List Text)
simple_api = record {
  get_tag = λ id w. (ok (tag_named id), w);
  list_categories = λ w. (ok (codes "category" ∷ []), w);
  get_category = λ id w. (ok stage, w);
  list_tags_for_category = λ id w. (ok [], w);
  create_tag = λ name category w. (ok name, w);
  list_attached_tags = λ ref w. (ok w, w);
  attach_tag = λ id ref w. (ok tt, id ∷ w);
  render = λ t. ok t;
  wait_or_done = λ w d. (none, w);
}

attached_first :
    (w w' : List Text) (id : Text)
    → simple_api.attach_tag id (codes "vm") w ≡ (ok tt, w')
    → exists (text_eq id) w' ≡ true
attached_first w w' id h =
    let q : id ∷ w ≡ w' = ground arith in
    let e : text_eq id id ≡ true = (text_eq_iff id id).1 refl in
    subst (λ z. exists (text_eq id) z ≡ true) q (rw e)

simple_api_laws : AttachLaws simple_api (codes "vm")
unfolding text_eq
simple_api_laws = record {
  IsAttached = λ w j. exists (text_eq j) w ≡ true;
  listed = λ w w' ids h id m. ground arith;
  attached_now = attached_first;
  attach_keeps = λ w id j h. ground arith;
  wait_keeps = λ w d j h. h;
}

abbrev start_state : ManagerState (List Text)
start_state = record { tag_cache = []; category_cache = []; world = codes "other" ∷ [] }

abbrev resolved : ManagerState (List Text)
resolved = (resolve_tag_ids simple_api default_retry_config (some one_id) start_state).1

both_resolved :
    resolve_tag_ids simple_api default_retry_config (some one_id) start_state
    ≡ (ok (urn ∷ codes "test" ∷ []), resolved)
unfolding resolve_tag_ids default_retry_config packer_plugin_vsphere.Tags.Resolve.resolve_ids
    packer_plugin_vsphere.Tags.Manager.get_tag_by_id packer_plugin_vsphere.Tags.Manager.cached
    with_retry packer_plugin_vsphere.Tags.Resolve.resolve_blocks
    packer_plugin_vsphere.Tags.Manager.resolve_or_create_tag text_eq
    packer_plugin_vsphere.Tags.Manager.is_associable_with_virtual_machine
    packer_plugin_vsphere.Tags.Resolve.add_resolved
both_resolved = refl

resolve_tag_ids-Distinct_example : Distinct (urn ∷ codes "test" ∷ [])
resolve_tag_ids-Distinct_example =
    resolve_tag_ids-Distinct simple_api default_retry_config (some one_id) start_state both_resolved

abbrev applied : ManagerState (List Text)
applied = (apply_tags simple_api default_retry_config (some one_id) (codes "vm") start_state).1

some_attempt : 0 < default_retry_config.max_attempts
unfolding default_retry_config
some_attempt = omega arith

both_applied :
    apply_tags simple_api default_retry_config (some one_id) (codes "vm") start_state
    ≡ (ok tt, applied)
unfolding apply_tags default_retry_config resolve_tag_ids
    packer_plugin_vsphere.Tags.Resolve.resolve_ids packer_plugin_vsphere.Tags.Manager.get_tag_by_id
    packer_plugin_vsphere.Tags.Manager.cached with_retry
    packer_plugin_vsphere.Tags.Resolve.resolve_blocks
    packer_plugin_vsphere.Tags.Manager.resolve_or_create_tag text_eq
    packer_plugin_vsphere.Tags.Manager.is_associable_with_virtual_machine
    packer_plugin_vsphere.Tags.Resolve.add_resolved
both_applied = refl

apply_tags-IsAttached_example :
    (ids : List Text) × (t : ManagerState (List Text)) × (resolve_tag_ids simple_api
        default_retry_config
        (some one_id)
        start_state
      ≡ (ok ids, t))
    × All (simple_api_laws.IsAttached applied.world) ids
apply_tags-IsAttached_example =
    apply_tags-IsAttached simple_api default_retry_config (codes "vm") simple_api_laws some_attempt
      (some one_id) start_state applied both_applied
