-- ===== src/Tags/Apply.antt =====
-- builder/vsphere/common/tags_manager.go: `ApplyTags`. The virtual machine is named by the text of
-- its reference.
use packer_plugin_vsphere.Base.{
  ℕ, ◌<◌, ◌≡◌, sym, ◌∙◌, subst, inl, inr, true, Option, List, [], ◌∷◌, arith, if◌then◌else◌,
  Bool-cases, is_empty, exists, All, Result, ok, err, Text, codes, text_eq, text_eq_iff,
}
use packer_plugin_vsphere.Tags.{Error, TagsConfig, Context}
use packer_plugin_vsphere.Tags.Retry.{RetryConfig, Wait, with_retry, failed_after}
use packer_plugin_vsphere.Tags.Attempts.{
  Retried, here, again, Run, succeeded, refused, cancelled, exhausted, with_retry-Run,
}
use packer_plugin_vsphere.Tags.Manager.{
  TagApi, ManagerState, M, ◌>>=◌, pure, wrap_errors, retry, on_world,
}
use packer_plugin_vsphere.Tags.Resolve.{resolve_tag_ids, >>=-eq-pure}

module _ {W : Type 0} (api : TagApi W) (config : RetryConfig) where
  attach_one : Text → Text → M W (Unit {0})
  attach_one ref id =
      wrap_errors (codes "attach tag") ((codes "tag_id", id) ∷ (codes "resource", ref) ∷ [])
        (retry api config (api.attach_tag id ref))

  unfoldable pub attach_each : Text → List Text → List Text → M W (Unit {0})
  unfolding attach_one
  attach_each ref attached [] = pure tt
  attach_each ref attached (id ∷ ids) =
      (if exists (text_eq id) attached then pure tt else attach_one ref id) >>= λ _.
      attach_each ref attached ids

  list_attached : Text → M W (List Text)
  list_attached ref =
      wrap_errors (codes "list attached tags") ((codes "resource", ref) ∷ [])
        (retry api config (api.list_attached_tags ref))

  attach_all : Text → List Text → M W (Unit {0})
  unfolding list_attached attach_each
  attach_all ref ids =
      if is_empty ids
      then pure tt
      else list_attached ref >>= λ attached. attach_each ref attached ids

  unfoldable pub apply_tags : Option TagsConfig → Text → M W (Unit {0})
  unfolding attach_all
  apply_tags c ref = resolve_tag_ids api config c >>= attach_all ref

-- What vSphere documents of the tags attached to an object: a listing names attached tags alone; a
-- call that attaches a tag leaves it attached; none of these calls, and no wait, detaches one.
pub record AttachLaws {W : Type 0} (api : TagApi W) (ref : Text) : Type 1 where
  pub IsAttached : W → Text → Type 0
  pub listed :
      (w w' : W) (ids : List Text)
      → api.list_attached_tags ref w ≡ (ok ids, w')
      → (id : Text) → exists (text_eq id) ids ≡ true
      → IsAttached w' id
  pub attached_now :
      (w w' : W) (id : Text) → api.attach_tag id ref w ≡ (ok tt, w') → IsAttached w' id
  pub attach_keeps :
      (w : W) (id j : Text) → IsAttached w j → IsAttached (api.attach_tag id ref w).1 j
  pub wait_keeps :
      (w : W) (d : ℕ) (j : Text) → IsAttached w j → IsAttached (api.wait_or_done w d).1 j

-- What an operation and the waits keep, a run with retries keeps.
module _ {S A : Type 0} (config : RetryConfig) (wait : Wait S) (operation : S → Result Error A × S)
    (P : S → Type 0) (keep : (s : S) → P s → P (operation s).1)
    (keep_wait : (s : S) (d : ℕ) → P s → P (wait s d).1) where
  Retried_keeps :
      {k : ℕ} {s : S} {d : ℕ} {t : S} {d' : ℕ}
      → Retried config wait operation k s d t d'
      → P s
      → P t
  Retried_keeps here v = v
  Retried_keeps {d = d} (again e s₁ s₂ p q w r) v =
      Retried_keeps r (subst (λ z. P z.1) w (keep_wait s₁ d (subst (λ z. P z.1) p (keep _ v))))

  Run_keeps :
      (n : ℕ) (s : S) (d : ℕ) (r : Result Error A × S)
      → Run config wait operation n s d r
      → P s
      → P r.1
  Run_keeps n s d r (succeeded k t d' a s' l c o z) v =
      subst (λ x. P x.1) (o ∙ sym z) (keep t (Retried_keeps c v))
  Run_keeps n s d r (refused k t d' e s' l c o x z) v =
      subst (λ x. P x.1) (sym z) (subst (λ x. P x.1) o (keep t (Retried_keeps c v)))
  Run_keeps n s d r (cancelled k t d' e f s₁ s' l c o x y z) v =
      subst (λ x. P x.1) (sym z)
        (subst (λ x. P x.1) y (keep_wait s₁ d' (subst (λ x. P x.1) o (keep t (Retried_keeps c v)))))
  Run_keeps n s d r (exhausted k t d' e s' l c o x z) v =
      subst (λ x. P x.1) (sym z) (subst (λ x. P x.1) o (keep t (Retried_keeps c v)))

-- A successful run ends with a successful operation.
Run-ok :
    {S A : Type 0} (config : RetryConfig) (wait : Wait S) (operation : S → Result Error A × S)
    (n : ℕ) (s : S) (d : ℕ) (a : A) (s' : S)
    → Run config wait operation n s d (ok a, s')
    → (t : S) × (operation t ≡ (ok a, s'))
unfolding failed_after
Run-ok config wait operation n s d a s' (succeeded k t d' b u l c o z) = (t, o ∙ sym z)
Run-ok config wait operation n s d a s' (refused k t d' e u l c o x z) = absurd (ground arith)
Run-ok config wait operation n s d a s' (cancelled k t d' e f u v l c o x y z) =
    absurd (ground arith)
Run-ok config wait operation n s d a s' (exhausted k t d' e u l c o x z) = absurd (ground arith)

wrapped_ok :
    {W A : Type 0} (o : Text) (c : Context) (s : ManagerState W) (r : Result Error A × W) (a : A)
    (s' : ManagerState W)
    → wrap_errors o c (λ s₁. on_world s₁ r) s ≡ (ok a, s')
    → r ≡ (ok a, s'.world)
wrapped_ok o c s (ok b, w) a s' h = ground arith
wrapped_ok o c s (err e, w) a s' h = absurd (ground arith)

module _ {W : Type 0} (api : TagApi W) (config : RetryConfig) (ref : Text)
    (laws : AttachLaws api ref) (some_attempt : 0 < config.max_attempts) where
  open laws use {IsAttached, listed, attached_now, attach_keeps, wait_keeps}

  -- A retried call that succeeds: the world is that which some call of it left.
  retry_ok :
      {A : Type 0} (o : Text) (c : Context) (call : W → Result Error A × W) (s : ManagerState W)
      (a : A) (s' : ManagerState W)
      → wrap_errors o c (retry api config call) s ≡ (ok a, s')
      → with_retry config api.wait_or_done call s.world ≡ (ok a, s'.world)
  unfolding retry
  retry_ok o c call s a s' h =
      wrapped_ok o c s (with_retry config api.wait_or_done call s.world) a s' h

  attach_one_keeps :
      (id j : Text) (s s' : ManagerState W)
      → attach_one api config ref id s ≡ (ok tt, s')
      → IsAttached s.world j
      → IsAttached s'.world j
  unfolding attach_one
  attach_one_keeps id j s s' h v =
      let e = retry_ok _ _ (api.attach_tag id ref) s tt s' h in
      subst (λ x. IsAttached x.1 j) e
        (Run_keeps config api.wait_or_done (api.attach_tag id ref) (λ w. IsAttached w j)
          (λ w. attach_keeps w id j) (λ w d. wait_keeps w d j) config.max_attempts s.world
          config.initial_delay _
          (with_retry-Run config api.wait_or_done (api.attach_tag id ref) s.world some_attempt) v)

  attach_one_attached :
      (id : Text) (s s' : ManagerState W)
      → attach_one api config ref id s ≡ (ok tt, s')
      → IsAttached s'.world id
  unfolding attach_one
  attach_one_attached id s s' h =
      let e = retry_ok _ _ (api.attach_tag id ref) s tt s' h in
      let run =
        with_retry-Run config api.wait_or_done (api.attach_tag id ref) s.world some_attempt in
      let (t, q) =
        Run-ok config api.wait_or_done (api.attach_tag id ref) config.max_attempts s.world
          config.initial_delay tt s'.world
          (subst
            (Run config api.wait_or_done (api.attach_tag id ref) config.max_attempts s.world
              config.initial_delay)
            e run) in
      attached_now t s'.world id q

  list_attached_all :
      (ids : List Text) (s s' : ManagerState W)
      → list_attached api config ref s ≡ (ok ids, s')
      → (j : Text) → exists (text_eq j) ids ≡ true
      → IsAttached s'.world j
  unfolding list_attached
  list_attached_all ids s s' h =
      let call = api.list_attached_tags ref in
      let e = retry_ok _ _ call s ids s' h in
      let run = with_retry-Run config api.wait_or_done call s.world some_attempt in
      let (t, q) =
        Run-ok config api.wait_or_done call config.max_attempts s.world config.initial_delay ids
          s'.world
          (subst (Run config api.wait_or_done call config.max_attempts s.world config.initial_delay)
            e run) in
      listed t s'.world ids q

  -- After the loop, the tags that were attached still are, and all of the list are.
  attach_each_attached :
      (ids attached : List Text) (s s' : ManagerState W)
      → attach_each api config ref attached ids s ≡ (ok tt, s')
      → ((j : Text) → exists (text_eq j) attached ≡ true → IsAttached s.world j)
      → (j : Text)
      → (IsAttached s.world j → IsAttached s'.world j)
        × (exists (text_eq j) ids ≡ true → IsAttached s'.world j)
  unfolding attach_each
  attach_each_attached [] attached s s' h known j =
      let e : s ≡ s' = ground arith in ((λ v. subst (λ z. IsAttached z.world j) e v), λ m. cc)
  attach_each_attached (id ∷ ids) attached s s' h known j =
      elim (Bool-cases (exists (text_eq id) attached)) [
        | inl q ↦
            let rest = attach_each_attached ids attached s s' (rw q at h) known j in
            (
              rest.0,
              λ m. elim (Bool-cases (text_eq j id)) [
                | inl e ↦ rest.0 (known j (rw ((text_eq_iff j id).0 e) q))
                | inr e ↦ rest.1 (ground arith)
              ],
            )
        | inr q ↦
            let (u, t, e, r) = >>=-eq-pure (attach_one api config ref id) _ s (rw q at h) in
            let known' : (k : Text) → exists (text_eq k) attached ≡ true → IsAttached t.world k =
              λ k m. attach_one_keeps id k s t e (known k m) in
            let rest = attach_each_attached ids attached t s' r known' j in
            (
              λ v. rest.0 (attach_one_keeps id j s t e v),
              λ m. elim (Bool-cases (text_eq j id)) [
                | inl g ↦ rest.0 (rw ((text_eq_iff j id).0 g) (attach_one_attached id s t e))
                | inr g ↦ rest.1 (ground arith)
              ],
            )
      ]

  attach_all_attached :
      (ids : List Text) (s s' : ManagerState W)
      → attach_all api config ref ids s ≡ (ok tt, s')
      → (j : Text) → exists (text_eq j) ids ≡ true
      → IsAttached s'.world j
  unfolding attach_all
  attach_all_attached [] s s' h j m = cc
  attach_all_attached (id ∷ ids) s s' h j m =
      let (attached, t, e, r) = >>=-eq-pure (list_attached api config ref) _ s h in
      (attach_each_attached (id ∷ ids) attached t s' r (list_attached_all attached s t e) j).1 m

  All-attached :
      (w : W) (ids : List Text)
      → ((j : Text) → exists (text_eq j) ids ≡ true → IsAttached w j)
      → All (IsAttached w) ids
  All-attached w [] h = tt
  All-attached w (id ∷ ids) h =
      (h id (ground (arith, text_eq_iff id id)), All-attached w ids (λ j m. h j (ground arith)))

  -- Where at least one attempt is allowed and vCenter keeps what it documents of attached tags, a
  -- successful run has resolved the configuration to some tag IDs, and each of them is attached to
  -- the virtual machine at the end.
  pub apply_tags-IsAttached :
      (c : Option TagsConfig) (s s' : ManagerState W)
      → apply_tags api config c ref s ≡ (ok tt, s')
      → (ids : List Text) × (t : ManagerState W) × (resolve_tag_ids api config c s ≡ (ok ids, t))
        × All (IsAttached s'.world) ids
  unfolding apply_tags
  apply_tags-IsAttached c s s' h =
      let (ids, t, e, r) = >>=-eq-pure (resolve_tag_ids api config c) _ s h in
      (ids, t, e, All-attached s'.world ids (attach_all_attached ids t s' r))
