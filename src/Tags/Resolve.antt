-- ===== src/Tags/Resolve.antt =====
-- builder/vsphere/common/tags_manager.go: `ResolveTagIDs`. The map of seen IDs has the resolved IDs
-- for its keys, so the list of these stands for both; `none` is a nil configuration.
use packer_plugin_vsphere.Base.{
  ℕ, suc, ◌≡◌, refl, subst, inl, inr, Bool, false, ◌||◌, Option, none, some, List, [], ◌∷◌, ◌++◌,
  arith, if◌then◌else◌, Bool-cases, is_empty, exists, Result, ok, err, map_err, Text, codes,
  text_eq, text_eq_iff, itoa,
}
use packer_plugin_vsphere.Tags.{Error, Tag, TagConfig, TagsConfig, Context}
use packer_plugin_vsphere.Tags.Errors.{wrap_tag_operation_error}
use packer_plugin_vsphere.Tags.Retry.{RetryConfig}
use packer_plugin_vsphere.Tags.Manager.{
  TagApi, ManagerState, M, ◌>>=◌, then_with, pure, lift, wrap_errors, get_tag_by_id,
  resolve_or_create_tag,
}

-- `if !seenIDs[id] { resolvedIDs = append(resolvedIDs, id); seenIDs[id] = true }`.
unfoldable pub add_resolved : Text → List Text → List Text
add_resolved id ids = if exists (text_eq id) ids then ids else ids ++ id ∷ []

suggestion : Text × Text
suggestion = (
  codes "suggestion",
  codes
      "Please verify the tag ID is correct or use category/name format to create the tag automatically",
)

module _ {W : Type 0} (api : TagApi W) (config : RetryConfig) where
  render_or : Text → Context → Text → M W Text
  render_or operation c t =
      lift (map_err (λ e. wrap_tag_operation_error operation e c) (api.render t))

  -- A tag ID of the list, and of a block with more context.
  resolve_id : Context → Context → Text → M W Tag
  unfolding render_or suggestion
  resolve_id block₁ block₂ id =
      render_or (codes "interpolate tag ID") ((codes "tag_id", id) ∷ block₁) id >>= λ interpolated.
      wrap_errors (codes "lookup tag by ID")
        ((codes "identifier", interpolated)
          ∷ (codes "resource_type", codes "tag")
          ∷ (block₂ ++ suggestion ∷ []))
        (get_tag_by_id api config interpolated)

  resolve_pair : Context → TagConfig → M W Tag
  unfolding render_or
  resolve_pair block t =
      render_or (codes "interpolate category") ((codes "category", t.category) ∷ block) t.category
      >>= λ category.
          (render_or (codes "interpolate tag name")
              ((codes "tag_name", t.name) ∷ (codes "category", category) ∷ block) t.name
            >>= λ name.
                wrap_errors (codes "resolve or create tag")
                  ((codes "category", category) ∷ (codes "tag_name", name) ∷ block)
                  (resolve_or_create_tag api config category name))

  resolve_block : ℕ → TagConfig → M W Tag
  unfolding resolve_id resolve_pair
  resolve_block i t =
      let block = (codes "block", itoa i) ∷ [] in
      if is_empty t.id then resolve_pair block t else resolve_id block block t.id

  unfoldable pub resolve_ids : List Text → List Text → M W (List Text)
  unfolding resolve_id
  resolve_ids [] resolved = pure resolved
  resolve_ids (id ∷ ids) resolved =
      resolve_id [] [] id >>= λ t. resolve_ids ids (add_resolved t.id resolved)

  unfoldable pub resolve_blocks : ℕ → List TagConfig → List Text → M W (List Text)
  unfolding resolve_block
  resolve_blocks i [] resolved = pure resolved
  resolve_blocks i (t ∷ ts) resolved =
      resolve_block i t >>= λ tag. resolve_blocks (suc i) ts (add_resolved tag.id resolved)

  unfoldable pub resolve_tag_ids : Option TagsConfig → M W (List Text)
  resolve_tag_ids none = pure []
  resolve_tag_ids (some c) = resolve_ids c.tags [] >>= resolve_blocks 0 c.tag

-- No text stands twice in a list.
abbrev pub Distinct : List Text → Type 0
Distinct [] = Unit
Distinct (x ∷ xs) = (exists (text_eq x) xs ≡ false) × Distinct xs

exists-append :
    (p : Text → Bool) (xs ys : List Text) → exists p (xs ++ ys) ≡ (exists p xs || exists p ys)
exists-append p [] ys = refl
exists-append p (x ∷ xs) ys = ground (arith, exists-append p xs ys)

Distinct-snoc :
    (xs : List Text) (x : Text)
    → Distinct xs
    → exists (text_eq x) xs ≡ false
    → Distinct (xs ++ x ∷ [])
Distinct-snoc [] x d h = (refl, tt)
Distinct-snoc (y ∷ xs) x d h = (
  ground (arith, exists-append (text_eq y) xs (x ∷ []), text_eq_iff x y, text_eq_iff y x),
  Distinct-snoc xs x d.1 (ground arith),
)

add_resolved-Distinct :
    (id : Text) (ids : List Text) → Distinct ids → Distinct (add_resolved id ids)
unfolding add_resolved
add_resolved-Distinct id ids d = elim (Bool-cases (exists (text_eq id) ids)) [
  | inl e ↦ rw e d
  | inr e ↦ rw e (Distinct-snoc ids id d e)
]

then_with-eq-ok :
    {W A B : Type 0} (f : A → M W B) (r : Result Error A × ManagerState W) {b : B}
    {s' : ManagerState W}
    → then_with f r ≡ (ok b, s')
    → (a : A) × (t : ManagerState W) × (r ≡ (ok a, t)) × (f a t ≡ (ok b, s'))
then_with-eq-ok f (ok a, t) h = (a, t, refl, h)
then_with-eq-ok f (err e, t) h = absurd (ground arith)

-- A successful bind.
pub >>=-eq-pure :
    {W A B : Type 0} (m : M W A) (f : A → M W B) (s : ManagerState W) {b : B} {s' : ManagerState W}
    → (m >>= f) s ≡ (ok b, s')
    → (a : A) × (t : ManagerState W) × (m s ≡ (ok a, t)) × (f a t ≡ (ok b, s'))
>>=-eq-pure m f s h = then_with-eq-ok f (m s) h

module _ {W : Type 0} (api : TagApi W) (config : RetryConfig) where
  resolve_ids-Distinct :
      (ids resolved : List Text) (s : ManagerState W) {r : List Text} {s' : ManagerState W}
      → resolve_ids api config ids resolved s ≡ (ok r, s')
      → Distinct resolved
      → Distinct r
  unfolding resolve_ids
  resolve_ids-Distinct [] resolved s {r} h d =
      let e : resolved ≡ r = ground arith in subst Distinct e d
  resolve_ids-Distinct (id ∷ ids) resolved s h d =
      let (t, u, e, q) = >>=-eq-pure (resolve_id api config [] [] id) _ s h in
      resolve_ids-Distinct ids (add_resolved t.id resolved) u q
        (add_resolved-Distinct t.id resolved d)

  resolve_blocks-Distinct :
      (i : ℕ) (ts : List TagConfig) (resolved : List Text) (s : ManagerState W) {r : List Text}
      {s' : ManagerState W}
      → resolve_blocks api config i ts resolved s ≡ (ok r, s')
      → Distinct resolved
      → Distinct r
  unfolding resolve_blocks
  resolve_blocks-Distinct i [] resolved s {r} h d =
      let e : resolved ≡ r = ground arith in subst Distinct e d
  resolve_blocks-Distinct i (t ∷ ts) resolved s h d =
      let (tag, u, e, q) = >>=-eq-pure (resolve_block api config i t) _ s h in
      resolve_blocks-Distinct (suc i) ts (add_resolved tag.id resolved) u q
        (add_resolved-Distinct tag.id resolved d)

  -- Whatever vCenter answers, the tag IDs that a configuration is resolved to are distinct.
  pub resolve_tag_ids-Distinct :
      (c : Option TagsConfig) (s : ManagerState W) {r : List Text} {s' : ManagerState W}
      → resolve_tag_ids api config c s ≡ (ok r, s')
      → Distinct r
  unfolding resolve_tag_ids
  resolve_tag_ids-Distinct none s {r} h = let e : [] ≡ r = ground arith in subst Distinct e tt
  resolve_tag_ids-Distinct (some c) s h =
      let (ids, u, e, q) = >>=-eq-pure (resolve_ids api config c.tags []) _ s h in
      resolve_blocks-Distinct 0 c.tag ids u q (resolve_ids-Distinct c.tags [] s e tt)
