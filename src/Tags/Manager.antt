-- ===== src/Tags/Manager.antt =====
-- builder/vsphere/common/tags_manager.go: the lookups of the tag manager, with their caches. `W` is
-- the state of vCenter and of the context; the calls of govmomi's `tags.Manager` and of the template
-- engine are the parameter `api`.
use packer_plugin_vsphere.Base.{
  ℕ, Bool, Option, none, some, List, [], ◌∷◌, if◌then◌else◌, exists, Result, ok, err, map_err, Text,
  codes, text_eq,
}
use packer_plugin_vsphere.Tags.{
  Error, nil, not_found_error, category_not_associable_error, Tag, TagCategory, Context,
}
use packer_plugin_vsphere.Tags.Errors.{wrap_tag_operation_error}
use packer_plugin_vsphere.Tags.Retry.{RetryConfig, with_retry}

pub record TagApi (W : Type 0) : Type 0 where
  pub get_tag : Text → W → Result Error Tag × W
  pub list_categories : W → Result Error (List Text) × W
  pub get_category : Text → W → Result Error TagCategory × W
  pub list_tags_for_category : Text → W → Result Error (List Text) × W
  pub create_tag : Text → Text → W → Result Error Text × W
  pub list_attached_tags : Text → W → Result Error (List Text) × W
  pub attach_tag : Text → Text → W → Result Error (Unit {0}) × W
  pub render : Text → Result Error Text
  pub wait_or_done : W → ℕ → Option Error × W

-- The caches and the world; the latest entry of a key hides the earlier ones.
pub record ManagerState (W : Type 0) : Type 0 where
  pub tag_cache : List (Text × Tag)
  pub category_cache : List (Text × TagCategory)
  pub world : W

unfoldable pub cached {ℓ} : {A : Type ℓ} → Text → List (Text × A) → Option A
cached k [] = none
cached k ((j, v) ∷ m) = if text_eq j k then some v else cached k m

-- A step of the tag manager: a result or an error, and the state after it.
abbrev pub M : Type 0 → Type 0 → Type 0
M W A = ManagerState W → Result Error A × ManagerState W

abbrev pub then_with :
    {W A B : Type 0}
    → (A → M W B)
    → Result Error A × ManagerState W
    → Result Error B × ManagerState W
then_with f (ok a, s) = f a s
then_with f (err e, s) = (err e, s)

infixl 5 ◌>>=◌
abbrev pub ◌>>=◌ : {W A B : Type 0} → M W A → (A → M W B) → M W B
◌>>=◌ m f s = then_with f (m s)

abbrev pub pure : {W A : Type 0} → A → M W A
pure a s = (ok a, s)

abbrev pub fail : {W A : Type 0} → Error → M W A
fail e s = (err e, s)

-- A computation that touches no state.
abbrev pub lift : {W A : Type 0} → Result Error A → M W A
lift r s = (r, s)

abbrev pub on_world :
    {W A : Type 0} → ManagerState W → Result Error A × W → Result Error A × ManagerState W
on_world s (r, w) = (r, record s { world = w })

-- The error of a call, wrapped in the context of the caller.
abbrev pub wrap_errors : {W A : Type 0} → Text → Context → M W A → M W A
wrap_errors o c m s = let (r, s') = m s in (map_err (λ e. wrap_tag_operation_error o e c) r, s')

module _ {W : Type 0} (api : TagApi W) (config : RetryConfig) where
  -- `withRetry` of calls that change the world alone.
  unfoldable pub retry : {A : Type 0} → (W → Result Error A × W) → M W A
  retry call s = on_world s (with_retry config api.wait_or_done call s.world)

  unfoldable pub remember_tag : Text → Tag → M W Tag
  remember_tag k t s = (ok t, record s { tag_cache = (k, t) ∷ s.tag_cache })

  remember_category : Text → TagCategory → M W TagCategory
  remember_category k c s = (ok c, record s { category_cache = (k, c) ∷ s.category_cache })

  fetch_tag : Text → M W Tag
  unfolding retry remember_tag
  fetch_tag id =
      wrap_errors (codes "get tag by ID")
        ((codes "identifier", id) ∷ (codes "resource_type", codes "tag") ∷ [])
        (retry (api.get_tag id))
      >>= remember_tag id

  unfoldable pub get_tag_by_id : Text → M W Tag
  unfolding fetch_tag
  get_tag_by_id id s = elim (cached id s.tag_cache) [ some t ↦ (ok t, s) | none ↦ fetch_tag id s ]

  missing_category : Text → Error
  missing_category name =
      not_found_error (codes "category") name
        (codes
          "Please create the category in vSphere first and ensure it is associable with VirtualMachine")
        nil

  -- The loop over the category IDs: one that cannot be read is passed over.
  seek_category :
      Text
      → (Result Error TagCategory × W → Result Error TagCategory × W)
      → Result Error TagCategory × W
      → Result Error TagCategory × W
  seek_category name rest (err e, w) = rest (err e, w)
  seek_category name rest (ok c, w) = if text_eq c.name name then (ok c, w) else rest (ok c, w)

  find_category : Text → List Text → W → Result Error TagCategory × W
  unfolding seek_category missing_category
  find_category name [] w = (err (missing_category name), w)
  find_category name (id ∷ ids) w =
      seek_category name (λ p. find_category name ids p.1) (api.get_category id w)

  category_of_ids : Text → Result Error (List Text) × W → Result Error TagCategory × W
  unfolding find_category
  category_of_ids name (err e, w) = (err e, w)
  category_of_ids name (ok ids, w) = find_category name ids w

  fetch_category : Text → M W TagCategory
  unfolding retry remember_category category_of_ids
  fetch_category name =
      wrap_errors (codes "get category by name")
        ((codes "identifier", name) ∷ (codes "resource_type", codes "category") ∷ [])
        (retry (λ w. category_of_ids name (api.list_categories w)))
      >>= remember_category name

  unfoldable pub get_category_by_name : Text → M W TagCategory
  unfolding fetch_category
  get_category_by_name name s = elim (cached name s.category_cache) [
    | some c ↦ (ok c, s)
    | none ↦ fetch_category name s
  ]

  seek_tag :
      Text
      → (Result Error Tag × W → Result Error (Option Tag) × W)
      → Result Error Tag × W
      → Result Error (Option Tag) × W
  seek_tag name rest (err e, w) = rest (err e, w)
  seek_tag name rest (ok t, w) = if text_eq t.name name then (ok (some t), w) else rest (ok t, w)

  -- The loop over the tag IDs; that no tag has the name is not an error.
  find_tag : Text → List Text → W → Result Error (Option Tag) × W
  unfolding seek_tag
  find_tag name [] w = (ok none, w)
  find_tag name (id ∷ ids) w = seek_tag name (λ p. find_tag name ids p.1) (api.get_tag id w)

  tag_of_ids : Text → Result Error (List Text) × W → Result Error (Option Tag) × W
  unfolding find_tag
  tag_of_ids name (err e, w) = (err e, w)
  tag_of_ids name (ok ids, w) = find_tag name ids w

  remember_found : Option Tag → M W (Option Tag)
  remember_found none s = (ok none, s)
  remember_found (some t) s = (ok (some t), record s { tag_cache = (t.id, t) ∷ s.tag_cache })

  unfoldable pub get_tag_by_category_and_name : Text → Text → M W (Option Tag)
  unfolding retry remember_found tag_of_ids
  get_tag_by_category_and_name category_id name =
      wrap_errors (codes "list tags for category")
        ((codes "category_id", category_id) ∷ (codes "tag_name", name) ∷ [])
        (retry (λ w. tag_of_ids name (api.list_tags_for_category category_id w)))
      >>= remember_found

  created_tag : Result Error Text × W → Result Error Tag × W
  created_tag (err e, w) = (err e, w)
  created_tag (ok id, w) = api.get_tag id w

  -- The tag is created and read again; an attempt that created it and could not read it is repeated.
  unfoldable pub create_and_get_tag : Text → Text → Text → M W Tag
  unfolding retry remember_tag created_tag
  create_and_get_tag category_id category_name name =
      wrap_errors (codes "create tag")
        ((codes "category", category_name) ∷ (codes "tag_name", name) ∷ [])
        (retry (λ w. created_tag (api.create_tag name category_id w)))
      >>= λ t. remember_tag t.id t

  unfoldable pub is_associable_with_virtual_machine : List Text → Bool
  is_associable_with_virtual_machine types = exists (text_eq (codes "VirtualMachine")) types

  tag_or_create : Text → TagCategory → Text → Option Tag → M W Tag
  unfolding create_and_get_tag
  tag_or_create category_name c name (some t) = pure t
  tag_or_create category_name c name none = create_and_get_tag c.id category_name name

  tag_in_category : Text → Text → TagCategory → M W Tag
  unfolding tag_or_create get_tag_by_category_and_name
  tag_in_category category_name name c =
      if is_associable_with_virtual_machine c.associable_types
      then get_tag_by_category_and_name c.id name >>= tag_or_create category_name c name
      else fail (category_not_associable_error category_name c.associable_types)

  unfoldable pub resolve_or_create_tag : Text → Text → M W Tag
  unfolding tag_in_category get_category_by_name
  resolve_or_create_tag category_name name =
      get_category_by_name category_name >>= tag_in_category category_name name
