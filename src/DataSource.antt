-- ===== src/DataSource.antt =====
-- datasource/common: the selection of one item among several (select.go), and the filter by tags
-- (tag.go, tag_matcher.go, list_tags.go). What vCenter answers about tags is the parameter `inventory`;
-- it answers the same while one object is looked at.
pub mod Selection
pub mod Matching
use packer_plugin_vsphere.Base.{
  ℕ, suc, Bool, true, false, ◌||◌, not, Option, none, some, List, [], ◌∷◌, ◌++◌, ltb, ◌==◌,
  if◌then◌else◌, ℤ, pos, negsuc, length, is_empty, Result, ok, err, ◌>>=◌, ◌>>◌, map_err, Text,
  codes, text_eq,
}

-- `a < b` on signed integers.
abbrev pub int_ltb : ℤ → ℤ → Bool
int_ltb (pos a) (pos b) = ltb a b
int_ltb (pos a) (negsuc b) = false
int_ltb (negsuc a) (pos b) = true
int_ltb (negsuc a) (negsuc b) = ltb b a

module _ {T : Type 0} where
  unfoldable pub exactly_one : List T → Text → Text → Result Text T
  exactly_one [] none_msg many_msg = err none_msg
  exactly_one (x ∷ []) none_msg many_msg = ok x
  exactly_one (x ∷ y ∷ xs) none_msg many_msg = err many_msg

  -- The best item so far with its score, after one more item.
  unfoldable pub better : T × ℤ → T → ℤ → T × ℤ
  better (best, best_score) x s = if int_ltb best_score s then (x, s) else (best, best_score)

  unfoldable pub best_of : (T → Result Text ℤ) → T × ℤ → List T → Result Text T
  best_of score best [] = ok best.0
  best_of score best (x ∷ xs) = score x >>= λ s. best_of score (better best x s) xs

  unfoldable pub select_max : (T → Result Text ℤ) → List T → Result Text T
  select_max score [] = err (codes "cannot select from an empty list")
  select_max score (x ∷ xs) = score x >>= λ s. best_of score (x, s) xs

  -- A nil `selectFn` is `none`.
  unfoldable pub resolve_one :
      List T → Bool → Option (List T → Result Text T) → Text → Text → Result Text T
  resolve_one [] select_alt select_fn none_msg many_msg = err none_msg
  resolve_one (x ∷ []) select_alt select_fn none_msg many_msg = ok x
  resolve_one (x ∷ y ∷ xs) select_alt select_fn none_msg many_msg =
      if not select_alt then err many_msg else elim select_fn [
        | none ↦ err (codes "multiple matches require a selection function: " ++ many_msg)
        | some f ↦ f (x ∷ y ∷ xs)
      ]

-- The `Tag` of datasource/common.
pub record SourceTag : Type 0 where
  pub name : Text
  pub category : Text

-- The errors that are joined: one message for each tag without a name or a category.
unfoldable pub validate_tags : List SourceTag → List Text
validate_tags [] = []
validate_tags (t ∷ ts) =
    let rest = validate_tags ts in
    if is_empty t.name || is_empty t.category
    then codes "both name and category are required for tag" ∷ rest
    else rest

-- A tag that vCenter returns, as far as it is read.
pub record AttachedTag : Type 0 where
  pub name : Text
  pub category_id : Text

pub record Inventory : Type 0 where
  pub login : Result Text (Unit {0})
  pub get_attached_tags : Text → Result Text (List AttachedTag)
  pub get_category_name : Text → Result Text Text

-- A nil `manager` is one that is not logged in.
pub record TagMatcher : Type 0 where
  pub required : List SourceTag
  pub logged_in : Bool

abbrev pub login_failed : Text → Text
login_failed e = codes "failed to login to REST API: " ++ e

abbrev pub tags_failed : Text → Text
tags_failed e = codes "failed to return tags for the object: " ++ e

abbrev pub category_failed : Text → Text
category_failed e = codes "failed to return tag category for tag: " ++ e

module _ (inventory : Inventory) where
  unfoldable pub new_tag_matcher : List SourceTag → Result Text TagMatcher
  new_tag_matcher required =
      if is_empty required
      then ok (record { required = required; logged_in = false })
      else map_err login_failed inventory.login
        >> ok (record { required = required; logged_in = true })

  -- The loop over the attached tags for one required tag.
  unfoldable pub match_tag : SourceTag → List AttachedTag → Result Text Bool
  match_tag t [] = ok false
  match_tag t (a ∷ attached) =
      let rest = match_tag t attached in
      if text_eq t.name a.name
      then (map_err category_failed (inventory.get_category_name a.category_id) >>= λ category.
          if text_eq t.category category then ok true else rest)
      else rest

  -- The loop over the required tags, which ends at the first that does not match.
  unfoldable pub count_matched : ℕ → List AttachedTag → List SourceTag → Result Text ℕ
  count_matched n attached [] = ok n
  count_matched n attached (t ∷ ts) = match_tag t attached >>= λ matched. elim matched [
    | true ↦ count_matched (suc n) attached ts
    | false ↦ ok n
  ]

  unfoldable pub has_all : TagMatcher → Text → Result Text Bool
  has_all m ref =
      if is_empty m.required
      then ok true
      else if not m.logged_in
      then err (codes "tag matcher is not initialized")
      else map_err tags_failed (inventory.get_attached_tags ref) >>= λ attached.
          count_matched 0 attached m.required >>= λ n. ok (n == length m.required)

  unfoldable pub name_categories : List AttachedTag → Result Text (List SourceTag)
  name_categories [] = ok []
  name_categories (a ∷ attached) = do
    category ← map_err category_failed (inventory.get_category_name a.category_id)
    rest ← name_categories attached
    ok (record { name = a.name; category = category } ∷ rest)

  unfoldable pub list_attached_tags : Text → Result Text (List SourceTag)
  list_attached_tags ref =
      map_err login_failed inventory.login
      >> (map_err tags_failed (inventory.get_attached_tags ref) >>= name_categories)
