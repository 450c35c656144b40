-- ===== src/Tags/Validate.antt =====
-- builder/vsphere/common/tags_manager.go: `ValidateConfig`. The keys of the two maps of seen tags are
-- lists, the latest key first.
use packer_plugin_vsphere.Base.{
  ℕ, suc, Bool, false, ◌&&◌, ◌||◌, not, Option, none, some, List, [], ◌∷◌, ◌++◌, leb, ◌==◌,
  if◌then◌else◌, length, is_empty, exists, for_all, Result, ok, err, ◌>>=◌, ◌>>◌, fail_if, Text,
  codes, text_eq, has_prefix, split, is_digit, itoa,
}
use packer_plugin_vsphere.Tags.{Error, validation_error, TagConfig, TagsConfig}

abbrev is_hex : ℕ → Bool
is_hex c = is_digit c || (leb b'a' c && leb c b'f') || (leb b'A' c && leb c b'F')

unfoldable pub is_hex_group : ℕ → Text → Bool
is_hex_group n t = length t == n && for_all is_hex t

-- The pattern `^hex{8}-hex{4}-hex{4}-hex{4}-hex{12}$`: the groups between the dashes.
unfoldable pub is_uuid_groups : List Text → Bool
unfolding is_hex_group
is_uuid_groups (a ∷ b ∷ c ∷ d ∷ e ∷ []) =
    is_hex_group 8 a
    && is_hex_group 4 b
    && is_hex_group 4 c
    && is_hex_group 4 d
    && is_hex_group 12 e
is_uuid_groups _ = false

unfoldable pub is_uuid : Text → Bool
unfolding is_uuid_groups
is_uuid t = is_uuid_groups (split b'-' t)

-- Five parts, of which the fourth is the UUID and the fifth is `GLOBAL`.
unfoldable pub has_urn_parts : List Text → Bool
has_urn_parts (a ∷ b ∷ c ∷ uuid ∷ scope ∷ []) = is_uuid uuid && text_eq scope (codes "GLOBAL")
has_urn_parts _ = false

unfoldable pub is_valid_tag_urn : Text → Bool
unfolding has_urn_parts is_uuid
is_valid_tag_urn urn =
    has_prefix urn (codes "urn:vmomi:InventoryServiceTag:") && has_urn_parts (split b':' urn)

unfoldable pub at_index : Text → ℕ → Text
at_index field i = field ++ (codes "[" ++ (itoa i ++ codes "]"))

unfoldable pub urn_format : Text
urn_format =
    codes
      "Tag ID must be in the format: urn:vmomi:InventoryServiceTag:xxxxxxxx-xxxx-xxxx-xxxx-xxxxxxxxxxxx:GLOBAL"

-- The checks of a tag ID that both loops make; `field` names the format's field and `list` that of
-- a duplicate. The ID joins the seen ones.
unfoldable pub check_id : Text → Text → Text → List Text → Result Error (List Text)
check_id field list id seen = do
  fail_if (not (is_valid_tag_urn id))
      (validation_error field id (codes "invalid tag ID URN format") urn_format)
  fail_if (exists (text_eq id) seen) (
      validation_error list id (codes "duplicate tag ID")
        (codes "Remove duplicate tag IDs from the configuration"))
  ok (id ∷ seen)

unfoldable pub validate_tag_id : ℕ → Text → List Text → Result Error (List Text)
unfolding check_id
validate_tag_id i id seen = do
  fail_if (is_empty id) (
      validation_error (at_index (codes "tags") i) [] (codes "tag ID is empty") (
        codes
          "Provide a valid vSphere tag URN (e.g., urn:vmomi:InventoryServiceTag:xxxxxxxx-xxxx-xxxx-xxxx-xxxxxxxxxxxx:GLOBAL)"))
  check_id (at_index (codes "tags") i) (codes "tags") id seen

unfoldable pub validate_tag_ids : ℕ → List Text → List Text → Result Error (List Text)
unfolding validate_tag_id
validate_tag_ids i [] seen = ok seen
validate_tag_ids i (id ∷ ids) seen =
    validate_tag_id i id seen >>= λ seen'. validate_tag_ids (suc i) ids seen'

-- The key of a pair: `tag.Category + ":" + tag.Name`.
abbrev pub pair_key : TagConfig → Text
pair_key t = t.category ++ b':' ∷ t.name

abbrev pub Seen : Type 0
Seen = List Text × List Text

unfoldable pub check_pair : ℕ → TagConfig → Seen → Result Error Seen
check_pair i t (ids, pairs) = do
  fail_if (is_empty t.category) (
      validation_error (at_index (codes "tag") i ++ codes ".category") []
        (codes "category is required when using category/name format")
        (codes "Specify a category name (e.g., 'environment', 'os', 'team')"))
  fail_if (is_empty t.name) (
      validation_error (at_index (codes "tag") i ++ codes ".name") []
        (codes "name is required when using category/name format")
        (codes "Specify a tag name within the category (e.g., 'production', 'ubuntu', 'platform')"))
  fail_if (exists (text_eq (pair_key t)) pairs) (
      validation_error (codes "tag") (t.category ++ b'/' ∷ t.name)
        (codes "duplicate tag category/name pair")
        (codes "Remove duplicate category/name combinations from the configuration"))
  ok (ids, pair_key t ∷ pairs)

unfoldable pub has_category_or_name : TagConfig → Bool
has_category_or_name t = not (is_empty t.category) || not (is_empty t.name)

unfoldable pub validate_block : ℕ → TagConfig → Seen → Result Error Seen
unfolding check_id check_pair has_category_or_name
validate_block i t (ids, pairs) =
    let has_id = not (is_empty t.id) in
    if has_id && has_category_or_name t
    then err (
        validation_error (at_index (codes "tag") i) []
          (codes "cannot specify both 'id' and 'category/name'")
          (codes
            "Use either 'id' for existing tags or 'category' and 'name' to create/reference tags"))
    else if has_id
    then (check_id (at_index (codes "tag") i ++ codes ".id") (codes "tag") t.id ids >>= λ ids'.
        ok (ids', pairs))
    else if has_category_or_name t
    then check_pair i t (ids, pairs)
    else err (
        validation_error (at_index (codes "tag") i) []
          (codes "must specify either 'id' or both 'category' and 'name'")
          (codes "Provide either an 'id' field or both 'category' and 'name' fields"))

unfoldable pub validate_blocks : ℕ → List TagConfig → Seen → Result Error Seen
unfolding validate_block
validate_blocks i [] seen = ok seen
validate_blocks i (t ∷ ts) seen =
    validate_block i t seen >>= λ seen'. validate_blocks (suc i) ts seen'

unfoldable pub validate_config : Option TagsConfig → Result Error (Unit {0})
unfolding validate_tag_ids validate_blocks
validate_config none = ok tt
validate_config (some c) = do
  ids ← validate_tag_ids 0 c.tags []
  seen ← validate_blocks 0 c.tag (ids, [])
  ok tt
