-- ===== src/Tags.antt =====
-- builder/vsphere/common/tags_errors.go, tags_config.go and tags_manager.go: the errors of the tag
-- operations, the configuration of tags, and the tags and categories of vSphere.
pub mod Errors
pub mod Wrap
pub mod Retry
pub mod Attempts
pub mod Validate
pub mod Valid
pub mod Manager
pub mod Resolve
pub mod Apply
use packer_plugin_vsphere.Base.{
  Bool, true, false, Option, none, some, List, [], ◌∷◌, if◌then◌else◌, Text, text_eq,
}

-- A `map[string]string`; the order of the pairs is the one in which a loop ranges over it.
abbrev pub Context : Type 0
Context = List (Text × Text)

-- Go's `error`: nil, one of the structured errors, an error that wraps another behind a text (`%w`),
-- or any other error, by its message.
pub data Error : Type 0 where
  nil : Error
  tag_error : Text → Context → Error → Error
  permission_error : Text → Text → Text → Error → Error
  not_found_error : Text → Text → Text → Error → Error
  validation_error : Text → Text → Text → Text → Error
  category_not_associable_error : Text → List Text → Error
  wrapped : Text → Error → Error
  external : Text → Error

abbrev pub is_nil : Error → Bool
is_nil nil = true
is_nil _ = false

-- `context[key]`.
unfoldable pub context_at : Text → Context → Option Text
context_at key [] = none
context_at key ((k, v) ∷ c) = if text_eq k key then some v else context_at key c

pub record TagConfig : Type 0 where
  pub category : Text
  pub name : Text
  pub id : Text

pub record TagsConfig : Type 0 where
  pub tags : List Text
  pub tag : List TagConfig

pub record Tag : Type 0 where
  pub id : Text
  pub name : Text
  pub description : Text
  pub category_id : Text

pub record TagCategory : Type 0 where
  pub id : Text
  pub name : Text
  pub description : Text
  pub cardinality : Text
  pub associable_types : List Text
