-- ===== src/Tags/Errors.antt =====
-- builder/vsphere/common/tags_errors.go and tags_retry.go: the messages of the errors, and their
-- classification by what the messages contain.
use packer_plugin_vsphere.Base.{
  ℕ, ◌+◌, ◌/◌, ◌%◌, Bool, true, false, ◌&&◌, ◌||◌, not, Option, none, some, List, [], ◌∷◌, ◌++◌,
  ltb, ◌==◌, if◌then◌else◌, exists, Text, codes, text_eq, contains_text, to_lower,
}
use packer_plugin_vsphere.Tags.{
  Error, nil, tag_error, permission_error, not_found_error, validation_error,
  category_not_associable_error, wrapped, external, is_nil, Context, context_at,
}

hex_digit : ℕ → ℕ
hex_digit n = if ltb n 10 then 48 + n else 87 + n

-- What `%q` shows of a code point: the escapes of the ASCII ones.
quote_char : ℕ → Text
unfolding hex_digit
quote_char c =
    if c == 34
    then codes "\\\""
    else if c == 92
    then codes "\\\\"
    else if c == 7
    then codes "\\a"
    else if c == 8
    then codes "\\b"
    else if c == 12
    then codes "\\f"
    else if c == 10
    then codes "\\n"
    else if c == 13
    then codes "\\r"
    else if c == 9
    then codes "\\t"
    else if c == 11
    then codes "\\v"
    else if ltb c 32 || c == 127
    then codes "\\x" ++ hex_digit (c / 16) ∷ hex_digit (c % 16) ∷ []
    else c ∷ []

quote_chars : Text → Text
unfolding quote_char
quote_chars [] = []
quote_chars (c ∷ cs) = quote_char c ++ quote_chars cs

-- `%q`.
quote : Text → Text
unfolding quote_chars
quote s = 34 ∷ (quote_chars s ++ 34 ∷ [])

-- `strings.Join`.
join : Text → List Text → Text
join sep [] = []
join sep (t ∷ []) = t
join sep (t ∷ u ∷ us) = t ++ (sep ++ join sep (u ∷ us))

-- A part of a message that is left out where its text is empty.
optional : Text → Text → Text
optional [] shown = []
optional (c ∷ cs) shown = shown

optional_part : Text → Text → List Text
optional_part [] shown = []
optional_part (c ∷ cs) shown = shown ∷ []

context_parts : Context → List Text
unfolding quote
context_parts [] = []
context_parts ((k, v) ∷ c) = (k ++ (codes "=" ++ quote v)) ∷ context_parts c

context_part : Context → List Text
unfolding context_parts join
context_part [] = []
context_part (p ∷ c) = (codes "(" ++ (join (codes ", ") (context_parts (p ∷ c)) ++ codes ")")) ∷ []

-- The message of an underlying error in parentheses, if there is one.
underlying : Error → Text → Text
underlying nil t = []
underlying _ t = codes " (underlying error: " ++ (t ++ codes ")")

error_part : Error → Text → List Text
error_part nil t = []
error_part _ t = t ∷ []

types_text : List Text → Text
unfolding join
types_text [] = codes ". The category has no associable types configured"
types_text (t ∷ ts) =
    codes ". The category can only be associated with: " ++ join (codes ", ") (t ∷ ts)

-- `err.Error()`; nil has none.
unfoldable pub error_text : Error → Text
unfolding quote join optional optional_part context_part underlying error_part types_text
error_text nil = []
error_text (tag_error operation c e) =
    let parts = optional_part operation (codes "failed to " ++ operation) in
    join (codes ": ") (parts ++ (context_part c ++ error_part e (error_text e)))
error_text (permission_error operation privilege resource e) =
    codes "permission denied: failed to "
    ++ (operation
        ++ (optional resource (codes " on resource " ++ quote resource)
            ++ (optional privilege (codes ". Required privilege: " ++ privilege)
                ++ (codes
                      ". Please ensure the user has the necessary vSphere privileges for tag operations."
                    ++ underlying e (error_text e)))))
error_text (not_found_error kind identifier suggestion e) =
    kind
    ++ (codes " not found"
        ++ (optional identifier (codes ": " ++ quote identifier)
            ++ (optional suggestion (codes ". " ++ suggestion) ++ underlying e (error_text e))))
error_text (validation_error field value reason suggestion) =
    codes "validation error"
    ++ (optional field (codes " for field " ++ quote field)
        ++ (optional value (codes " with value " ++ quote value)
            ++ (optional reason (codes ": " ++ reason)
                ++ optional suggestion (codes ". " ++ suggestion))))
error_text (category_not_associable_error name types) =
    codes "category "
    ++ (quote name
        ++ (codes " is not associable with VirtualMachine"
            ++ (types_text types
                ++ codes
                    ". Please create a new category in vSphere that is associable with VirtualMachine, or modify the existing category's associable types.")))
error_text (wrapped t e) = t ++ (codes ": " ++ error_text e)
error_text (external t) = t

-- Whether the message, in lower case, contains one of the patterns.
mentions : List Text → Error → Bool
mentions patterns e = let t = to_lower (error_text e) in exists (contains_text t) patterns

abbrev permission_patterns : List Text
permission_patterns =
    codes "permission denied"
    ∷ codes "unauthorized"
    ∷ codes "forbidden"
    ∷ codes "access denied"
    ∷ codes "insufficient privileges"
    ∷ codes "not authorized"
    ∷ []

unfoldable pub is_permission_error : Error → Bool
unfolding mentions
is_permission_error e = not (is_nil e) && mentions permission_patterns e

abbrev not_found_patterns : List Text
not_found_patterns =
    codes "not found"
    ∷ codes "does not exist"
    ∷ codes "doesn't exist"
    ∷ codes "no such"
    ∷ codes "cannot find"
    ∷ []

unfoldable pub is_not_found_error : Error → Bool
unfolding mentions
is_not_found_error e = not (is_nil e) && mentions not_found_patterns e

abbrev non_retryable_patterns : List Text
non_retryable_patterns =
    codes "permission denied"
    ∷ codes "unauthorized"
    ∷ codes "forbidden"
    ∷ codes "invalid"
    ∷ codes "not found"
    ∷ codes "does not exist"
    ∷ codes "already exists"
    ∷ codes "not associable"
    ∷ []

abbrev retryable_patterns : List Text
retryable_patterns =
    codes "timeout"
    ∷ codes "connection"
    ∷ codes "network"
    ∷ codes "temporary"
    ∷ codes "unavailable"
    ∷ codes "rate limit"
    ∷ codes "too many requests"
    ∷ codes "service unavailable"
    ∷ codes "gateway timeout"
    ∷ codes "bad gateway"
    ∷ []

unfoldable pub is_retryable_error : Error → Bool
unfolding mentions
is_retryable_error e =
    not (is_nil e) && not (mentions non_retryable_patterns e) && mentions retryable_patterns e

-- `errors.As` of one of the five structured types, along the chain of wrapped errors.
unfoldable pub is_structured : Error → Bool
is_structured (tag_error operation c e) = true
is_structured (permission_error operation privilege resource e) = true
is_structured (not_found_error kind identifier suggestion e) = true
is_structured (validation_error field value reason suggestion) = true
is_structured (category_not_associable_error name types) = true
is_structured (wrapped t e) = is_structured e
is_structured _ = false

abbrev or_default : Option Text → Text → Text
or_default none d = d
or_default (some t) d = t

required_privilege : Text → Text
required_privilege operation =
    if contains_text operation (codes "create tag")
    then codes "com.vmware.cis.tagging.Tag.Create"
    else if contains_text operation (codes "attach tag")
    then codes "com.vmware.cis.tagging.TagAssociation.Attach"
    else if contains_text operation (codes "read")
        || contains_text operation (codes "list")
        || contains_text operation (codes "get")
    then codes "com.vmware.cis.tagging.Category.Read or com.vmware.cis.tagging.Tag.Read"
    else []

default_suggestion : Text → Text → Text
default_suggestion (c ∷ cs) kind = c ∷ cs
default_suggestion [] kind =
    if text_eq kind (codes "category")
    then codes
        "Please create the category in vSphere first and ensure it is associable with VirtualMachine"
    else if text_eq kind (codes "tag")
    then codes
        "Please verify the tag ID is correct or use category/name format to create the tag automatically"
    else []

unfoldable pub wrap_permission : Text → Error → Context → Error
unfolding required_privilege
wrap_permission operation e c =
    permission_error operation (required_privilege operation)
      (or_default (context_at (codes "resource") c) []) e

unfoldable pub wrap_not_found : Error → Context → Error
unfolding default_suggestion
wrap_not_found e c =
    let kind = or_default (context_at (codes "resource_type") c) (codes "resource") in
    not_found_error kind (or_default (context_at (codes "identifier") c) [])
      (default_suggestion (or_default (context_at (codes "suggestion") c) []) kind) e

-- A nil context has no keys.
unfoldable pub wrap_tag_operation_error : Text → Error → Context → Error
wrap_tag_operation_error operation e c =
    if is_nil e
    then nil
    else if is_structured e
    then e
    else if is_permission_error e
    then wrap_permission operation e c
    else if is_not_found_error e
    then wrap_not_found e c
    else tag_error operation c e
