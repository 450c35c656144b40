-- ===== src/Examples/Sources.antt =====
-- datasource/common: the theorems on three items, and on one object with two tags.
use packer_plugin_vsphere.Base.{
  ℕ, ◌/◌, ◌≡◌, refl, true, List, [], ◌∷◌, ℤ, pos, exists, for_all, Result, ok, err, Text, codes,
  text_eq,
}
use packer_plugin_vsphere.DataSource.{
  exactly_one, resolve_one, select_max, SourceTag, validate_tags, Inventory, new_tag_matcher,
  has_all, list_attached_tags,
}
use packer_plugin_vsphere.DataSource.Selection.{IsFirstMax, select_max-IsFirstMax}
use packer_plugin_vsphere.DataSource.Matching.{same_tag, has_all-list_attached_tags}

abbrev size : ℕ → Result Text ℤ
size n = ok (pos (n / 2))

-- The items 6 and 7 have the same score.
largest : select_max size (2 ∷ 6 ∷ 7 ∷ []) ≡ ok 6
unfolding select_max packer_plugin_vsphere.DataSource.best_of
    packer_plugin_vsphere.DataSource.better
largest = refl

select_max-IsFirstMax_example : IsFirstMax size (2 ∷ 6 ∷ 7 ∷ []) 6
select_max-IsFirstMax_example = select_max-IsFirstMax size (2 ∷ 6 ∷ 7 ∷ []) largest

abbrev one_text : List Text
one_text = codes "only" ∷ []

abbrev category_of : Text → Result Text Text
category_of [] = err (codes "not found")
category_of (c ∷ cs) = ok (c ∷ cs)

abbrev two_tags : Inventory
two_tags = record {
  login = ok tt;
  get_attached_tags = λ ref. ok (
      record { name = codes "test"; category_id = codes "stage" }
      ∷ record { name = codes "linux"; category_id = codes "os" }
      ∷ []);
  get_category_name = category_of;
}

abbrev wanted : List SourceTag
wanted = record { name = codes "linux"; category = codes "os" } ∷ []

abbrev listed_tags : List SourceTag
listed_tags =
    record { name = codes "test"; category = codes "stage" }
    ∷ record { name = codes "linux"; category = codes "os" }
    ∷ []

matcher_made : new_tag_matcher two_tags wanted ≡ ok (record { required = wanted; logged_in = true })
unfolding new_tag_matcher
matcher_made = refl

tags_listed : list_attached_tags two_tags (codes "vm") ≡ ok listed_tags
unfolding list_attached_tags packer_plugin_vsphere.DataSource.name_categories
tags_listed = refl

vm_matches :
    has_all two_tags (record { required = wanted; logged_in = true }) (codes "vm") ≡ ok true
unfolding has_all packer_plugin_vsphere.DataSource.count_matched
    packer_plugin_vsphere.DataSource.match_tag packer_plugin_vsphere.Base.text_eq
vm_matches = refl

has_all-list_attached_tags_example : true ≡ for_all (λ t. exists (same_tag t) listed_tags) wanted
has_all-list_attached_tags_example =
    has_all-list_attached_tags two_tags wanted (codes "vm") matcher_made tags_listed vm_matches
