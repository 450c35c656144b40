-- ===== src/DataSource/Matching.antt =====
-- datasource/common/tag_matcher.go, list_tags.go and tag.go: which objects match the required tags.
use packer_plugin_vsphere.Base.{
  ℕ, suc, ◌+◌, ◌≤◌, ◌≡◌, refl, sym, ap, ◌∙◌, ◌≢◌, ◌↔◌, inl, inr, Bool, true, false, ◌&&◌, List, [],
  ◌∷◌, arith, ◌==◌, Bool-cases, length, is_empty, exists, for_all, All, ok, map_err, >>=-eq-ok,
  Text, text_eq,
}
use packer_plugin_vsphere.DataSource.{
  category_failed, tags_failed, login_failed, SourceTag, validate_tags, AttachedTag, Inventory,
  TagMatcher, new_tag_matcher, match_tag, count_matched, has_all, name_categories,
  list_attached_tags,
}

-- A tag of the same name and category.
abbrev pub same_tag : SourceTag → SourceTag → Bool
same_tag t u = text_eq t.name u.name && text_eq t.category u.category

module _ (inventory : Inventory) where
  match_tag-same :
      (t : SourceTag) (attached : List AttachedTag) {listed : List SourceTag} {b : Bool}
      → name_categories inventory attached ≡ ok listed
      → match_tag inventory t attached ≡ ok b
      → b ≡ exists (same_tag t) listed
  unfolding name_categories match_tag
  match_tag-same t [] {listed} h k = let q : [] ≡ listed = ground arith in rw (← q) (ground arith)
  match_tag-same t (a ∷ attached) {listed} {b} h k =
      let (category, e, r) =
        >>=-eq-ok (map_err category_failed (inventory.get_category_name a.category_id)) _ h in
      let (rest, f, q) = >>=-eq-ok (name_categories inventory attached) _ r in
      let tag : SourceTag = record { name = a.name; category = category } in
      let l : tag ∷ rest ≡ listed = ground arith in
      rw (← l) (elim (Bool-cases (text_eq t.name a.name)) [
        | inr p ↦ rw p (match_tag-same t attached f (rw p at k))
        | inl p ↦ elim (Bool-cases (text_eq t.category category)) [
          | inl c ↦ let v : ok true ≡ ok b = rw (p, e, c) at k in rw (p, c) (ground arith)
          | inr c ↦ rw (p, c) (match_tag-same t attached f (rw (p, e, c) at k))
        ]
      ])

  count_matched-all :
      (n : ℕ) (attached : List AttachedTag) (ts listed : List SourceTag) {c : ℕ}
      → name_categories inventory attached ≡ ok listed
      → count_matched inventory n attached ts ≡ ok c
      → (n ≤ c)
        × (c ≤ n + length ts)
        × ((c == n + length ts) ≡ for_all (λ t. exists (same_tag t) listed) ts)
  unfolding count_matched
  count_matched-all n attached [] listed {c} h k = let q : n ≡ c = ground arith in ground arith
  count_matched-all n attached (t ∷ ts) listed {c} h k =
      let (b, e, r) = >>=-eq-ok (match_tag inventory t attached) _ k in
      let m = match_tag-same t attached h e in
      elim (Bool-cases b) [
        | inl p ↦
            let (low, high, all) = count_matched-all (suc n) attached ts listed h (rw p at r) in
            let x : exists (same_tag t) listed ≡ true = sym m ∙ p in
            rw x (omega arith, omega arith, ap (λ z. c == z) (omega arith) ∙ all)
        | inr p ↦
            let q : ok n ≡ ok c = rw p at r in
            let z : n ≡ c = ground arith in
            let x : exists (same_tag t) listed ≡ false = sym m ∙ p in
            rw x (omega arith, omega arith, ground arith)
      ]

  new_tag_matcher_parts :
      (required : List SourceTag) {m : TagMatcher}
      → new_tag_matcher inventory required ≡ ok m
      → (m.required ≡ required) × (is_empty required ≡ false → m.logged_in ≡ true)
  unfolding new_tag_matcher
  new_tag_matcher_parts [] h = (ground arith, λ e. cc)
  new_tag_matcher_parts (t ∷ ts) h =
      let (u, e, q) = >>=-eq-ok (map_err login_failed inventory.login) _ h in
      (ground arith, λ e. ground arith)

  no_tags :
      (required : List SourceTag) (b : Bool) (listed : List SourceTag)
      → is_empty required ≡ true
      → true ≡ b
      → b ≡ for_all (λ t. exists (same_tag t) listed) required
  no_tags [] b listed e h = ground arith
  no_tags (t ∷ ts) b listed e h = cc

  -- Where both calls succeed for an object, HasAll of a matcher that NewTagMatcher made says that it
  -- has all required tags exactly if each of them is among the tags that ListAttachedTags returns.
  pub has_all-list_attached_tags :
      (required : List SourceTag) (ref : Text) {m : TagMatcher} {listed : List SourceTag} {b : Bool}
      → new_tag_matcher inventory required ≡ ok m
      → list_attached_tags inventory ref ≡ ok listed
      → has_all inventory m ref ≡ ok b
      → b ≡ for_all (λ t. exists (same_tag t) listed) required
  unfolding new_tag_matcher list_attached_tags has_all
  has_all-list_attached_tags required ref {m} {listed} {b} made l h =
      let (r, login) = new_tag_matcher_parts required made in
      elim (Bool-cases (is_empty required)) [
        | inl e ↦
            let w : ok true ≡ ok b = rw (r, e) at h in no_tags required b listed e (ground arith)
        | inr e ↦
            let (attached, f, q) =
              >>=-eq-ok (map_err tags_failed (inventory.get_attached_tags ref)) _
                (rw (r, e, login e) at h) in
            let (n, g, v) = >>=-eq-ok (count_matched inventory 0 attached required) _ q in
            let (u, e₁, l₁) = >>=-eq-ok (map_err login_failed inventory.login) _ l in
            let names : name_categories inventory attached ≡ ok listed = rw f at l₁ in
            let w : (n == length required) ≡ b = ground arith in
            let (low, high, all) = count_matched-all 0 attached required listed names g in
            sym w ∙ ap (λ z. n == z) (omega arith) ∙ all
      ]

-- The tags are accepted exactly if each has a name and a category.
pub validate_tags_iff :
    (ts : List SourceTag)
    → (validate_tags ts ≡ []) ↔ All (λ t. (t.name ≢ []) × (t.category ≢ [])) ts
unfolding validate_tags
validate_tags_iff [] = (λ h. tt, λ h. refl)
validate_tags_iff (t ∷ ts) =
    (λ h. ground (arith, validate_tags_iff ts), λ h. ground (arith, validate_tags_iff ts))
