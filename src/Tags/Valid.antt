-- ===== src/Tags/Valid.antt =====
-- builder/vsphere/common/tags_manager.go: what a configuration of tags that is accepted must be.
use packer_plugin_vsphere.Base.{
  ℕ, zero, suc, ◌≡◌, refl, ap, subst, inl, inr, true, false, some, List, [], ◌∷◌, ◌++◌, arith,
  if◌then◌else◌, Bool-cases, get_elem?, is_empty, exists, All, NoRepeat, ok, fail_if, >>=-eq-ok,
  fail_if-eq-ok, Text, text_eq, text_eq_iff,
}
use packer_plugin_vsphere.Tags.{TagsConfig, TagConfig}
use packer_plugin_vsphere.Tags.Validate.{
  validate_config, has_category_or_name, check_pair, validate_block, validate_blocks, Seen,
  is_valid_tag_urn, check_id, validate_tag_id, validate_tag_ids, pair_key,
}

-- Each text is new: it differs from the seen ones and from those before it.
abbrev AllNew : List Text → List Text → Type 0
AllNew seen [] = Unit
AllNew seen (x ∷ xs) = (exists (text_eq x) seen ≡ false) × AllNew (x ∷ seen) xs

-- What a tag block must be: an ID that is a valid URN and nothing else, or a category and a name.
pub data IsBlock (t : TagConfig) : Type 0 where
  by_id :
      is_valid_tag_urn t.id ≡ true → is_empty t.category ≡ true → is_empty t.name ≡ true → IsBlock t
  by_name : is_empty t.id ≡ true → is_empty t.category ≡ false → is_empty t.name ≡ false → IsBlock t

-- The IDs of the blocks, and the keys of the pairs of the others.
abbrev pub block_ids : List TagConfig → List Text
block_ids [] = []
block_ids (t ∷ ts) = let rest = block_ids ts in if is_empty t.id then rest else t.id ∷ rest

abbrev pub block_pairs : List TagConfig → List Text
block_pairs [] = []
block_pairs (t ∷ ts) =
    let rest = block_pairs ts in if is_empty t.id then pair_key t ∷ rest else rest

-- The seen texts after a list of new ones.
abbrev after : List Text → List Text → List Text
after [] seen = seen
after (x ∷ xs) seen = after xs (x ∷ seen)

check_id-valid :
    (field list id : Text) (seen : List Text) {seen' : List Text}
    → check_id field list id seen ≡ ok seen'
    → (is_valid_tag_urn id ≡ true) × (exists (text_eq id) seen ≡ false) × (seen' ≡ id ∷ seen)
unfolding check_id
check_id-valid field list id seen h = ground arith

validate_tag_id-valid :
    (i : ℕ) (id : Text) (seen : List Text) {seen' : List Text}
    → validate_tag_id i id seen ≡ ok seen'
    → (is_valid_tag_urn id ≡ true) × (exists (text_eq id) seen ≡ false) × (seen' ≡ id ∷ seen)
unfolding validate_tag_id
validate_tag_id-valid i id seen h =
    let (u, e, r) = >>=-eq-ok (fail_if (is_empty id) _) _ h in check_id-valid _ _ id seen r

validate_tag_ids-valid :
    (i : ℕ) (ids seen : List Text) {seen' : List Text}
    → validate_tag_ids i ids seen ≡ ok seen'
    → All (λ t. is_valid_tag_urn t ≡ true) ids × AllNew seen ids × (seen' ≡ after ids seen)
unfolding validate_tag_ids
validate_tag_ids-valid i [] seen h = (tt, tt, ground arith)
validate_tag_ids-valid i (id ∷ ids) seen h =
    let (s, e, r) = >>=-eq-ok (validate_tag_id i id seen) _ h in
    let (v, n, q) = validate_tag_id-valid i id seen e in
    let (vs, ns, qs) = validate_tag_ids-valid (suc i) ids (id ∷ seen) (rw q at r) in
    ((v, vs), (n, ns), qs)

-- What a block adds to the seen keys.
abbrev Adds : TagConfig → Seen → Seen → Type 0
Adds t (ids, pairs) seen' =
    if is_empty t.id
    then (exists (text_eq (pair_key t)) pairs ≡ false) × (seen' ≡ (ids, pair_key t ∷ pairs))
    else (exists (text_eq t.id) ids ≡ false) × (seen' ≡ (t.id ∷ ids, pairs))

check_pair-valid :
    (i : ℕ) (t : TagConfig) (ids pairs : List Text) {seen' : Seen}
    → check_pair i t (ids, pairs) ≡ ok seen'
    → (is_empty t.category ≡ false)
      × (is_empty t.name ≡ false)
      × (exists (text_eq (pair_key t)) pairs ≡ false)
      × (seen' ≡ (ids, pair_key t ∷ pairs))
unfolding check_pair
check_pair-valid i t ids pairs h =
    let (u, e, r) = >>=-eq-ok (fail_if (is_empty t.category) _) _ h in
    let (v, f, q) = >>=-eq-ok (fail_if (is_empty t.name) _) _ r in
    let (w, g, p) = >>=-eq-ok (fail_if (exists (text_eq (pair_key t)) pairs) _) _ q in
    (fail_if-eq-ok _ _ e, fail_if-eq-ok _ _ f, fail_if-eq-ok _ _ g, ground arith)

no_category_or_name :
    (t : TagConfig)
    → has_category_or_name t ≡ false
    → (is_empty t.category ≡ true) × (is_empty t.name ≡ true)
unfolding has_category_or_name
no_category_or_name t h = ground arith

validate_block-valid :
    (i : ℕ) (t : TagConfig) (ids pairs : List Text) {seen' : Seen}
    → validate_block i t (ids, pairs) ≡ ok seen'
    → IsBlock t × Adds t (ids, pairs) seen'
unfolding validate_block
validate_block-valid i t ids pairs {seen'} h = elim (Bool-cases (is_empty t.id)) [
  | inl e ↦ elim (Bool-cases (has_category_or_name t)) [
    | inl c ↦
        let (p, q, r, s) = check_pair-valid i t ids pairs {seen' = seen'} (rw (e, c) at h) in
        (by_name e p q, rw e (r, s))
    | inr c ↦ absurd (cc (rw (e, c) at h))
  ]
  | inr e ↦ elim (Bool-cases (has_category_or_name t)) [
    | inl c ↦ absurd (cc (rw (e, c) at h))
    | inr c ↦
        let (ids', f, r) = >>=-eq-ok (check_id _ _ t.id ids) _ (rw (e, c) at h) in
        let (v, n, q) = check_id-valid _ _ t.id ids f in
        let (p, m) = no_category_or_name t c in (by_id v p m, rw e (n, ground arith))
  ]
]

validate_blocks-valid :
    (i : ℕ) (ts : List TagConfig) (ids pairs : List Text) {seen' : Seen}
    → validate_blocks i ts (ids, pairs) ≡ ok seen'
    → All IsBlock ts × AllNew ids (block_ids ts) × AllNew pairs (block_pairs ts)
unfolding validate_blocks
validate_blocks-valid i [] ids pairs h = (tt, tt, tt)
validate_blocks-valid i (t ∷ ts) ids pairs h =
    let (s, e, r) = >>=-eq-ok (validate_block i t (ids, pairs)) _ h in
    let (b, a) = validate_block-valid i t ids pairs e in
    elim (Bool-cases (is_empty t.id)) [
      | inl c ↦
          let (n, q) = rw c at a in
          let (bs, xs, ps) =
            validate_blocks-valid (suc i) ts ids (pair_key t ∷ pairs) (rw q at r) in
          ((b, bs), rw c xs, rw c (n, ps))
      | inr c ↦
          let (n, q) = rw c at a in
          let (bs, xs, ps) = validate_blocks-valid (suc i) ts (t.id ∷ ids) pairs (rw q at r) in
          ((b, bs), rw c (n, xs), rw c ps)
    ]

AllNew-append :
    (seen xs ys : List Text) → AllNew seen xs → AllNew (after xs seen) ys → AllNew seen (xs ++ ys)
AllNew-append seen [] ys h k = k
AllNew-append seen (x ∷ xs) ys h k = (h.0, AllNew-append (x ∷ seen) xs ys h.1 k)

seen_elsewhere :
    (seen xs : List Text) (j : ℕ) (y : Text)
    → AllNew seen xs
    → exists (text_eq y) seen ≡ true
    → get_elem? xs j ≡ some y
    → ⊥
seen_elsewhere seen [] j y h m g = cc
seen_elsewhere seen (x ∷ xs) zero y h m g =
    let e : x ≡ y = ground arith in cc (h.0, ap (λ t. exists (text_eq t) seen) e)
seen_elsewhere seen (x ∷ xs) (suc j) y h m g = seen_elsewhere (x ∷ seen) xs j y h.1 (ground arith) g

AllNew-NoRepeat : (seen xs : List Text) → AllNew seen xs → NoRepeat xs
AllNew-NoRepeat seen [] h i j x p q = cc
AllNew-NoRepeat seen (y ∷ xs) h zero zero x p q = refl
AllNew-NoRepeat seen (y ∷ xs) h zero (suc j) x p q =
    absurd (seen_elsewhere (y ∷ seen) xs j x h.1 (ground (arith, text_eq_iff x y)) q)
AllNew-NoRepeat seen (y ∷ xs) h (suc i) zero x p q =
    absurd (seen_elsewhere (y ∷ seen) xs i x h.1 (ground (arith, text_eq_iff x y)) p)
AllNew-NoRepeat seen (y ∷ xs) h (suc i) (suc j) x p q =
    ap suc (AllNew-NoRepeat (y ∷ seen) xs h.1 i j x p q)

-- What holds of a configuration that is accepted.
pub record IsValidConfig (c : TagsConfig) : Type 0 where
  pub ids_are_urns : All (λ t. is_valid_tag_urn t ≡ true) c.tags
  pub blocks_are_blocks : All IsBlock c.tag
  pub ids_differ : NoRepeat (c.tags ++ block_ids c.tag)
  pub pairs_differ : NoRepeat (block_pairs c.tag)

-- In a configuration that the validation accepts, each listed tag ID is a valid URN; each block has
-- an ID that is a valid URN, or a category and a name, and not both; no ID is given twice, be it in
-- the list or in a block; and no pair of category and name is given twice.
pub validate_config-IsValidConfig :
    (c : TagsConfig) → validate_config (some c) ≡ ok tt → IsValidConfig c
unfolding validate_config
validate_config-IsValidConfig c h =
    let (ids, e, r) = >>=-eq-ok (validate_tag_ids 0 c.tags []) _ h in
    let (seen, f, q) = >>=-eq-ok (validate_blocks 0 c.tag (ids, [])) _ r in
    let (us, ns, k) = validate_tag_ids-valid 0 c.tags [] e in
    let (bs, ms, ps) = validate_blocks-valid 0 c.tag ids [] f in
    record {
      ids_are_urns = us;
      blocks_are_blocks = bs;
      ids_differ = AllNew-NoRepeat [] _ (
          AllNew-append [] c.tags (block_ids c.tag) ns
            (subst (λ z. AllNew z (block_ids c.tag)) k ms));
      pairs_differ = AllNew-NoRepeat [] (block_pairs c.tag) ps;
    }
