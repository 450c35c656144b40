-- ===== src/Tags/Wrap.antt =====
-- builder/vsphere/common/tags_errors.go: what `wrapTagOperationError` keeps of an error.
use packer_plugin_vsphere.Base.{
  ◌≡◌, refl, sym, ap, ◌∙◌, ◌↔◌, ◌⊎◌, inl, inr, true, false, Bool-cases, Text,
}
use packer_plugin_vsphere.Tags.{
  Error, nil, tag_error, permission_error, not_found_error, validation_error,
  category_not_associable_error, wrapped, external, is_nil, Context,
}
use packer_plugin_vsphere.Tags.Errors.{
  wrap_tag_operation_error, wrap_permission, wrap_not_found, is_structured, is_permission_error,
  is_not_found_error,
}

-- `errors.Is(chain, e)`: the error is the chain or one that it wraps.
abbrev pub Wraps : Error → Error → Type 0
Wraps (tag_error o c e) root = (tag_error o c e ≡ root) ⊎ Wraps e root
Wraps (permission_error o p r e) root = (permission_error o p r e ≡ root) ⊎ Wraps e root
Wraps (not_found_error k i s e) root = (not_found_error k i s e ≡ root) ⊎ Wraps e root
Wraps (wrapped t e) root = (wrapped t e ≡ root) ⊎ Wraps e root
Wraps nil root = nil ≡ root
Wraps (validation_error f v r s) root = validation_error f v r s ≡ root
Wraps (category_not_associable_error n t) root = category_not_associable_error n t ≡ root
Wraps (external t) root = external t ≡ root

Wraps-self : (e : Error) → Wraps e e
Wraps-self nil = refl
Wraps-self (tag_error o c e) = inl refl
Wraps-self (permission_error o p r e) = inl refl
Wraps-self (not_found_error k i s e) = inl refl
Wraps-self (validation_error f v r s) = refl
Wraps-self (category_not_associable_error n t) = refl
Wraps-self (wrapped t e) = inl refl
Wraps-self (external t) = refl

is_nil_only : (e : Error) → is_nil e ≡ true → e ≡ nil
is_nil_only nil h = refl
is_nil_only (tag_error o c e) h = cc
is_nil_only (permission_error o p r e) h = cc
is_nil_only (not_found_error k i s e) h = cc
is_nil_only (validation_error f v r s) h = cc
is_nil_only (category_not_associable_error n t) h = cc
is_nil_only (wrapped t e) h = cc
is_nil_only (external t) h = cc

-- What becomes of an error: nil stays nil, a structured one stays itself, and any other is wrapped
-- in a structured one.
data Outcome (e r : Error) : Type 0 where
  stays_nil : e ≡ nil → r ≡ nil → Outcome e r
  stays : is_nil e ≡ false → is_structured e ≡ true → r ≡ e → Outcome e r
  gains :
      is_nil e ≡ false
      → is_structured e ≡ false
      → is_nil r ≡ false
      → is_structured r ≡ true
      → Wraps r e
      → Outcome e r

wrap-Outcome : (o : Text) (e : Error) (c : Context) → Outcome e (wrap_tag_operation_error o e c)
unfolding wrap_tag_operation_error wrap_permission wrap_not_found is_structured
wrap-Outcome o e c = elim (Bool-cases (is_nil e)) [
  | inl n ↦ stays_nil (is_nil_only e n) (rw n)
  | inr n ↦ elim (Bool-cases (is_structured e)) [
    | inl t ↦ stays n t (rw (n, t))
    | inr t ↦ elim (Bool-cases (is_permission_error e)) [
      | inl p ↦ rw (n, t, p) (gains n t refl refl (inr (Wraps-self e)))
      | inr p ↦ elim (Bool-cases (is_not_found_error e)) [
        | inl q ↦ rw (n, t, p, q) (gains n t refl refl (inr (Wraps-self e)))
        | inr q ↦ rw (n, t, p, q) (gains n t refl refl (inr (Wraps-self e)))
      ]
    ]
  ]
]

wrap_structured :
    (o : Text) (e : Error) (c : Context)
    → is_structured e ≡ true
    → wrap_tag_operation_error o e c ≡ e
unfolding wrap_tag_operation_error
wrap_structured o e c h = elim (Bool-cases (is_nil e)) [
  | inl n ↦ rw n (sym (is_nil_only e n))
  | inr n ↦ rw (n, h)
]

wrap_nil : (o : Text) (c : Context) → wrap_tag_operation_error o nil c ≡ nil
unfolding wrap_tag_operation_error
wrap_nil o c = refl

Outcome-kept :
    (o o' : Text) (c c' : Context) (e r : Error)
    → Outcome e r
    → (wrap_tag_operation_error o' r c' ≡ r) × ((r ≡ nil) ⊎ (is_structured r ≡ true))
Outcome-kept o o' c c' e r (stays_nil n q) = (rw q (wrap_nil o' c'), inl q)
Outcome-kept o o' c c' e r (stays n t q) =
    let u : is_structured r ≡ true = rw q t in (wrap_structured o' r c' u, inr u)
Outcome-kept o o' c c' e r (gains n t m u w) = (wrap_structured o' r c' u, inr u)

-- What is wrapped once is not wrapped again: the result of any wrapping is left as it is by every
-- later one, whatever operation and context that names; and it is nil or structured.
pub wrap-wrap :
    (o o' : Text) (e : Error) (c c' : Context)
    → (wrap_tag_operation_error o' (wrap_tag_operation_error o e c) c'
        ≡ wrap_tag_operation_error o e c)
      × ((wrap_tag_operation_error o e c ≡ nil)
          ⊎ (is_structured (wrap_tag_operation_error o e c) ≡ true))
wrap-wrap o o' e c c' = Outcome-kept o o' c c' e _ (wrap-Outcome o e c)

Outcome-Wraps :
    (e r : Error)
    → Outcome e r
    → Wraps r e × ((r ≡ nil) ↔ (e ≡ nil)) × ((is_structured e ≡ false) ⊎ (r ≡ e))
Outcome-Wraps e r (stays_nil n q) = (rw (n, q) refl, (λ _. n, λ _. q), inr (q ∙ sym n))
Outcome-Wraps e r (stays n t q) = (rw q (Wraps-self e), (λ z. sym q ∙ z, λ z. q ∙ z), inr q)
Outcome-Wraps e r (gains n t m u w) =
    (w, (λ z. absurd (cc (ap is_nil z)), λ z. absurd (cc (ap is_nil z))), inl t)

-- No error is lost: the result wraps the error that was given, it is nil exactly for nil, and an
-- error that holds a structured one is the result itself.
pub wrap-Wraps :
    (o : Text) (e : Error) (c : Context)
    → Wraps (wrap_tag_operation_error o e c) e
      × ((wrap_tag_operation_error o e c ≡ nil) ↔ (e ≡ nil))
      × ((is_structured e ≡ false) ⊎ (wrap_tag_operation_error o e c ≡ e))
wrap-Wraps o e c = Outcome-Wraps e _ (wrap-Outcome o e c)
