-- ===== src/Steps/Import/Imported.antt =====
-- builder/vsphere/common/step_import_to_content_library.go: what an import of a prepared destination
-- does to the library.
use packer_plugin_vsphere.Base.{
  ◌≡◌, refl, sym, ap, ◌∙◌, ◌≢◌, ◌⊎◌, inl, inr, Bool, true, false, ◌&&◌, Option, none, some, List,
  [], ◌∷◌, arith, if◌then◌else◌, Bool-cases, is_empty, All, Result, ok, err, ◌>>=◌, >>=-eq-ok, Text,
  text_eq, text_eq_iff,
}
use packer_plugin_vsphere.Config.{error_if, append_nil_left, error_if-nil}
use packer_plugin_vsphere.Config.Location.{LocationConfig}
use packer_plugin_vsphere.Steps.Import.{
  LibraryEntry, entry_named, find_item, Destination, prepare_destination, prepared_as,
  overwrite_errors, library_required, overwrite_with_ovf, same_name, rendered, render_errors,
  template_name, ImportCall, clear_boot_order, import_ovf, import_template, delete_item, Library,
  ovf_item, template_item, ImportError, item_exists, only, after_delete, replace,
  import_vm_template, import_item, ImportState, after_import, after_boot, run_import,
}

-- An entry of a list.
abbrev pub Among : LibraryEntry → List LibraryEntry → Type 0
Among i [] = ⊥
Among i (j ∷ is) = j ≡ i ⊎ Among i is

-- The library cannot be listed, or none of its items has the name.
abbrev pub HasNoItem : Library → Destination → Type 0
HasNoItem v d =
    ((e : Text) × (v.list_items d.library ≡ err e))
    ⊎ ((items : List LibraryEntry) × (v.list_items d.library ≡ ok items)
        × All (λ i. i.name ≢ d.name) items)

-- An item of the library that has the name.
abbrev pub HasItem : Library → Destination → LibraryEntry → Type 0
HasItem v d i =
    (items : List LibraryEntry) × (v.list_items d.library ≡ ok items)
    × (i.name ≡ d.name)
    × Among i items

-- The calls of an import that goes on.
abbrev pub IsImport : Library → Destination → List ImportCall → Type 0
IsImport v d calls =
    (d.ovf ≡ true) × (calls ≡ import_ovf (ovf_item d) ∷ [])
    ⊎ ((d.ovf ≡ false) × HasNoItem v d × (calls ≡ import_template (template_item d) ∷ [])
        ⊎ (d.ovf ≡ false)
          × (d.overwrite ≡ true)
          × ((i : LibraryEntry) × HasItem v d i
              × (calls ≡ delete_item i.id ∷ import_template (template_item d) ∷ [])))

entry_named-err :
    (name : Text) (is : List LibraryEntry) (e : Text)
    → entry_named name is ≡ err e
    → All (λ i. i.name ≢ name) is
entry_named-err name [] e h = tt
entry_named-err name (i ∷ is) e h = elim (Bool-cases (text_eq i.name name)) [
  | inl t ↦ absurd (ground arith)
  | inr t ↦
      (λ q. absurd (ground (arith, text_eq_iff i.name name)), entry_named-err name is e (rw t at h))
]

entry_named-ok :
    (name : Text) (is : List LibraryEntry) (i : LibraryEntry)
    → entry_named name is ≡ ok i
    → (i.name ≡ name) × Among i is
entry_named-ok name [] i h = absurd (ground arith)
entry_named-ok name (j ∷ is) i h = elim (Bool-cases (text_eq j.name name)) [
  | inl t ↦
      let p : j ≡ i = ground (arith, rw t at h) in
      (ap (λ z. z.name) (sym p) ∙ (text_eq_iff j.name name).0 t, inl p)
  | inr t ↦ let r = entry_named-ok name is i (rw t at h) in (r.0, inr r.1)
]

module _ (v : Library) (d : Destination) where
  only-calls : (c : ImportCall) → (only v d c).0 ≡ c ∷ []
  unfolding only
  only-calls c = refl

  listed-HasNoItem :
      (l : Result Text (List LibraryEntry)) (e : Text)
      → v.list_items d.library ≡ l
      → (l >>= entry_named d.name) ≡ err e
      → HasNoItem v d
  listed-HasNoItem (err f) e q h = inl (f, q)
  listed-HasNoItem (ok items) e q h = inr (items, q, entry_named-err d.name items e h)

  find_item-HasItem : (i : LibraryEntry) → find_item v d.library d.name ≡ ok i → HasItem v d i
  unfolding find_item
  find_item-HasItem i h =
      let (items, q, r) = >>=-eq-ok (v.list_items d.library) _ h in
      let found = entry_named-ok d.name items i r in (items, q, found.0, found.1)

  after_delete-IsImport :
      (i : LibraryEntry) (b : Bool) (o : Option Text)
      → HasItem v d i
      → d.ovf ≡ false
      → d.overwrite ≡ b
      → let r =
          if b
          then after_delete v d (delete_item i.id) o (only v d (import_template (template_item d)))
          else ([], some (item_exists d.name)) in
        r.1 ≡ none → IsImport v d r.0
  unfolding only
  after_delete-IsImport i true none q f w e = inr (inr (f, w, (i, q, refl)))
  after_delete-IsImport i true (some x) q f w e = absurd (ground arith)
  after_delete-IsImport i false o q f w e = absurd (ground arith)

  replace-IsImport :
      (o : Result Text LibraryEntry)
      → find_item v d.library d.name ≡ o
      → d.ovf ≡ false
      → (replace v d o).1 ≡ none
      → IsImport v d (replace v d o).0
  unfolding find_item
  replace-IsImport (err x) q f e = inr (
      inl (
        f,
        listed-HasNoItem (v.list_items d.library) x refl q,
        only-calls (import_template (template_item d)),
      ))
  replace-IsImport (ok i) q f e =
      after_delete-IsImport i d.overwrite (v.call (delete_item i.id)) (find_item-HasItem i q) f refl
        e

  either-IsImport :
      (b : Bool)
      → d.ovf ≡ b
      → let r = if b then only v d (import_ovf (ovf_item d)) else import_vm_template v d in
        r.1 ≡ none → IsImport v d r.0
  unfolding import_vm_template
  either-IsImport true f e = inl (f, only-calls (import_ovf (ovf_item d)))
  either-IsImport false f e = replace-IsImport (find_item v d.library d.name) refl f e

  -- Calls after the boot order is cleared, of an import that is right.
  abbrev pub IsImported : List ImportCall × (Bool × ImportState) → Type 0
  IsImported r = (calls : List ImportCall) × (r.0 ≡ clear_boot_order ∷ calls) × IsImport v d calls

  after_import-IsImported :
      (s : ImportState) (r : List ImportCall × Option ImportError)
      → (r.1 ≡ none → IsImport v d r.0)
      → (after_import v d s r).1.0 ≡ true
      → IsImported (after_import v d s r)
  after_import-IsImported s (calls, none) right e = (calls, refl, right refl)
  after_import-IsImported s (calls, some x) right e = absurd (ground arith)

  after_boot-IsImported :
      (s : ImportState) (o : Option Text)
      → (after_boot v d s o).1.0 ≡ true
      → IsImported (after_boot v d s o)
  unfolding import_item
  after_boot-IsImported s none e =
      after_import-IsImported s (import_item v d) (either-IsImport d.ovf refl) e
  after_boot-IsImported s (some x) e = absurd (ground arith)

  skipped-IsImported :
      (s : ImportState) (b : Bool)
      → b ≡ false
      → let r = if b then ([], (true, s)) else after_boot v d s (v.call clear_boot_order) in
        r.1.0 ≡ true → IsImported r
  skipped-IsImported s true q e = absurd (ground arith)
  skipped-IsImported s false q e = after_boot-IsImported s (v.call clear_boot_order) e

  run_import-IsImported :
      (s : ImportState)
      → d.skip_import ≡ false
      → (run_import v d s).1.0 ≡ true
      → IsImported (run_import v d s)
  unfolding run_import
  run_import-IsImported s q e = skipped-IsImported s d.skip_import q e

module _ (v : Library) (render : Text → Result Text Text) (lc : LocationConfig)
    (d : Destination) where
  -- A destination that is accepted, as the preparation leaves it, for a machine of that name.
  abbrev pub IsDestination : Destination → Type 0
  IsDestination p =
      (d.library ≢ [])
      × (p.ovf ≡ true → d.overwrite ≡ false)
      × (p.ovf ≡ false → p.name ≢ lc.vm_name)

  prepared_as-ovf : (b : Bool) → d.ovf ≡ b → (prepared_as render lc d b).0.ovf ≡ b
  prepared_as-ovf true e = e
  prepared_as-ovf false e = e

  prepared_as-name :
      (b : Bool)
      → (prepared_as render lc d b).1 ≡ []
      → b ≡ false
      → (prepared_as render lc d b).0.name ≢ lc.vm_name
  prepared_as-name true q e = absurd (ground arith)
  prepared_as-name false q e =
      let name = rendered (template_name render lc d) in
      let (r, n) = append_nil_left (render_errors (template_name render lc d)) _ q in
      λ same.
        let f : text_eq name lc.vm_name ≡ false = error_if-nil _ same_name n in
        let t : text_eq name lc.vm_name ≡ true = (text_eq_iff name lc.vm_name).1 same in
        absurd (ground arith)

  prepare_destination-IsDestination :
      (prepare_destination render lc d).1 ≡ [] → IsDestination (prepare_destination render lc d).0
  unfolding prepare_destination overwrite_errors
  prepare_destination-IsDestination h =
      let (l, h₁) = append_nil_left (error_if (is_empty d.library) library_required) _ h in
      let (o, p) = append_nil_left (overwrite_errors d) _ h₁ in
      let (w, n) = append_nil_left (error_if (d.overwrite && d.ovf) overwrite_with_ovf) _ o in
      let given : is_empty d.library ≡ false = error_if-nil _ library_required l in
      let never : (d.overwrite && d.ovf) ≡ false = error_if-nil _ overwrite_with_ovf w in
      let kept = prepared_as-ovf d.ovf refl in
      (
        λ e. absurd (ground arith),
        λ e. let t : d.ovf ≡ true = sym kept ∙ e in ground arith,
        λ e. prepared_as-name d.ovf p (sym kept ∙ e),
      )

  -- If Prepare reports no error for a destination and the step goes on with it, where the import is not
  -- skipped, then the destination names a library, an OVF template is not to overwrite an item, and a
  -- virtual machine template is not named as the machine; and after the boot order is cleared, the
  -- item is imported once: as an OVF template; or as a virtual machine template, where no item of the
  -- library has its name or the items cannot be listed; or after an item with its name is deleted,
  -- which the destination allows.
  pub run_import-prepare_destination :
      (s : ImportState)
      → (prepare_destination render lc d).1 ≡ []
      → (prepare_destination render lc d).0.skip_import ≡ false
      → (run_import v (prepare_destination render lc d).0 s).1.0 ≡ true
      → IsDestination (prepare_destination render lc d).0
        × IsImported v
            (prepare_destination render lc d).0
            (run_import v (prepare_destination render lc d).0 s)
  run_import-prepare_destination s h q e = (
    prepare_destination-IsDestination h,
    run_import-IsImported v (prepare_destination render lc d).0 s q e,
  )
