-- ===== src/Steps/Import.antt =====
-- builder/vsphere/common/step_import_to_content_library.go: the destination of an import and the step.
-- The answers of vCenter are a parameter, and the calls that change something are a list.
pub mod Imported
use packer_plugin_vsphere.Base.{
  Bool, true, false, ◌&&◌, ◌||◌, not, Option, none, some, List, [], ◌∷◌, ◌++◌, if◌then◌else◌,
  is_empty, Result, ok, err, ◌>>=◌, ◌>>◌, Text, codes, text_eq,
}
use packer_plugin_vsphere.Config.{error_if}
use packer_plugin_vsphere.Config.Location.{LocationConfig}

pub record Destination : Type 0 where
  pub library : Text
  pub name : Text
  pub description : Text
  pub cluster : Text
  pub folder : Text
  pub host : Text
  pub resource_pool : Text
  pub datastore : Text
  pub destroy : Bool
  pub ovf : Bool
  pub skip_import : Bool
  pub ovf_flags : List Text
  pub overwrite : Bool

pub data DestinationError : Type 0 where
  library_required overwrite_with_ovf overwrite_without_name same_name : DestinationError
  name_unrendered : Text → DestinationError

abbrev pub or_given : Text → Text → Text
or_given s fallback = if is_empty s then fallback else s

abbrev pub rendered : Result Text Text → Text
rendered (ok s) = s
rendered (err e) = []

abbrev pub render_errors : Result Text Text → List DestinationError
render_errors (ok s) = []
render_errors (err e) = name_unrendered e ∷ []

-- The name that a template gets, with `interpolate.Render`.
unfoldable pub template_name :
    (Text → Result Text Text) → LocationConfig → Destination → Result Text Text
template_name render lc d =
    if is_empty d.name then render (lc.vm_name ++ codes "{{timestamp}}") else ok d.name

abbrev pub described : LocationConfig → Destination → Text
described lc d =
    or_given d.description (codes "Packer imported " ++ (lc.vm_name ++ codes " VM template"))

-- `ContentLibraryDestinationConfig.Prepare`, by whether the item is an OVF template.
abbrev pub prepared_as :
    (Text → Result Text Text)
    → LocationConfig
    → Destination
    → Bool
    → Destination × List DestinationError
prepared_as render lc d true =
    (record d { name = or_given d.name lc.vm_name; description = described lc d }, [])
prepared_as render lc d false =
    let name = template_name render lc d in
    (
      record d {
        name = rendered name;
        cluster = or_given d.cluster lc.cluster;
        host = or_given d.host lc.host;
        resource_pool = or_given d.resource_pool lc.resource_pool;
        description = described lc d;
      },
      render_errors name ++ error_if (text_eq (rendered name) lc.vm_name) same_name,
    )

unfoldable pub overwrite_errors : Destination → List DestinationError
overwrite_errors d =
    error_if (d.overwrite && d.ovf) overwrite_with_ovf
    ++ error_if (d.overwrite && is_empty d.name) overwrite_without_name

unfoldable pub prepare_destination :
    (Text → Result Text Text) → LocationConfig → Destination → Destination × List DestinationError
prepare_destination render lc d =
    let (d', errors) = prepared_as render lc d d.ovf in
    (d', error_if (is_empty d.library) library_required ++ (overwrite_errors d ++ errors))

pub record OvfItem : Type 0 where
  pub name : Text
  pub description : Text
  pub flags : List Text
  pub library : Text

pub record TemplateItem : Type 0 where
  pub name : Text
  pub description : Text
  pub library : Text
  pub cluster : Text
  pub folder : Text
  pub host : Text
  pub resource_pool : Text
  pub home_datastore : Option Text

pub data ImportCall : Type 0 where
  clear_boot_order : ImportCall
  import_ovf : OvfItem → ImportCall
  import_template : TemplateItem → ImportCall
  delete_item : Text → ImportCall

pub record LibraryEntry : Type 0 where
  pub id : Text
  pub name : Text

-- The error of a call, and what is found.
pub record Library : Type 0 where
  pub call : ImportCall → Option Text
  pub list_items : Text → Result Text (List LibraryEntry)
  pub find_uuid : Text → Text → Result Text Text
  pub find_datastores : Text → Result Text (List Text)

abbrev pub entry_named : Text → List LibraryEntry → Result Text LibraryEntry
entry_named name [] = err (codes "content library item " ++ (name ++ codes " not found"))
entry_named name (i ∷ is) =
    let rest = entry_named name is in if text_eq i.name name then ok i else rest

-- `FindContentLibraryItem` of the driver.
unfoldable pub find_item : Library → Text → Text → Result Text LibraryEntry
find_item v library name = v.list_items library >>= entry_named name

abbrev pub ovf_item : Destination → OvfItem
ovf_item d = record {
  name = d.name;
  description = d.description;
  flags = d.ovf_flags;
  library = d.library;
}

abbrev pub template_item : Destination → TemplateItem
template_item d = record {
  name = d.name;
  description = d.description;
  library = d.library;
  cluster = d.cluster;
  folder = d.folder;
  host = d.host;
  resource_pool = d.resource_pool;
  home_datastore = if is_empty d.datastore then none else some d.datastore;
}

pub data ImportError : Type 0 where
  item_exists call_failed delete_failed : Text → ImportError

module _ (v : Library) (d : Destination) where
  -- One call, as it ends an import.
  unfoldable pub only : ImportCall → List ImportCall × Option ImportError
  only c = (c ∷ [], elim (v.call c) [ none ↦ none | some e ↦ some (call_failed e) ])

  abbrev pub after_delete :
      ImportCall
      → Option Text
      → List ImportCall × Option ImportError
      → List ImportCall × Option ImportError
  after_delete c none (calls, e) = (c ∷ calls, e)
  after_delete c (some e) rest = (c ∷ [], some (delete_failed e))

  -- `importVmTemplate`, by the item that is found; any error of the search stands for no item.
  abbrev pub replace : Result Text LibraryEntry → List ImportCall × Option ImportError
  replace (err e) = only (import_template (template_item d))
  replace (ok i) =
      if d.overwrite
      then after_delete (delete_item i.id) (v.call (delete_item i.id))
          (only (import_template (template_item d)))
      else ([], some (item_exists d.name))

  unfoldable pub import_vm_template : List ImportCall × Option ImportError
  import_vm_template = replace (find_item v d.library d.name)

  unfoldable pub import_item : List ImportCall × Option ImportError
  import_item = if d.ovf then only (import_ovf (ovf_item d)) else import_vm_template

-- The keys of the state that the step writes.
pub record ImportState : Type 0 where
  pub error : Option ImportError
  pub destroy_vm : Bool
  pub item_uuid : Option Text
  pub item_datastores : Option (List Text)

module _ (v : Library) (d : Destination) where
  abbrev pub halted : ImportError → ImportState → Bool × ImportState
  halted e s = (false, record s { error = some e })

  abbrev pub with_datastores : Result Text (List Text) → ImportState → Bool × ImportState
  with_datastores (err e) s = halted (call_failed e) s
  with_datastores (ok ds) s = (true, record s { item_datastores = some ds })

  abbrev pub with_uuid : Result Text Text → ImportState → Bool × ImportState
  with_uuid (err e) s = halted (call_failed e) s
  with_uuid (ok id) s =
      with_datastores (v.find_datastores d.library) (record s { item_uuid = some id })

  abbrev pub after_import :
      ImportState → List ImportCall × Option ImportError → List ImportCall × (Bool × ImportState)
  after_import s (calls, some e) = (clear_boot_order ∷ calls, halted e s)
  after_import s (calls, none) = (
    clear_boot_order ∷ calls,
    with_uuid (v.find_uuid d.library d.name) (record s { destroy_vm = d.destroy || s.destroy_vm }),
  )

  abbrev pub after_boot : ImportState → Option Text → List ImportCall × (Bool × ImportState)
  after_boot s (some e) = (clear_boot_order ∷ [], halted (call_failed e) s)
  after_boot s none = after_import s (import_item v d)

  -- `Run`: its calls, whether the build continues, and the state.
  unfoldable pub run_import : ImportState → List ImportCall × (Bool × ImportState)
  run_import s = if d.skip_import then ([], (true, s)) else after_boot s (v.call clear_boot_order)
