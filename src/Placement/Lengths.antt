-- ===== src/Placement/Lengths.antt =====
-- builder/vsphere/driver/storage_drs.go: how many datastores a recommendation gives.
use packer_plugin_vsphere.Base.{
  ℕ, suc, ◌≡◌, refl, sym, ap, ◌∙◌, ◌≢◌, inl, inr, true, Option, none, some, List, [], ◌∷◌, arith,
  leb, ◌==◌, Bool-cases, Option-cases, ℤ, length, set, length-set, length-replicate, Result, ok,
  err, Result-cases, Text,
}
use packer_plugin_vsphere.Placement.{Action}
use packer_plugin_vsphere.Placement.Assign.{
  Slots, all_resolved, place_at, place_mappings, place_destinations, place_single,
  place_all_destinations, first_resolved, fill_with, fill_rest, values, fill_slots,
  datastores_for_new_disks, next_unresolved,
}

module _ {D E : Type 0} (resolve : Text → Result E D) where
  length-place_at :
      (o : Option ℕ) (r : Result E D) (slots : Slots D)
      → length (place_at resolve o r slots) ≡ length slots
  unfolding place_at
  length-place_at none r slots = refl
  length-place_at (some i) (err e) slots = refl
  length-place_at (some i) (ok d) slots = length-set slots i (some d)

  length-place_mappings :
      (keys : List ℤ) (ms : List (ℤ × Text)) (slots : Slots D)
      → length (place_mappings resolve keys ms slots) ≡ length slots
  unfolding place_mappings
  length-place_mappings keys [] slots = refl
  length-place_mappings keys ((key, ref) ∷ ms) slots =
      length-place_mappings keys ms _ ∙ length-place_at _ (resolve ref) slots

  length-place_destinations :
      (refs : List Text) (i : ℕ) (slots : Slots D)
      → length (place_destinations resolve refs i slots) ≡ length slots
  unfolding place_destinations
  length-place_destinations [] i slots = refl
  length-place_destinations (ref ∷ refs) i slots = elim (Result-cases (resolve ref)) [
    | inl (e, q) ↦ rw (q, place_destinations) (length-place_destinations refs i slots)
    | inr (d, q) ↦ elim (Bool-cases (leb (length slots) (next_unresolved i slots))) [
      | inl l ↦ rw (q, l, place_destinations)
      | inr l ↦
          rw (q, l, place_destinations)
            (length-place_destinations refs _ (set slots (next_unresolved i slots) (some d))
              ∙ length-set slots (next_unresolved i slots) (some d))
    ]
  ]

  length-place_single :
      (refs : List Text) (slots : Slots D) → length (place_single resolve refs slots) ≡ length slots
  unfolding place_single
  length-place_single [] slots = refl
  length-place_single (ref ∷ refs) slots = elim (Result-cases (resolve ref)) [
    | inl (e, q) ↦ rw (q, place_single) (length-place_single refs slots)
    | inr (d, q) ↦ rw (q, place_single) (length-set slots 0 (some d))
  ]

  length-place_all :
      (refs : List Text) (slots : Slots D)
      → length (place_all_destinations resolve refs slots) ≡ length slots
  unfolding place_all_destinations
  length-place_all refs slots = elim (Bool-cases (length slots == 1)) [
    | inl e ↦ rw e (length-place_single refs slots)
    | inr e ↦ rw e (length-place_destinations refs 0 slots)
  ]

  length-fill_with : (d : D) (slots : Slots D) → length (fill_with resolve d slots) ≡ length slots
  unfolding fill_with
  length-fill_with d [] = refl
  length-fill_with d (some e ∷ slots) = ap suc (length-fill_with d slots)
  length-fill_with d (none ∷ slots) = ap suc (length-fill_with d slots)

  length-fill_rest : (slots : Slots D) → length (fill_rest resolve slots) ≡ length slots
  unfolding fill_rest
  length-fill_rest slots = elim (Bool-cases (all_resolved slots)) [
    | inl e ↦ rw e
    | inr e ↦ elim (Option-cases (first_resolved resolve slots)) [
      | inl q ↦ rw (e, q)
      | inr (d, q) ↦ rw (e, q, fill_rest) (length-fill_with d slots)
    ]
  ]

  length-fill_slots :
      (actions : List Action) (keys : List ℤ)
      → length (fill_slots resolve actions keys) ≡ length keys
  unfolding fill_slots
  length-fill_slots actions keys =
      length-fill_rest _
      ∙ length-place_all _ _
      ∙ length-place_mappings keys _ _
      ∙ length-replicate (length keys) none

  length-values :
      (slots : Slots D) → all_resolved slots ≡ true → length (values resolve slots) ≡ length slots
  length-values [] h = refl
  length-values (none ∷ slots) h = cc
  length-values (some d ∷ slots) h = ap suc (length-values slots h)

  -- One datastore for each new disk, where there is one.
  pub length-datastores :
      (actions : List Action) (keys : List ℤ) (fallback : D) {ds : List D}
      → datastores_for_new_disks resolve actions keys fallback ≡ some ds
      → keys ≢ []
      → length ds ≡ length keys
  unfolding datastores_for_new_disks
  length-datastores actions [] fallback h n = absurd (n refl)
  length-datastores actions (k ∷ ks) fallback {ds} h n =
      let slots = fill_slots resolve actions (k ∷ ks) in
      elim (Bool-cases (all_resolved slots)) [
        | inl e ↦
            let q : values resolve slots ≡ ds = ground arith in
            ap length (sym q) ∙ length-values slots e ∙ length-fill_slots actions (k ∷ ks)
        | inr e ↦ absurd (ground arith)
      ]
