-- ===== src/Placement/Assign.antt =====
-- builder/vsphere/driver/storage_drs.go: `datastoresForNewDisks`. The slices `result` and `resolved`
-- are one list: a slot that is resolved holds its datastore.
use packer_plugin_vsphere.Base.{
  ℕ, zero, suc, Bool, not, Option, none, some, List, [], ◌∷◌, leb, ◌==◌, if◌then◌else◌, is_none, ℤ,
  int_eq, length, set, replicate, is_empty, for_all, Result, ok, err, Text,
}
use packer_plugin_vsphere.Placement.{Action, disk_datastore_mappings, destination_only_actions}

-- `keyIndex[key]`, where a later index of the same key hides an earlier one.
key_index_from : ℕ → List ℤ → ℤ → Option ℕ
key_index_from i [] key = none
key_index_from i (k ∷ ks) key = elim (key_index_from (suc i) ks key) [
  | some j ↦ some j
  | none ↦ if int_eq k key then some i else none
]

unfoldable pub key_index : List ℤ → ℤ → Option ℕ
unfolding key_index_from
key_index ks key = key_index_from 0 ks key

abbrev pub Slots : Type 0 → Type 0
Slots D = List (Option D)

abbrev pub all_resolved : {D : Type 0} → Slots D → Bool
all_resolved slots = for_all (λ o. not (is_none o)) slots

-- The first index from `i` on that is not resolved, or the length.
unfoldable pub next_unresolved : {D : Type 0} → ℕ → Slots D → ℕ
next_unresolved i [] = 0
next_unresolved zero (none ∷ slots) = 0
next_unresolved zero (some d ∷ slots) = suc (next_unresolved zero slots)
next_unresolved (suc i) (o ∷ slots) = suc (next_unresolved i slots)

-- `duplicateDatastore`.
unfoldable pub duplicate_datastore : {D : Type 0} → D → ℕ → List D
duplicate_datastore d n = replicate n d

module _ {D E : Type 0} (resolve : Text → Result E D) where
  unfoldable pub place_at : Option ℕ → Result E D → Slots D → Slots D
  place_at none r slots = slots
  place_at (some i) (err e) slots = slots
  place_at (some i) (ok d) slots = set slots i (some d)

  unfoldable pub place_mappings : List ℤ → List (ℤ × Text) → Slots D → Slots D
  unfolding place_at
  place_mappings keys [] slots = slots
  place_mappings keys ((key, ref) ∷ ms) slots =
      place_mappings keys ms (place_at (key_index keys key) (resolve ref) slots)

  -- The loop over the destinations, where there are several slots.
  unfoldable pub place_destinations : List Text → ℕ → Slots D → Slots D
  unfolding next_unresolved
  place_destinations [] i slots = slots
  place_destinations (ref ∷ refs) i slots = elim (resolve ref) [
    | err e ↦ place_destinations refs i slots
    | ok d ↦
        let j = next_unresolved i slots in
        let rest = place_destinations refs (suc j) (set slots j (some d)) in
        if leb (length slots) j then slots else rest
  ]

  -- The same loop for one slot: the first destination that is resolved takes it.
  unfoldable pub place_single : List Text → Slots D → Slots D
  place_single [] slots = slots
  place_single (ref ∷ refs) slots = elim (resolve ref) [
    | err e ↦ place_single refs slots
    | ok d ↦ set slots 0 (some d)
  ]

  unfoldable pub place_all_destinations : List Text → Slots D → Slots D
  unfolding place_single
  place_all_destinations refs slots =
      if length slots == 1 then place_single refs slots else place_destinations refs 0 slots

  unfoldable pub first_resolved : Slots D → Option D
  first_resolved [] = none
  first_resolved (some d ∷ slots) = some d
  first_resolved (none ∷ slots) = first_resolved slots

  unfoldable pub fill_with : D → Slots D → Slots D
  fill_with d [] = []
  fill_with d (some e ∷ slots) = some e ∷ fill_with d slots
  fill_with d (none ∷ slots) = some d ∷ fill_with d slots

  -- The slots that are left take the datastore of the first that is resolved.
  unfoldable pub fill_rest : Slots D → Slots D
  unfolding first_resolved fill_with
  fill_rest slots =
      if all_resolved slots
      then slots
      else elim (first_resolved slots) [ none ↦ slots | some d ↦ fill_with d slots ]

  abbrev pub values : Slots D → List D
  values [] = []
  values (none ∷ slots) = values slots
  values (some d ∷ slots) = d ∷ values slots

  unfoldable pub fill_slots : List Action → List ℤ → Slots D
  unfolding place_all_destinations
  fill_slots actions keys = fill_rest (
      place_all_destinations (destination_only_actions actions)
        (place_mappings keys (disk_datastore_mappings actions) (replicate (length keys) none)))

  -- `none` is the result `nil, false`.
  unfoldable pub datastores_for_new_disks : List Action → List ℤ → D → Option (List D)
  datastores_for_new_disks actions keys fallback =
      if is_empty keys
      then some (duplicate_datastore fallback 1)
      else (let slots = fill_slots actions keys in
          if all_resolved slots then some (values slots) else none)
