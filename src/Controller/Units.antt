-- ===== src/Controller/Units.antt =====
-- builder/vsphere/driver/controller_address.go: the units of a controller that are in use, those
-- that are free, and how the free ones are shown.
use mathlib.Core.List.{append_assoc}
use packer_plugin_vsphere.Base.{
  ℕ, zero, suc, ◌+◌, ◌-◌, ◌≤◌, ◌≡◌, refl, sym, ap, ◌∙◌, ◌≢◌, ◌↔◌, inl, inr, Bool, true, false, ◌&&◌,
  not, Option, none, some, List, [], ◌∷◌, ◌++◌, map, arith, ltb, leb, ◌==◌, if◌then◌else◌, ==_iff,
  Bool-cases, ℤ, pos, negsuc, int_eq, int_eq_iff, exists, All, Text, codes, itoa,
}
use packer_plugin_vsphere.Controller.{
  Controller, Device, base_of, is_scsi_class, scsi_reserved_unit_number,
}
use packer_plugin_vsphere.Controller.Devices.{max_unit}

-- A unit number that is not negative; a negative key of the map is never looked up.
unit_of : Option ℤ → Option ℕ
unit_of none = none
unit_of (some (pos u)) = some u
unit_of (some (negsuc u)) = none

-- The units that the devices hold on the controller with this key.
units_on : List Device → ℤ → List ℕ
unfolding unit_of
units_on [] key = []
units_on (d ∷ ds) key =
    let rest = units_on ds key in
    elim (unit_of (base_of d).unit_number) [
      | none ↦ rest
      | some u ↦ if int_eq (base_of d).controller_key key then u ∷ rest else rest
    ]

-- The keys of the map that `OccupiedUnits` returns; each has the value true.
unfoldable pub occupied_units : List Device → Controller → List ℕ
unfolding units_on
occupied_units ds c =
    let units = units_on ds c.base.key in
    if is_scsi_class c.class then c.scsi_ctlr_unit_number ∷ units else units

abbrev pub mem_unit : ℕ → List ℕ → Bool
mem_unit u us = exists (λ v. u == v) us

-- Whether the loop of `listAvailableUnits` appends a unit.
is_free : List ℕ → Bool → ℕ → Bool
is_free occupied scsi u = not (scsi && u == scsi_reserved_unit_number) && not (mem_unit u occupied)

-- The loop at `unit`, with `rounds` left.
available_from : (ℕ → Bool) → ℕ → ℕ → List ℕ
available_from free unit zero = []
available_from free unit (suc rounds) =
    let rest = available_from free (suc unit) rounds in if free unit then unit ∷ rest else rest

unfoldable pub list_available_units : List Device → Controller → List ℕ
unfolding available_from is_free
list_available_units ds c =
    available_from (is_free (occupied_units ds c) (is_scsi_class c.class)) 0 (max_unit c + 1)

-- The loop of `formatAvailableUnits`: a range is closed where the next unit does not follow.
ranges_from : ℕ → ℕ → List ℕ → List (ℕ × ℕ)
ranges_from start prev [] = (start, prev) ∷ []
ranges_from start prev (u ∷ us) =
    let longer = ranges_from start u us in
    let next = ranges_from u u us in if u == prev + 1 then longer else (start, prev) ∷ next

unfoldable pub unit_ranges : List ℕ → List (ℕ × ℕ)
unfolding ranges_from
unit_ranges [] = []
unit_ranges (u ∷ us) = ranges_from u u us

unfoldable pub format_unit_range : ℕ × ℕ → Text
format_unit_range (start, end) = if start == end then itoa start else itoa start ++ b'-' ∷ itoa end

join_comma : List Text → Text
join_comma [] = []
join_comma (t ∷ []) = t
join_comma (t ∷ u ∷ us) = t ++ (codes ", " ++ join_comma (u ∷ us))

unfoldable pub format_available_units : List ℕ → Text
unfolding unit_ranges format_unit_range join_comma
format_available_units [] = codes "none"
format_available_units (u ∷ us) = join_comma (map format_unit_range (unit_ranges (u ∷ us)))

available_from-mem :
    (free : ℕ → Bool) (x unit rounds : ℕ)
    → mem_unit x (available_from free unit rounds)
      ≡ (free x && (leb unit x && ltb x (unit + rounds)))
unfolding available_from
available_from-mem free x unit zero = ground arith
available_from-mem free x unit (suc rounds) =
    ground (arith, available_from-mem free x (suc unit) rounds, ==_iff x unit, ap free)

up_to : (u m : ℕ) → (leb 0 u && ltb u (0 + (m + 1))) ≡ leb u m
up_to u m = ground arith

-- A unit is listed as available exactly if it is at most the largest unit of the controller, it is
-- not among the occupied units, and it is not the reserved unit of a SCSI controller.
pub mem_unit-list_available_units :
    (ds : List Device) (c : Controller) (u : ℕ)
    → mem_unit u (list_available_units ds c) ≡ (
        not (is_scsi_class c.class && u == scsi_reserved_unit_number)
        && not (mem_unit u (occupied_units ds c))
        && leb u (max_unit c))
unfolding list_available_units
mem_unit-list_available_units ds c u =
    let free = is_free (occupied_units ds c) (is_scsi_class c.class) in
    available_from-mem free u 0 (max_unit c + 1) ∙ ap (λ b. free u && b) (up_to u (max_unit c))

-- A device that stands on the controller with this key, at this unit.
abbrev pub StandsAt : Device → ℤ → ℕ → Type 0
StandsAt d key u = ((base_of d).controller_key ≡ key) × ((base_of d).unit_number ≡ some (pos u))

with_unit : ℤ → ℤ → Option ℤ → List ℕ → List ℕ
unfolding unit_of
with_unit k key x rest = elim (unit_of x) [
  | none ↦ rest
  | some u ↦ if int_eq k key then u ∷ rest else rest
]

with_unit-rest :
    (k key : ℤ) (x : Option ℤ) (u : ℕ) (rest : List ℕ)
    → mem_unit u (with_unit k key x rest) ≡ false
    → mem_unit u rest ≡ false
unfolding with_unit unit_of
with_unit-rest k key none u rest h = h
with_unit-rest k key (some (pos v)) u rest h = ground arith
with_unit-rest k key (some (negsuc v)) u rest h = h

with_unit-there :
    (k : ℤ) (u : ℕ) (rest : List ℕ) → mem_unit u (with_unit k k (some (pos u)) rest) ≡ true
unfolding with_unit unit_of
with_unit-there k u rest = ground (arith, int_eq_iff k k, ==_iff u u)

with_unit-not :
    (k key : ℤ) (x : Option ℤ) (u : ℕ) (rest : List ℕ)
    → ((k ≡ key) × (x ≡ some (pos u)) → ⊥)
    → mem_unit u rest ≡ false
    → mem_unit u (with_unit k key x rest) ≡ false
unfolding with_unit unit_of
with_unit-not k key none u rest n h = h
with_unit-not k key (some (negsuc v)) u rest n h = h
with_unit-not k key (some (pos v)) u rest n h = elim (Bool-cases (int_eq k key)) [
  | inr e ↦ rw e h
  | inl e ↦ elim (Bool-cases (u == v)) [
    | inr f ↦ rw (e, f) h
    | inl f ↦ absurd (n ((int_eq_iff k key).0 e, ap (λ z. some (pos z)) (sym ((==_iff u v).0 f))))
  ]
]

-- No device stands at the unit exactly if the loop over the devices does not see it.
units_on_iff :
    (ds : List Device) (key : ℤ) (u : ℕ)
    → (mem_unit u (units_on ds key) ≡ false) ↔ All (λ d. StandsAt d key u → ⊥) ds
unfolding units_on with_unit
units_on_iff [] key u = (λ h. tt, λ h. refl)
units_on_iff (d ∷ ds) key u =
    let x = (base_of d).unit_number in
    let k = (base_of d).controller_key in
    let rest = units_on ds key in
    (
      λ h. (
        λ p.
            let there : mem_unit u (with_unit k key x rest) ≡ true =
              rw (p.0, p.1) (with_unit-there key u rest) in
            absurd (ground arith),
        (units_on_iff ds key u).0 (with_unit-rest k key x u rest h),
      ),
      λ p. with_unit-not k key x u rest p.0 ((units_on_iff ds key u).1 p.1),
    )

-- What a unit is that a new disk can take.
pub record IsFreeUnit (ds : List Device) (c : Controller) (u : ℕ) : Type 0 where
  pub within : u ≤ max_unit c
  pub not_held : All (λ d. StandsAt d c.base.key u → ⊥) ds
  pub not_reserved : is_scsi_class c.class ≡ true → u ≢ 7
  pub not_its_own : is_scsi_class c.class ≡ true → u ≢ c.scsi_ctlr_unit_number

available_cases :
    (scsi : Bool) (own u m : ℕ) (us : List ℕ)
    → ((not (scsi && u == 7) && not (mem_unit u (if scsi then own ∷ us else us)) && leb u m) ≡ true)
      ↔ ((u ≤ m) × (mem_unit u us ≡ false) × (scsi ≡ true → u ≢ 7) × (scsi ≡ true → u ≢ own))
available_cases false own u m us = (
  λ h. (ground arith, ground arith, λ e. absurd (ground arith), λ e. absurd (ground arith)),
  λ (l, n, r, o). ground arith,
)
available_cases true own u m us = (
  λ h. (ground arith, ground arith, λ e q. absurd (ground arith), λ e q. absurd (ground arith)),
  λ (l, n, r, o). let r' = r refl in let o' = o refl in ground arith,
)

-- A unit is listed as available exactly if it is at most the largest unit of the controller, no
-- device on the controller has it, and on a SCSI controller it is neither 7 nor the unit of the
-- controller itself.
pub list_available_units_iff :
    (ds : List Device) (c : Controller) (u : ℕ)
    → (mem_unit u (list_available_units ds c) ≡ true) ↔ IsFreeUnit ds c u
unfolding occupied_units
list_available_units_iff ds c u =
    let cases =
      available_cases (is_scsi_class c.class) c.scsi_ctlr_unit_number u (max_unit c)
        (units_on ds c.base.key) in
    let on = units_on_iff ds c.base.key u in
    let listed = mem_unit-list_available_units ds c u in
    (
      λ h.
          let (l, n, r, o) = cases.0 (sym listed ∙ h) in
          record { within = l; not_held = on.0 n; not_reserved = r; not_its_own = o },
      λ f. listed ∙ cases.1 (f.within, on.1 f.not_held, f.not_reserved, f.not_its_own),
    )

-- The units of a range.
abbrev count_up : ℕ → ℕ → List ℕ
count_up start zero = []
count_up start (suc n) = start ∷ count_up (suc start) n

abbrev pub expand : List (ℕ × ℕ) → List ℕ
expand [] = []
expand ((start, end) ∷ rs) = count_up start (suc end - start) ++ expand rs

count_up_snoc : (start n : ℕ) → count_up start (suc n) ≡ count_up start n ++ (start + n) ∷ []
count_up_snoc start zero = ground arith
count_up_snoc start (suc n) =
    ap (◌∷◌ start)
      (count_up_snoc (suc start) n ∙ ap (λ k. count_up (suc start) n ++ k ∷ []) (omega arith))

expand-ranges_from :
    (start prev : ℕ) (us : List ℕ)
    → start ≤ prev
    → expand (ranges_from start prev us) ≡ count_up start (suc prev - start) ++ us
unfolding ranges_from
expand-ranges_from start prev [] h = refl
expand-ranges_from start prev (u ∷ us) h = elim (Bool-cases (u == prev + 1)) [
  | inl e ↦
      let q : suc u - start ≡ suc (suc prev - start) = ground arith in
      let r : start + (suc prev - start) ≡ u = ground arith in
      rw e (
        expand-ranges_from start u us (ground arith)
        ∙ ap (λ k. count_up start k ++ us) q
        ∙ ap (λ t. t ++ us) (count_up_snoc start (suc prev - start))
        ∙ append_assoc (count_up start (suc prev - start)) ((start + (suc prev - start)) ∷ []) us
        ∙ ap (λ k. count_up start (suc prev - start) ++ k ∷ us) r)
  | inr e ↦
      let q : suc u - u ≡ 1 = omega arith in
      rw e (
        ap (λ t. count_up start (suc prev - start) ++ t)
          (expand-ranges_from u u us (omega arith) ∙ ap (λ k. count_up u k ++ us) q))
]

-- The ranges that are shown hold the listed units, all of them, in their order, and no others.
pub expand-unit_ranges : (us : List ℕ) → expand (unit_ranges us) ≡ us
unfolding unit_ranges
expand-unit_ranges [] = refl
expand-unit_ranges (u ∷ us) =
    expand-ranges_from u u us (omega arith)
    ∙ ap (λ k. count_up u k ++ us) (let q : suc u - u ≡ 1 = omega arith in q)
