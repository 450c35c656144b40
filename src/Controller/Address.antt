-- ===== src/Controller/Address.antt =====
-- builder/vsphere/driver/controller_address.go: `ControllerAddress.String` and
-- `ParseControllerUnit`, with the pattern `^(scsi|nvme|sata)([0-3]):([0-9]+)$` written out.
use packer_plugin_vsphere.Base.{
  ℕ, ◌+◌, ◌≤◌, ◌≡◌, refl, sym, ap, ◌∙◌, inl, inr, true, ◌&&◌, Option, none, some, [], ◌∷◌, ◌++◌,
  arith, leb, ◌==◌, if◌then◌else◌, Option-cases, for_all, Result, ok, err, ◌>>=◌, Text, codes,
  text_eq, is_space, trim_space, is_digit, itoa, read_digits, max_int, atoi, atoi-itoa, itoa_parts,
  trim_space-itoa,
}
use packer_plugin_vsphere.Controller.{
  ControllerKind, scsi, nvme, sata, ControllerAddress, kind_prefix, StorageError,
  invalid_unit_format, bus_not_number, unit_not_number,
}

-- `ControllerAddress.String`.
unfoldable pub address_text : ControllerAddress → Text
unfolding kind_prefix
address_text a = kind_prefix a.kind ++ itoa a.bus ++ (b':' ∷ itoa a.unit)

-- The submatches of the pattern: the kind, the digit of the bus, the digits of the unit.
pub record Submatches : Type 0 where
  pub kind : ControllerKind
  pub bus_digit : ℕ
  pub unit_digits : Text

match_rest : ControllerKind → Text → Option Submatches
match_rest k (d ∷ colon ∷ u ∷ us) =
    if leb 48 d && leb d 51 && colon == b':' && for_all is_digit (u ∷ us)
    then some (record { kind = k; bus_digit = d; unit_digits = u ∷ us })
    else none
match_rest k _ = none

kind_of_prefix : Text → Option ControllerKind
kind_of_prefix p =
    if text_eq p (codes "scsi")
    then some scsi
    else if text_eq p (codes "nvme")
    then some nvme
    else if text_eq p (codes "sata")
    then some sata
    else none

-- `controllerUnitPattern.FindStringSubmatch`.
unfoldable pub find_submatches : Text → Option Submatches
unfolding match_rest kind_of_prefix
find_submatches (a ∷ b ∷ c ∷ d ∷ rest) = elim (kind_of_prefix (a ∷ b ∷ c ∷ d ∷ [])) [
  | none ↦ none
  | some k ↦ match_rest k rest
]
find_submatches _ = none

atoi_or : StorageError → Text → Result StorageError ℕ
atoi_or e s = elim (atoi s) [ none ↦ err e | some n ↦ ok n ]

address_of : Text → Option Submatches → Result StorageError ControllerAddress
unfolding atoi_or
address_of raw none = err (invalid_unit_format raw)
address_of raw (some m) = do
  bus ← atoi_or (bus_not_number raw) (m.bus_digit ∷ [])
  unit ← atoi_or (unit_not_number raw) m.unit_digits
  ok (record { kind = m.kind; bus = bus; unit = unit })

unfoldable pub parse_controller_unit : Text → Result StorageError ControllerAddress
unfolding address_of find_submatches
parse_controller_unit raw = address_of raw (find_submatches (trim_space raw))

-- What an address may be before it meets a controller: a bus of the pattern, a unit of an `int`.
pub record IsAddress (a : ControllerAddress) : Type 0 where
  pub bus_small : a.bus ≤ 3
  pub unit_small : a.unit ≤ max_int

itoa_digit : (b : ℕ) → b ≤ 3 → itoa b ≡ (48 + b) ∷ []
unfolding itoa
itoa_digit b h = ground arith

make : ControllerKind → ℕ → ℕ → ControllerAddress
make k b n = record { kind = k; bus = b; unit = n }

-- The text of an address is not trimmed.
trim_space-address :
    (k : ControllerKind) (b n : ℕ)
    → b ≤ 3
    → trim_space (address_text (make k b n)) ≡ kind_prefix k ++ (48 + b) ∷ b':' ∷ itoa n
unfolding address_text make is_space
trim_space-address scsi b n h =
    rw (itoa_digit b h) (trim_space-itoa b's' n (b'c' ∷ b's' ∷ b'i' ∷ (48 + b) ∷ b':' ∷ []) refl)
trim_space-address nvme b n h =
    rw (itoa_digit b h) (trim_space-itoa b'n' n (b'v' ∷ b'm' ∷ b'e' ∷ (48 + b) ∷ b':' ∷ []) refl)
trim_space-address sata b n h =
    rw (itoa_digit b h) (trim_space-itoa b's' n (b'a' ∷ b't' ∷ b'a' ∷ (48 + b) ∷ b':' ∷ []) refl)

matched : ControllerKind → ℕ → ℕ → Text → Option Submatches
matched k b u us = some (record { kind = k; bus_digit = 48 + b; unit_digits = u ∷ us })

match_rest-digits :
    (k : ControllerKind) (b u : ℕ) (us : Text)
    → b ≤ 3
    → for_all is_digit (u ∷ us) ≡ true
    → match_rest k ((48 + b) ∷ b':' ∷ u ∷ us) ≡ matched k b u us
unfolding match_rest matched
match_rest-digits k b u us h d = ground arith

find_submatches-prefix :
    (k : ControllerKind) (rest : Text) → find_submatches (kind_prefix k ++ rest) ≡ match_rest k rest
unfolding find_submatches kind_prefix text_eq
find_submatches-prefix scsi rest = refl
find_submatches-prefix nvme rest = refl
find_submatches-prefix sata rest = refl

atoi_or-some : (e : StorageError) (s : Text) (n : ℕ) → atoi s ≡ some n → atoi_or e s ≡ ok n
unfolding atoi_or
atoi_or-some e s n h = rw (h, atoi_or)

address_of-matched :
    (raw : Text) (k : ControllerKind) (b n u : ℕ) (us : Text)
    → b ≤ 3
    → atoi (u ∷ us) ≡ some n
    → address_of raw (matched k b u us) ≡ ok (make k b n)
unfolding address_of matched make
address_of-matched raw k b n u us h e =
    rw
      (atoi_or-some (bus_not_number raw) ((48 + b) ∷ []) b
        (ap atoi (sym (itoa_digit b h)) ∙ atoi-itoa b (omega arith)))
      (rw (atoi_or-some (unit_not_number raw) (u ∷ us) n e))

parse-text :
    (k : ControllerKind) (b n : ℕ)
    → b ≤ 3
    → n ≤ max_int
    → parse_controller_unit (address_text (make k b n)) ≡ ok (make k b n)
unfolding parse_controller_unit
parse-text k b n hb hn =
    let (u, us, e, d) = itoa_parts n in
    ap (λ t. address_of (address_text (make k b n)) (find_submatches t))
      (trim_space-address k b n hb)
    ∙ ap (address_of (address_text (make k b n))) (
        find_submatches-prefix k ((48 + b) ∷ b':' ∷ itoa n)
        ∙ ap (λ t. match_rest k ((48 + b) ∷ b':' ∷ t)) e
        ∙ match_rest-digits k b u us hb d)
    ∙ address_of-matched (address_text (make k b n)) k b n u us hb
        (ap atoi (sym e) ∙ atoi-itoa n hn)

-- The text that `String` prints of an address whose bus is at most 3 and whose unit fits an `int`
-- is parsed to that same address.
pub parse-address_text :
    (a : ControllerAddress) → IsAddress a → parse_controller_unit (address_text a) ≡ ok a
unfolding make
parse-address_text a v = parse-text a.kind a.bus a.unit v.bus_small v.unit_small

atoi_or-bound : (e : StorageError) (s : Text) {n : ℕ} → atoi_or e s ≡ ok n → (atoi s ≡ some n)
unfolding atoi_or
atoi_or-bound e s h = ground arith

-- The digit of a bus that the pattern matched, and the number that is read of it.
bus_digit_small :
    (k : ControllerKind) (rest : Text) {m : Submatches} {b : ℕ}
    → match_rest k rest ≡ some m
    → atoi (m.bus_digit ∷ []) ≡ some b
    → b ≤ 3
unfolding match_rest atoi read_digits
bus_digit_small k (d ∷ colon ∷ u ∷ us) h e = ground arith
bus_digit_small k (d ∷ colon ∷ []) h e = ground arith
bus_digit_small k (d ∷ []) h e = ground arith
bus_digit_small k [] h e = ground arith

atoi_small : (s : Text) {n : ℕ} → atoi s ≡ some n → n ≤ max_int
unfolding atoi
atoi_small [] h = ground arith
atoi_small (c ∷ s) h = ground arith

find_submatches_bus :
    (s : Text) {m : Submatches} {b : ℕ}
    → find_submatches s ≡ some m
    → atoi (m.bus_digit ∷ []) ≡ some b
    → b ≤ 3
unfolding find_submatches
find_submatches_bus (a ∷ b ∷ c ∷ d ∷ rest) h e =
    elim (Option-cases (kind_of_prefix (a ∷ b ∷ c ∷ d ∷ []))) [
      | inl q ↦ ground arith
      | inr (k, q) ↦ bus_digit_small k rest (rw (q, find_submatches) at h) e
    ]
find_submatches_bus (a ∷ b ∷ c ∷ []) h e = ground arith
find_submatches_bus (a ∷ b ∷ []) h e = ground arith
find_submatches_bus (a ∷ []) h e = ground arith
find_submatches_bus [] h e = ground arith

address_of_parts :
    (raw : Text) (o : Option Submatches) {a : ControllerAddress}
    → address_of raw o ≡ ok a
    → (m : Submatches) × (o ≡ some m)
      × (atoi (m.bus_digit ∷ []) ≡ some a.bus)
      × (atoi m.unit_digits ≡ some a.unit)
unfolding address_of
address_of_parts raw none h = absurd (ground arith)
address_of_parts raw (some m) h = (m, refl, ground arith, ground arith)

-- Whatever text is parsed to an address, its bus is at most 3 and its unit fits an `int`.
pub parse-IsAddress :
    (raw : Text) {a : ControllerAddress} → parse_controller_unit raw ≡ ok a → IsAddress a
unfolding parse_controller_unit
parse-IsAddress raw h =
    let (m, e, b, u) = address_of_parts raw (find_submatches (trim_space raw)) h in
    record {
      bus_small = find_submatches_bus (trim_space raw) e b;
      unit_small = atoi_small m.unit_digits u;
    }
