-- ===== src/Base/Strings.antt =====
-- Text as the list of its code points, with the functions of Go's `strings` and `strconv` that the
-- plugin calls. `to_lower` maps the ASCII letters, which are all that the plugin's patterns hold.
use Prim.Native.Char.{code}
use Prim.Native.String.{String}
use Prim.Native.Nat.{ℕ, zero, suc, ◌+◌, ◌-◌, ◌*◌, ◌/◌, ◌%◌, ◌≤◌, ◌<◌}
use mathlib.Core.Path.{◌≡◌, refl, ap, sym, ◌∙◌}
use mathlib.Core.Logic.{◌↔◌, inl, inr}
use mathlib.Core.Bool.{Bool, true, false, ◌&&◌, ◌||◌}
use mathlib.Core.List.{List, [], ◌∷◌, ◌++◌, map, reverse}
use mathlib.Core.Option.{Option, none, some}
use native.Mathlib.Omega.{arith}
use mathlib.Core.List.{reverse-append, reverse-reverse, reverse-cons, append_assoc}
use packer_plugin_vsphere.Base.Lists.{for_all}
use packer_plugin_vsphere.Base.Tests.{ltb, leb, ◌==◌, if◌then◌else◌, Bool-cases}

abbrev pub Text : Type 0
Text = List ℕ

abbrev pub codes : String → Text
codes String.[] = []
codes (String.◌∷◌ c s) = code c ∷ codes s

unfoldable pub text_eq : Text → Text → Bool
text_eq [] [] = true
text_eq [] (y ∷ ys) = false
text_eq (x ∷ xs) [] = false
text_eq (x ∷ xs) (y ∷ ys) = x == y && text_eq xs ys

pub text_eq_iff : (s t : Text) → (text_eq s t ≡ true) ↔ (s ≡ t)
unfolding text_eq
text_eq_iff [] [] = ground arith
text_eq_iff [] (y ∷ ys) = ground arith
text_eq_iff (x ∷ xs) [] = ground arith
text_eq_iff (x ∷ xs) (y ∷ ys) = ground (arith, text_eq_iff xs ys)

-- `strings.HasPrefix(s, p)`.
unfoldable pub has_prefix : Text → Text → Bool
has_prefix s [] = true
has_prefix [] (y ∷ ys) = false
has_prefix (x ∷ xs) (y ∷ ys) = x == y && has_prefix xs ys

-- `len(s)`: the bytes of the UTF-8 encoding.
unfoldable pub byte_length : Text → ℕ
byte_length [] = 0
byte_length (c ∷ cs) =
    (if ltb c 0x80 then 1 else if ltb c 0x800 then 2 else if ltb c 0x10000 then 3 else 4)
    + byte_length cs

-- `strings.HasSuffix(s, p)`.
unfoldable pub has_suffix : Text → Text → Bool
has_suffix s p = has_prefix (reverse s) (reverse p)

-- `strings.Contains(s, p)`.
unfoldable pub contains_text : Text → Text → Bool
unfolding has_prefix
contains_text [] p = has_prefix [] p
contains_text (x ∷ xs) p = has_prefix (x ∷ xs) p || contains_text xs p

lower_char : ℕ → ℕ
lower_char c = if leb 65 c && leb c 90 then c + 32 else c

unfoldable pub to_lower : Text → Text
unfolding lower_char
to_lower s = map lower_char s

-- `unicode.IsSpace`.
unfoldable pub is_space : ℕ → Bool
is_space c =
    (leb 9 c && leb c 13)
    || c == 32
    || c == 0x85
    || c == 0xa0
    || c == 0x1680
    || (leb 0x2000 c && leb c 0x200a)
    || c == 0x2028
    || c == 0x2029
    || c == 0x202f
    || c == 0x205f
    || c == 0x3000

-- `strings.TrimLeftFunc(s, unicode.IsSpace)`.
unfoldable pub trim_left : Text → Text
trim_left [] = []
trim_left (c ∷ cs) = if is_space c then trim_left cs else c ∷ cs

-- `strings.TrimSpace`.
unfoldable pub trim_space : Text → Text
unfolding trim_left
trim_space s = reverse (trim_left (reverse (trim_left s)))

put_front : ℕ → List Text → List Text
put_front c [] = (c ∷ []) ∷ []
put_front c (w ∷ ws) = (c ∷ w) ∷ ws

-- `strings.Split(s, sep)` for a separator of one character.
unfoldable pub split : ℕ → Text → List Text
unfolding put_front
split sep [] = [] ∷ []
split sep (c ∷ cs) = let rest = split sep cs in if c == sep then [] ∷ rest else put_front c rest

abbrev pub is_digit : ℕ → Bool
is_digit c = leb 48 c && leb c 57

digits : ℕ → ℕ → Text
digits zero n = []
digits (suc fuel) n = elim (ltb n 10) [
  | true ↦ (48 + n) ∷ []
  | false ↦ digits fuel (n / 10) ++ (48 + n % 10) ∷ []
]

-- `strconv.Itoa` of a number that is not negative; a number has fewer digits than its successor.
unfoldable pub itoa : ℕ → Text
unfolding digits
itoa n = digits (suc n) n

unfoldable pub read_digits : ℕ → Text → Option ℕ
read_digits acc [] = some acc
read_digits acc (c ∷ cs) = if is_digit c then read_digits (acc * 10 + (c - 48)) cs else none

abbrev pub max_int : ℕ
max_int = 9223372036854775807

abbrev in_int_range : Option ℕ → Option ℕ
in_int_range none = none
in_int_range (some n) = if leb n max_int then some n else none

-- `strconv.Atoi` of a text of digits (the caller's pattern holds no sign): an `int` has 64 bits.
unfoldable pub atoi : Text → Option ℕ
unfolding read_digits
atoi [] = none
atoi (c ∷ cs) = in_int_range (read_digits 0 (c ∷ cs))

abbrev and_then : Option ℕ → (ℕ → Option ℕ) → Option ℕ
and_then none f = none
and_then (some a) f = f a

read_digits-append :
    (acc : ℕ) (s t : Text)
    → read_digits acc (s ++ t) ≡ and_then (read_digits acc s) (λ a. read_digits a t)
unfolding read_digits
read_digits-append acc [] t = refl
read_digits-append acc (c ∷ cs) t = ground (arith, read_digits-append (acc * 10 + (c - 48)) cs t)

read_digits-digits : (fuel n : ℕ) → n < fuel → read_digits 0 (digits fuel n) ≡ some n
unfolding digits read_digits
read_digits-digits zero n h = elim h [ ]
read_digits-digits (suc fuel) n h = elim (Bool-cases (ltb n 10)) [
  | inl e ↦ ground arith
  | inr e ↦
      rw (e, digits)
        (read_digits-append 0 (digits fuel (n / 10)) ((48 + n % 10) ∷ [])
          ∙ rw (read_digits-digits fuel (n / 10) (ground arith)) (ground arith))
]

append_cons : (s : Text) (x : ℕ) → (c : ℕ) × (t : Text) × (s ++ x ∷ [] ≡ c ∷ t)
append_cons [] x = (x, [], refl)
append_cons (c ∷ s) x = (c, s ++ x ∷ [], refl)

digits_cons : (fuel n : ℕ) → (c : ℕ) × (s : Text) × (digits (suc fuel) n ≡ c ∷ s)
unfolding digits
digits_cons fuel n = elim (Bool-cases (ltb n 10)) [
  | inl e ↦ (48 + n, [], rw (e, digits))
  | inr e ↦
      let (c, t, q) = append_cons (digits fuel (n / 10)) (48 + n % 10) in (c, t, rw (e, digits) q)
]

atoi_cons : (c : ℕ) (s : Text) → atoi (c ∷ s) ≡ in_int_range (read_digits 0 (c ∷ s))
unfolding atoi
atoi_cons c s = refl

-- Every number that an `int` holds is read back from what is printed.
pub atoi-itoa : (n : ℕ) → n ≤ max_int → atoi (itoa n) ≡ some n
unfolding itoa
atoi-itoa n h =
    let (c, t, e) = digits_cons n n in
    ground (
      arith,
      atoi_cons c t,
      ap (read_digits 0) e,
      ap atoi e,
      read_digits-digits (suc n) n (omega arith),
    )

for_all-snoc :
    (s : Text) (d : ℕ)
    → for_all is_digit s ≡ true
    → d < 10
    → for_all is_digit (s ++ (48 + d) ∷ []) ≡ true
for_all-snoc [] d h q = ground arith
for_all-snoc (c ∷ s) d h q = ground (arith, for_all-snoc s d)

digits_all : (fuel n : ℕ) → for_all is_digit (digits fuel n) ≡ true
unfolding digits
digits_all zero n = refl
digits_all (suc fuel) n = elim (Bool-cases (ltb n 10)) [
  | inl e ↦ rw (e, digits) (ground arith)
  | inr e ↦
      rw (e, digits)
        (for_all-snoc (digits fuel (n / 10)) (n % 10) (digits_all fuel (n / 10)) (omega arith))
]

digits_snoc :
    (fuel n : ℕ) → (t : Text) × (d : ℕ) × (d < 10) × (digits (suc fuel) n ≡ t ++ (48 + d) ∷ [])
unfolding digits
digits_snoc fuel n = elim (Bool-cases (ltb n 10)) [
  | inl e ↦ ([], n, ground arith, rw (e, digits))
  | inr e ↦ (digits fuel (n / 10), n % 10, omega arith, rw (e, digits))
]

trim_left_stop : (c : ℕ) (s : Text) → is_space c ≡ false → trim_left (c ∷ s) ≡ c ∷ s
unfolding trim_left
trim_left_stop c s h = rw h

reverse_ends : (c d : ℕ) (s : Text) → reverse (c ∷ (s ++ d ∷ [])) ≡ d ∷ (reverse s ++ c ∷ [])
reverse_ends c d s =
    reverse-cons c (s ++ d ∷ []) ∙ ap (λ t. t ++ c ∷ []) (reverse-append s (d ∷ []))

-- A text that begins and ends with no space is left as it is.
trim_space_id :
    (c d : ℕ) (s : Text)
    → is_space c ≡ false
    → is_space d ≡ false
    → trim_space (c ∷ (s ++ d ∷ [])) ≡ c ∷ (s ++ d ∷ [])
unfolding trim_space
trim_space_id c d s hc hd =
    ap (λ t. reverse (trim_left (reverse t))) (trim_left_stop c (s ++ d ∷ []) hc)
    ∙ ap (λ t. reverse (trim_left t)) (reverse_ends c d s)
    ∙ ap reverse (trim_left_stop d (reverse s ++ c ∷ []) hd)
    ∙ ap reverse (sym (reverse_ends c d s))
    ∙ reverse-reverse (c ∷ (s ++ d ∷ []))

digit_not_space : (d : ℕ) → d < 10 → is_space (48 + d) ≡ false
unfolding is_space
digit_not_space d h = ground arith

-- A printed number: its first digit and the others, of which it is read back.
pub itoa_parts :
    (n : ℕ) → (u : ℕ) × (us : Text) × (itoa n ≡ u ∷ us) × (for_all is_digit (u ∷ us) ≡ true)
unfolding itoa
itoa_parts n =
    let (c, t, e) = digits_cons n n in
    (c, t, e, ap (for_all is_digit) (sym e) ∙ digits_all (suc n) n)

-- What stands in front of a printed number and begins with no space is not trimmed.
pub trim_space-itoa :
    (c n : ℕ) (s : Text) → is_space c ≡ false → trim_space (c ∷ (s ++ itoa n)) ≡ c ∷ (s ++ itoa n)
unfolding itoa
trim_space-itoa c n s h =
    let (t, d, lt, e) = digits_snoc n n in
    rw e (
      rw (← append_assoc s t ((48 + d) ∷ []))
        (trim_space_id c (48 + d) (s ++ t) h (digit_not_space d lt)))
