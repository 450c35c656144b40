-- ===== src/Config/Prepared.antt =====
-- builder/vsphere/clone/storage_prepare.go: what holds of storage blocks that are accepted.
use packer_plugin_vsphere.Base.{
  ℕ, zero, suc, ◌≡◌, refl, sym, ap, ◌∙◌, subst, ◌≢◌, ◌⊎◌, inl, inr, Bool, true, false, ◌&&◌, not,
  none, some, List, [], ◌∷◌, arith, if◌then◌else◌, Bool-cases, pos, int_eq, int_eq_iff, get_elem?,
  is_empty, All, NoRepeat, Result, ok, err, Text, text_eq_iff,
}
use packer_plugin_vsphere.Controller.{ControllerAddress, StorageError}
use packer_plugin_vsphere.Controller.Address.{parse_controller_unit}
use packer_plugin_vsphere.Controller.Static.{
  validate_disk_controller_types, validate_controller_unit_static_for_config, IsWithinLimits,
  validate_static-IsWithinLimits,
}
use packer_plugin_vsphere.Config.{
  types_required, StorageConfig, DiskConfig, append_nil_left, error_if, error_if-nil,
}
use packer_plugin_vsphere.Config.Clone.{
  start, types_error, prepare_storage, PrepareState, index_of_unit, has_legacy, type_index_or_zero,
  static_error, note_unit, prepare_explicit, prepare_blocks,
}

-- What a block with a unit must be: no controller index, and an address within vSphere's limits.
pub record IsExplicit (types : List Text) (d : DiskConfig) : Type 0 where
  pub no_index : d.disk_controller_index ≡ pos 0
  pub type_index : ℕ
  pub address : ControllerAddress
  pub parsed : parse_controller_unit d.disk_controller_unit ≡ ok address
  pub limits : IsWithinLimits types type_index address

abbrev pub IsPrepared : List Text → DiskConfig → Type 0
IsPrepared types d =
    if is_empty d.disk_controller_unit then is_empty types ≡ false else IsExplicit types d

-- The units of the blocks that have one.
abbrev pub units_of : List DiskConfig → List Text
units_of [] = []
units_of (d ∷ ds) =
    let rest = units_of ds in
    if is_empty d.disk_controller_unit then rest else d.disk_controller_unit ∷ rest

-- Each unit is new.
abbrev AllNew : List (Text × ℕ) → ℕ → List DiskConfig → Type 0
AllNew seen i [] = Unit
AllNew seen i (d ∷ ds) =
    if is_empty d.disk_controller_unit
    then AllNew seen (suc i) ds
    else (index_of_unit d.disk_controller_unit seen ≡ none)
      × AllNew ((d.disk_controller_unit, i) ∷ seen) (suc i) ds

static_error-nil : (i : ℕ) (r : Result StorageError (Unit {0})) → static_error i r ≡ [] → r ≡ ok tt
static_error-nil i (ok u) h = refl
static_error-nil i (err e) h = absurd (ground arith)

note_unit-nil :
    (i : ℕ) (raw : Text) (s : PrepareState)
    → (note_unit i raw s).0 ≡ []
    → (index_of_unit raw s.seen_units ≡ none)
      × ((note_unit i raw s).1.seen_units ≡ (raw, i) ∷ s.seen_units)
unfolding note_unit
note_unit-nil i raw s h = ground arith

type_index-seen :
    (s : PrepareState) (r : Result StorageError ControllerAddress)
    → (type_index_or_zero s r).1.seen_units ≡ s.seen_units
unfolding type_index_or_zero
type_index-seen s r = ground arith

prepare_explicit-nil :
    (types : List Text) (i : ℕ) (d : DiskConfig) (s : PrepareState)
    → (prepare_explicit types i d s).0 ≡ []
    → IsExplicit types d
      × (index_of_unit d.disk_controller_unit s.seen_units ≡ none)
      × ((prepare_explicit types i d s).1.seen_units ≡ (d.disk_controller_unit, i) ∷ s.seen_units)
unfolding prepare_explicit
prepare_explicit-nil types i d s h =
    let raw = d.disk_controller_unit in
    let located = type_index_or_zero s (parse_controller_unit raw) in
    let (p, q) = append_nil_left (error_if (not (int_eq d.disk_controller_index (pos 0))) _) _ h in
    let (u, v) =
      append_nil_left
        (static_error i (validate_controller_unit_static_for_config raw types located.0)) _ q in
    let (a, e, l) = validate_static-IsWithinLimits raw types located.0 (static_error-nil i _ u) in
    let (n, m) = note_unit-nil i raw located.1 v in
    let z = type_index-seen s (parse_controller_unit raw) in
    (
      record {
        no_index =
            (int_eq_iff d.disk_controller_index (pos 0)).0 (ground (arith, error_if-nil _ _ p));
        type_index = located.0;
        address = a;
        parsed = e;
        limits = l;
      },
      rw z at n,
      m ∙ ap (λ t. (raw, i) ∷ t) z,
    )

prepare_blocks-nil :
    (types : List Text) (i : ℕ) (ds : List DiskConfig) (s : PrepareState)
    → prepare_blocks types i ds s ≡ []
    → (has_legacy ds ≡ true → is_empty types ≡ false)
    → All (IsPrepared types) ds × AllNew s.seen_units i ds
unfolding prepare_blocks
prepare_blocks-nil types i [] s h t = (tt, tt)
prepare_blocks-nil types i (d ∷ ds) s h t = elim (Bool-cases (is_empty d.disk_controller_unit)) [
  | inl e ↦
      let (ps, ns) = prepare_blocks-nil types (suc i) ds s (rw e at h) (λ _. t (rw e)) in
      ((rw e (t (rw e)), ps), rw e ns)
  | inr e ↦
      let (p, q) = append_nil_left (prepare_explicit types i d s).0 _ (rw e at h) in
      let (x, n, m) = prepare_explicit-nil types i d s p in
      let (ps, ns) =
        prepare_blocks-nil types (suc i) ds (prepare_explicit types i d s).1 q (λ l. t (rw e l)) in
      ((rw e x, ps), rw e (n, subst (λ z. AllNew z (suc i) ds) m ns))
]

-- A place in a list with a first item: that item, or a place in the rest.
place_cases {ℓ} :
    {A : Type ℓ} (x : A) (xs : List A) (j : ℕ) {y : A}
    → get_elem? (x ∷ xs) j ≡ some y
    → ((j ≡ 0) × (x ≡ y)) ⊎ ((k : ℕ) × (j ≡ suc k) × (get_elem? xs k ≡ some y))
place_cases x xs zero h = inl (refl, ground arith)
place_cases x xs (suc k) h = inr (k, refl, h)

known_after :
    (y raw : Text) (i : ℕ) (seen : List (Text × ℕ))
    → index_of_unit y seen ≢ none
    → index_of_unit y ((raw, i) ∷ seen) ≢ none
unfolding index_of_unit
known_after y raw i seen h e = h (ground arith)

known_now :
    (raw : Text) (i : ℕ) (seen : List (Text × ℕ)) → index_of_unit raw ((raw, i) ∷ seen) ≢ none
unfolding index_of_unit
known_now raw i seen e = ground (arith, text_eq_iff raw raw)

seen_elsewhere :
    (seen : List (Text × ℕ)) (i : ℕ) (ds : List DiskConfig) (j : ℕ) (y : Text)
    → AllNew seen i ds
    → index_of_unit y seen ≢ none
    → get_elem? (units_of ds) j ≡ some y
    → ⊥
seen_elsewhere seen i [] j y h m g = cc
seen_elsewhere seen i (d ∷ ds) j y h m g = elim (Bool-cases (is_empty d.disk_controller_unit)) [
  | inl e ↦ seen_elsewhere seen (suc i) ds j y (rw e at h) m (rw e at g)
  | inr e ↦
      let (n, r) = rw e at h in
      elim (place_cases d.disk_controller_unit (units_of ds) j (rw e at g)) [
        | inl (z, q) ↦ m (rw q at n)
        | inr (k, z, q) ↦
            seen_elsewhere ((d.disk_controller_unit, i) ∷ seen) (suc i) ds k y r
              (known_after y d.disk_controller_unit i seen m) q
      ]
]

AllNew-NoRepeat :
    (seen : List (Text × ℕ)) (i : ℕ) (ds : List DiskConfig)
    → AllNew seen i ds
    → NoRepeat (units_of ds)
AllNew-NoRepeat seen i [] h a b x p q = cc
AllNew-NoRepeat seen i (d ∷ ds) h a b x p q = elim (Bool-cases (is_empty d.disk_controller_unit)) [
  | inl e ↦ AllNew-NoRepeat seen (suc i) ds (rw e at h) a b x (rw e at p) (rw e at q)
  | inr e ↦
      let raw = d.disk_controller_unit in
      let (n, r) = rw e at h in
      elim (place_cases raw (units_of ds) a (rw e at p)) [
        | inl (a₀, x₀) ↦ elim (place_cases raw (units_of ds) b (rw e at q)) [
          | inl (b₀, y₀) ↦ a₀ ∙ sym b₀
          | inr (k, b₁, y₁) ↦ absurd (
              seen_elsewhere ((raw, i) ∷ seen) (suc i) ds k raw r (known_now raw i seen)
                (rw (sym x₀) at y₁))
        ]
        | inr (l, a₁, x₁) ↦ elim (place_cases raw (units_of ds) b (rw e at q)) [
          | inl (b₀, y₀) ↦ absurd (
              seen_elsewhere ((raw, i) ∷ seen) (suc i) ds l raw r (known_now raw i seen)
                (rw (sym y₀) at x₁))
          | inr (k, b₁, y₁) ↦
              a₁ ∙ ap suc (AllNew-NoRepeat ((raw, i) ∷ seen) (suc i) ds r l k x x₁ y₁) ∙ sym b₁
        ]
      ]
]

is_empty-nil {ℓ} : {A : Type ℓ} (xs : List A) → is_empty xs ≡ true → xs ≡ []
is_empty-nil [] h = refl
is_empty-nil (x ∷ xs) h = cc

no_units :
    (c : StorageConfig)
    → c.storage ≡ []
    → All (IsPrepared c.disk_controller_type) c.storage × NoRepeat (units_of c.storage)
no_units c e =
    subst (λ ds. All (IsPrepared c.disk_controller_type) ds × NoRepeat (units_of ds)) (sym e)
      (tt, λ i j x p q. cc)

types_given : (b e : Bool) → error_if (b && e) types_required ≡ [] → b ≡ true → e ≡ false
types_given b e h q = ground arith

-- Where the preparation reports no error, each storage block either has no unit, and then some
-- controller type is given, or has a unit that is parsed to an address within vSphere's limits, and
-- no controller index; and no unit is written twice.
pub prepare_storage-IsPrepared :
    (c : StorageConfig)
    → prepare_storage c ≡ []
    → All (IsPrepared c.disk_controller_type) c.storage × NoRepeat (units_of c.storage)
unfolding prepare_storage
prepare_storage-IsPrepared c h = elim (Bool-cases (is_empty c.storage)) [
  | inl e ↦ no_units c (is_empty-nil c.storage e)
  | inr e ↦
      let types = c.disk_controller_type in
      let (p, q) =
        append_nil_left (types_error (validate_disk_controller_types types)) _ (rw e at h) in
      let (u, v) = append_nil_left (prepare_blocks types 0 c.storage (start c)) _ q in
      let (ps, ns) =
        prepare_blocks-nil types 0 c.storage (start c) u
          (types_given (has_legacy c.storage) (is_empty types) v) in
      (ps, AllNew-NoRepeat [] 0 c.storage ns)
]
