-- ===== src/Config/Allocation.antt =====
-- builder/vsphere/clone/storage_prepare.go: how the buses of the addresses share the controller types.
use packer_plugin_vsphere.Base.{
  ℕ, suc, ◌<◌, ◌≡◌, refl, sym, ap, ◌∙◌, ◌↔◌, inl, inr, true, some, List, ◌∷◌, arith, if◌then◌else◌,
  Bool-cases, Option-cases,
}
use packer_plugin_vsphere.Controller.{ControllerAddress}
use packer_plugin_vsphere.Config.Clone.{
  BusKey, bus_key_eq, PrepareState, index_of_bus, type_index_of,
}

-- The type indices of the buses are below the next one, and no two buses share one.
pub record IsAllocated (s : PrepareState) : Type 0 where
  pub below :
      (k : BusKey) (i : ℕ) → index_of_bus k s.bus_type_index ≡ some i → i < s.next_type_index
  pub not_shared :
      (j k : BusKey) (i : ℕ)
      → index_of_bus j s.bus_type_index ≡ some i
      → index_of_bus k s.bus_type_index ≡ some i
      → j ≡ k

bus_key_eq_iff : (j k : BusKey) → (bus_key_eq j k ≡ true) ↔ (j ≡ k)
bus_key_eq_iff j k = (λ h. ground arith, λ h. ground arith)

index_of_bus-cons :
    (j k : BusKey) (i : ℕ) (m : List (BusKey × ℕ))
    → index_of_bus k ((j, i) ∷ m) ≡ (if bus_key_eq j k then some i else index_of_bus k m)
unfolding index_of_bus
index_of_bus-cons j k i m = refl

allocate :
    (s : PrepareState) (key : BusKey)
    → IsAllocated s
    → IsAllocated (record s {
      next_type_index = suc s.next_type_index;
      bus_type_index = (key, s.next_type_index) ∷ s.bus_type_index;
    })
unfolding index_of_bus
allocate s key v = record {
  below = λ k i h. elim (Bool-cases (bus_key_eq key k)) [
    | inl e ↦ ground arith
    | inr e ↦ let l = v.below k i (rw (e, index_of_bus) at h) in omega arith
  ];
  not_shared = λ j k i h g. elim (Bool-cases (bus_key_eq key j)) [
    | inl e ↦ elim (Bool-cases (bus_key_eq key k)) [
      | inl f ↦ sym ((bus_key_eq_iff key j).0 e) ∙ (bus_key_eq_iff key k).0 f
      | inr f ↦ let l = v.below k i (rw f at g) in absurd (ground arith)
    ]
    | inr e ↦ elim (Bool-cases (bus_key_eq key k)) [
      | inl f ↦ let l = v.below j i (rw e at h) in absurd (ground arith)
      | inr f ↦ v.not_shared j k i (rw e at h) (rw f at g)
    ]
  ];
}

allocated_already :
    (m : List (BusKey × ℕ)) (key k : BusKey) (i : ℕ)
    → index_of_bus key m ≡ some i
    → index_of_bus k m ≡ (if bus_key_eq key k then some i else index_of_bus k m)
allocated_already m key k i h = elim (Bool-cases (bus_key_eq key k)) [
  | inl e ↦ rw e (ap (λ z. index_of_bus z m) (sym ((bus_key_eq_iff key k).0 e)) ∙ h)
  | inr e ↦ rw e
]

-- Where the buses met so far have type indices of their own, they have so after one more address;
-- and then the bus of the address has the index that is given for it, and every other bus has the
-- one that it had.
pub type_index_of-IsAllocated :
    (s : PrepareState) (a : ControllerAddress) (k : BusKey)
    → IsAllocated s
    → let (i, s') = type_index_of s a in
      IsAllocated s'
      × (index_of_bus k s'.bus_type_index ≡ (
          if bus_key_eq (record { kind = a.kind; bus = a.bus }) k
          then some i
          else index_of_bus k s.bus_type_index))
unfolding type_index_of
type_index_of-IsAllocated s a k v =
    let key : BusKey = record { kind = a.kind; bus = a.bus } in
    elim (Option-cases (index_of_bus key s.bus_type_index)) [
      | inr (i, e) ↦ rw (e, type_index_of) (v, allocated_already s.bus_type_index key k i e)
      | inl e ↦
          rw (e, type_index_of)
            (allocate s key v, index_of_bus-cons key k s.next_type_index s.bus_type_index)
    ]
