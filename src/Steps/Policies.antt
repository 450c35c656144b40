-- ===== src/Steps/Policies.antt =====
-- builder/vsphere/common/step_resolve_datastore.go: the cache of the placement by storage policies.
use packer_plugin_vsphere.Base.{
  ℕ, suc, ◌≡◌, refl, sym, subst, inl, inr, ◌||◌, not, Option, none, some, List, [], ◌∷◌, arith,
  if◌then◌else◌, Bool-cases, is_empty, Result, ok, err, ◌>>=◌, Result-cases, map_err-eq-ok, Text,
  text_eq, text_eq_iff,
}
use packer_plugin_vsphere.Storage.{Disk, DiskDatastore}
use packer_plugin_vsphere.Steps.{
  Datastore, ChosenBy, StepError, StateBag, halt_with, PlacementDriver,
}
use packer_plugin_vsphere.Steps.Resolve.{
  ResolveDatastore, resolve_datastore, placed_on, cached_datastore, look_up, primary_for,
  place_policy_disk, place_policy_disks, has_policy, seeded_cache, resolve_policy_placement,
  policy_id_of, keep_datastore, keep_policy, compatible_for, from_policy, name_of_placements,
}

-- An answer that the driver gives for the policy of that ID.
abbrev pub IsCompatible : PlacementDriver → Text → Text → Text → Datastore → Type 0
IsCompatible d host cluster id ds = d.find_compatible_datastore id host cluster ≡ ok ds

-- Each disk on its own, every policy asked for again.
unfoldable pub place_alone :
    PlacementDriver → Text → Text → Option Datastore → ℕ → Disk → Result StepError Datastore
place_alone d host cluster primary i disk =
    if is_empty disk.storage_policy_id
    then primary_for i primary
    else look_up d host cluster i disk.storage_policy_id

unfoldable pub place_each :
    PlacementDriver
    → Text
    → Text
    → Option Datastore
    → ℕ
    → List Disk
    → Result StepError (List DiskDatastore)
place_each d host cluster primary i [] = ok []
place_each d host cluster primary i (disk ∷ disks) = do
  ds ← place_alone d host cluster primary i disk
  rest ← place_each d host cluster primary (suc i) disks
  ok (placed_on ds ∷ rest)

module _ (d : PlacementDriver) (host cluster : Text) where
  -- Every entry is an answer of the driver.
  abbrev IsCoherent : List (Text × Datastore) → Type 0
  IsCoherent [] = Unit
  IsCoherent ((id, ds) ∷ cache) = IsCompatible d host cluster id ds × IsCoherent cache

  cached_datastore-IsCompatible :
      (id : Text) (cache : List (Text × Datastore)) {ds : Datastore}
      → IsCoherent cache
      → cached_datastore id cache ≡ some ds
      → IsCompatible d host cluster id ds
  unfolding cached_datastore
  cached_datastore-IsCompatible id [] {ds} c h = cc
  cached_datastore-IsCompatible id ((j, e) ∷ cache) {ds} (c, cs) h =
      elim (Bool-cases (text_eq j id)) [
        | inl q ↦
            let same : e ≡ ds = ground (arith, rw q at h) in
            subst (λ z. IsCompatible d host cluster z ds) ((text_eq_iff j id).0 q)
              (subst (λ z. IsCompatible d host cluster j z) same c)
        | inr q ↦ cached_datastore-IsCompatible id cache cs (rw q at h)
      ]

  look_up-IsCompatible :
      (i : ℕ) (id : Text) {ds : Datastore}
      → look_up d host cluster i id ≡ ok ds
      → IsCompatible d host cluster id ds
  unfolding look_up
  look_up-IsCompatible i id h = map_err-eq-ok _ _ h

  compatible_look_up :
      (i : ℕ) (id : Text) {ds : Datastore}
      → IsCompatible d host cluster id ds
      → look_up d host cluster i id ≡ ok ds
  unfolding look_up
  compatible_look_up i id h = rw h

  -- What one round with a cache gives: the datastore of the disk alone, and a coherent cache.
  IsRound :
      Result StepError Datastore → Result StepError (Datastore × List (Text × Datastore)) → Type 0
  IsRound (err e) r = r ≡ err e
  IsRound (ok ds) r = (cache : List (Text × Datastore)) × (r ≡ ok (ds, cache)) × IsCoherent cache

  looked_up :
      (id : Text) (r : Result StepError Datastore) (cache : List (Text × Datastore))
      → IsCoherent cache
      → ((ds : Datastore) → r ≡ ok ds → IsCompatible d host cluster id ds)
      → IsRound r (r >>= λ ds. ok (ds, (id, ds) ∷ cache))
  unfolding IsRound
  looked_up id (err e) cache c h = refl
  looked_up id (ok ds) cache c h = ((id, ds) ∷ cache, refl, (h ds refl, c))

  unchanged :
      (r : Result StepError Datastore) (cache : List (Text × Datastore))
      → IsCoherent cache
      → IsRound r (r >>= λ ds. ok (ds, cache))
  unfolding IsRound
  unchanged (err e) cache c = refl
  unchanged (ok ds) cache c = (cache, refl, c)

  cached_place-IsRound :
      (i : ℕ) (id : Text) (cache : List (Text × Datastore)) (o : Option Datastore)
      → o ≡ cached_datastore id cache
      → IsCoherent cache
      → IsRound (look_up d host cluster i id) (elim o [
        | some ds ↦ ok (ds, cache)
        | none ↦ look_up d host cluster i id >>= λ ds. ok (ds, (id, ds) ∷ cache)
      ])
  unfolding IsRound
  cached_place-IsRound i id cache none h c =
      looked_up id (look_up d host cluster i id) cache c (λ ds. look_up-IsCompatible i id)
  cached_place-IsRound i id cache (some ds) h c =
      rw (compatible_look_up i id (cached_datastore-IsCompatible id cache c (sym h)))
        (cache, refl, c)

  place_policy_disk-IsRound :
      (primary : Option Datastore) (i : ℕ) (disk : Disk) (cache : List (Text × Datastore))
      → IsCoherent cache
      → IsRound
          (place_alone d host cluster primary i disk)
          (place_policy_disk d host cluster primary i disk cache)
  unfolding place_policy_disk place_alone
  place_policy_disk-IsRound primary i disk cache c =
      elim (Bool-cases (is_empty disk.storage_policy_id)) [
        | inl e ↦ rw e (unchanged (primary_for i primary) cache c)
        | inr e ↦ rw e (cached_place-IsRound i disk.storage_policy_id cache _ refl c)
      ]

  place_policy_disks-place_each :
      (primary : Option Datastore) (i : ℕ) (disks : List Disk) (cache : List (Text × Datastore))
      → IsCoherent cache
      → place_policy_disks d host cluster primary i disks cache
        ≡ place_each d host cluster primary i disks
  unfolding place_policy_disks place_each IsRound
  place_policy_disks-place_each primary i [] cache c = refl
  place_policy_disks-place_each primary i (disk ∷ disks) cache c =
      let round = place_policy_disk-IsRound primary i disk cache c in
      elim (Result-cases (place_alone d host cluster primary i disk)) [
        | inl (e, q) ↦ rw (rw q at round) (rw q refl)
        | inr (ds, q) ↦
            let (next, step, c') = rw q at round in
            let rest = place_policy_disks-place_each primary (suc i) disks next c' in
            rw (step, q, rest)
      ]

-- The placement by policies with no cache.
unfoldable pub place_without_cache :
    PlacementDriver
    → ResolveDatastore
    → List Disk
    → Option Datastore
    → Text
    → Result StepError (Text × List DiskDatastore)
place_without_cache d c disks primary name =
    if not (is_empty c.store) || not (is_empty c.datastore_cluster)
    then ok (name, [])
    else if not (has_policy disks)
    then ok (name, [])
    else (place_each d c.host c.cluster primary 0 disks >>= λ placements.
        ok (name_of_placements name primary placements, placements))

module _ (d : PlacementDriver) (c : ResolveDatastore) where
  -- The datastore in the state is the answer for the policy in the state.
  abbrev IsSeeded : StateBag → Type 0
  IsSeeded s =
      (id : Text)
      → s.storage_policy_id ≡ some id
      → (ds : Datastore) × (s.chosen_datastore ≡ some ds) × IsCompatible d c.host c.cluster id ds

  no_policy-IsSeeded : (s : StateBag) → s.storage_policy_id ≡ none → IsSeeded s
  no_policy-IsSeeded s h id q = ground arith

  keep_datastore-IsSeeded :
      (s : StateBag) (r : Result StepError (Datastore × ChosenBy))
      → s.storage_policy_id ≡ none
      → IsSeeded (keep_datastore s r).1
  unfolding keep_datastore halt_with
  keep_datastore-IsSeeded s (err e) h id q = ground arith
  keep_datastore-IsSeeded s (ok (ds, by)) h id q = ground arith

  keep_policy-IsSeeded :
      (s : StateBag) (id : Text) (r : Result StepError Datastore)
      → s.storage_policy_id ≡ none
      → ((ds : Datastore) → r ≡ ok ds → IsCompatible d c.host c.cluster id ds)
      → IsSeeded (keep_policy s id r).1
  unfolding keep_policy keep_datastore halt_with
  keep_policy-IsSeeded s id (err e) h k j p = ground arith
  keep_policy-IsSeeded s id (ok ds) h k j p =
      let same : id ≡ j = ground arith in
      (ds, refl, subst (λ z. IsCompatible d c.host c.cluster z ds) same (k ds refl))

  from_policy-IsSeeded :
      (s : StateBag) (r : Result StepError Text)
      → s.storage_policy_id ≡ none
      → IsSeeded (from_policy d c s r).1
  unfolding from_policy halt_with compatible_for
  from_policy-IsSeeded s (err e) h = no_policy-IsSeeded s h
  from_policy-IsSeeded s (ok id) h =
      keep_policy-IsSeeded s id (compatible_for d c id) h (λ ds. map_err-eq-ok _ _)

  resolve_datastore-IsSeeded :
      (s : StateBag) → s.storage_policy_id ≡ none → IsSeeded (resolve_datastore d c s).1
  unfolding resolve_datastore
  resolve_datastore-IsSeeded s h = elim (Bool-cases (is_empty c.store)) [
    | inr e ↦ rw e (keep_datastore-IsSeeded s _ h)
    | inl e ↦ elim (Bool-cases (is_empty c.datastore_cluster)) [
      | inr f ↦ rw (e, f) (keep_datastore-IsSeeded s _ h)
      | inl f ↦ elim (Bool-cases (is_empty c.storage_policy)) [
        | inr g ↦ rw (e, f, g) (from_policy-IsSeeded s _ h)
        | inl g ↦ rw (e, f, g) (no_policy-IsSeeded s h)
      ]
    ]
  ]

  seeded_cache-IsCoherent :
      (o : Option Text) (p : Option Datastore)
      → ((id : Text)
          → o ≡ some id
          → (ds : Datastore) × (p ≡ some ds) × IsCompatible d c.host c.cluster id ds)
      → IsCoherent d c.host c.cluster (seeded_cache (elim o [ none ↦ [] | some id ↦ id ]) p)
  unfolding seeded_cache
  seeded_cache-IsCoherent none none h = tt
  seeded_cache-IsCoherent none (some ds) h = tt
  seeded_cache-IsCoherent (some id) none h = tt
  seeded_cache-IsCoherent (some id) (some ds) h = elim (Bool-cases (is_empty id)) [
    | inl e ↦ rw e tt
    | inr e ↦
        let (es, p, k) = h id refl in
        let same : es ≡ ds = ground arith in
        rw e (subst (λ z. IsCompatible d c.host c.cluster id z) same k, tt)
  ]

  -- After the step that resolves the datastore, in a build that had no policy in its state, the
  -- placement by policies is the one with no cache: every disk with a policy is put where the driver
  -- answers for its policy, every other disk on the datastore of the virtual machine, and the first
  -- disk without an answer ends it with its error.
  pub resolve_policy_placement-place_without_cache :
      (s : StateBag) (disks : List Disk) (name : Text)
      → s.storage_policy_id ≡ none
      → let s' = (resolve_datastore d c s).1 in
        resolve_policy_placement d c.host c.cluster disks s'.chosen_datastore name c.store
          c.datastore_cluster
          (policy_id_of s')
        ≡ place_without_cache d c disks s'.chosen_datastore name
  unfolding resolve_policy_placement place_without_cache
  resolve_policy_placement-place_without_cache s disks name h =
      let s' = (resolve_datastore d c s).1 in
      let coherent =
        seeded_cache-IsCoherent s'.storage_policy_id s'.chosen_datastore
          (resolve_datastore-IsSeeded s h) in
      rw
        (place_policy_disks-place_each d c.host c.cluster s'.chosen_datastore 0 disks
          (seeded_cache (policy_id_of s') s'.chosen_datastore) coherent)
        refl
