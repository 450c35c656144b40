-- ===== src/Customize/Gateways.antt =====
-- builder/vsphere/clone/step_customize.go: which interfaces get the gateway, and when the settings of
-- the interfaces can be computed.
use packer_plugin_vsphere.Base.{
  ℕ, ◌≤◌, ◌≡◌, refl, ap, subst, ◌⊎◌, inl, inr, Bool, true, false, ◌&&◌, not, Option, none, some,
  List, [], ◌∷◌, arith, leb, if◌then◌else◌, leb→le, Bool-cases, ℤ, pos, negsuc, is_empty, All, Text,
}
use packer_plugin_vsphere.Customize.{NetworkInterface, CustomizeConfig}
use packer_plugin_vsphere.Customize.Interfaces.{
  dotted_if, mask_bytes, cidr_mask, mask_to_dotted, IpSettings, takes_gateway, gateway_if,
  ipv6_settings, dhcp_settings, fixed_settings, then_settings, after_interface, ip_settings,
  nic_settings, nic_settings_map,
}

-- A mask that `net.CIDRMask` takes.
abbrev pub IsMask : ℤ → Type 0
IsMask m = (k : ℕ) × (m ≡ pos k) × (k ≤ 32)

abbrev pub IsMaskable : NetworkInterface → Type 0
IsMaskable n = n.ipv4_address ≡ [] ⊎ IsMask n.ipv4_netmask

mask_to_dotted-IsMask : (m : ℤ) (t : Text) → mask_to_dotted m ≡ some t → IsMask m
unfolding mask_to_dotted cidr_mask
mask_to_dotted-IsMask (pos n) t h = elim (Bool-cases (leb n 32)) [
  | inl e ↦ (n, refl, leb→le n 32 e)
  | inr e ↦ absurd (ground arith)
]
mask_to_dotted-IsMask (negsuc n) t h = absurd (ground arith)

abbrev pub IsGiven {ℓ} : {A : Type ℓ} → Option A → Type 0
IsGiven none = ⊥
IsGiven (some x) = Unit

dotted_if-IsGiven :
    (n : ℕ) (b : Bool) → b ≡ true → IsGiven (dotted_if (if b then some (mask_bytes 4 n) else none))
dotted_if-IsGiven n true h = tt
dotted_if-IsGiven n false h = absurd (ground arith)

mask_to_dotted-IsGiven : (m : ℤ) → IsMask m → IsGiven (mask_to_dotted m)
unfolding mask_to_dotted cidr_mask
mask_to_dotted-IsGiven (pos n) (k, e, l) = dotted_if-IsGiven n (leb n 32) (ground arith)
mask_to_dotted-IsGiven (negsuc n) (k, e, l) = absurd (ground arith)

module _ (matches : Text → ℤ → Text → Bool) (c : CustomizeConfig) where
  -- An interface with an address, whose network holds the gateway.
  abbrev pub holds_gateway : NetworkInterface → Bool
  holds_gateway n =
      not (is_empty n.ipv4_address)
      && takes_gateway matches n.ipv4_address n.ipv4_netmask c.ipv4_gateway

  -- An interface gets the gateway exactly if its network holds it, and the one before has not got it.
  abbrev pub Alternates : Bool → List NetworkInterface → List IpSettings → Type 0
  Alternates found [] [] = Unit
  Alternates found [] (r ∷ rs) = ⊥
  Alternates found (n ∷ ns) [] = ⊥
  Alternates found (n ∷ ns) (r ∷ rs) =
      let here = not found && holds_gateway n in
      IsMaskable n × (r.gateway ≡ gateway_if matches here c.ipv4_gateway) × Alternates here ns rs

  -- What one interface gets, and what it tells the next.
  abbrev pub Gets : NetworkInterface → Bool → Option (IpSettings × Bool × Bool) → Type 0
  Gets n a none = Unit
  Gets n a (some (r, x, y)) =
      IsMaskable n
      × (x ≡ (a && holds_gateway n))
      × (r.gateway ≡ gateway_if matches (a && holds_gateway n) c.ipv4_gateway)

  is_empty_eq : (s : Text) → is_empty s ≡ true → s ≡ []
  is_empty_eq [] h = refl
  is_empty_eq (x ∷ s) h = absurd (ground arith)

  fixed_settings-Gets :
      (n : NetworkInterface) (a : Bool) (v6 : Option (Text × ℤ × Option Text) × Bool)
      (o : Option Text)
      → is_empty n.ipv4_address ≡ false
      → mask_to_dotted n.ipv4_netmask ≡ o
      → Gets n a (
          fixed_settings matches c n
            (a && takes_gateway matches n.ipv4_address n.ipv4_netmask c.ipv4_gateway)
            v6
            o)
  fixed_settings-Gets n a v6 none h e = tt
  fixed_settings-Gets n a (v, w) (some t) h e =
      let g = takes_gateway matches n.ipv4_address n.ipv4_netmask c.ipv4_gateway in
      let same : (a && g) ≡ (a && (not (is_empty n.ipv4_address) && g)) = rw h in
      (
        inr (mask_to_dotted-IsMask n.ipv4_netmask t e),
        same,
        ap (λ z. gateway_if matches z c.ipv4_gateway) same,
      )

  either-Gets :
      (n : NetworkInterface) (a : Bool) (v6 : Option (Text × ℤ × Option Text) × Bool) (e : Bool)
      → is_empty n.ipv4_address ≡ e
      → Gets n a (
          if e
          then some (dhcp_settings matches n v6.0, false, v6.1)
          else fixed_settings matches c n
              (a && takes_gateway matches n.ipv4_address n.ipv4_netmask c.ipv4_gateway)
              v6
              (mask_to_dotted n.ipv4_netmask))
  either-Gets n a v6 true h =
      let g = takes_gateway matches n.ipv4_address n.ipv4_netmask c.ipv4_gateway in
      let same : false ≡ (a && (not (is_empty n.ipv4_address) && g)) = ground arith in
      (inl (is_empty_eq n.ipv4_address h), same, ap (λ z. gateway_if matches z c.ipv4_gateway) same)
  either-Gets n a v6 false h = fixed_settings-Gets n a v6 (mask_to_dotted n.ipv4_netmask) h refl

  ip_settings-Gets : (n : NetworkInterface) (a b : Bool) → Gets n a (ip_settings matches c n a b)
  unfolding ip_settings
  ip_settings-Gets n a b =
      either-Gets n a (ipv6_settings matches c n b) (is_empty n.ipv4_address) refl

  then_settings-Alternates :
      (n : NetworkInterface) (ns : List NetworkInterface) (found x : Bool) (r : IpSettings)
      (o : Option (List IpSettings))
      (step : (rs : List IpSettings) → o ≡ some rs → Alternates x ns rs) (m : IsMaskable n)
      (e : x ≡ (not found && holds_gateway n))
      (g : r.gateway ≡ gateway_if matches (not found && holds_gateway n) c.ipv4_gateway)
      (rs : List IpSettings)
      → then_settings matches r o ≡ some rs
      → Alternates found (n ∷ ns) rs
  then_settings-Alternates n ns found x r none step m e g rs h = absurd (ground arith)
  then_settings-Alternates n ns found x r (some t) step m e g rs h =
      let whole : Alternates found (n ∷ ns) (r ∷ t) =
        (m, g, subst (λ z. Alternates z ns t) e (step t refl)) in
      subst (Alternates found (n ∷ ns)) {x = r ∷ t} (cc) whole

  after_interface-Alternates :
      (n : NetworkInterface) (ns : List NetworkInterface) (found : Bool)
      (rest : Bool → Bool → Option (List IpSettings))
      (step : (a b : Bool) (rs : List IpSettings) → rest a b ≡ some rs → Alternates a ns rs)
      (got : Option (IpSettings × Bool × Bool)) (gets : Gets n (not found) got)
      (rs : List IpSettings)
      → after_interface matches rest got ≡ some rs
      → Alternates found (n ∷ ns) rs
  after_interface-Alternates n ns found rest step none gets rs h = absurd (ground arith)
  after_interface-Alternates n ns found rest step (some (r, x, y)) (m, e, g) rs h =
      then_settings-Alternates n ns found x r (rest x y) (step x y) m e g rs h

  nic_settings-Alternates :
      (ns : List NetworkInterface) (a b : Bool) (rs : List IpSettings)
      → nic_settings matches c a b ns ≡ some rs
      → Alternates a ns rs
  unfolding nic_settings
  nic_settings-Alternates [] a b [] h = tt
  nic_settings-Alternates [] a b (r ∷ rs) h = absurd (ground arith)
  nic_settings-Alternates (n ∷ ns) a b rs h =
      after_interface-Alternates n ns a (λ x y. nic_settings matches c x y ns)
        (nic_settings-Alternates ns) (ip_settings matches c n (not a) (not b))
        (ip_settings-Gets n (not a) (not b)) rs h

  Alternates-IsMaskable :
      (ns : List NetworkInterface) (a : Bool) (rs : List IpSettings)
      → Alternates a ns rs
      → All IsMaskable ns
  Alternates-IsMaskable [] a rs h = tt
  Alternates-IsMaskable (n ∷ ns) a [] h = absurd h
  Alternates-IsMaskable (n ∷ ns) a (r ∷ rs) (m, g, h) =
      (m, Alternates-IsMaskable ns (not a && holds_gateway n) rs h)

  IsGiven-some : {A : Type 0} (o : Option A) → IsGiven o → (x : A) × (o ≡ some x)
  IsGiven-some none g = absurd g
  IsGiven-some (some x) g = (x, refl)

  fixed_settings-IsGiven :
      (n : NetworkInterface) (f : Bool) (v6 : Option (Text × ℤ × Option Text) × Bool)
      (o : Option Text)
      → IsGiven o
      → IsGiven (fixed_settings matches c n f v6 o)
  fixed_settings-IsGiven n f v6 none g = absurd g
  fixed_settings-IsGiven n f (v, w) (some t) g = tt

  either-IsGiven :
      (n : NetworkInterface) (a : Bool) (v6 : Option (Text × ℤ × Option Text) × Bool) (e : Bool)
      → is_empty n.ipv4_address ≡ e
      → IsMaskable n
      → IsGiven (
          if e
          then some (dhcp_settings matches n v6.0, false, v6.1)
          else fixed_settings matches c n a v6 (mask_to_dotted n.ipv4_netmask))
  either-IsGiven n a v6 true h m = tt
  either-IsGiven n a v6 false h (inl m) = absurd (ground arith)
  either-IsGiven n a v6 false h (inr m) =
      fixed_settings-IsGiven n a v6 (mask_to_dotted n.ipv4_netmask)
        (mask_to_dotted-IsGiven n.ipv4_netmask m)

  ip_settings-IsGiven :
      (n : NetworkInterface) (a b : Bool) → IsMaskable n → IsGiven (ip_settings matches c n a b)
  unfolding ip_settings
  ip_settings-IsGiven n a b m =
      either-IsGiven n (a && takes_gateway matches n.ipv4_address n.ipv4_netmask c.ipv4_gateway)
        (ipv6_settings matches c n b) (is_empty n.ipv4_address) refl m

  then_settings-IsGiven :
      (r : IpSettings) (o : Option (List IpSettings))
      → IsGiven o
      → IsGiven (then_settings matches r o)
  then_settings-IsGiven r none g = g
  then_settings-IsGiven r (some rs) g = tt

  after_interface-IsGiven :
      (rest : Bool → Bool → Option (List IpSettings)) (got : Option (IpSettings × Bool × Bool))
      → IsGiven got
      → ((a b : Bool) → IsGiven (rest a b))
      → IsGiven (after_interface matches rest got)
  after_interface-IsGiven rest none g all = g
  after_interface-IsGiven rest (some (r, x, y)) g all = then_settings-IsGiven r (rest x y) (all x y)

  nic_settings-IsGiven :
      (ns : List NetworkInterface) (a b : Bool)
      → All IsMaskable ns
      → IsGiven (nic_settings matches c a b ns)
  unfolding nic_settings
  nic_settings-IsGiven [] a b ms = tt
  nic_settings-IsGiven (n ∷ ns) a b (m, ms) =
      after_interface-IsGiven (λ x y. nic_settings matches c x y ns)
        (ip_settings matches c n (not a) (not b)) (ip_settings-IsGiven n (not a) (not b) m)
        (λ x y. nic_settings-IsGiven ns x y ms)

  pub nic_settings_map-Alternates :
      All IsMaskable c.network_interfaces
      → (rs : List IpSettings) × (nic_settings_map matches c ≡ some rs)
        × Alternates false c.network_interfaces rs
  unfolding nic_settings_map
  nic_settings_map-Alternates ms =
      let (rs, e) =
        IsGiven-some (nic_settings_map matches c)
          (nic_settings-IsGiven c.network_interfaces false false ms) in
      (rs, e, nic_settings-Alternates c.network_interfaces false false rs e)

  -- If `nicSettingsMap` does not panic, every interface with an IPv4 address has a mask of 0 to 32
  -- bits.
  pub nic_settings_map-IsMaskable :
      (rs : List IpSettings)
      → nic_settings_map matches c ≡ some rs
      → All IsMaskable c.network_interfaces
  unfolding nic_settings_map
  nic_settings_map-IsMaskable rs e =
      Alternates-IsMaskable c.network_interfaces false rs
        (nic_settings-Alternates c.network_interfaces false false rs e)
