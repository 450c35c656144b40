-- ===== src/Customize/Turns.antt =====
-- builder/vsphere/clone/step_customize.go: the gateway is given to the interfaces of its network, in
-- turn.
use packer_plugin_vsphere.Base.{
  ℕ, ◌≡◌, refl, subst, ◌≢◌, ◌↔◌, ◌⊎◌, inl, inr, Bool, true, false, ◌&&◌, not, Option, none, some,
  List, [], ◌∷◌, arith, Bool-cases, is_none, is_empty, All, Text,
}
use packer_plugin_vsphere.Customize.{NetworkInterface, CustomizeConfig}
use packer_plugin_vsphere.Customize.Interfaces.{
  NetPackage, match_gateway, cidr_mask, takes_gateway, gateway_if, IpSettings, nic_settings_map,
}
use packer_plugin_vsphere.Customize.Gateways.{
  IsMaskable, holds_gateway, Alternates, nic_settings_map-Alternates,
}

module _ {Ip : Type 0} (net : NetPackage Ip) (c : CustomizeConfig) where
  -- The number of bytes of an address.
  abbrev pub IsSize : Ip → ℕ → Type 0
  IsSize ip bytes = (net.is_v4 ip ≡ true) × (bytes ≡ 4) ⊎ (net.is_v4 ip ≡ false) × (bytes ≡ 16)

  -- An interface has an address, there is a gateway, and masked with the bits of the interface the two
  -- are one network.
  abbrev pub SharesNetwork : NetworkInterface → Type 0
  SharesNetwork n =
      let ip = net.parse_ip n.ipv4_address in
      let gateway = net.parse_ip c.ipv4_gateway in
      (n.ipv4_address ≢ [])
      × (c.ipv4_gateway ≢ [])
      × (bytes : ℕ) × IsSize ip bytes
      × (net.equal_ip (net.mask_ip ip (cidr_mask bytes n.ipv4_netmask))
            (net.mask_ip gateway (cidr_mask bytes n.ipv4_netmask))
          ≡ true)

  -- The interface has the gateway if it is its turn and it shares the network, and only then.
  abbrev pub Takes : Bool → NetworkInterface → Option Text → Type 0
  Takes found n got =
      (got ≡ some c.ipv4_gateway) × (found ≡ false) × SharesNetwork n
      ⊎ (got ≡ none) × ((found ≡ false) × SharesNetwork n → ⊥)

  -- One after the other; it is the turn of an interface if the one before it has no gateway.
  abbrev pub InTurn : Bool → List NetworkInterface → List IpSettings → Type 0
  InTurn found [] [] = Unit
  InTurn found [] (r ∷ rs) = ⊥
  InTurn found (n ∷ ns) [] = ⊥
  InTurn found (n ∷ ns) (r ∷ rs) = Takes found n r.gateway × InTurn (not (is_none r.gateway)) ns rs

  not_nil : (s : Text) → is_empty s ≡ false → s ≢ []
  not_nil s e = λ q. absurd (ground arith)

  is_given : (s : Text) → s ≢ [] → is_empty s ≡ false
  is_given [] n = absurd (n refl)
  is_given (x ∷ s) n = refl

  match_gateway-SharesNetwork :
      (n : NetworkInterface)
      → n.ipv4_address ≢ []
      → c.ipv4_gateway ≢ []
      → match_gateway net n.ipv4_address n.ipv4_netmask c.ipv4_gateway ≡ true
      → SharesNetwork n
  unfolding match_gateway
  match_gateway-SharesNetwork n a g h =
      elim (Bool-cases (net.is_v4 (net.parse_ip n.ipv4_address))) [
        | inl e ↦ (a, g, 4, inl (e, refl), rw (e, match_gateway) at h)
        | inr e ↦ (a, g, 16, inr (e, refl), rw (e, match_gateway) at h)
      ]

  SharesNetwork-match_gateway :
      (n : NetworkInterface)
      → SharesNetwork n
      → match_gateway net n.ipv4_address n.ipv4_netmask c.ipv4_gateway ≡ true
  unfolding match_gateway
  SharesNetwork-match_gateway n (a, g, bytes, inl (e, q), h) = rw (e, match_gateway) (rw q at h)
  SharesNetwork-match_gateway n (a, g, bytes, inr (e, q), h) = rw (e, match_gateway) (rw q at h)

  holds_gateway_iff :
      (n : NetworkInterface) → (holds_gateway (match_gateway net) c n ≡ true) ↔ SharesNetwork n
  unfolding takes_gateway
  holds_gateway_iff n = (
    λ h.
        match_gateway-SharesNetwork n (not_nil n.ipv4_address (ground arith))
          (not_nil c.ipv4_gateway (ground arith)) (ground arith),
    λ h.
        let m = SharesNetwork-match_gateway n h in
        let a = is_given n.ipv4_address h.0 in let g = is_given c.ipv4_gateway h.1 in ground arith,
  )

  taken-Takes :
      (found holds : Bool) (n : NetworkInterface) (got : Option Text)
      → holds_gateway (match_gateway net) c n ≡ holds
      → got ≡ gateway_if (match_gateway net) (not found && holds) c.ipv4_gateway
      → Takes found n got × ((not found && holds) ≡ not (is_none got))
  taken-Takes false true n got h e = (inl (e, refl, (holds_gateway_iff n).0 h), rw e refl)
  taken-Takes false false n got h e =
      (inr (e, λ p. let t = (holds_gateway_iff n).1 p.1 in absurd (ground arith)), rw e refl)
  taken-Takes true holds n got h e = (inr (e, λ p. absurd (ground arith)), rw e refl)

  Alternates-InTurn :
      (found : Bool) (ns : List NetworkInterface) (rs : List IpSettings)
      → Alternates (match_gateway net) c found ns rs
      → InTurn found ns rs
  Alternates-InTurn found [] [] h = tt
  Alternates-InTurn found [] (r ∷ rs) h = h
  Alternates-InTurn found (n ∷ ns) [] h = h
  Alternates-InTurn found (n ∷ ns) (r ∷ rs) (m, g, h) =
      let holds = holds_gateway (match_gateway net) c n in
      let taken = taken-Takes found holds n r.gateway refl g in
      (
        taken.0,
        subst (λ z. InTurn z ns rs) taken.1 (Alternates-InTurn (not found && holds) ns rs h),
      )

  -- Where every interface with an IPv4 address has a mask of 0 to 32 bits, `nicSettingsMap` makes the
  -- settings of all of them without a panic, and an interface has the IPv4 gateway exactly if the
  -- interface has an address, a gateway is given, the two are equal under the mask of the interface, and the
  -- interface before it has no gateway.
  pub nic_settings_map-InTurn :
      All IsMaskable c.network_interfaces
      → (rs : List IpSettings) × (nic_settings_map (match_gateway net) c ≡ some rs)
        × InTurn false c.network_interfaces rs
  nic_settings_map-InTurn ms =
      let (rs, e, h) = nic_settings_map-Alternates (match_gateway net) c ms in
      (rs, e, Alternates-InTurn false c.network_interfaces rs h)
