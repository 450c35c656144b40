-- ===== src/Customize/Interfaces.antt =====
-- builder/vsphere/clone/step_customize.go: the settings of the interfaces of a guest, with the gateway
-- of its network, and the step that sends them.
use packer_plugin_vsphere.Base.{
  ℕ, zero, suc, ◌-◌, ◌*◌, ◌/◌, ◌%◌, Bool, true, false, ◌&&◌, not, Option, none, some, List, [], ◌∷◌,
  ◌++◌, leb, if◌then◌else◌, ℤ, pos, negsuc, is_empty, Result, ok, ◌>>=◌, ◌>>◌, map_err, Text, itoa,
  to_int32, ◌^◌,
}
use packer_plugin_vsphere.Customize.{
  NetworkInterface, CustomizeConfig, CustomizeError, customize_failed, Identity, identity_settings,
}

-- One byte of `net.CIDRMask`, of which that many bits are left.
unfoldable pub mask_byte : ℕ → ℕ
mask_byte n = if leb 8 n then 255 else 255 - 255 / 2 ^ n

unfoldable pub mask_bytes : ℕ → ℕ → List ℕ
mask_bytes zero n = []
mask_bytes (suc k) n = mask_byte n ∷ mask_bytes k (n - 8)

-- `net.CIDRMask`, of that many bytes; `nil` where the number is negative or has too many bits.
unfoldable pub cidr_mask : ℕ → ℤ → Option (List ℕ)
cidr_mask bytes (pos n) = if leb n (8 * bytes) then some (mask_bytes bytes n) else none
cidr_mask bytes (negsuc n) = none

abbrev pub dotted : List ℕ → Text
dotted [] = []
dotted (b ∷ []) = itoa b
dotted (b ∷ c ∷ bs) = itoa b ++ (b'.' ∷ dotted (c ∷ bs))

abbrev pub dotted_if : Option (List ℕ) → Option Text
dotted_if none = none
dotted_if (some bytes) = some (dotted bytes)

-- `v4CIDRMaskToDotted`; `none` is the panic of an index into a mask that is `nil`.
unfoldable pub mask_to_dotted : ℤ → Option Text
mask_to_dotted n = dotted_if (cidr_mask 4 n)

pub record IpSettings : Type 0 where
  pub ip : Option Text
  pub subnet_mask : Text
  pub gateway : Option Text
  pub dns_server_list : List Text
  pub dns_domain : Text
  pub ipv6 : Option (Text × ℤ × Option Text)

-- `int32(n)` for any `int`.
unfoldable pub int32_of : ℤ → ℤ
int32_of (pos n) = to_int32 n
int32_of (negsuc n) = to_int32 (4294967295 - n % 4294967296)

-- The functions of Go's package `net` on an address: `ParseIP`, whether `To4` gives one, `Mask`, and
-- `Equal`.
pub record NetPackage (Ip : Type 0) : Type 0 where
  pub parse_ip : Text → Ip
  pub is_v4 : Ip → Bool
  pub mask_ip : Ip → Option (List ℕ) → Ip
  pub equal_ip : Ip → Ip → Bool

-- `matchGateway`.
unfoldable pub match_gateway : {Ip : Type 0} → NetPackage Ip → Text → ℤ → Text → Bool
match_gateway net a m g =
    let ip = net.parse_ip a in
    let mask = if net.is_v4 ip then cidr_mask 4 m else cidr_mask 16 m in
    net.equal_ip (net.mask_ip ip mask) (net.mask_ip (net.parse_ip g) mask)

-- What follows depends on whether a gateway is in the network of an address.
module _ (matches : Text → ℤ → Text → Bool) where
  -- Whether an address gets the gateway.
  unfoldable pub takes_gateway : Text → ℤ → Text → Bool
  takes_gateway address mask gateway = not (is_empty gateway) && matches address mask gateway

  abbrev pub gateway_if : Bool → Text → Option Text
  gateway_if true gateway = some gateway
  gateway_if false gateway = none

  -- `IPSettingsIPV6Address`.
  unfoldable pub ipv6_settings :
      CustomizeConfig → NetworkInterface → Bool → Option (Text × ℤ × Option Text) × Bool
  ipv6_settings c n add =
      let found = add && takes_gateway n.ipv6_address n.ipv6_netmask c.ipv6_gateway in
      if is_empty n.ipv6_address
      then (none, false)
      else (some (n.ipv6_address, int32_of n.ipv6_netmask, gateway_if found c.ipv6_gateway), found)

  -- The settings of an interface with no address of its own, and with one, whose mask is printed.
  abbrev pub dhcp_settings : NetworkInterface → Option (Text × ℤ × Option Text) → IpSettings
  dhcp_settings n v6 = record {
    ip = none;
    subnet_mask = [];
    gateway = none;
    dns_server_list = n.dns_server_list;
    dns_domain = n.dns_domain;
    ipv6 = v6;
  }

  abbrev pub fixed_settings :
      CustomizeConfig
      → NetworkInterface
      → Bool
      → Option (Text × ℤ × Option Text) × Bool
      → Option Text
      → Option (IpSettings × Bool × Bool)
  fixed_settings c n found v6 none = none
  fixed_settings c n found (v6, found_6) (some mask) = some (
    record {
      ip = some n.ipv4_address;
      subnet_mask = mask;
      gateway = gateway_if found c.ipv4_gateway;
      dns_server_list = n.dns_server_list;
      dns_domain = n.dns_domain;
      ipv6 = v6;
    },
    found,
    found_6,
  )

  -- `ipSettings`; the Booleans are whether a gateway was found.
  unfoldable pub ip_settings :
      CustomizeConfig → NetworkInterface → Bool → Bool → Option (IpSettings × Bool × Bool)
  ip_settings c n add_4 add_6 =
      let v6 = ipv6_settings c n add_6 in
      let found_4 = add_4 && takes_gateway n.ipv4_address n.ipv4_netmask c.ipv4_gateway in
      if is_empty n.ipv4_address
      then some (dhcp_settings n v6.0, false, v6.1)
      else fixed_settings c n found_4 v6 (mask_to_dotted n.ipv4_netmask)

  abbrev pub then_settings : IpSettings → Option (List IpSettings) → Option (List IpSettings)
  then_settings r none = none
  then_settings r (some rs) = some (r ∷ rs)

  -- What the rest of the interfaces makes of the gateways that one has found.
  abbrev pub after_interface :
      (Bool → Bool → Option (List IpSettings))
      → Option (IpSettings × Bool × Bool)
      → Option (List IpSettings)
  after_interface rest none = none
  after_interface rest (some (r, found_4, found_6)) = then_settings r (rest found_4 found_6)

  -- The loop of `nicSettingsMap`: what the interface before has found decides.
  unfoldable pub nic_settings :
      CustomizeConfig → Bool → Bool → List NetworkInterface → Option (List IpSettings)
  nic_settings c found_4 found_6 [] = some []
  nic_settings c found_4 found_6 (n ∷ ns) =
      after_interface (λ a b. nic_settings c a b ns) (ip_settings c n (not found_4) (not found_6))

  -- `nicSettingsMap`; `none` is a panic.
  unfoldable pub nic_settings_map : CustomizeConfig → Option (List IpSettings)
  nic_settings_map c = nic_settings c false false c.network_interfaces

-- What the step hands to vCenter.
pub record CustomizationSpec : Type 0 where
  pub identity : Identity
  pub nic_setting_map : List IpSettings
  pub dns_server_list : List Text
  pub dns_suffix_list : List Text

abbrev pub spec_of :
    CustomizeConfig → Identity → Option (List IpSettings) → Option CustomizationSpec
spec_of c i none = none
spec_of c i (some rs) = some (record {
  identity = i;
  nic_setting_map = rs;
  dns_server_list = c.dns_server_list;
  dns_suffix_list = c.dns_suffix_list;
})

-- The specification that `Run` builds; `ok none` is a panic.
unfoldable pub customization_spec :
    {Ip : Type 0}
    → (Text → Result Text Text)
    → NetPackage Ip
    → CustomizeConfig
    → Result CustomizeError (Option CustomizationSpec)
customization_spec read net c = do
  i ← identity_settings read c
  ok (spec_of c i (nic_settings_map (match_gateway net) c))

abbrev pub send_spec :
    (CustomizationSpec → Result Text (Unit {0}))
    → Option CustomizationSpec
    → Result CustomizeError (Option (Unit {0}))
send_spec customize none = ok none
send_spec customize (some spec) = do map_err customize_failed (customize spec); ok (some tt)

-- `StepCustomize.Run`, whose error is what it puts into the state.
unfoldable pub run_customize :
    {Ip : Type 0}
    → (Text → Result Text Text)
    → NetPackage Ip
    → (CustomizationSpec → Result Text (Unit {0}))
    → CustomizeConfig
    → Result CustomizeError (Option (Unit {0}))
run_customize read net customize c = do
  spec ← customization_spec read net c
  send_spec customize spec
