-- ===== src/Storage/Places.antt =====
-- builder/vsphere/driver/disk.go: disks and controllers by their place in a device
-- list, under the operations that the attachment makes.
use packer_plugin_vsphere.Base.{
  ℕ, ◌≡◌, refl, sym, ap, ◌∙◌, ◌⊎◌, inl, inr, Bool, true, false, Option, some, List, [], ◌∷◌, ◌++◌,
  if◌then◌else◌, ℤ, int_eq, ok, Text, to_int32,
}
use packer_plugin_vsphere.Controller.{
  ControllerKind, ControllerAddress, Controller, VirtualDisk, Device, controller_device,
  disk_device, other_device,
}
use packer_plugin_vsphere.Controller.Address.{parse_controller_unit}
use packer_plugin_vsphere.Controller.Devices.{controller_bus_number, HasController}
use packer_plugin_vsphere.Storage.Attach.{put_device_keys}
use packer_plugin_vsphere.Storage.Steps.{linked}

-- A disk of the list has the unit on the controller with the key.
abbrev pub HasDiskAt : Option ℤ → ℤ → List Device → Type 0
HasDiskAt unit key [] = ⊥
HasDiskAt unit key (disk_device d ∷ ds) =
    ((d.base.unit_number ≡ unit) × (d.base.controller_key ≡ key)) ⊎ HasDiskAt unit key ds
HasDiskAt unit key (controller_device c ∷ ds) = HasDiskAt unit key ds
HasDiskAt unit key (other_device v ∷ ds) = HasDiskAt unit key ds

-- A controller of the list has the key and the bus.
abbrev pub HasBus : ℤ → ControllerKind → ℕ → List Device → Type 0
HasBus key kind bus [] = ⊥
HasBus key kind bus (controller_device c ∷ ds) =
    ((c.base.key ≡ key) × (controller_bus_number c ≡ some (kind, bus))) ⊎ HasBus key kind bus ds
HasBus key kind bus (disk_device d ∷ ds) = HasBus key kind bus ds
HasBus key kind bus (other_device v ∷ ds) = HasBus key kind bus ds

-- The text is an address, and a disk has its unit on a controller of its bus.
pub record IsAtAddress (raw : Text) (ds : List Device) : Type 0 where
  pub address : ControllerAddress
  pub key : ℤ
  pub parsed : parse_controller_unit raw ≡ ok address
  pub disk_there : HasDiskAt (some (to_int32 address.unit)) key ds
  pub controller_there : HasBus key address.kind address.bus ds

pub HasDiskAt-append :
    (u : Option ℤ) (k : ℤ) (xs ys : List Device) → HasDiskAt u k xs → HasDiskAt u k (xs ++ ys)
HasDiskAt-append u k [] ys h = absurd h
HasDiskAt-append u k (disk_device d ∷ xs) ys (inl h) = inl h
HasDiskAt-append u k (disk_device d ∷ xs) ys (inr h) = inr (HasDiskAt-append u k xs ys h)
HasDiskAt-append u k (controller_device c ∷ xs) ys h = HasDiskAt-append u k xs ys h
HasDiskAt-append u k (other_device v ∷ xs) ys h = HasDiskAt-append u k xs ys h

pub HasDiskAt-last :
    (u : Option ℤ) (k : ℤ) (xs : List Device) (d : VirtualDisk)
    → d.base.unit_number ≡ u
    → d.base.controller_key ≡ k
    → HasDiskAt u k (xs ++ disk_device d ∷ [])
HasDiskAt-last u k [] d h e = inl (h, e)
HasDiskAt-last u k (disk_device x ∷ xs) d h e = inr (HasDiskAt-last u k xs d h e)
HasDiskAt-last u k (controller_device c ∷ xs) d h e = HasDiskAt-last u k xs d h e
HasDiskAt-last u k (other_device v ∷ xs) d h e = HasDiskAt-last u k xs d h e

HasDiskAt-put :
    (u : Option ℤ) (k key : ℤ) (keys : List ℤ) (ds : List Device)
    → HasDiskAt u k ds
    → HasDiskAt u k (put_device_keys key keys ds)
unfolding put_device_keys
HasDiskAt-put u k key keys [] h = absurd h
HasDiskAt-put u k key keys (disk_device d ∷ ds) (inl h) = inl h
HasDiskAt-put u k key keys (disk_device d ∷ ds) (inr h) = inr (HasDiskAt-put u k key keys ds h)
HasDiskAt-put u k key keys (controller_device c ∷ ds) h = HasDiskAt-put u k key keys ds h
HasDiskAt-put u k key keys (other_device v ∷ ds) h = HasDiskAt-put u k key keys ds h

pub HasDiskAt-linked :
    (u : Option ℤ) (k : ℤ) (link : Bool) (key : ℤ) (keys : List ℤ) (ds : List Device)
    → HasDiskAt u k ds
    → HasDiskAt u k (linked link key keys ds)
HasDiskAt-linked u k true key keys ds h = HasDiskAt-put u k key keys ds h
HasDiskAt-linked u k false key keys ds h = h

pub HasBus-append :
    (key : ℤ) (k : ControllerKind) (b : ℕ) (xs ys : List Device)
    → HasBus key k b xs
    → HasBus key k b (xs ++ ys)
HasBus-append key k b [] ys h = absurd h
HasBus-append key k b (controller_device c ∷ xs) ys (inl h) = inl h
HasBus-append key k b (controller_device c ∷ xs) ys (inr h) = inr (HasBus-append key k b xs ys h)
HasBus-append key k b (disk_device d ∷ xs) ys h = HasBus-append key k b xs ys h
HasBus-append key k b (other_device v ∷ xs) ys h = HasBus-append key k b xs ys h

pub HasBus-last :
    (xs : List Device) (c : Controller) (k : ControllerKind) (b : ℕ)
    → controller_bus_number c ≡ some (k, b)
    → HasBus c.base.key k b (xs ++ controller_device c ∷ [])
HasBus-last [] c k b h = inl (refl, h)
HasBus-last (controller_device x ∷ xs) c k b h = inr (HasBus-last xs c k b h)
HasBus-last (disk_device d ∷ xs) c k b h = HasBus-last xs c k b h
HasBus-last (other_device v ∷ xs) c k b h = HasBus-last xs c k b h

pub HasController-HasBus :
    (ds : List Device) (c : Controller) (k : ControllerKind) (b : ℕ)
    → HasController c ds
    → controller_bus_number c ≡ some (k, b)
    → HasBus c.base.key k b ds
HasController-HasBus [] c k b h e = absurd h
HasController-HasBus (controller_device d ∷ ds) c k b (inl h) e =
    inl (ap (λ x. x.base.key) (sym h), ap controller_bus_number (sym h) ∙ e)
HasController-HasBus (controller_device d ∷ ds) c k b (inr h) e =
    inr (HasController-HasBus ds c k b h e)
HasController-HasBus (disk_device d ∷ ds) c k b h e = HasController-HasBus ds c k b h e
HasController-HasBus (other_device v ∷ ds) c k b h e = HasController-HasBus ds c k b h e

-- A write of device keys changes neither the key nor the bus of a controller.
rewritten_bus :
    (write : Bool) (c : Controller) (keys : List ℤ) (key : ℤ) (k : ControllerKind) (b : ℕ)
    → (c.base.key ≡ key) × (controller_bus_number c ≡ some (k, b))
    → let d = if write then record c { device = keys } else c in
      (d.base.key ≡ key) × (controller_bus_number d ≡ some (k, b))
unfolding controller_bus_number
rewritten_bus true c keys key k b h = h
rewritten_bus false c keys key k b h = h

HasBus-put :
    (key : ℤ) (k : ControllerKind) (b : ℕ) (at_key : ℤ) (keys : List ℤ) (ds : List Device)
    → HasBus key k b ds
    → HasBus key k b (put_device_keys at_key keys ds)
unfolding put_device_keys
HasBus-put key k b at_key keys [] h = absurd h
HasBus-put key k b at_key keys (controller_device c ∷ ds) (inl h) =
    inl (rewritten_bus (int_eq c.base.key at_key) c keys key k b h)
HasBus-put key k b at_key keys (controller_device c ∷ ds) (inr h) =
    inr (HasBus-put key k b at_key keys ds h)
HasBus-put key k b at_key keys (disk_device d ∷ ds) h = HasBus-put key k b at_key keys ds h
HasBus-put key k b at_key keys (other_device v ∷ ds) h = HasBus-put key k b at_key keys ds h

pub HasBus-linked :
    (key : ℤ) (k : ControllerKind) (b : ℕ) (link : Bool) (at_key : ℤ) (keys : List ℤ)
    (ds : List Device)
    → HasBus key k b ds
    → HasBus key k b (linked link at_key keys ds)
HasBus-linked key k b true at_key keys ds h = HasBus-put key k b at_key keys ds h
HasBus-linked key k b false at_key keys ds h = h

-- What stays in the list while disks are attached.
pub IsAtAddress-append :
    (raw : Text) (xs ys : List Device) → IsAtAddress raw xs → IsAtAddress raw (xs ++ ys)
IsAtAddress-append raw xs ys v = record {
  address = v.address;
  key = v.key;
  parsed = v.parsed;
  disk_there = HasDiskAt-append _ v.key xs ys v.disk_there;
  controller_there = HasBus-append v.key v.address.kind v.address.bus xs ys v.controller_there;
}

pub IsAtAddress-linked :
    (raw : Text) (link : Bool) (key : ℤ) (keys : List ℤ) (ds : List Device)
    → IsAtAddress raw ds
    → IsAtAddress raw (linked link key keys ds)
IsAtAddress-linked raw link key keys ds v = record {
  address = v.address;
  key = v.key;
  parsed = v.parsed;
  disk_there = HasDiskAt-linked _ v.key link key keys ds v.disk_there;
  controller_there =
      HasBus-linked v.key v.address.kind v.address.bus link key keys ds v.controller_there;
}
