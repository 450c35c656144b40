-- ===== src/Steps/Steady.antt =====
-- builder/vsphere/common/step_wait_for_ip.go: a steady address ends the wait.
use packer_plugin_vsphere.Base.{
  ℕ, ◌+◌, ◌≤◌, ◌<◌, ◌≡◌, refl, ◌∙◌, ◌≢◌, inl, inr, true, false, ◌||◌, not, none, some, List, [],
  ◌∷◌, arith, ltb, if◌then◌else◌, Bool-cases, is_empty, ok, Text, text_eq, text_eq_iff,
}
use packer_plugin_vsphere.Steps.WaitIp.{get_ip, Round, done, again, round_of}
use packer_plugin_vsphere.Steps.Settled.{get_ip_next}

-- Rounds that all answer with the address, at later and later times, with nothing cancelled.
abbrev pub AreSteady : Text → ℕ → List Round → Type 0
AreSteady ip t [] = Unit
AreSteady ip t (r ∷ rs) =
    (r.answer ≡ ok ip)
    × (r.cancelled ≡ false)
    × (r.cancelled_asleep ≡ false)
    × (t < r.now)
    × AreSteady ip r.now rs

steady_round :
    (settle : ℕ) (ip : Text) (stop : ℕ) (r : Round)
    → ip ≢ []
    → r.answer ≡ ok ip
    → r.cancelled ≡ false
    → r.cancelled_asleep ≡ false
    → round_of settle ip stop r ≡ (if ltb stop r.now then done ip none else again ip stop)
unfolding round_of
steady_round settle ip stop r n a c s = ground (arith, text_eq_iff ip ip)

first_round :
    (settle : ℕ) (prev ip : Text) (stop : ℕ) (r : Round)
    → ip ≢ []
    → r.answer ≡ ok ip
    → r.cancelled ≡ false
    → (is_empty prev || not (text_eq prev ip)) ≡ true
    → round_of settle prev stop r ≡ again ip (r.now + settle)
unfolding round_of
first_round settle prev ip stop r n a c e = ground arith

-- The time after the answer of the last round.
abbrev pub latest : ℕ → List Round → ℕ
latest t [] = t
latest t (r ∷ rs) = latest r.now rs

get_ip_steady :
    (settle : ℕ) (ip : Text) (t stop : ℕ) (rounds : List Round)
    → ip ≢ []
    → AreSteady ip t rounds
    → t ≤ stop
    → stop < latest t rounds
    → get_ip settle ip stop rounds ≡ some (ip, none)
unfolding get_ip
get_ip_steady settle ip t stop [] n s l k = absurd (ground arith)
get_ip_steady settle ip t stop (r ∷ rs) n (a, c, z, u, s) l k =
    let step = steady_round settle ip stop r n a c z in
    elim (Bool-cases (ltb stop r.now)) [
      | inl e ↦ get_ip_next settle ip stop r rs (done ip none) (step ∙ rw e refl)
      | inr e ↦
          get_ip_next settle ip stop r rs (again ip stop) (step ∙ rw e refl)
          ∙ get_ip_steady settle ip r.now stop rs n s (ground arith) k
    ]

-- The wait ends once the guest keeps its address: whatever was seen before, in a state whose stop
-- time is at most the settle timeout ahead, rounds that all answer with the same address at later
-- and later times, with nothing cancelled, make the wait return that address as soon as the last of
-- them is more than the settle timeout after the first.
pub get_ip-AreSteady :
    (settle : ℕ) (prev ip : Text) (t stop : ℕ) (r : Round) (rs : List Round)
    → ip ≢ []
    → t ≤ stop
    → stop ≤ t + settle
    → AreSteady ip t (r ∷ rs)
    → r.now + settle < latest r.now rs
    → get_ip settle prev stop (r ∷ rs) ≡ some (ip, none)
unfolding get_ip
get_ip-AreSteady settle prev ip t stop r rs n l m (a, c, z, u, s) k =
    elim (Bool-cases (is_empty prev || not (text_eq prev ip))) [
      | inl e ↦
          get_ip_next settle prev stop r rs (again ip (r.now + settle))
            (first_round settle prev ip stop r n a c e)
          ∙ get_ip_steady settle ip r.now (r.now + settle) rs n s (omega arith) k
      | inr e ↦
          let same : prev ≡ ip = ground (arith, text_eq_iff prev ip) in
          rw same
            (get_ip_steady settle ip t stop (r ∷ rs) n (a, c, z, u, s) l (omega (arith, k, u, m)))
    ]
