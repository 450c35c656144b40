-- ===== src/Examples/Waiting.antt =====
-- builder/vsphere/common/step_wait_for_ip.go: the theorems on a wait for an address.
use packer_plugin_vsphere.Base.{
  ℕ, zero, suc, ◌+◌, ◌*◌, ◌≤◌, ◌<◌, ◌≡◌, refl, ◌≢◌, false, none, some, List, [], ◌∷◌, arith, ok,
  Text, codes, text_eq,
}
use packer_plugin_vsphere.Steps.{continue_build}
use packer_plugin_vsphere.Steps.WaitIp.{
  Round, get_ip, do_get_ip, Event, wait_done, tick, IpState, run_wait,
}
use packer_plugin_vsphere.Steps.Settled.{IsSettled, do_get_ip-IsSettled, IsFound, run_wait-IsFound}
use packer_plugin_vsphere.Steps.Steady.{AreSteady, get_ip-AreSteady}

abbrev answer_at : ℕ → Text → Round
answer_at t ip = record { answer = ok ip; cancelled = false; now = t; cancelled_asleep = false }

-- The address changes once, then stays; it settles in 3 nanoseconds.
abbrev changing : List Round
changing =
    answer_at 1 []
    ∷ answer_at 2 (codes "10.0.0.1")
    ∷ answer_at 3 (codes "10.0.0.2")
    ∷ answer_at 5 []
    ∷ answer_at 6 (codes "10.0.0.2")
    ∷ answer_at 7 (codes "10.0.0.2")
    ∷ []

settles : do_get_ip 3 changing ≡ some (codes "10.0.0.2", none)
unfolding do_get_ip get_ip packer_plugin_vsphere.Steps.WaitIp.round_of text_eq
settles = refl

do_get_ip-IsSettled_example : IsSettled 3 changing (codes "10.0.0.2")
do_get_ip-IsSettled_example = do_get_ip-IsSettled 3 changing (codes "10.0.0.2") settles

abbrev before_wait : IpState
before_wait = record { ip = none; failure = none }

abbrev after_one_tick : List Event
after_one_tick = tick false ∷ wait_done changing ∷ []

goes_on :
    run_wait 3 before_wait after_one_tick
    ≡ some (continue_build, record { ip = some (codes "10.0.0.2"); failure = none })
unfolding run_wait packer_plugin_vsphere.Steps.WaitIp.after_wait do_get_ip get_ip
    packer_plugin_vsphere.Steps.WaitIp.round_of text_eq
goes_on = refl

run_wait-IsFound_example :
    IsFound 3 before_wait (record { ip = some (codes "10.0.0.2"); failure = none })
run_wait-IsFound_example =
    run_wait-IsFound 3 before_wait (record { ip = some (codes "10.0.0.2"); failure = none })
      after_one_tick goes_on

-- The default settle timeout of 5 seconds: the address is seen once each second, at times in
-- nanoseconds, and another address stood there before.
abbrev at_second : ℕ → Round
at_second n = answer_at (n * 1000000000) (codes "10.0.0.2")

-- That many rounds after a second.
abbrev each_second : ℕ → ℕ → List Round
each_second n zero = []
each_second n (suc k) = at_second (suc n) ∷ each_second (suc n) k

an_address : codes "10.0.0.2" ≢ []
an_address e = cc

in_time : 10000000000 ≤ 14000000000
in_time = omega arith

not_too_late : 14000000000 ≤ 10000000000 + 5000000000
not_too_late = omega arith

each_second-AreSteady : (n k : ℕ) → AreSteady (codes "10.0.0.2") (n * 1000000000) (each_second n k)
each_second-AreSteady n zero = tt
each_second-AreSteady n (suc k) = (refl, refl, refl, omega arith, each_second-AreSteady (suc n) k)

long_enough : 11000000000 + 5000000000 < 17000000000
long_enough = omega arith

get_ip-AreSteady_example :
    get_ip 5000000000 (codes "10.0.0.1") 14000000000 (at_second 11 ∷ each_second 11 6)
    ≡ some (codes "10.0.0.2", none)
get_ip-AreSteady_example =
    get_ip-AreSteady 5000000000 (codes "10.0.0.1") (codes "10.0.0.2") 10000000000 14000000000
      (at_second 11) (each_second 11 6) an_address in_time not_too_late (each_second-AreSteady 10 7)
      long_enough
