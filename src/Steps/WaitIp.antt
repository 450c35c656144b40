-- ===== src/Steps/WaitIp.antt =====
-- builder/vsphere/common/step_wait_for_ip.go: the wait for an IP address. What a round of `doGetIp`
-- sees is a record, so that a wait is a function of its rounds; a time is in nanoseconds, and a
-- settle timeout is not negative.
use packer_plugin_vsphere.Base.{
  ℕ, ◌+◌, ◌*◌, Bool, true, false, ◌||◌, not, Option, none, some, List, [], ◌∷◌, ltb, leb,
  if◌then◌else◌, is_empty, Result, ok, err, Text, text_eq,
}
use packer_plugin_vsphere.Steps.{Action, continue_build, halt_build}

-- The answer of `WaitForIP`, whether the context is done then, the time after the answer, and whether
-- the context is done before the pause ends.
pub record Round : Type 0 where
  pub answer : Result Text Text
  pub cancelled : Bool
  pub now : ℕ
  pub cancelled_asleep : Bool

pub data IpError : Type 0 where
  wait_failed : Text → IpError
  cancelled_waiting wait_cancelled timeout : IpError

-- The end of `doGetIp`, an address and an error; or the next round, with `prevIp` and `stopTime`.
pub data Next : Type 0 where
  done : Text → Option IpError → Next
  again : Text → ℕ → Next

-- The pause before the next round, unless the context is done.
abbrev pub pause : Round → Text → ℕ → Next
pause r prev stop = if r.cancelled_asleep then done [] (some wait_cancelled) else again prev stop

abbrev pub on_answer : ℕ → Text → ℕ → Round → Text → Next
on_answer settle prev stop r ip =
    if r.cancelled
    then done ip (some cancelled_waiting)
    else if is_empty ip
    then pause r prev stop
    else if is_empty prev || not (text_eq prev ip)
    then again ip (r.now + settle)
    else if ltb stop r.now
    then done ip none
    else pause r prev stop

unfoldable pub round_of : ℕ → Text → ℕ → Round → Next
round_of settle prev stop r = elim r.answer [
  | err e ↦ done [] (some (wait_failed e))
  | ok ip ↦ on_answer settle prev stop r ip
]

-- `doGetIp` from its label `loop` on; `none` while the rounds do not end it.
unfoldable pub get_ip : ℕ → Text → ℕ → List Round → Option (Text × Option IpError)
get_ip settle prev stop [] = none
get_ip settle prev stop (r ∷ rs) = elim (round_of settle prev stop r) [
  | done ip e ↦ some (ip, e)
  | again prev' stop' ↦ get_ip settle prev' stop' rs
]

-- `doGetIp`.
unfoldable pub do_get_ip : ℕ → List Round → Option (Text × Option IpError)
do_get_ip settle rounds = get_ip settle [] 0 rounds

abbrev pub second : ℕ
second = 1000000000

-- The pause between two rounds.
unfoldable pub interval : ℕ → ℕ
interval settle =
    if leb (120 * second) settle
    then 30 * second
    else if leb (60 * second) settle
    then 15 * second
    else if leb (10 * second) settle
    then 5 * second
    else second

-- What `Run` waits for. `timed_out` holds the rounds up to the one that sees the cancelled context.
pub data Event : Type 0 where
  timed_out wait_done : List Round → Event
  interrupted : Event
  tick : Bool → Event

-- The keys of the state that the step writes.
pub record IpState : Type 0 where
  pub ip : Option Text
  pub failure : Option IpError

unfoldable pub after_timeout : IpState → Option (Text × Option IpError) → Option (Action × IpState)
after_timeout s none = none
after_timeout s (some (ip, e)) = some (
    if is_empty ip
    then (halt_build, record s { failure = some timeout })
    else (continue_build, record s { ip = some ip }))

unfoldable pub after_wait : IpState → Option (Text × Option IpError) → Option (Action × IpState)
after_wait s none = none
after_wait s (some (ip, some e)) = some (halt_build, record s { failure = some e })
after_wait s (some (ip, none)) = some (continue_build, record s { ip = some ip })

-- `StepWaitForIp.Run` on the events in their order; `none` while it waits.
unfoldable pub run_wait : ℕ → IpState → List Event → Option (Action × IpState)
run_wait settle s [] = none
run_wait settle s (timed_out rounds ∷ es) = after_timeout s (do_get_ip settle rounds)
run_wait settle s (wait_done rounds ∷ es) = after_wait s (do_get_ip settle rounds)
run_wait settle s (interrupted ∷ es) = some (halt_build, s)
run_wait settle s (tick true ∷ es) = some (halt_build, s)
run_wait settle s (tick false ∷ es) = run_wait settle s es
