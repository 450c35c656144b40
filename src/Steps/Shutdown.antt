-- ===== src/Steps/Shutdown.antt =====
-- builder/vsphere/common/step_shutdown.go, and `IsPoweredOff` and `WaitForShutdown` of
-- builder/vsphere/driver/vm.go. What a round of the wait sees is a record, so that a wait is a
-- function of its rounds.
pub mod Off
use packer_plugin_vsphere.Base.{
  ℕ, Bool, true, false, ◌&&◌, not, Option, none, some, List, [], ◌∷◌, ◌==◌, if◌then◌else◌, is_empty,
  Result, ok, err, Text, codes, text_eq,
}

pub data PowerState : Type 0 where
  powered_on powered_off suspended : PowerState

-- The case that the `select` takes.
pub data Selected : Type 0 where
  timer_fired context_done sleeps : Selected

-- The answer of `PowerState` in a round.
pub record PowerRound : Type 0 where
  pub answer : Result Text PowerState
  pub selected : Selected

pub data ShutdownError : Type 0 where
  power_unknown send_failed shutdown_failed : Text → ShutdownError
  shutdown_timeout : ShutdownError

abbrev pub is_off : PowerState → Bool
is_off powered_off = true
is_off powered_on = false
is_off suspended = false

-- `IsPoweredOff`.
unfoldable pub is_powered_off : Result Text PowerState → Bool × Option Text
is_powered_off (err e) = (false, some e)
is_powered_off (ok state) = (is_off state, none)

-- The end of a round, without an error or with one; `none` starts the next.
abbrev pub on_select : Selected → Option (Option ShutdownError)
on_select timer_fired = some (some shutdown_timeout)
on_select context_done = some none
on_select sleeps = none

abbrev pub on_power : Selected → Bool × Option Text → Option (Option ShutdownError)
on_power sel (off, some e) = some (some (power_unknown e))
on_power sel (true, none) = some none
on_power sel (false, none) = on_select sel

unfoldable pub power_round : PowerRound → Option (Option ShutdownError)
power_round r = on_power r.selected (is_powered_off r.answer)

abbrev pub or_else {ℓ} : {A : Type ℓ} → Option A → Option A → Option A
or_else none y = y
or_else (some x) y = some x

-- `WaitForShutdown`; `none` while the rounds do not end it.
unfoldable pub wait_for_shutdown : List PowerRound → Option (Option ShutdownError)
wait_for_shutdown [] = none
wait_for_shutdown (r ∷ rs) = or_else (power_round r) (wait_for_shutdown rs)

pub record ShutdownConfig : Type 0 where
  pub command : Text
  pub timeout : ℕ
  pub disable_shutdown : Bool

-- `ShutdownConfig.Prepare`: the configuration with its default, and whether it warns.
unfoldable pub prepare_shutdown : ShutdownConfig → Text → ShutdownConfig × Bool
prepare_shutdown c kind = (
  record c { timeout = if c.timeout == 0 then 300000000000 else c.timeout },
  text_eq kind (codes "none") && not (is_empty c.command),
)

pub data ShutdownCall : Type 0 where
  send_command : Text → ShutdownCall
  shut_down_guest : ShutdownCall

abbrev pub failed_as : (Text → ShutdownError) → Option Text → Option ShutdownError
failed_as f none = none
failed_as f (some e) = some (f e)

-- The request to shut down, with the communicator's `Start` where there is one and the answer of
-- `StartShutdown`.
unfoldable pub request_shutdown :
    ShutdownConfig
    → Option (Text → Option Text)
    → Option Text
    → List ShutdownCall × Option ShutdownError
request_shutdown c none guest = ([], none)
request_shutdown c (some start) guest =
    if c.disable_shutdown
    then ([], none)
    else if not (is_empty c.command)
    then (send_command c.command ∷ [], failed_as send_failed (start c.command))
    else (shut_down_guest ∷ [], failed_as shutdown_failed guest)

abbrev pub then_wait :
    List PowerRound
    → List ShutdownCall × Option ShutdownError
    → List ShutdownCall × Option (Option ShutdownError)
then_wait rounds (calls, some e) = (calls, some (some e))
then_wait rounds (calls, none) = (calls, wait_for_shutdown rounds)

-- `StepShutdown.Run`, from the answer of the first `IsPoweredOff` on: the calls it makes, and its end,
-- which continues the build where there is no error.
unfoldable pub run_shutdown :
    ShutdownConfig
    → Option (Text → Option Text)
    → Option Text
    → Result Text PowerState
    → List PowerRound
    → List ShutdownCall × Option (Option ShutdownError)
run_shutdown c comm guest power rounds =
    let off = is_powered_off power in
    if off.0 then ([], some none) else then_wait rounds (request_shutdown c comm guest)
