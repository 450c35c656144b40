-- ===== src/Steps/Shutdown/Off.antt =====
-- builder/vsphere/common/step_shutdown.go: when the step goes on.
use packer_plugin_vsphere.Base.{
  ◌≤◌, ◌≡◌, refl, ◌∙◌, ◌⊎◌, inl, inr, Bool, true, false, not, Option, none, some, List, [], ◌∷◌,
  arith, if◌then◌else◌, is_none, length, exists, Result, ok, err, Text,
}
use packer_plugin_vsphere.Steps.Shutdown.{
  PowerState, powered_off, powered_on, suspended, Selected, timer_fired, context_done, sleeps,
  PowerRound, ShutdownError, is_off, is_powered_off, on_select, on_power, power_round, or_else,
  wait_for_shutdown, ShutdownConfig, ShutdownCall, request_shutdown, then_wait, run_shutdown,
}

-- A round in which the machine is not off, and what its `select` takes.
abbrev pub IsRunning : PowerRound → Selected → Type 0
IsRunning r sel = (s : PowerState) × (r.answer ≡ ok s) × (is_off s ≡ false) × (r.selected ≡ sel)

-- The machine is seen to be off, or the context is done, before the timer fires or an answer fails.
abbrev pub IsShut : List PowerRound → Type 0
IsShut [] = ⊥
IsShut (r ∷ rs) =
    r.answer ≡ ok powered_off ⊎ (IsRunning r context_done ⊎ (IsRunning r sleeps × IsShut rs))

-- A round that ends the wait.
abbrev pub is_last : PowerRound → Bool
is_last r = not (is_none (power_round r))

off_state : (s : PowerState) → is_off s ≡ true → s ≡ powered_off
off_state powered_off h = refl
off_state powered_on h = absurd (ground arith)
off_state suspended h = absurd (ground arith)

on_select-done : (sel : Selected) → on_select sel ≡ some none → sel ≡ context_done
on_select-done context_done h = refl
on_select-done timer_fired h = absurd (ground arith)
on_select-done sleeps h = absurd (ground arith)

on_select-none : (sel : Selected) → on_select sel ≡ none → sel ≡ sleeps
on_select-none sleeps h = refl
on_select-none context_done h = absurd (ground arith)
on_select-none timer_fired h = absurd (ground arith)

-- The end of a round, by what it saw.
answer_shut :
    (a : Result Text PowerState) (sel : Selected)
    → on_power sel (is_powered_off a) ≡ some none
    → a ≡ ok powered_off
      ⊎ ((s : PowerState) × (a ≡ ok s) × (is_off s ≡ false) × (sel ≡ context_done))
unfolding is_powered_off
answer_shut (err e) sel h = absurd (ground arith)
answer_shut (ok powered_off) sel h = inl refl
answer_shut (ok powered_on) sel h = inr (powered_on, refl, refl, on_select-done sel h)
answer_shut (ok suspended) sel h = inr (suspended, refl, refl, on_select-done sel h)

answer_sleeps :
    (a : Result Text PowerState) (sel : Selected)
    → on_power sel (is_powered_off a) ≡ none
    → (s : PowerState) × (a ≡ ok s) × (is_off s ≡ false) × (sel ≡ sleeps)
unfolding is_powered_off
answer_sleeps (err e) sel h = absurd (ground arith)
answer_sleeps (ok powered_off) sel h = absurd (ground arith)
answer_sleeps (ok powered_on) sel h = (powered_on, refl, refl, on_select-none sel h)
answer_sleeps (ok suspended) sel h = (suspended, refl, refl, on_select-none sel h)

round_shut :
    (r : PowerRound)
    → power_round r ≡ some none
    → r.answer ≡ ok powered_off ⊎ IsRunning r context_done
unfolding power_round
round_shut r h = answer_shut r.answer r.selected h

round_sleeps : (r : PowerRound) → power_round r ≡ none → IsRunning r sleeps
unfolding power_round
round_sleeps r h = answer_sleeps r.answer r.selected h

or_else-IsShut :
    (r : PowerRound) (rs : List PowerRound) (o : Option (Option ShutdownError))
    → power_round r ≡ o
    → (wait_for_shutdown rs ≡ some none → IsShut rs)
    → or_else o (wait_for_shutdown rs) ≡ some none
    → IsShut (r ∷ rs)
or_else-IsShut r rs none e step h = inr (inr (round_sleeps r e, step h))
or_else-IsShut r rs (some x) e step h = elim (round_shut r (e ∙ h)) [
  | inl off ↦ inl off
  | inr done ↦ inr (inl done)
]

wait_for_shutdown-IsShut : (rs : List PowerRound) → wait_for_shutdown rs ≡ some none → IsShut rs
unfolding wait_for_shutdown
wait_for_shutdown-IsShut [] h = absurd (ground arith)
wait_for_shutdown-IsShut (r ∷ rs) h =
    or_else-IsShut r rs (power_round r) refl (wait_for_shutdown-IsShut rs) h

abbrev pub Ended : Option (Option ShutdownError) → Type 0
Ended o = (e : Option ShutdownError) × (o ≡ some e)

or_else-Ended :
    (o w : Option (Option ShutdownError))
    → (not (is_none o) ≡ false → Ended w)
    → Ended (or_else o w)
or_else-Ended none w step = step refl
or_else-Ended (some x) w step = (x, refl)

wait_for_shutdown-Ended :
    (rs : List PowerRound) → exists is_last rs ≡ true → Ended (wait_for_shutdown rs)
unfolding wait_for_shutdown
wait_for_shutdown-Ended [] h = absurd (ground arith)
wait_for_shutdown-Ended (r ∷ rs) h =
    or_else-Ended (power_round r) (wait_for_shutdown rs)
      (λ e. wait_for_shutdown-Ended rs (ground arith))

-- The end of the step.
pub record IsShutdown (power : Result Text PowerState) (rounds : List PowerRound)
    (result : List ShutdownCall × Option (Option ShutdownError)) : Type 0 where
  pub asked_once : length result.0 ≤ 1
  pub ended : Ended result.1
  pub off : result.1 ≡ some none → power ≡ ok powered_off ⊎ IsShut rounds

request_shutdown-once :
    (c : ShutdownConfig) (comm : Option (Text → Option Text)) (guest : Option Text)
    → length (request_shutdown c comm guest).0 ≤ 1
unfolding request_shutdown
request_shutdown-once c none guest = ground arith
request_shutdown-once c (some start) guest = ground arith

then_wait-IsShutdown :
    (power : Result Text PowerState) (rounds : List PowerRound)
    (q : List ShutdownCall × Option ShutdownError)
    → length q.0 ≤ 1
    → exists is_last rounds ≡ true
    → IsShutdown power rounds (then_wait rounds q)
then_wait-IsShutdown power rounds (calls, some e) l h = record {
  asked_once = l;
  ended = (some e, refl);
  off = λ p. absurd (ground arith);
}
then_wait-IsShutdown power rounds (calls, none) l h = record {
  asked_once = l;
  ended = wait_for_shutdown-Ended rounds h;
  off = λ p. inr (wait_for_shutdown-IsShut rounds p);
}

first_answer-IsShutdown :
    (power a : Result Text PowerState) (rounds : List PowerRound)
    (q : List ShutdownCall × Option ShutdownError)
    → power ≡ a
    → length q.0 ≤ 1
    → exists is_last rounds ≡ true
    → IsShutdown power rounds (if (is_powered_off a).0 then ([], some none) else then_wait rounds q)
unfolding is_powered_off
first_answer-IsShutdown power (err e) rounds q p l h = then_wait-IsShutdown power rounds q l h
first_answer-IsShutdown power (ok powered_off) rounds q p l h = record {
  asked_once = ground arith;
  ended = (none, refl);
  off = λ z. inl p;
}
first_answer-IsShutdown power (ok powered_on) rounds q p l h =
    then_wait-IsShutdown power rounds q l h
first_answer-IsShutdown power (ok suspended) rounds q p l h =
    then_wait-IsShutdown power rounds q l h

-- If some round ends the wait, the step that shuts a machine down ends; it makes at most one request;
-- and it goes on without an error only if the machine was off before it, or a round saw it off or
-- its context done while no round before that failed or was out of time.
pub run_shutdown-IsShutdown :
    (c : ShutdownConfig) (comm : Option (Text → Option Text)) (guest : Option Text)
    (power : Result Text PowerState) (rounds : List PowerRound)
    → exists is_last rounds ≡ true
    → IsShutdown power rounds (run_shutdown c comm guest power rounds)
unfolding run_shutdown
run_shutdown-IsShutdown c comm guest power rounds h =
    first_answer-IsShutdown power power rounds (request_shutdown c comm guest) refl
      (request_shutdown-once c comm guest) h
