-- ===== src/Steps/Settled.antt =====
-- builder/vsphere/common/step_wait_for_ip.go: an address that the wait returns has settled, and a
-- steady address is returned.
use packer_plugin_vsphere.Base.{
  ℕ, ◌+◌, ◌<◌, ◌≡◌, refl, sym, ap, ◌∙◌, subst, ◌≢◌, ◌⊎◌, inl, inr, true, false, ◌||◌, not, Option,
  none, some, List, [], ◌∷◌, ◌++◌, arith, ltb, ltb→lt, Bool-cases, is_empty, All, ok, Result-cases,
  Text, text_eq, text_eq_iff,
}
use packer_plugin_vsphere.Steps.{continue_build}
use packer_plugin_vsphere.Steps.{continue_build}
use packer_plugin_vsphere.Steps.WaitIp.{
  Event, timed_out, wait_done, interrupted, tick, IpState, run_wait, after_timeout, after_wait,
  Event, IpState, run_wait, Next, do_get_ip, get_ip, Round, IpError, cancelled_waiting,
  wait_cancelled, wait_failed, done, again, pause, on_answer, round_of,
}

-- A round that answers with the address, or with none yet.
abbrev pub IsSame : Text → Round → Type 0
IsSame ip r = r.answer ≡ ok ip ⊎ (r.answer ≡ ok [])

-- Between two rounds that answer with the address, more than the settle timeout apart, no round
-- answers with another one.
pub record IsSettled (settle : ℕ) (rounds : List Round) (ip : Text) : Type 0 where
  pub not_empty : ip ≢ []
  pub before : List Round
  pub first : Round
  pub middle : List Round
  pub last : Round
  pub after : List Round
  pub all_rounds : rounds ≡ before ++ (first ∷ (middle ++ (last ∷ after)))
  pub first_answer : first.answer ≡ ok ip
  pub last_answer : last.answer ≡ ok ip
  pub same_between : All (IsSame ip) middle
  pub apart : first.now + settle < last.now

-- The same, where the first of the two rounds is past, and its settle timeout ends at `stop`.
record IsSettling (stop : ℕ) (rounds : List Round) (ip : Text) : Type 0 where
  middle : List Round
  last : Round
  after : List Round
  all_rounds : rounds ≡ middle ++ (last ∷ after)
  last_answer : last.answer ≡ ok ip
  same_between : All (IsSame ip) middle
  apart : stop < last.now

-- What a round does.
data RoundCase (settle : ℕ) (prev : Text) (stop : ℕ) (r : Round) : Type 0 where
  failed :
      (ip : Text) (e : IpError)
      → round_of settle prev stop r ≡ done ip (some e)
      → RoundCase settle prev stop r
  kept :
      r.answer ≡ ok prev ⊎ (r.answer ≡ ok [])
      → round_of settle prev stop r ≡ again prev stop
      → RoundCase settle prev stop r
  changed :
      (ip : Text)
      → ip ≢ []
      → r.answer ≡ ok ip
      → round_of settle prev stop r ≡ again ip (r.now + settle)
      → RoundCase settle prev stop r
  returned :
      prev ≢ []
      → r.answer ≡ ok prev
      → stop < r.now
      → round_of settle prev stop r ≡ done prev none
      → RoundCase settle prev stop r

pause_case :
    (settle : ℕ) (prev : Text) (stop : ℕ) (r : Round)
    → r.answer ≡ ok prev ⊎ (r.answer ≡ ok [])
    → round_of settle prev stop r ≡ pause r prev stop
    → RoundCase settle prev stop r
pause_case settle prev stop r a e = elim (Bool-cases r.cancelled_asleep) [
  | inl c ↦ failed [] wait_cancelled (e ∙ rw c refl)
  | inr c ↦ kept a (e ∙ rw c refl)
]

answer_case :
    (settle : ℕ) (prev : Text) (stop : ℕ) (r : Round) (ip : Text)
    → r.answer ≡ ok ip
    → round_of settle prev stop r ≡ on_answer settle prev stop r ip
    → RoundCase settle prev stop r
answer_case settle prev stop r ip a e = elim (Bool-cases r.cancelled) [
  | inl c ↦ failed ip cancelled_waiting (e ∙ rw c refl)
  | inr c ↦ elim (Bool-cases (is_empty ip)) [
    | inl i ↦ pause_case settle prev stop r (inr (a ∙ ap ok (ground arith))) (e ∙ rw (c, i) refl)
    | inr i ↦ elim (Bool-cases (is_empty prev || not (text_eq prev ip))) [
      | inl p ↦ changed ip (ground arith) a (e ∙ rw (c, i, p) refl)
      | inr p ↦
          let same : prev ≡ ip = ground (arith, text_eq_iff prev ip) in
          elim (Bool-cases (ltb stop r.now)) [
            | inl t ↦
                returned (ground arith) (a ∙ ap ok (sym same)) (ltb→lt stop r.now t)
                  (e ∙ rw (c, i, p, t) (ap (λ z. done z none) (sym same)))
            | inr t ↦
                pause_case settle prev stop r (inl (a ∙ ap ok (sym same)))
                  (e ∙ rw (c, i, p, t) refl)
          ]
    ]
  ]
]

round_case : (settle : ℕ) (prev : Text) (stop : ℕ) (r : Round) → RoundCase settle prev stop r
unfolding round_of
round_case settle prev stop r = elim (Result-cases r.answer) [
  | inl (e, q) ↦ failed [] (wait_failed e) (rw q refl)
  | inr (ip, q) ↦ answer_case settle prev stop r ip q (rw q refl)
]

later :
    (settle : ℕ) (ip : Text) (r : Round) (rs : List Round)
    → IsSettled settle rs ip
    → IsSettled settle (r ∷ rs) ip
later settle ip r rs s = record {
  not_empty = s.not_empty;
  before = r ∷ s.before;
  first = s.first;
  middle = s.middle;
  last = s.last;
  after = s.after;
  all_rounds = ap (λ z. r ∷ z) s.all_rounds;
  first_answer = s.first_answer;
  last_answer = s.last_answer;
  same_between = s.same_between;
  apart = s.apart;
}

started :
    (settle : ℕ) (ip : Text) (r : Round) (rs : List Round)
    → ip ≢ []
    → r.answer ≡ ok ip
    → IsSettling (r.now + settle) rs ip
    → IsSettled settle (r ∷ rs) ip
started settle ip r rs n a s = record {
  not_empty = n;
  before = [];
  first = r;
  middle = s.middle;
  last = s.last;
  after = s.after;
  all_rounds = ap (λ z. r ∷ z) s.all_rounds;
  first_answer = a;
  last_answer = s.last_answer;
  same_between = s.same_between;
  apart = s.apart;
}

pub get_ip_next :
    (settle : ℕ) (prev : Text) (stop : ℕ) (r : Round) (rs : List Round) (n : Next)
    → round_of settle prev stop r ≡ n
    → get_ip settle prev stop (r ∷ rs)
      ≡ elim n [ done ip e ↦ some (ip, e) | again prev' stop' ↦ get_ip settle prev' stop' rs ]
unfolding get_ip
get_ip_next settle prev stop r rs n q =
    ap (λ z. elim z [ done ip e ↦ some (ip, e) | again prev' stop' ↦ get_ip settle prev' stop' rs ])
      q

-- The address either is the previous one, and settles from before, or starts in these rounds.
get_ip_cases :
    (settle : ℕ) (prev : Text) (stop : ℕ) (rounds : List Round) (ip : Text)
    → get_ip settle prev stop rounds ≡ some (ip, none)
    → ((prev ≢ []) × (prev ≡ ip) × IsSettling stop rounds ip) ⊎ IsSettled settle rounds ip
unfolding get_ip
get_ip_cases settle prev stop [] ip h = absurd (ground arith)
get_ip_cases settle prev stop (r ∷ rs) ip h = elim (round_case settle prev stop r) [
  | failed ip' e q ↦ absurd (ground (arith, sym (get_ip_next settle prev stop r rs _ q) ∙ h))
  | kept a q ↦
      elim (get_ip_cases settle prev stop rs ip (sym (get_ip_next settle prev stop r rs _ q) ∙ h)) [
        | inl (n, e, s) ↦ inl (
          n,
          e,
          record {
            middle = r ∷ s.middle;
            last = s.last;
            after = s.after;
            all_rounds = ap (λ z. r ∷ z) s.all_rounds;
            last_answer = s.last_answer;
            same_between = (subst (λ z. IsSame z r) e a, s.same_between);
            apart = s.apart;
          },
        )
        | inr s ↦ inr (later settle ip r rs s)
      ]
  | changed ip' n a q ↦
      elim (get_ip_cases settle ip' (r.now + settle) rs ip
        (sym (get_ip_next settle prev stop r rs _ q) ∙ h)) [
          | inl (m, e, s) ↦ inr (
              started settle ip r rs (subst (λ z. z ≢ []) e n) (subst (λ z. r.answer ≡ ok z) e a) s)
          | inr s ↦ inr (later settle ip r rs s)
        ]
  | returned n a t q ↦
      let e : prev ≡ ip = ground (arith, sym (get_ip_next settle prev stop r rs _ q) ∙ h) in
      inl (
        n,
        e,
        record {
          middle = [];
          last = r;
          after = rs;
          all_rounds = refl;
          last_answer = subst (λ z. r.answer ≡ ok z) e a;
          same_between = tt;
          apart = t;
        },
      )
]

-- An address that the wait returns without an error is not empty and has settled: a round answers
-- with it, a later one answers with it more than the settle timeout after, and between them no round
-- answers with another address.
pub do_get_ip-IsSettled :
    (settle : ℕ) (rounds : List Round) (ip : Text)
    → do_get_ip settle rounds ≡ some (ip, none)
    → IsSettled settle rounds ip
unfolding do_get_ip
do_get_ip-IsSettled settle rounds ip h = elim (get_ip_cases settle [] 0 rounds ip h) [
  | inl (n, e, s) ↦ absurd (n refl)
  | inr s ↦ s
]

-- The address of a wait that goes on.
pub record IsFound (settle : ℕ) (s s' : IpState) : Type 0 where
  pub ip : Text
  pub not_empty : ip ≢ []
  pub state : s' ≡ record s { ip = some ip }
  pub rounds : List Round
  pub source :
      IsSettled settle rounds ip ⊎ ((e : Option IpError) × (do_get_ip settle rounds ≡ some (ip, e)))

timeout_case :
    (settle : ℕ) (s s' : IpState) (rounds : List Round) (o : Option (Text × Option IpError))
    → do_get_ip settle rounds ≡ o
    → after_timeout s o ≡ some (continue_build, s')
    → IsFound settle s s'
unfolding after_timeout
timeout_case settle s s' rounds none q h = absurd (ground arith)
timeout_case settle s s' rounds (some (ip, e)) q h = elim (Bool-cases (is_empty ip)) [
  | inl i ↦ absurd (ground arith)
  | inr i ↦ record {
    ip = ip;
    not_empty = ground arith;
    state = ground arith;
    rounds = rounds;
    source = inr (e, q);
  }
]

wait_case :
    (settle : ℕ) (s s' : IpState) (rounds : List Round) (o : Option (Text × Option IpError))
    → do_get_ip settle rounds ≡ o
    → after_wait s o ≡ some (continue_build, s')
    → IsFound settle s s'
unfolding after_wait
wait_case settle s s' rounds none q h = absurd (ground arith)
wait_case settle s s' rounds (some (ip, some e)) q h = absurd (ground arith)
wait_case settle s s' rounds (some (ip, none)) q h =
    let settled = do_get_ip-IsSettled settle rounds ip q in
    record {
      ip = ip;
      not_empty = settled.not_empty;
      state = ground arith;
      rounds = rounds;
      source = inl settled;
    }

-- A step that goes on has put an address that is not empty into the state, and changed nothing else:
-- one that has settled, or, after the timeout, the last one that `doGetIp` returned.
pub run_wait-IsFound :
    (settle : ℕ) (s s' : IpState) (events : List Event)
    → run_wait settle s events ≡ some (continue_build, s')
    → IsFound settle s s'
unfolding run_wait
run_wait-IsFound settle s s' [] h = absurd (ground arith)
run_wait-IsFound settle s s' (timed_out rounds ∷ es) h = timeout_case settle s s' rounds _ refl h
run_wait-IsFound settle s s' (wait_done rounds ∷ es) h = wait_case settle s s' rounds _ refl h
run_wait-IsFound settle s s' (interrupted ∷ es) h = absurd (ground arith)
run_wait-IsFound settle s s' (tick true ∷ es) h = absurd (ground arith)
run_wait-IsFound settle s s' (tick false ∷ es) h = run_wait-IsFound settle s s' es h
