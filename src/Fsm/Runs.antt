-- ===== src/Fsm/Runs.antt =====
-- Any sequence of events, from the state in which the machine starts.
use devclego.Prelude.{Bool, List, [], arith, false, true, ℕ, ℕ_discrete, ◌++◌, ◌==◌, ◌∷◌, ◌≡◌}
use devclego.Fsm.{
  state_run, state_halt, event_start, event_stop, event_setup, event_shutdown, Action, cmps_ctor,
  config_load, sys_start, sys_stop, sys_shutdown, cmps_dtor, sys_setup, run_trans, halt_trans, fire,
  fires,
}

-- `OnOff b xs c`: the actions `xs` start and stop the components in turn, from running (`b`) to
-- running (`c`), and nothing is set up or shut down while the components run.
pub data OnOff : Bool → List Action → Bool → Type 0 where
  done : (b : Bool) → OnOff b [] b
  starts : (xs : List Action) (c : Bool) → OnOff true xs c → OnOff false (sys_start ∷ xs) c
  stops : (xs : List Action) (c : Bool) → OnOff false xs c → OnOff true (sys_stop ∷ xs) c
  builds : (xs : List Action) (c : Bool) → OnOff false xs c → OnOff false (cmps_ctor ∷ xs) c
  loads : (xs : List Action) (c : Bool) → OnOff false xs c → OnOff false (config_load ∷ xs) c
  quits : (xs : List Action) (c : Bool) → OnOff false xs c → OnOff false (sys_shutdown ∷ xs) c
  drops : (xs : List Action) (c : Bool) → OnOff false xs c → OnOff false (cmps_dtor ∷ xs) c

-- A known state, and whether the components run in it.
pub data Running : ℕ → Bool → Type 0 where
  up : Running state_run true
  down : Running state_halt false

abbrev Steps : ℕ → Bool → ℕ → Bool → Type 0
Steps current b event arg =
    (c : Bool) × Running (fire current event arg).0 c
    × ((xs : List Action) (d : Bool) → OnOff c xs d → OnOff b ((fire current event arg).1 ++ xs) d)

fire_run : (event : ℕ) (arg : Bool) → Steps state_run true event arg
unfolding fire run_trans
fire_run event arg = elim (ℕ_discrete event event_stop) [
  | yes e ↦
      let t : (event == event_stop) ≡ true = ground arith in
      rw t (false, down, λ xs d o. stops xs d o)
  | no ne ↦ let t : (event == event_stop) ≡ false = ground arith in rw t (true, up, λ xs d o. o)
]

loaded :
    (arg : Bool) (xs : List Action) (d : Bool)
    → OnOff false xs d
    → OnOff false (sys_setup arg ++ xs) d
unfolding sys_setup
loaded true xs d o = loads xs d o
loaded false xs d o = o

fire_halt : (event : ℕ) (arg : Bool) → Steps state_halt false event arg
unfolding fire halt_trans sys_setup
fire_halt event arg = elim (ℕ_discrete event event_setup) [
  | yes e ↦
      let t : (event == event_setup) ≡ true = ground arith in
      rw t (false, down, λ xs d o. builds (sys_setup arg ++ xs) d (loaded arg xs d o))
  | no not_setup ↦
      let t : (event == event_setup) ≡ false = ground arith in
      elim (ℕ_discrete event event_start) [
        | yes e ↦
            let u : (event == event_start) ≡ true = ground arith in
            rw (t, u) (true, up, λ xs d o. starts xs d o)
        | no not_start ↦
            let u : (event == event_start) ≡ false = ground arith in
            elim (ℕ_discrete event event_shutdown) [
              | yes e ↦
                  let w : (event == event_shutdown) ≡ true = ground arith in
                  rw (t, u, w) (false, down, λ xs d o. quits (cmps_dtor ∷ xs) d (drops xs d o))
              | no ne ↦
                  let w : (event == event_shutdown) ≡ false = ground arith in
                  rw (t, u, w) (false, down, λ xs d o. o)
            ]
      ]
]

fire_lem :
    (current : ℕ) (b : Bool)
    → Running current b
    → (event : ℕ) (arg : Bool) → Steps current b event arg
fire_lem _ _ up event arg = fire_run event arg
fire_lem _ _ down event arg = fire_halt event arg

-- From a known state every sequence of events ends in a known state, and its actions start and stop
-- the components in turn; nothing is set up or shut down while they run.
pub fires-OnOff :
    (events : List (ℕ × Bool)) (current : ℕ) (b : Bool)
    → Running current b
    → (c : Bool) × Running (fires current events).0 c × OnOff b (fires current events).1 c
unfolding fires
fires-OnOff [] current b r = (b, r, done b)
fires-OnOff ((event, arg) ∷ events) current b r =
    let (c, next, extend) = fire_lem current b r event arg in
    let (d, last, rest) = fires-OnOff events (fire current event arg).0 c next in
    (d, last, extend (fires (fire current event arg).0 events).1 d rest)
