-- ===== src/Fsm.antt =====
-- The machine of the program: fsm/fsm.c, fsm/fsm_halt.c, fsm/fsm_run.c and `program` of main.c.
-- What a transition calls is recorded as a list of actions, in order; the printing, and the strings
-- for it, are left out.
pub mod Runs
pub mod Program
mod Tests
use devclego.Prelude.{
  Bool, List, Option, [], add32, false, if◌then◌else◌, lt_signed, none, some, suc, zero, ℕ, ◌++◌,
  ◌+◌, ◌==◌, ◌∷◌, ◌>>=◌, ◌>>◌,
}

-- `fsm_states_t`: the values that the C enumeration has.
abbrev pub state_run : ℕ
state_run = 0

abbrev pub state_halt : ℕ
state_halt = 1

-- `fsm_events_t`
abbrev pub event_start : ℕ
event_start = 64

abbrev pub event_stop : ℕ
event_stop = 68

abbrev pub event_setup : ℕ
event_setup = 72

abbrev pub event_shutdown : ℕ
event_shutdown = 76

-- The calls that the transitions make. The argument of `_sys_setup` is a file name, or NULL; it
-- loads a configuration only where there is a name.
pub data Action : Type 0 where
  cmps_ctor config_load sys_start sys_stop sys_shutdown cmps_dtor : Action

unfoldable pub sys_setup : (config_file : Bool) → List Action
sys_setup config_file = if config_file then config_load ∷ [] else []

-- The state that is returned, and the actions.
unfoldable pub halt_trans : (current event : ℕ) (arg : Bool) → ℕ × List Action
unfolding sys_setup
halt_trans current event arg =
    if event == event_setup
    then (state_halt, cmps_ctor ∷ sys_setup arg)
    else (if event == event_start
        then (state_run, sys_start ∷ [])
        else (if event == event_shutdown
            then (state_halt, sys_shutdown ∷ cmps_dtor ∷ [])
            else (current, [])))

unfoldable pub run_trans : (current event : ℕ) → ℕ × List Action
run_trans current event = if event == event_stop then (state_halt, sys_stop ∷ []) else (current, [])

-- `_fsm_fire`; in an unknown state it only prints.
unfoldable pub fire : ℕ → ℕ → Bool → ℕ × List Action
unfolding halt_trans run_trans
fire current event arg =
    if current == state_run
    then run_trans current event
    else (if current == state_halt then halt_trans current event arg else (current, []))

-- One call of `fire` behind another.
unfoldable pub fires : ℕ → List (ℕ × Bool) → ℕ × List Action
unfolding fire
fires current [] = (current, [])
fires current ((event, arg) ∷ events) =
    let (next, done) = fire current event arg in
    let (last, more) = fires next events in (last, done ++ more)

-- The loop of `program`, on fuel: how often it sleeps. `running k` is what the `k`-th test of the
-- flag reads, which the handler of SIGINT clears; `time` is the option's value if it was given.
unfoldable pub wait_loop :
    (fuel : ℕ) → (running : ℕ → Bool) → (time : Option ℕ) → (k sec : ℕ) → Option ℕ
wait_loop zero running time k sec = none
wait_loop (suc fuel) running time k sec =
    let sec' : ℕ = elim time [ none ↦ sec | some n ↦ add32 sec 1 ] in
    let over : Bool = elim time [ none ↦ false | some n ↦ lt_signed n (add32 sec 1) ] in
    let rest = wait_loop fuel running time (k + 1) sec' in
    if running k then (if over then some (k + 1) else rest) else some k

-- `program`, from the machine as `fsm_ctor` leaves it: the last state, the actions, and how often
-- the loop sleeps.
unfoldable pub program :
    (fuel : ℕ) → (running : ℕ → Bool) → (time : Option ℕ) → Option (ℕ × List Action × ℕ)
unfolding fires wait_loop
program fuel running time =
    let (up, first) = fires state_halt ((event_setup, false) ∷ (event_start, false) ∷ []) in
    let (down, second) = fires up ((event_stop, false) ∷ (event_shutdown, false) ∷ []) in
    do slept ← wait_loop fuel running time 0 0; some (down, first ++ second, slept)
