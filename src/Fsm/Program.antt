-- ===== src/Fsm/Program.antt =====
-- `program` of main.c: what the whole run calls, and when it ends.
use devclego.Prelude.{
  Bool, List, Option, [], add32, arith, false, lt_signed, none, sign, some, suc, true, zero, ℕ, ◌+◌,
  ◌<◌, ◌∷◌, ◌≡◌, ◌≤◌,
}
use devclego.Fsm.{
  state_halt, Action, cmps_ctor, sys_start, sys_stop, sys_shutdown, cmps_dtor, sys_setup, run_trans,
  halt_trans, fire, fires, wait_loop, program,
}

-- The actions of a run from beginning to end.
abbrev pub whole_run : List Action
whole_run = cmps_ctor ∷ sys_start ∷ sys_stop ∷ sys_shutdown ∷ cmps_dtor ∷ []

program_of_wait :
    (fuel : ℕ) (running : ℕ → Bool) (time : Option ℕ) (k : ℕ)
    → wait_loop fuel running time 0 0 ≡ some k
    → program fuel running time ≡ some (state_halt, whole_run, k)
unfolding program fires fire halt_trans run_trans sys_setup
program_of_wait fuel running time k e = rw e

-- The time that was given, if any, is not over before the loop has slept `m` times.
abbrev pub InTime : Option ℕ → ℕ → Type 0
InTime none m = Unit {0}
InTime (some t) m = (t < sign) × (m ≤ t)

wait_untimed :
    (n : ℕ) (running : ℕ → Bool) (fuel k sec m : ℕ)
    → k + n ≡ m
    → n < fuel
    → ((i : ℕ) → i < m → running i ≡ true)
    → running m ≡ false
    → wait_loop fuel running none k sec ≡ some m
unfolding wait_loop
wait_untimed n running zero k sec m e f on off = absurd (omega (arith, f))
wait_untimed zero running (suc fuel) k sec m e f on off =
    let here : k ≡ m = omega (arith, e) in rw (here, off)
wait_untimed (suc n) running (suc fuel) k sec m e f on off =
    rw (on k (omega (arith, e)))
      (wait_untimed n running fuel (k + 1) sec m (omega (arith, e)) (omega (arith, f)) on off)

wait_timed :
    (n : ℕ) (running : ℕ → Bool) (t fuel k m : ℕ)
    → k + n ≡ m
    → n < fuel
    → t < sign
    → m ≤ t
    → ((i : ℕ) → i < m → running i ≡ true)
    → running m ≡ false
    → wait_loop fuel running (some t) k k ≡ some m
unfolding wait_loop
wait_timed n running t zero k m e f small late on off = absurd (omega (arith, f))
wait_timed zero running t (suc fuel) k m e f small late on off =
    let here : k ≡ m = omega (arith, e) in rw (here, off)
wait_timed (suc n) running t (suc fuel) k m e f small late on off =
    let next : add32 k 1 ≡ k + 1 = omega (arith, e) in
    let over : lt_signed t (k + 1) ≡ false = ground (arith, e) in
    rw (on k (omega (arith, e)), next, over)
      (wait_timed n running t fuel (k + 1) m (omega (arith, e)) (omega (arith, f)) small late on
        off)

-- Stopped by SIGINT: where the flag is clear for the first time in the `m`-th test, and the time
-- that was given is not over by then, `program` sleeps `m` times, makes every call of a run from
-- beginning to end, and leaves the machine halted.
pub program-signal :
    (running : ℕ → Bool) (time : Option ℕ) (m fuel : ℕ)
    → InTime time m
    → ((i : ℕ) → i < m → running i ≡ true)
    → running m ≡ false
    → m < fuel
    → program fuel running time ≡ some (state_halt, whole_run, m)
program-signal running none m fuel late on off f =
    program_of_wait fuel running none m (wait_untimed m running fuel 0 0 m (omega arith) f on off)
program-signal running (some t) m fuel (small, late) on off f =
    program_of_wait fuel running (some t) m
      (wait_timed m running t fuel 0 m (omega arith) f small late on off)

wait_out :
    (n : ℕ) (running : ℕ → Bool) (t fuel k : ℕ)
    → k + n ≡ t
    → n < fuel
    → t + 1 < sign
    → ((i : ℕ) → i ≤ t → running i ≡ true)
    → wait_loop fuel running (some t) k k ≡ some (t + 1)
unfolding wait_loop
wait_out n running t zero k e f small on = absurd (omega (arith, f))
wait_out zero running t (suc fuel) k e f small on =
    let here : k ≡ t = omega (arith, e) in
    let next : add32 t 1 ≡ t + 1 = omega arith in
    let over : lt_signed t (t + 1) ≡ true = ground arith in
    rw (here, on t (omega arith), next, over)
wait_out (suc n) running t (suc fuel) k e f small on =
    let next : add32 k 1 ≡ k + 1 = omega (arith, e) in
    let over : lt_signed t (k + 1) ≡ false = ground (arith, e) in
    rw (on k (omega (arith, e)), next, over)
      (wait_out n running t fuel (k + 1) (omega (arith, e)) (omega (arith, f)) small on)

-- With a time of `t` below `2 ^ 31 - 1` and no signal by then, `program` ends by itself: it sleeps
-- `t + 1` times, makes every call of a run, and leaves the machine halted.
pub program-time :
    (running : ℕ → Bool) (t fuel : ℕ)
    → t + 1 < sign
    → ((i : ℕ) → i ≤ t → running i ≡ true)
    → t < fuel
    → program fuel running (some t) ≡ some (state_halt, whole_run, t + 1)
program-time running t fuel small on f =
    program_of_wait fuel running (some t) (t + 1)
      (wait_out t running t fuel 0 (omega arith) f small on)
