-- ===== src/Threading/Stopping.antt =====
-- `stop_thread`: how long it waits, and when it cancels the thread.
use devclego.Prelude.{
  Bool, add32, arith, false, le_signed, lt_signed, refl, some, suc, true, zero, ℕ, ◌+◌, ◌<◌, ◌==◌,
  ◌≡◌, ◌≤◌,
}
use devclego.Threading.{Thread, run, ready, wait_limit, stop_loop, slept, stop_thread}

stop_loop-stops :
    (n : ℕ) (is_stopped : ℕ → Bool) (fuel k m : ℕ)
    → k + n ≡ m
    → n < fuel
    → m ≤ wait_limit
    → ((i : ℕ) → i < m → is_stopped i ≡ false)
    → is_stopped m ≡ true
    → stop_loop fuel is_stopped k k ≡ some (m, m)
unfolding stop_loop
stop_loop-stops n is_stopped zero k m e f few on off = absurd (omega (arith, f))
stop_loop-stops zero is_stopped (suc fuel) k m e f few on off =
    let here : k ≡ m = omega (arith, e) in rw (here, off)
stop_loop-stops (suc n) is_stopped (suc fuel) k m e f few on off =
    let more : lt_signed k wait_limit ≡ true = ground (arith, e, few) in
    let next : add32 k 1 ≡ k + 1 = omega (arith, e, few) in
    rw (on k (omega (arith, e)), more, next)
      (stop_loop-stops n is_stopped fuel (k + 1) m (omega (arith, e)) (omega (arith, f)) few on off)

stop_loop-runs :
    (n : ℕ) (is_stopped : ℕ → Bool) (fuel k : ℕ)
    → k + n ≡ wait_limit
    → n < fuel
    → ((i : ℕ) → i ≤ wait_limit → is_stopped i ≡ false)
    → stop_loop fuel is_stopped k k ≡ some (wait_limit, wait_limit + 1)
unfolding stop_loop
stop_loop-runs n is_stopped zero k e f on = absurd (omega (arith, f))
stop_loop-runs zero is_stopped (suc fuel) k e f on =
    let here : k ≡ wait_limit = omega (arith, e) in rw (here, on wait_limit (omega arith))
stop_loop-runs (suc n) is_stopped (suc fuel) k e f on =
    let more : lt_signed k wait_limit ≡ true = ground (arith, e) in
    let next : add32 k 1 ≡ k + 1 = omega (arith, e) in
    rw (on k (omega (arith, e)), more, next)
      (stop_loop-runs n is_stopped fuel (k + 1) (omega (arith, e)) (omega (arith, f)) on)

-- A thread that is running and stops by the `m`-th test, `m` at most 10: `stop_thread` sleeps `m`
-- times and leaves the thread ready; it cancels it only if `m` is 10, although it has stopped.
pub stop_thread-stops :
    (t : Thread) (is_stopped : ℕ → Bool) (m : ℕ)
    → t.state ≡ run
    → m ≤ wait_limit
    → ((i : ℕ) → i < m → is_stopped i ≡ false)
    → is_stopped m ≡ true
    → stop_thread 11 is_stopped (some t)
      ≡ some (some (record t { state = ready }), slept m (m == wait_limit))
unfolding stop_thread
stop_thread-stops t is_stopped m running few on off =
    let loop = stop_loop-stops m is_stopped 11 0 m (omega arith) (omega arith) few on off in
    let cancels : le_signed wait_limit m ≡ (m == wait_limit) = ground arith in
    rw (running, loop, cancels)

-- A running thread that has not stopped by then: `stop_thread` sleeps 10 times, cancels it, and
-- leaves it ready.
pub stop_thread-cancels :
    (t : Thread) (is_stopped : ℕ → Bool)
    → t.state ≡ run
    → ((i : ℕ) → i ≤ wait_limit → is_stopped i ≡ false)
    → stop_thread 11 is_stopped (some t)
      ≡ some (some (record t { state = ready }), slept wait_limit true)
unfolding stop_thread
stop_thread-cancels t is_stopped running on =
    let loop = stop_loop-runs 10 is_stopped 11 0 refl (omega arith) on in rw (running, loop)
