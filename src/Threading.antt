-- ===== src/Threading.antt =====
-- lib/lib_threading.c: the barrier and the life of a thread. What pthread does is not modelled: a
-- call runs under the mutex from where it starts or wakes up to where it waits or returns, and that
-- is one function here. A broadcast is counted; a call that waits may also wake up without one.
pub mod Calls
pub mod Phase
pub mod Gate
pub mod Stopping
mod Tests
use devclego.Prelude.{
  Bool, Option, add32, false, if◌then◌else◌, le_signed, lt_signed, ltb, none, some, sub32, suc,
  true, zero, ℕ, ◌+◌, ◌-◌, ◌==◌, ◌^◌, ◌>>=◌, ◌>>◌,
}

-- The numbers of `barrier_t`, an `uint32_t` each, and how often the calls that wait were woken by
-- `pthread_cond_broadcast`.
pub record Barrier : Type 0 where
  pub gatenum : ℕ
  pub current : ℕ
  pub broadcasts : ℕ

-- `BARRIER_FLAG`
abbrev pub barrier_flag : ℕ
barrier_flag = 2 ^ 31

-- How a call goes on: it waits in the first loop or in the second, or it returns
-- `PTHREAD_BARRIER_SERIAL_THREAD` or 0.
pub data Outcome : Type 0 where
  blocked waits serial leaves : Outcome

unfoldable pub barrier_ctor : Barrier
barrier_ctor = record { gatenum = 0; current = 0; broadcasts = 0 }

-- The end of `barrier_wait`, behind the second loop.
unfoldable pub barrier_leave : Barrier → Barrier
barrier_leave b =
    let left = sub32 b.current 1 in
    record b {
      current = left;
      broadcasts = if left == barrier_flag then b.broadcasts + 1 else b.broadcasts;
    }

-- `barrier_wait` behind the first loop.
unfoldable pub barrier_arrive : Barrier → Barrier × Outcome
unfolding barrier_leave
barrier_arrive b =
    let arrived = add32 (if b.current == barrier_flag then 0 else b.current) 1 in
    if arrived == b.gatenum
    then (
      record b { current = add32 arrived (barrier_flag - 1); broadcasts = b.broadcasts + 1 },
      serial,
    )
    else (if ltb arrived barrier_flag
        then (record b { current = arrived }, waits)
        else (barrier_leave (record b { current = arrived }), leaves))

-- A call that starts, or wakes up in the first loop.
unfoldable pub barrier_enter : Barrier → Barrier × Outcome
unfolding barrier_arrive
barrier_enter b = if ltb barrier_flag b.current then (b, blocked) else barrier_arrive b

-- A call that wakes up in the second loop.
unfoldable pub barrier_wake : Barrier → Barrier × Outcome
unfolding barrier_leave
barrier_wake b = if ltb b.current barrier_flag then (b, waits) else (barrier_leave b, leaves)

-- Whether the loop of `barrier_dtor` waits on.
unfoldable pub barrier_busy : Barrier → Bool
barrier_busy b = ltb barrier_flag b.current

-- `thread_state_t`
pub data ThreadState : Type 0 where
  constructed ready started run stop stopped : ThreadState

-- What the model keeps of `thread_t`: the state, and whether a process is set.
pub record Thread : Type 0 where
  pub state : ThreadState
  pub has_process : Bool

unfoldable pub thread_ctor : Thread
thread_ctor = record { state = constructed; has_process = false }

-- A thread pointer may be NULL, and then the calls only print.
unfoldable pub setup_thread : Option Thread → Option Thread
setup_thread none = none
setup_thread (some t) = elim t.state [
  | constructed ↦ some (record t { state = ready; has_process = true })
  | _ ↦ some t
]

-- The thread, and whether `pthread_create` is called.
unfoldable pub start_thread : Option Thread → Option Thread × Bool
start_thread none = (none, false)
start_thread (some t) = elim t.state [
  | ready ↦ (some (record t { state = started }), true)
  | _ ↦ (some t, false)
]

-- `while(thread->state != THREAD_STATE_STOPPED && wait++ < wait_limit)` on fuel: how often it sleeps,
-- and `wait` behind it. `is_stopped k` is what the `k`-th test reads.
abbrev pub wait_limit : ℕ
wait_limit = 10

unfoldable pub stop_loop : (fuel : ℕ) → (is_stopped : ℕ → Bool) → (k wait : ℕ) → Option (ℕ × ℕ)
stop_loop zero is_stopped k wait = none
stop_loop (suc fuel) is_stopped k wait =
    let rest = stop_loop fuel is_stopped (k + 1) (add32 wait 1) in
    if is_stopped k
    then some (k, wait)
    else (if lt_signed wait wait_limit then rest else some (k, add32 wait 1))

-- What a call of `stop_thread` does: nothing, or so many sleeps and perhaps a `pthread_cancel`.
pub data Stop : Type 0 where
  refused : Stop
  slept : (sleeps : ℕ) (cancels : Bool) → Stop

unfoldable pub stop_thread :
    (fuel : ℕ) → (is_stopped : ℕ → Bool) → Option Thread → Option (Option Thread × Stop)
unfolding stop_loop
stop_thread fuel is_stopped none = some (none, refused)
stop_thread fuel is_stopped (some t) = elim t.state [
  | run ↦ (do
    (sleeps, wait) ← stop_loop fuel is_stopped 0 0
    some (some (record t { state = ready }), slept sleeps (le_signed wait_limit wait)))
  | _ ↦ some (some t, refused)
]

-- `thread_dtor` stops a thread that runs, and then frees it.
unfoldable pub thread_dtor : (fuel : ℕ) → (is_stopped : ℕ → Bool) → Option Thread → Option Stop
unfolding stop_thread
thread_dtor fuel is_stopped none = some refused
thread_dtor fuel is_stopped (some t) = elim t.state [
  | run ↦ (do (_, how) ← stop_thread fuel is_stopped (some t); some how)
  | _ ↦ some refused
]
