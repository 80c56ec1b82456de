-- ===== src/Threading/Tests.antt =====
-- The theorems on the barrier and on threads at concrete runs.
use devclego.Prelude.{
  Bool, arith, false, if◌then◌else◌, leb, refl, some, true, ℕ, ◌*◌, ◌+◌, ◌<◌, ◌==◌, ◌≡◌, ◌≤◌, ◌⊎◌,
}
use devclego.Threading.{barrier_enter, Thread, run, ready, wait_limit, slept, stop_thread}
use devclego.Threading.Calls.{
  System, starts, wakes, next, fresh, Reaches, begins, goes_on, per_round,
}
use devclego.Threading.Gate.{barrier_safe, barrier_drains, barrier_admits}
use devclego.Threading.Stopping.{stop_thread-stops}

-- two threads come to a barrier for two
abbrev one_in : System
one_in = next (fresh 2) starts

abbrev both_in : System
both_in = next one_in starts

both_in-Reaches : Reaches 2 both_in
both_in-Reaches = goes_on one_in starts (goes_on (fresh 2) starts begins (record {})) (record {})

barrier_safe_example :
    (both_in.rounds_done * 2 ≤ both_in.entered)
    × (both_in.entered < both_in.rounds_done * 2 + 2)
    × (both_in.returned ≤ both_in.rounds_done * 2)
    × (both_in.entered ≡ both_in.returned + both_in.inside)
    × ((both_in.returned ≡ both_in.rounds_done * 2) ⊎ (both_in.entered ≡ both_in.rounds_done * 2))
    × (both_in.barrier.broadcasts + (if both_in.returned == both_in.rounds_done * 2 then 0 else 1)
        ≡ both_in.rounds_done * per_round 2)
barrier_safe_example = barrier_safe 2 (omega arith) (omega arith) both_in both_in-Reaches

both_in_inside : 0 < both_in.inside
unfolding next barrier_enter
both_in_inside = omega arith

both_in_returned : both_in.returned < both_in.rounds_done * 2
unfolding next barrier_enter
both_in_returned = omega arith

barrier_drains_example : (next both_in wakes).returned ≡ both_in.returned + 1
barrier_drains_example =
    barrier_drains 2 (omega arith) (omega arith) both_in both_in-Reaches both_in_inside
      both_in_returned

barrier_admits_example : (next (fresh 2) starts).entered ≡ 0 + 1
barrier_admits_example = barrier_admits 2 (omega arith) (omega arith) (fresh 2) begins refl

abbrev worker : Thread
worker = record { state = run; has_process = true }

abbrev late : ℕ → Bool
late k = leb 3 k

late_before : (i : ℕ) → i < 3 → late i ≡ false
late_before i h = ground arith

stop_thread-stops_example :
    stop_thread 11 late (some worker)
    ≡ some (some (record worker { state = ready }), slept 3 (3 == wait_limit))
stop_thread-stops_example = stop_thread-stops worker late 3 refl (omega arith) late_before refl
