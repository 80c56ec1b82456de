-- ===== src/Threading/Calls.antt =====
-- Threads at a barrier: every order in which their calls of `barrier_wait` can run.
use devclego.Prelude.{if◌then◌else◌, ℕ, ◌+◌, ◌-◌, ◌<◌, ◌==◌}
use devclego.Threading.{
  Barrier, Outcome, blocked, waits, serial, leaves, barrier_enter, barrier_wake,
}

-- The barrier, how many calls wait in the first and in the second loop, and how many so far have
-- come behind the first loop, have returned, and have returned as the serial one.
pub record System : Type 0 where
  pub barrier : Barrier
  pub outside : ℕ
  pub inside : ℕ
  pub entered : ℕ
  pub returned : ℕ
  pub rounds_done : ℕ

-- The count after a call that started, or woke up in the first loop.
unfoldable pub settle_enter : System → Barrier × Outcome → System
settle_enter s (b, blocked) = record s { barrier = b; outside = s.outside + 1 }
settle_enter s (b, waits) = record s { barrier = b; inside = s.inside + 1; entered = s.entered + 1 }
settle_enter s (b, serial) = record s {
  barrier = b;
  entered = s.entered + 1;
  returned = s.returned + 1;
  rounds_done = s.rounds_done + 1;
}
settle_enter s (b, leaves) = record s {
  barrier = b;
  entered = s.entered + 1;
  returned = s.returned + 1;
}

-- The count after a call that woke up in the second loop.
unfoldable pub settle_wake : System → Barrier × Outcome → System
settle_wake s (b, leaves) = record s {
  barrier = b;
  inside = s.inside - 1;
  returned = s.returned + 1;
}
settle_wake s (b, _) = record s { barrier = b }

-- A call starts, or one of those that wait wakes up, be it for no reason.
pub data Event : Type 0 where
  starts retries wakes : Event

unfoldable pub next : System → Event → System
unfolding settle_enter settle_wake
next s starts = settle_enter s (barrier_enter s.barrier)
next s retries = settle_enter (record s { outside = s.outside - 1 }) (barrier_enter s.barrier)
next s wakes = settle_wake s (barrier_wake s.barrier)

abbrev pub IsEnabled : System → Event → Type 0
IsEnabled s starts = Unit {0}
IsEnabled s retries = 0 < s.outside
IsEnabled s wakes = 0 < s.inside

-- Nobody has called yet.
abbrev pub fresh : ℕ → System
fresh gatenum = record {
  barrier = record { gatenum = gatenum; current = 0; broadcasts = 0 };
  outside = 0;
  inside = 0;
  entered = 0;
  returned = 0;
  rounds_done = 0;
}

-- What can come of a barrier for `gatenum` threads.
pub data Reaches (gatenum : ℕ) : System → Type 0 where
  begins : Reaches gatenum (fresh gatenum)
  goes_on :
      (s : System) (e : Event) → Reaches gatenum s → IsEnabled s e → Reaches gatenum (next s e)

-- How often a round wakes those that wait: when its last call has come, and when the last of the
-- others has returned.
unfoldable pub per_round : ℕ → ℕ
per_round g = if g == 1 then 1 else 2
