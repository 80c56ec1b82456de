-- ===== src/Fsm/Tests.antt =====
-- The theorems on the machine at concrete runs.
use devclego.Prelude.{Bool, List, [], arith, false, ltb, lt→ltb, refl, some, true, ℕ, ◌∷◌, ◌≡◌}
use devclego.Fsm.{state_halt, event_start, event_stop, event_setup, fires, program}
use devclego.Fsm.Runs.{OnOff, Running, down, fires-OnOff}
use devclego.Fsm.Program.{whole_run, program-signal}

-- a stop too many, and an event that is none
abbrev script : List (ℕ × Bool)
script =
    (event_setup, true)
    ∷ (event_start, false)
    ∷ (event_stop, false)
    ∷ (event_stop, false)
    ∷ (7, false)
    ∷ []

fires-OnOff_example :
    (c : Bool) × Running (fires state_halt script).0 c × OnOff false (fires state_halt script).1 c
fires-OnOff_example = fires-OnOff script state_halt false down

abbrev interrupted : ℕ → Bool
interrupted k = ltb k 2

program-signal_example : program 5 interrupted (some 9) ≡ some (state_halt, whole_run, 2)
program-signal_example =
    program-signal interrupted (some 9) 2 5 (omega arith, omega arith) (λ i h. lt→ltb i 2 h) refl
      (omega arith)
