-- ===== src/RecPuffer/Tests.antt =====
-- The theorems on the recycling component at a concrete puffer.
use devclego.Prelude.{List, [], arith, none, refl, some, suc, zero, ℕ, ◌+◌, ◌∷◌, ◌≡◌}
use devclego.Puffer.{Puffer}
use devclego.Puffer.Inv.{IsValid, contents}
use devclego.Puffer.Window.{window}
use devclego.Puffer.Vacant.{IsVacant}
use devclego.RecPuffer.{
  Call, receive, supply, nothing, makes, destroys, serve_all, component_deinit,
}
use devclego.RecPuffer.Refine.{answer, answers, serve_all_refines}
use devclego.RecPuffer.End.{component_deinit_lem}

-- one item in a puffer for two
abbrev pool : Puffer ℕ
pool = record {
  items = none ∷ some 8 ∷ [];
  abs_length = 2;
  start = 1;
  end = 0;
  count = 1;
  read = none;
}

pool-IsValid : IsValid pool
pool-IsValid = record {
  storage = refl;
  positive = omega arith;
  small = omega arith;
  start_in = omega arith;
  count_in = omega arith;
  end_at = record { inside = omega arith; distance = omega arith };
}

pool-IsVacant : IsVacant pool
pool-IsVacant zero h out = refl
pool-IsVacant (suc zero) h out = absurd (omega (arith, out))
pool-IsVacant (suc (suc i)) h out = absurd (omega (arith, h))

abbrev script : List (Call ℕ)
script = supply ∷ supply ∷ receive 5 ∷ receive 6 ∷ receive 7 ∷ []

serve_all_refines_example :
    (p' : Puffer ℕ) × (serve_all 100 (λ a. a + 20) pool script
      ≡ some (p', some 8 ∷ some 100 ∷ [], nothing ∷ makes ∷ nothing ∷ nothing ∷ destroys 7 ∷ []))
    × IsValid p'
    × (p'.abs_length ≡ 2)
    × (contents p' ≡ some 25 ∷ some 26 ∷ [])
unfolding answers answer contents window
serve_all_refines_example = serve_all_refines 100 (λ a. a + 20) script pool pool-IsValid

component_deinit_lem_example : component_deinit 100 (λ a. a) 2 pool ≡ some (contents pool, [])
component_deinit_lem_example =
    component_deinit_lem 100 (λ a. a) 2 pool pool-IsValid pool-IsVacant (omega arith)
