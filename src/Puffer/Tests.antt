-- ===== src/Puffer/Tests.antt =====
-- Runs of the puffer of lib/lib_puffers.c, and its theorems at concrete puffers.
use devclego.Prelude.{
  List, Option, [], arith, min, none, refl, some, suc, true, zero, ℕ, ◌++◌, ◌+◌, ◌-◌, ◌^◌, ◌∷◌, ◌≡◌,
}
use devclego.Puffer.{
  Puffer, datapuffer_ctor, datapuffer_write, datapuffer_read, datapuffer_isfull, datapuffer_isempty,
  datapuffer_clear, datapuffer_dtor,
}
use devclego.Puffer.Window.{window, next}
use devclego.Puffer.Inv.{IsValid, contents}
use devclego.Puffer.Fifo.{Op, give, take_one, answers}
use devclego.Puffer.Refine.{call, calls, puffer_refines}
use devclego.Puffer.Policies.{recv_wine, supply, clear_while, recv_all_milk, release}
use devclego.Puffer.Flow.{recv_all_milk_lem, datapuffer_clear_lem, clear_while_lem}
use devclego.Puffer.Vacant.{IsVacant}
use devclego.Puffer.Release.{release_lem}

-- 8, then 9, round the end of three slots
abbrev ring : Puffer ℕ
ring = record {
  items = some 9 ∷ none ∷ some 8 ∷ [];
  abs_length = 3;
  start = 2;
  end = 1;
  count = 2;
  read = none;
}

abbrev full : Puffer ℕ
full = record ring { items = some 9 ∷ some 7 ∷ some 8 ∷ []; end = 2; count = 3 }

ring-IsValid : IsValid ring
ring-IsValid = record {
  storage = refl;
  positive = omega arith;
  small = omega arith;
  start_in = omega arith;
  count_in = omega arith;
  end_at = record { inside = omega arith; distance = omega arith };
}

ring-IsVacant : IsVacant ring
ring-IsVacant zero h out = absurd (omega arith)
ring-IsVacant (suc zero) h out = refl
ring-IsVacant (suc (suc i)) h out = absurd (omega arith)

ring-contents : contents ring ≡ some 8 ∷ some 9 ∷ []
unfolding contents window next
ring-contents = refl

-- a write on a full puffer takes the place of the oldest item, and counts on
overrun :
    datapuffer_write full (some 5)
    ≡ some (record full { items = some 9 ∷ some 7 ∷ some 5 ∷ []; end = 0; count = 4 })
unfolding datapuffer_write
overrun = refl

-- a read on an empty puffer makes the counter negative
underrun :
    datapuffer_read (datapuffer_ctor {A = ℕ} none 2)
    ≡ some (record (datapuffer_ctor {A = ℕ} none 2) { start = 1; count = 2 ^ 32 - 1 }, none)
unfolding datapuffer_read datapuffer_ctor
underrun = refl

abbrev script : List (Op ℕ)
script = give (some 5) ∷ give (some 6) ∷ take_one ∷ take_one ∷ take_one ∷ take_one ∷ []

puffer_refines_example : calls ring script ≡ some (answers 3 (contents ring) script)
puffer_refines_example = puffer_refines script ring ring-IsValid

script_run :
    calls ring script
    ≡ some (
        ([], none)
        ∷ (some 6 ∷ [], none)
        ∷ ([], some (some 8))
        ∷ ([], some (some 9))
        ∷ ([], some (some 5))
        ∷ ([], none)
        ∷ [])
unfolding calls call recv_wine supply datapuffer_write datapuffer_read datapuffer_isfull
    datapuffer_isempty
script_run = refl

recv_all_milk_lem_example :
    (p : Puffer ℕ) × (dropped : List (Option ℕ)) × (recv_all_milk ring (some 5 ∷ some 6 ∷ []) []
      ≡ some (p, [] ++ dropped))
    × IsValid p
    × (p.abs_length ≡ ring.abs_length)
    × (p.count ≡ min (ring.count + 2) ring.abs_length)
    × (dropped ++ contents p ≡ contents ring ++ some 5 ∷ some 6 ∷ [])
recv_all_milk_lem_example = recv_all_milk_lem (some 5 ∷ some 6 ∷ []) ring [] ring-IsValid

datapuffer_clear_lem_example :
    (p : Puffer ℕ) × (datapuffer_clear true ring ≡ some (p, contents ring))
    × IsValid p
    × (p.abs_length ≡ ring.abs_length)
    × (contents p ≡ [])
datapuffer_clear_lem_example = datapuffer_clear_lem true ring ring-IsValid

clear_while_lem_example :
    (p : Puffer ℕ) × (clear_while 3 ring [] ≡ some (p, [] ++ contents ring))
    × IsValid p
    × (p.count ≡ 0)
clear_while_lem_example = clear_while_lem 3 ring [] ring-IsValid (omega arith)

release_lem_example : release true ring ≡ some (contents ring, [])
release_lem_example = release_lem true ring ring-IsValid ring-IsVacant

-- with the puffer as it stands, `datapuffer_dtor` frees what is stored, in the array's order
dtor_order : datapuffer_dtor (some ring) ≡ some (9 ∷ 8 ∷ [])
unfolding datapuffer_dtor
dtor_order = refl
