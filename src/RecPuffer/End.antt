-- ===== src/RecPuffer/End.antt =====
-- The end of the component: `GEN_PUFF_CLEAR_PROC` and then `datapuffer_dtor`.
use mathlib.Core.List.{append-nil, append_assoc}
use devclego.Prelude.{
  List, Option, [], arith, dec_lt, false, some, suc, true, zero, ℕ, ◌++◌, ◌<◌, ◌==◌, ◌∷◌, ◌≡◌,
}
use devclego.Puffer.{Puffer, datapuffer_isempty}
use devclego.Puffer.Inv.{IsValid, contents, contents-empty, read-some}
use devclego.Puffer.Vacant.{IsVacant, read-IsVacant}
use devclego.Puffer.Policies.{clear_while}
use devclego.Puffer.Release.{dtor_vacant}
use devclego.RecPuffer.{component_deinit}

clear_while-IsVacant :
    {A : Type 0} (fuel : ℕ) (p : Puffer A) (done : List (Option A))
    → IsValid p
    → IsVacant p
    → p.count < fuel
    → (p' : Puffer A) × (clear_while fuel p done ≡ some (p', done ++ contents p))
      × IsValid p'
      × IsVacant p'
      × (p'.count ≡ 0)
unfolding clear_while datapuffer_isempty
clear_while-IsVacant zero p done v vacant h = elim h [ ]
clear_while-IsVacant (suc fuel) p done v vacant h = elim (dec_lt 0 p.count) [
  | yes left ↦
      let (q, x, got, u, cap, n, c) = read-some p v left in
      let (p', ran, v', vacant', z) =
        clear_while-IsVacant fuel q (done ++ x ∷ []) u (read-IsVacant p q x v vacant left got)
          (omega arith) in
      let stored : (p.count == 0) ≡ false = ground arith in
      (p', rw (stored, got, ran, c, append_assoc), v', vacant', z)
  | no none_in ↦
      let e : p.count ≡ 0 = omega arith in
      let is_empty : (p.count == 0) ≡ true = ground arith in
      (p, rw (is_empty, contents-empty p e, append-nil), v, vacant, e)
]

-- At the end of the component the destructor gets every item that is stored, once and oldest first,
-- and nothing else is freed.
pub component_deinit_lem :
    {A : Type 0} (item_ctor : A) (item_clean : A → A) (fuel : ℕ) (p : Puffer A)
    → IsValid p
    → IsVacant p
    → p.count < fuel
    → component_deinit item_ctor item_clean fuel p ≡ some (contents p, [])
unfolding component_deinit
component_deinit_lem item_ctor item_clean fuel p v vacant h =
    let (p', ran, v', vacant', z) = clear_while-IsVacant fuel p [] v vacant h in
    rw (ran, dtor_vacant p' v' vacant' z)
