-- ===== src/Puffer/Flow.antt =====
-- Streams through a puffer: which items survive, and which reach the destructor, in which order.
use devclego.Prelude.{
  Bool, List, Option, [], arith, dec_lt, false, if◌then◌else◌, length, min, refl, rounds, some, suc,
  sym, true, zero, ℕ, ◌++◌, ◌+◌, ◌<◌, ◌==◌, ◌∙◌, ◌∷◌, ◌≡◌,
}
use devclego.Puffer.{
  Puffer, datapuffer_isfull, datapuffer_isempty, datapuffer_readcapacity, clear_loop,
  datapuffer_clear,
}
use devclego.Puffer.Inv.{IsValid, contents, contents-empty, write-fits, read-some}
use devclego.Puffer.Policies.{recv_milk, clear_while, recv_all_milk}
use mathlib.Core.List.{append_assoc, append-nil}

module _ {ℓ} {A : Type ℓ} where
  -- What the item displaces, and what is left.
  recv_milk_lem :
      (p : Puffer A) (x : Option A)
      → IsValid p
      → (p' : Puffer A) × (dropped : List (Option A)) × (recv_milk p x ≡ some (p', dropped))
        × IsValid p'
        × (p'.abs_length ≡ p.abs_length)
        × (p'.count ≡ min (p.count + 1) p.abs_length)
        × (dropped ++ contents p' ≡ contents p ++ x ∷ [])
  unfolding recv_milk datapuffer_isfull
  recv_milk_lem p x v = elim (dec_lt p.count p.abs_length) [
    | yes room ↦
        let (p', done, v', cap, n, c) = write-fits p x v room in
        let free : (p.count == p.abs_length) ≡ false = ground arith in
        (p', [], rw (free, done), v', cap, omega arith, c)
    | no full ↦
        let is_full : (p.count == p.abs_length) ≡ true = ground arith in
        let (q, old, got, u, cap, n, c) = read-some p v (omega arith) in
        let (p', done, v', cap', n', c') = write-fits q x u (omega arith) in
        (p', old ∷ [], rw (is_full, got, done), v', cap' ∙ cap, omega arith, rw (c, c'))
  ]

  -- Received under the policy "the fresher the better", a stream leaves the newest items, as many
  -- as the puffer holds, and hands the others to the destructor: together they are all the items,
  -- in their order.
  pub recv_all_milk_lem :
      (xs : List (Option A)) (p : Puffer A) (gone : List (Option A))
      → IsValid p
      → (p' : Puffer A) × (dropped : List (Option A)) × (recv_all_milk p xs gone
          ≡ some (p', gone ++ dropped))
        × IsValid p'
        × (p'.abs_length ≡ p.abs_length)
        × (p'.count ≡ min (p.count + length xs) p.abs_length)
        × (dropped ++ contents p' ≡ contents p ++ xs)
  unfolding recv_all_milk
  recv_all_milk_lem [] p gone v = (p, [], rw append-nil, v, refl, omega arith, rw append-nil)
  recv_all_milk_lem (x ∷ xs) p gone v =
      let (q, old, done, u, cap, n, c) = recv_milk_lem p x v in
      let (p', dropped, ran, v', cap', n', c') = recv_all_milk_lem xs q (gone ++ old) u in
      (
        p',
        old ++ dropped,
        rw (done, ran, append_assoc),
        v',
        cap' ∙ cap,
        omega arith,
        rw (append_assoc, c', ← append_assoc, c, append_assoc),
      )

  -- The counted loop reads what is stored, oldest first.
  clear_loop_lem :
      (n : ℕ) (p : Puffer A) (has_dtor : Bool) (done : List (Option A))
      → IsValid p
      → n ≡ p.count
      → (p' : Puffer A) × (clear_loop has_dtor n p done
          ≡ some (p', (if has_dtor then done ++ contents p else done)))
        × IsValid p'
        × (p'.abs_length ≡ p.abs_length)
        × (p'.count ≡ 0)
  unfolding clear_loop
  clear_loop_lem zero p true done v e =
      (p, rw (contents-empty p (sym e), append-nil), v, refl, sym e)
  clear_loop_lem zero p false done v e = (p, refl, v, refl, sym e)
  clear_loop_lem (suc n) p true done v e =
      let (q, x, got, u, cap, m, c) = read-some p v (omega arith) in
      let (p', ran, v', cap', z) = clear_loop_lem n q true (done ++ x ∷ []) u (omega arith) in
      (p', rw (got, ran, c, append_assoc), v', cap' ∙ cap, z)
  clear_loop_lem (suc n) p false done v e =
      let (q, x, got, u, cap, m, c) = read-some p v (omega arith) in
      let (p', ran, v', cap', z) = clear_loop_lem n q false done u (omega arith) in
      (p', rw (got, ran), v', cap' ∙ cap, z)

  -- `datapuffer_clear` empties a valid puffer, and calls the destructor, if there is one, on every
  -- item that was stored, oldest first.
  pub datapuffer_clear_lem :
      (has_dtor : Bool) (p : Puffer A)
      → IsValid p
      → (p' : Puffer A) × (datapuffer_clear has_dtor p
          ≡ some (p', (if has_dtor then contents p else [])))
        × IsValid p'
        × (p'.abs_length ≡ p.abs_length)
        × (contents p' ≡ [])
  unfolding datapuffer_clear datapuffer_readcapacity
  datapuffer_clear_lem has_dtor p v =
      let all : rounds p.count ≡ p.count = ground arith in
      let (p', ran, v', cap, z) = clear_loop_lem p.count p has_dtor [] v refl in
      (p', rw (all, ran), v', cap, contents-empty p' z)

  -- `while(not empty)` ends within one round for each item and one more, and hands every item to
  -- the destructor, oldest first.
  pub clear_while_lem :
      (fuel : ℕ) (p : Puffer A) (done : List (Option A))
      → IsValid p
      → p.count < fuel
      → (p' : Puffer A) × (clear_while fuel p done ≡ some (p', done ++ contents p))
        × IsValid p'
        × (p'.count ≡ 0)
  unfolding clear_while datapuffer_isempty
  clear_while_lem zero p done v h = elim h [ ]
  clear_while_lem (suc fuel) p done v h = elim (dec_lt 0 p.count) [
    | yes left ↦
        let (q, x, got, u, cap, n, c) = read-some p v left in
        let (p', ran, v', z) = clear_while_lem fuel q (done ++ x ∷ []) u (omega arith) in
        let stored : (p.count == 0) ≡ false = ground arith in
        (p', rw (stored, got, ran, c, append_assoc), v', z)
    | no nothing ↦
        let e : p.count ≡ 0 = omega arith in
        let is_empty : (p.count == 0) ≡ true = ground arith in
        (p, rw (is_empty, contents-empty p e, append-nil), v, e)
  ]
