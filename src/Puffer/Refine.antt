-- ===== src/Puffer/Refine.antt =====
-- A valid puffer behaves as the bounded queue of what it stores.
use devclego.Prelude.{
  List, Option, [], arith, dec_lt, false, length, none, refl, some, true, ◌==◌, ◌∷◌, ◌≡◌, ◌>>=◌,
}
use devclego.Puffer.{Puffer, datapuffer_isfull, datapuffer_isempty}
use devclego.Puffer.Inv.{IsValid, contents, length-contents, contents-empty, write-fits, read-some}
use devclego.Puffer.Policies.{recv_wine, supply}
use devclego.Puffer.Fifo.{Op, give, take_one, Reply, answer, answers}

module _ {ℓ} {A : Type ℓ} where
  -- one call, as the code makes it
  unfoldable pub call : Puffer A → Op A → Option (Puffer A × Reply A)
  call p (give x) = do (p', dropped) ← recv_wine p x; some (p', (dropped, none))
  call p take_one = do (p', item) ← supply p; some (p', ([], item))

  unfoldable pub calls : Puffer A → List (Op A) → Option (List (Reply A))
  calls p [] = some []
  calls p (o ∷ ops) = do (p', r) ← call p o; rest ← calls p' ops; some (r ∷ rest)

  isfull_iff : (p : Puffer A) → datapuffer_isfull p ≡ (length (contents p) == p.abs_length)
  unfolding datapuffer_isfull
  isfull_iff p = rw (length-contents p)

  call-answer :
      (p : Puffer A) (o : Op A)
      → IsValid p
      → (p' : Puffer A) × IsValid p'
        × (p'.abs_length ≡ p.abs_length)
        × (call p o ≡ some (p', (answer p.abs_length (contents p) o).1))
        × (contents p' ≡ (answer p.abs_length (contents p) o).0)
  unfolding call answer recv_wine supply datapuffer_isfull datapuffer_isempty
  call-answer p (give x) v = elim (dec_lt p.count p.abs_length) [
    | yes room ↦
        let (p', done, v', cap, n, c) = write-fits p x v room in
        let free : (p.count == p.abs_length) ≡ false = ground arith in
        (p', v', cap, rw (length-contents p, free, done), rw (length-contents p, free) c)
    | no full ↦
        let is_full : (p.count == p.abs_length) ≡ true = ground arith in
        (p, v, refl, rw (length-contents p, is_full), rw (length-contents p, is_full))
  ]
  call-answer p take_one v = elim (dec_lt 0 p.count) [
    | yes left ↦
        let (p', x, done, v', cap, n, c) = read-some p v left in
        let stored : (p.count == 0) ≡ false = ground arith in
        (p', v', cap, rw (stored, done, c), rw c)
    | no nothing ↦
        let is_empty : (p.count == 0) ≡ true = ground arith in
        let e : p.count ≡ 0 = omega arith in
        (p, v, refl, rw (contents-empty p e, is_empty), rw (contents-empty p e))
  ]

  -- No sequence of calls tells a valid puffer from the bounded queue of its contents, and none of
  -- them reads or writes outside the array.
  pub puffer_refines :
      (ops : List (Op A)) (p : Puffer A)
      → IsValid p
      → calls p ops ≡ some (answers p.abs_length (contents p) ops)
  unfolding calls answers
  puffer_refines [] p v = refl
  puffer_refines (o ∷ ops) p v =
      let (p', v', cap, done, c) = call-answer p o v in rw (done, puffer_refines ops p' v', c, cap)
