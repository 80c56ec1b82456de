-- ===== src/Queue/Faults.antt =====
-- Where lib/lib_queue.c does not do what its names say: the test for emptiness, the destructor that
-- is built on it, and the last item at the tail.
use devclego.Prelude.{
  List, [], arith, false, if◌then◌else◌, length, lt_signed-pos, ltb, ltb→lt, lt→ltb, none, refl,
  some, suc, true, zero, ℕ, ◌++◌, ◌<◌, ◌==◌, ◌↔◌, ◌∷◌, ◌≡◌,
}
use devclego.Store.{
  Ptr, null, Store, put, get-put_self, ok, fault, out_of_fuel, load-ok, free-ok, load-fault,
}
use devclego.Store.Returns.{Returns, returns}
use devclego.Queue.{
  Node, node, Queue, queue_pop_head, queue_pop_tail, queue_peek_head, queue_is_empty, dtor_loop,
  queue_dtor,
}
use devclego.Queue.Chain.{Cells, IsQueue}
use devclego.Queue.Pop.{pop-nil}

module _ (h : Store Node) (q : Queue) where
  is_empty-counter : (xs : Cells) → IsQueue h q xs → queue_is_empty q ≡ ltb 0 (length xs)
  unfolding queue_is_empty
  is_empty-counter xs v = rw (v.counter) (lt_signed-pos 0 (length xs) (omega arith) v.small)

  -- `queue_is_empty` answers true exactly on a queue that stores something.
  pub is_empty-inverted :
      (xs : Cells) → IsQueue h q xs → (queue_is_empty q ≡ true) ↔ (0 < length xs)
  is_empty-inverted xs v = rw (is_empty-counter xs v) (ltb→lt 0 (length xs), lt→ltb 0 (length xs))

  -- After `queue_pop_tail` has taken the only item, `head` points at the freed node: the next
  -- `queue_pop_head` or `queue_peek_head` reads it.
  pub pop_tail_last :
      (a d : Ptr)
      → IsQueue h q ((a, d) ∷ [])
      → Returns
          (λ (q', item) g.
            (item ≡ d)
            × (q'.counter ≡ 0)
            × (queue_pop_head q' g ≡ fault)
            × (queue_peek_head q' g ≡ fault))
          (queue_pop_tail q h)
  unfolding queue_pop_tail queue_pop_head queue_peek_head
  pop_tail_last a d v =
      let (live, out, holds, rest) = v.chain in
      let stop : (q.tail == null) ≡ false = ground arith in
      let start : (q.head == null) ≡ false = ground arith in
      let gone = load-fault (put h a none) a (get-put_self h a none) in
      rw
        (
          stop,
          v.tail,
          load-ok h a (node d null null) live holds,
          free-ok h a (node d null null) live holds,
        )
        (returns (refl, ground arith, rw (start, v.head, gone), rw (start, v.head, gone)))

  -- `queue_dtor` disposes of nothing and frees no node where the queue stores something.
  pub dtor-leaks :
      (xs : Cells) (fuel : ℕ)
      → IsQueue h q xs
      → 0 < length xs
      → queue_dtor (suc fuel) (some q) h ≡ ok [] h
  unfolding queue_dtor
  dtor-leaks xs fuel v more = rw (is_empty-counter xs v, lt→ltb 0 (length xs) more)

  dtor_loop-diverges :
      (fuel : ℕ) (disposed : List Ptr) → IsQueue h q [] → dtor_loop fuel q disposed h ≡ out_of_fuel
  unfolding dtor_loop
  dtor_loop-diverges zero disposed v = refl
  dtor_loop-diverges (suc fuel) disposed v =
      rw (is_empty-counter [] v, (pop-nil h q v).0)
        (dtor_loop-diverges fuel (if q.has_disposer then disposed ++ null ∷ [] else disposed) v)

  -- On an empty queue the loop of `queue_dtor` never ends: no number of rounds is enough.
  pub dtor-diverges : (fuel : ℕ) → IsQueue h q [] → queue_dtor fuel (some q) h ≡ out_of_fuel
  unfolding queue_dtor
  dtor-diverges fuel v = dtor_loop-diverges fuel [] v
