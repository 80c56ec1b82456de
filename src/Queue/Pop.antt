-- ===== src/Queue/Pop.antt =====
-- `queue_pop_head`, `queue_pop_tail` and the two peeks.
use devclego.Prelude.{
  [], arith, false, length-append, none, refl, some, sym, true, ◌++◌, ◌==◌, ◌∙◌, ◌∷◌, ◌≡◌, ◌≢◌,
}
use devclego.Store.{
  Ptr, null, Store, get, put, get-put_self, get-put_ne, ok, load-ok, free-ok, modify-ok,
}
use devclego.Store.Returns.{Returns, returns}
use devclego.Queue.{
  Node, node, Queue, queue_pop_head, queue_pop_tail, queue_peek_head, queue_peek_tail,
}
use devclego.Queue.Chain.{
  Cells, has, first, last, IsQueue, frame-put, Chain-snoc, snoc-Chain, last-append, first-snoc,
  has-append,
}

module _ (h : Store Node) (q : Queue) where
  -- On an empty queue the pops and the peeks return NULL and change nothing.
  pub pop-nil :
      IsQueue h q []
      → (queue_pop_head q h ≡ ok (q, null) h)
        × (queue_pop_tail q h ≡ ok (q, null) h)
        × (queue_peek_head q h ≡ ok null h)
        × (queue_peek_tail q h ≡ ok null h)
  unfolding queue_pop_head queue_pop_tail queue_peek_head queue_peek_tail
  pop-nil v =
      let start : (q.head == null) ≡ true = ground arith in
      let stop : (q.tail == null) ≡ true = ground arith in (rw start, rw stop, rw start, rw stop)

  -- The peeks return the items at the two ends.
  pub peek_head-cons :
      (a d : Ptr) (xs : Cells) → IsQueue h q ((a, d) ∷ xs) → queue_peek_head q h ≡ ok d h
  unfolding queue_peek_head
  peek_head-cons a d xs v =
      let (live, out, holds, rest) = v.chain in
      let start : (q.head == null) ≡ false = ground arith in
      rw (start, v.head, load-ok h a (node d (first xs null) null) live holds)

  pub peek_tail-snoc :
      (xs : Cells) (a d : Ptr) → IsQueue h q (xs ++ (a, d) ∷ []) → queue_peek_tail q h ≡ ok d h
  unfolding queue_peek_tail
  peek_tail-snoc xs a d v =
      let (front, live, out, holds) = Chain-snoc h null xs a d null v.chain in
      let tail : q.tail ≡ a = v.tail ∙ last-append xs a d null in
      let stop : (a == null) ≡ false = ground arith in
      rw (tail, stop, load-ok h a (node d null (last xs null)) live holds)

  -- A pop at the head returns the first item, frees its node and leaves the rest.
  pub pop_head-cons :
      (a d : Ptr) (xs : Cells)
      → IsQueue h q ((a, d) ∷ xs)
      → Returns
          (λ (q', item) g.
            (item ≡ d) × (get g a ≡ none) × (q'.has_disposer ≡ q.has_disposer) × IsQueue g q' xs)
          (queue_pop_head q h)
  unfolding queue_pop_head
  pop_head-cons a d [] v =
      let (live, out, holds, rest) = v.chain in
      let start : (q.head == null) ≡ false = ground arith in
      rw
        (
          start,
          v.head,
          load-ok h a (node d null null) live holds,
          free-ok h a (node d null null) live holds,
        )
        (returns (
          refl,
          get-put_self h a none,
          refl,
          record {
            chain = tt;
            head = refl;
            tail = refl;
            counter = ground arith;
            small = ground arith;
          },
        ))
  pop_head-cons a d ((b, e) ∷ xs) v =
      let (live, out, holds, (live_b, out_b, holds_b, rest)) = v.chain in
      let start : (q.head == null) ≡ false = ground arith in
      let more : (b == null) ≡ false = ground arith in
      let ne : a ≢ b = ground arith in
      let h1 = put h a none in
      rw
        (
          start,
          v.head,
          load-ok h a (node d b null) live holds,
          free-ok h a (node d b null) live holds,
          more,
          modify-ok h1 b (node e (first xs null) a) live_b (get-put_ne h a b none ne ∙ holds_b),
        )
        (returns (
          refl,
          get-put_ne h1 b a _ (λ e. ne (sym e)) ∙ get-put_self h a none,
          refl,
          record {
            chain = (
              live_b,
              out_b,
              get-put_self h1 b _,
              frame-put h1 b _ b xs null out_b (frame-put h a none b xs null (ground arith) rest),
            );
            head = refl;
            tail = v.tail;
            counter = ground arith;
            small = ground arith;
          },
        ))

  -- A pop at the tail of a queue of at least two items returns the last one, frees its node and
  -- leaves the others.
  pub pop_tail-snoc :
      (xs : Cells) (b e a d : Ptr)
      → IsQueue h q ((xs ++ (b, e) ∷ []) ++ (a, d) ∷ [])
      → Returns
          (λ (q', item) g.
            (item ≡ d)
            × (get g a ≡ none)
            × (q'.has_disposer ≡ q.has_disposer)
            × IsQueue g q' (xs ++ (b, e) ∷ []))
          (queue_pop_tail q h)
  unfolding queue_pop_tail
  pop_tail-snoc xs b e a d v =
      let ys = xs ++ (b, e) ∷ [] in
      let (front, live, out, holds) = Chain-snoc h null ys a d null v.chain in
      let (front_b, live_b, out_b, holds_b) = Chain-snoc h null xs b e a front in
      let tail : q.tail ≡ a = v.tail ∙ last-append ys a d null in
      let stop : (a == null) ≡ false = ground arith in
      let more : (b == null) ≡ false = ground arith in
      let parts = has-append a xs ((b, e) ∷ []) in
      let ne : a ≢ b = ground (arith, parts) in
      let clear : has a xs ≡ false = ground (arith, parts) in
      let h1 = put h a none in
      let holds' : get h a ≡ some (node d null b) = rw last-append at holds in
      rw
        (
          tail,
          stop,
          load-ok h a (node d null b) live holds',
          free-ok h a (node d null b) live holds',
          more,
          modify-ok h1 b (node e a (last xs null)) live_b (get-put_ne h a b none ne ∙ holds_b),
        )
        (returns (
          refl,
          get-put_ne h1 b a _ (λ e. ne (sym e)) ∙ get-put_self h a none,
          refl,
          record {
            chain =
                snoc-Chain (put h1 b (some (node e null (last xs null)))) null xs b e null
                  (frame-put h1 b _ null xs b out_b (frame-put h a none null xs b clear front_b))
                  live_b out_b (get-put_self h1 b _);
            head = rw first-snoc (rw (first-snoc, first-snoc) at v.head);
            tail = sym (last-append xs b e null);
            counter = ground (arith, v.counter, length-append ys ((a, d) ∷ []));
            small = omega (arith, length-append {0} ys ((a, d) ∷ []));
          },
        ))
