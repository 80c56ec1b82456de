-- ===== src/Queue/Push.antt =====
-- `queue_push_head` and `queue_push_tail`.
use devclego.Prelude.{
  [], arith, false, length, length-append, none, refl, sign, some, sym, true, ◌++◌, ◌+◌, ◌<◌, ◌==◌,
  ◌∙◌, ◌∷◌, ◌≡◌, ◌≢◌,
}
use devclego.Store.{Ptr, null, Store, get, put, get-put_self, get-put_ne, modify-ok, create-ok}
use devclego.Store.Returns.{Returns, returns}
use devclego.Queue.{Node, node, Queue, queue_push_head, queue_push_tail}
use devclego.Queue.Chain.{
  Cells, has, first, last, IsQueue, frame-put, has-append, not-has_of_none, Chain-snoc, snoc-Chain,
  last-append, first-snoc,
}

-- a list is empty or has a last element
pub data Ends : Cells → Type 0 where
  empty : Ends []
  snoc : (xs : Cells) (a d : Ptr) → Ends (xs ++ (a, d) ∷ [])

pub ends : (xs : Cells) → Ends xs
ends [] = empty
ends ((a, d) ∷ xs) = grow (ends xs)
  where
    grow : {ys : Cells} → Ends ys → Ends ((a, d) ∷ ys)
    grow empty = snoc [] a d
    grow (snoc ys b e) = snoc ((a, d) ∷ ys) b e

module _ (fresh : Ptr) (item : Ptr) (h : Store Node) (q : Queue) (live : fresh ≢ null)
    (unused : get h fresh ≡ none) where
  -- A push at the head puts the new cell in front of the others.
  pub push_head-cons :
      (xs : Cells)
      → IsQueue h q xs
      → length xs + 1 < sign
      → Returns
          (λ q' g. IsQueue g q' ((fresh, item) ∷ xs) × (q'.has_disposer ≡ q.has_disposer))
          (queue_push_head fresh q item h)
  unfolding queue_push_head
  push_head-cons [] v room =
      let start : (q.head == null) ≡ true = ground arith in
      rw (start, create-ok h fresh (node item null null) live)
        (returns (
          record {
            chain = (live, refl, get-put_self h fresh _, tt);
            head = refl;
            tail = refl;
            counter = ground arith;
            small = ground arith;
          },
          refl,
        ))
  push_head-cons ((a, d) ∷ xs) v room =
      let (live_a, out, holds, rest) = v.chain in
      let start : (q.head == null) ≡ false = ground arith in
      let apart : has fresh ((a, d) ∷ xs) ≡ false =
        not-has_of_none h fresh null ((a, d) ∷ xs) null v.chain unused in
      let ne : fresh ≢ a = ground arith in
      let h1 = put h fresh (some (node item null null)) in
      let h2 = put h1 fresh (some (node item a null)) in
      let h3 = put h2 a (some (node d (first xs null) fresh)) in
      let holds2 : get h2 a ≡ some (node d (first xs null) null) =
        get-put_ne h1 fresh a _ ne ∙ get-put_ne h fresh a _ ne ∙ holds in
      rw
        (
          start,
          v.head,
          create-ok h fresh (node item null null) live,
          modify-ok h1 fresh (node item null null) live (get-put_self h fresh _),
          modify-ok h2 a (node d (first xs null) null) live_a holds2,
        )
        (returns (
          record {
            chain = (
              live,
              apart,
              get-put_ne h2 a fresh _ (λ e. ne (sym e)) ∙ get-put_self h1 fresh _,
              (
                live_a,
                out,
                get-put_self h2 a _,
                frame-put h2 a _ a xs null out (
                    frame-put h1 fresh _ a xs null (ground arith)
                      (frame-put h fresh _ a xs null (ground arith) rest)),
              ),
            );
            head = refl;
            tail = v.tail;
            counter = ground arith;
            small = ground arith;
          },
          refl,
        ))

  push_tail_at :
      {xs : Cells}
      → Ends xs
      → IsQueue h q xs
      → length xs + 1 < sign
      → Returns
          (λ q' g. IsQueue g q' (xs ++ (fresh, item) ∷ []) × (q'.has_disposer ≡ q.has_disposer))
          (queue_push_tail fresh q item h)
  unfolding queue_push_tail
  push_tail_at empty v room =
      let start : (q.tail == null) ≡ true = ground arith in
      rw (start, create-ok h fresh (node item null null) live)
        (returns (
          record {
            chain = (live, refl, get-put_self h fresh _, tt);
            head = refl;
            tail = refl;
            counter = ground arith;
            small = ground arith;
          },
          refl,
        ))
  push_tail_at (snoc ys t e) v room =
      let (front, live_t, out, holds) = Chain-snoc h null ys t e null v.chain in
      let tail : q.tail ≡ t = v.tail ∙ last-append ys t e null in
      let stop : (t == null) ≡ false = ground arith in
      let apart : has fresh (ys ++ (t, e) ∷ []) ≡ false =
        not-has_of_none h fresh null (ys ++ (t, e) ∷ []) null v.chain unused in
      let parts = has-append fresh ys ((t, e) ∷ []) in
      let ne : fresh ≢ t = ground (arith, parts) in
      let clear : has fresh ys ≡ false = ground (arith, parts) in
      let h1 = put h fresh (some (node item null null)) in
      let h2 = put h1 fresh (some (node item null t)) in
      let h3 = put h2 t (some (node e fresh (last ys null))) in
      let holds2 : get h2 t ≡ some (node e null (last ys null)) =
        get-put_ne h1 fresh t _ ne ∙ get-put_ne h fresh t _ ne ∙ holds in
      let kept : get h3 fresh ≡ some (node item null t) =
        get-put_ne h2 t fresh _ (λ e. ne (sym e)) ∙ get-put_self h1 fresh _ in
      rw
        (
          tail,
          stop,
          create-ok h fresh (node item null null) live,
          modify-ok h1 fresh (node item null null) live (get-put_self h fresh _),
          modify-ok h2 t (node e null (last ys null)) live_t holds2,
        )
        (returns (
          record {
            chain =
                snoc-Chain h3 null (ys ++ (t, e) ∷ []) fresh item null
                  (snoc-Chain h3 null ys t e fresh
                    (frame-put h2 t _ null ys t out (
                      frame-put h1 fresh _ null ys t clear
                        (frame-put h fresh _ null ys t clear front)))
                    live_t out (get-put_self h2 t _))
                  live apart (rw last-append kept);
            head = rw (first-snoc, first-snoc) (rw first-snoc at v.head);
            tail = sym (last-append (ys ++ (t, e) ∷ []) fresh item null);
            counter =
                omega
                  (arith, v.counter, length-append {0} (ys ++ (t, e) ∷ []) ((fresh, item) ∷ []));
            small = omega (arith, length-append {0} (ys ++ (t, e) ∷ []) ((fresh, item) ∷ []));
          },
          refl,
        ))

  -- A push at the tail puts the new cell behind the others.
  pub push_tail-snoc :
      (xs : Cells)
      → IsQueue h q xs
      → length xs + 1 < sign
      → Returns
          (λ q' g. IsQueue g q' (xs ++ (fresh, item) ∷ []) × (q'.has_disposer ≡ q.has_disposer))
          (queue_push_tail fresh q item h)
  push_tail-snoc xs v room = push_tail_at (ends xs) v room
