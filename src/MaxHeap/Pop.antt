-- ===== src/MaxHeap/Pop.antt =====
-- `_heap_pop`
use mathlib.Core.List.{perm_append_singleton}
use mathlib.Core.List.Perm
use devclego.Prelude.{
  List, Option, Perm, ap, arith, dec_le, dec_lt, false, get_or, get_or-set, get_or-take, leb,
  length, length-set, length-take, le→leb, ltb, lt→ltb, refl, set, set-perm, sub32, suc, sym, take,
  take-set, take-suc, word, zero, ℕ, ◌+◌, ◌-◌, ◌/◌, ◌<◌, ◌∙◌, ◌∷◌, ◌≡◌, ◌≤◌,
}
use native.Mathlib.Decide.{ℕ_discrete}
use devclego.MaxHeap.{Heap, Result, ok, ◌>>=◌, store, fault, base_size, shrink, heap_pop, down_loop}
use devclego.MaxHeap.Returns
use devclego.MaxHeap.Returns.{Returns, returns}
use devclego.MaxHeap.Order.{IsHeap, parent, key, load-ok, load-fault, store-ok, root_greatest}
use devclego.MaxHeap.Down.{DownInv, down_loop-Placed, down_loop-leaf}
use devclego.MaxHeap.Inv.{IsValid, items, IsRealloc, IsHeap-take}

module _ (realloc : List ℕ → ℕ → Option (List ℕ)) (r : IsRealloc realloc) where
  -- the same first entries in an array that still has room for them
  record Shrunk (h g : Heap) : Type 0 where
    valid : IsValid g
    count : g.count ≡ h.count
    same : items g ≡ items h

  shrink-Shrunk : (h : Heap) → IsValid h → Returns (Shrunk h) (shrink realloc h)
  unfolding shrink
  shrink-Shrunk h v = elim (dec_le h.count (h.size / 4)) [
    | no many ↦
        let e : leb h.count (h.size / 4) ≡ false = ground arith in
        rw e (returns (record { valid = v; count = refl; same = refl }))
    | yes few ↦ elim (dec_lt base_size h.size) [
      | no least ↦
          let e : ltb base_size h.size ≡ false = ground arith in
          rw (le→leb h.count (h.size / 4) few, e)
            (returns (record { valid = v; count = refl; same = refl }))
      | yes large ↦
          let (d, got, size, kept) = r.grants h.array (h.size / 2) in
          let same = kept h.count (omega arith) (omega arith) in
          rw (le→leb h.count (h.size / 4) few, lt→ltb base_size h.size large, got, shrink)
            (returns (record {
              valid = record {
                storage = size;
                positive = omega arith;
                small = omega arith;
                count_in = omega arith;
                order = IsHeap-take h.count h.array d same v.order;
              };
              count = refl;
              same = same;
            }))
    ]
  ]

  start-DownInv :
      (n temp : ℕ) (d : List ℕ) → 0 < n → n ≤ length d → IsHeap n d → DownInv 0 n (set d 0 temp) 0
  start-DownInv n temp d pos size h = record {
    edges = λ c p q low ne.
        ground (arith, h c, get_or-set d 0 c temp 0, get_or-set d 0 (parent c) temp 0);
    bridged = λ c p q e none low. absurd (omega arith);
  }

  -- the last item takes the place of the first
  replace-perm :
      (n : ℕ) (d : List ℕ)
      → n < length d
      → Perm (get_or d 0 0 ∷ take n (set d 0 (get_or d n 0))) (take (suc n) d)
  replace-perm zero d size = rw (take-suc 0 d 0 size) (Perm.refl _)
  replace-perm (suc k) d size =
      let n = suc k in
      let pos : 0 < n = omega arith in
      let x = get_or d n 0 in
      let traded = set-perm (take n d) 0 x 0 (omega (arith, length-take n d)) in
      rw (take-set n d 0 x, take-suc n d 0 size)
        (Perm.trans (rw (get_or-take n d 0 0 pos) at traded)
          (Perm.symm (perm_append_singleton x (take n d))))

  -- On an empty heap the index wraps, and `_heap_pop` reads outside the array.
  pub heap_pop-empty : (h : Heap) → IsValid h → h.count ≡ 0 → heap_pop realloc h ≡ fault
  unfolding heap_pop
  heap_pop-empty h v e =
      let wrapped : sub32 h.count 1 ≡ word - 1 = omega arith in
      rw (wrapped, load-fault h.array (word - 1) (omega arith))

  -- The end of `_heap_pop`: `temp` is put where the loop leaves the hole.
  abbrev finish : Heap → ℕ → Result Heap
  finish g temp = down_loop (g.count + 1) g.count temp g.array 0 >>= λ (d, index).
      store d index temp >>= λ d'. ok (record g { array = d' })

  finish_lem :
      (g : Heap) (temp : ℕ)
      → IsValid g
      → Returns
          (λ g'. IsValid g' × Perm (items g') (take g.count (set g.array 0 temp)))
          (finish g temp)
  finish_lem g temp v = elim (ℕ_discrete g.count 0) [
    | yes e ↦
        let done : down_loop (g.count + 1) g.count temp g.array 0 ≡ ok (g.array, 0) =
          down_loop-leaf (g.count + 1) g.count temp g.array 0 (omega arith) (omega arith)
            (omega arith) in
        rw (done, store-ok g.array 0 temp (omega arith))
          (returns (
            record {
              storage = rw length-set v.storage;
              positive = v.positive;
              small = v.small;
              count_in = v.count_in;
              order = λ c p q low. absurd (omega arith);
            },
            Perm.refl _,
          ))
    | no some_left ↦
        Returns.bind
          (down_loop-Placed 0 g.count temp (g.count + 1) g.array 0 (omega arith) (omega arith)
            (omega arith) (omega arith)
            (start-DownInv g.count temp g.array (omega arith) (omega arith) v.order))
          λ (d, i) placed.
            let size : length d ≡ length g.array = placed.size ∙ length-set g.array 0 temp in
            rw (store-ok d i temp (omega (arith, placed.inside))) (
              returns (
                record {
                  storage = rw length-set (size ∙ v.storage);
                  positive = v.positive;
                  small = v.small;
                  count_in = v.count_in;
                  order = placed.heap;
                },
                placed.perm,
              ))
  ]

  -- With memory to be had, `_heap_pop` on a heap that stores something takes away the first item,
  -- which is a greatest one, and ends in a valid heap of the others.
  pub heap_pop_correct :
      (h : Heap)
      → IsValid h
      → 0 < h.count
      → ((i : ℕ) → i < h.count → key h.array i ≤ key h.array 0)
        × Returns
            (λ g. IsValid g × Perm (get_or h.array 0 0 ∷ items g) (items h))
            (heap_pop realloc h)
  unfolding heap_pop
  heap_pop_correct h v left =
      let n = h.count - 1 in
      let count' : sub32 h.count 1 ≡ n = omega arith in
      let whole : suc n ≡ h.count = omega arith in
      let temp = get_or h.array n 0 in
      let u : IsValid (record h { count = n }) = record {
        storage = v.storage;
        positive = v.positive;
        small = v.small;
        count_in = omega arith;
        order = λ c p q low. v.order c p (omega arith) low;
      } in
      let kept = λ (g : Heap) (shrunk : Shrunk (record h { count = n }) g).
        take-set n h.array 0 temp
        ∙ ap (λ l. set l 0 temp) (sym shrunk.same)
        ∙ sym (take-set g.count g.array 0 temp) in
      (
        λ i hi. root_greatest (suc i) h.count i h.array (omega arith) v.order hi,
        rw (count', load-ok h.array n (omega arith))
            (Returns.bind (shrink-Shrunk (record h { count = n }) u) λ g shrunk.
              Returns.mono (finish_lem g temp shrunk.valid) λ g' (v', perm). (
                v',
                Perm.trans (Perm.cons _ perm)
                    (rw (kept g shrunk, whole) at (replace-perm n h.array (omega arith))),
              )),
      )
