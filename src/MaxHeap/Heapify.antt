-- ===== src/MaxHeap/Heapify.antt =====
-- `_heapify`
use mathlib.Core.List.Perm
use devclego.Prelude.{
  List, Perm, ap, arith, false, get_or, length, length-set, set, set-get_or, sign, sub32, suc, take,
  true, word, zero, ℕ, ◌+◌, ◌-◌, ◌/◌, ◌<◌, ◌==◌, ◌∙◌, ◌≡◌, ◌≤◌,
}
use native.Mathlib.Decide.{ℕ_discrete}
use devclego.MaxHeap.{fault, sift, heapify_loop, heapify}
use devclego.MaxHeap.Returns
use devclego.MaxHeap.Returns.{Returns, returns}
use devclego.MaxHeap.Order.{IsHeap, IsHeapFrom, load-ok, load-fault, store-ok}
use devclego.MaxHeap.Down.{DownInv, down_loop-Placed, down_loop-still}

-- The same items, in order from `lo` on.
abbrev pub Heapified : (lo n : ℕ) → List ℕ → List ℕ → Type 0
Heapified lo n d e = IsHeapFrom lo n e × (length e ≡ length d) × Perm (take n e) (take n d)

module _ (n : ℕ) (small : n < sign) where
  -- One round puts the entry at `item` in order with what is below it.
  sift-Heapified :
      (d : List ℕ) (item : ℕ)
      → item < n
      → n ≤ length d
      → IsHeapFrom (suc item) n d
      → Returns (Heapified item n d) (sift n d item)
  unfolding sift
  sift-Heapified d item hi size h =
      let temp = get_or d item 0 in
      let start : DownInv item n (set d item temp) item = rw set-get_or (record {
        edges = λ c p q low ne. h c p q (omega arith);
        bridged = λ c p q e pos low. absurd (omega arith);
      }) in
      let placed = down_loop-Placed item n temp (n + 1) d item (omega arith) hi size small start in
      let still = down_loop-still (n + 1) n temp d item (omega arith) hi size small in
      rw (load-ok d item (omega arith)) (
        Returns.bind (Returns.both placed still) λ (d', j) (found, (far, same)).
          elim (ℕ_discrete j item) [
            | yes e ↦
                let unmoved : (j == item) ≡ true = ground arith in
                let whole : set d' j temp ≡ d' = rw (same e, e) (set-get_or d item 0) in
                rw unmoved (
                  returns (
                    rw whole at (found.heap),
                    ap length (same e),
                    rw (whole, set-get_or) at (found.perm),
                  ))
            | no ne ↦
                let moved : (j == item) ≡ false = ground arith in
                let size' : length d' ≡ length d = found.size ∙ length-set d item temp in
                rw (moved, store-ok d' j temp (omega (arith, found.inside)))
                  (returns
                    (found.heap, length-set d' j temp ∙ size', rw set-get_or at (found.perm)))
          ])

  heapify_loop-Heapified :
      (item : ℕ) (d : List ℕ)
      → item < n
      → n ≤ length d
      → IsHeapFrom (suc item) n d
      → Returns (Heapified 0 n d) (heapify_loop n item d)
  unfolding heapify_loop
  heapify_loop-Heapified zero d hi size h = sift-Heapified d 0 hi size h
  heapify_loop-Heapified (suc item) d hi size h =
      Returns.bind (sift-Heapified d (suc item) hi size h) λ e (heap, len, perm).
        Returns.mono (heapify_loop-Heapified item e (omega arith) (omega arith) heap)
          λ f (heap', len', perm'). (heap', len' ∙ len, Perm.trans perm' perm)

-- `_heapify` makes a heap of the same items of the first `n` entries of an array, for `n` from 2 up
-- to its length and below `2 ^ 31`.
pub heapify_correct :
    (d : List ℕ) (n : ℕ)
    → 2 ≤ n
    → n ≤ length d
    → n < sign
    → Returns (λ e. IsHeap n e × (length e ≡ length d) × Perm (take n e) (take n d)) (heapify d n)
unfolding heapify
heapify_correct d n two size small =
    let last : sub32 (n / 2) 1 ≡ n / 2 - 1 = omega arith in
    rw last (
      heapify_loop-Heapified n small (n / 2 - 1) d (omega arith) size
        (λ c p q low. absurd (omega arith)))

heapify_loop-fault : (n item : ℕ) (d : List ℕ) → length d ≤ item → heapify_loop n item d ≡ fault
unfolding heapify_loop sift
heapify_loop-fault n zero d h = rw (load-fault d 0 h)
heapify_loop-fault n (suc item) d h = rw (load-fault d (suc item) h)

-- With one item or none the index wraps, and `_heapify` reads outside any array shorter than
-- `2 ^ 32`.
pub heapify-fault : (d : List ℕ) (n : ℕ) → n < 2 → length d < word → heapify d n ≡ fault
unfolding heapify
heapify-fault d n few size =
    let wrapped : sub32 (n / 2) 1 ≡ word - 1 = omega arith in
    rw wrapped (heapify_loop-fault n (word - 1) d (omega arith))
