-- ===== src/MaxHeap/Up.antt =====
-- The loop of `_heap_push` that moves parents down until the new item has its place. With the item
-- in the hole, each round is a swap with the parent.
use mathlib.Core.List.Perm
use devclego.Prelude.{
  List, arith, dec_le, dec_lt, false, get_or, get_or-set, leb, length, length-set, le→leb, set, suc,
  sym, true, zero, ℕ, ◌<◌, ◌==◌, ◌∙◌, ◌≡◌, ◌≢◌, ◌≤◌,
}
use devclego.MaxHeap.{rank, heap_cmp, up_loop}
use devclego.MaxHeap.Returns
use devclego.MaxHeap.Returns.{Returns, returns}
use devclego.MaxHeap.Order.{parent, key, Placed, take-move, load-ok, store-ok}

-- `a` is in order but for the edge above `i`, and the children of `i` fit below its parent.
pub record UpInv (n : ℕ) (a : List ℕ) (i : ℕ) : Type 0 where
  pub edges : (c : ℕ) → 0 < c → c < n → c ≢ i → key a c ≤ key a (parent c)
  pub bridged : (c : ℕ) → 0 < c → c < n → parent c ≡ i → 0 < i → key a c ≤ key a (parent i)

module _ (n value : ℕ) where
  stop :
      (d : List ℕ) (i : ℕ)
      → i < n
      → n ≤ length d
      → UpInv n (set d i value) i
      → (0 < i → rank value ≤ key d (parent i))
      → Placed 0 n value (set d i value) (d, i)
  stop d i hi size inv fits = record {
    inside = hi;
    size = sym (length-set d i value);
    heap = λ c p q r.
        ground (arith, inv.edges c, get_or-set d i c value 0, get_or-set d i (parent c) value 0);
    perm = Perm.refl _;
  }

  rise :
      (d : List ℕ) (i : ℕ)
      → 0 < i
      → i < n
      → n ≤ length d
      → UpInv n (set d i value) i
      → key d (parent i) < rank value
      → UpInv n (set (set d i (get_or d (parent i) 0)) (parent i) value) (parent i)
  rise d i pos hi size inv above =
      let d' = set d i (get_or d (parent i) 0) in
      let len = length-set d i (get_or d (parent i) 0) in
      record {
        edges = λ c p q ne. ground (
          arith,
          len,
          inv.edges c,
          inv.bridged c,
          get_or-set d i c value 0,
          get_or-set d i (parent c) value 0,
          get_or-set d i (parent i) value 0,
          get_or-set d i c (get_or d (parent i) 0) 0,
          get_or-set d i (parent c) (get_or d (parent i) 0) 0,
          get_or-set d' (parent i) c value 0,
          get_or-set d' (parent i) (parent c) value 0,
        );
        bridged = λ c p q e pp. ground (
          arith,
          len,
          inv.edges c,
          inv.edges (parent i),
          get_or-set d i c value 0,
          get_or-set d i (parent i) value 0,
          get_or-set d i (parent (parent i)) value 0,
          get_or-set d i c (get_or d (parent i) 0) 0,
          get_or-set d i (parent (parent i)) (get_or d (parent i) 0) 0,
          get_or-set d' (parent i) c value 0,
          get_or-set d' (parent i) (parent (parent i)) value 0,
        );
      }

  -- The loop ends within one round for each index up to the hole and one more, inside the array,
  -- at a place where the item makes a heap of the same items.
  pub up_loop-Placed :
      (fuel : ℕ) (d : List ℕ) (i : ℕ)
      → i < fuel
      → i < n
      → n ≤ length d
      → UpInv n (set d i value) i
      → Returns (Placed 0 n value (set d i value)) (up_loop fuel value d i)
  unfolding up_loop heap_cmp
  up_loop-Placed zero d i f hi size inv = elim f [ ]
  up_loop-Placed (suc fuel) d i f hi size inv = elim (dec_lt 0 i) [
    | no z ↦
        let root : (i == 0) ≡ true = ground arith in
        rw root (returns (stop d i hi size inv (omega arith)))
    | yes pos ↦
        let inner : (i == 0) ≡ false = ground arith in
        let p = parent i in
        let x = get_or d p 0 in
        elim (dec_le (rank value) (key d p)) [
          | yes fits ↦
              rw (inner, load-ok d p (omega arith), le→leb (rank value) (key d p) fits)
                (returns (stop d i hi size inv (λ _. fits)))
          | no above ↦
              let more : leb (rank value) (key d p) ≡ false = ground arith in
              let later =
                up_loop-Placed fuel (set d i x) p (omega arith) (omega arith) (rw length-set size)
                  (rise d i pos hi size inv (omega arith)) in
              rw (inner, load-ok d p (omega arith), more, store-ok d i x (omega arith))
                (Returns.mono later λ r placed. record {
                  inside = placed.inside;
                  size = placed.size ∙ simp length-set;
                  heap = placed.heap;
                  perm =
                      Perm.trans placed.perm
                        (take-move n value d i p hi size (omega arith) (omega arith));
                })
        ]
  ]
