-- ===== src/MaxHeap/Down.antt =====
-- The loop of `_heap_pop` and `_heapify` that moves the bigger child up until the item in the hole
-- has its place. With the item in the hole, each round is a swap with that child.
use mathlib.Core.List.Perm
use devclego.Prelude.{
  Bool-cases, List, add32, arith, dec_le, dec_lt, false, get_or, get_or-set, inl, inr, leb, length,
  length-set, le→leb, ltb, refl, set, sign, suc, sym, true, word, zero, ℕ, ◌%◌, ◌*◌, ◌+◌, ◌<◌, ◌∙◌,
  ◌≡◌, ◌≢◌, ◌≤◌, ◌⊎◌,
}
use devclego.MaxHeap.{ok, rank, heap_cmp, bigger_child, down_loop}
use devclego.MaxHeap.Returns
use devclego.MaxHeap.Returns.{Returns, returns}
use devclego.MaxHeap.Order.{parent, key, Placed, take-move, load-ok, store-ok}

-- From `lo` on `a` is in order but for the edges below `i`, and the children of `i` fit below its
-- parent.
pub record DownInv (lo n : ℕ) (a : List ℕ) (i : ℕ) : Type 0 where
  pub edges : (c : ℕ) → 0 < c → c < n → lo ≤ parent c → parent c ≢ i → key a c ≤ key a (parent c)
  pub bridged :
      (c : ℕ) → 0 < c → c < n → parent c ≡ i → 0 < i → lo ≤ parent i → key a c ≤ key a (parent i)

-- `m` is the child of `i` with the greater key.
record IsBigger (n : ℕ) (d : List ℕ) (i m : ℕ) : Type 0 where
  inside : m < n
  child : (m ≡ 2 * i + 1) ⊎ (m ≡ 2 * i + 2)
  greatest : (c : ℕ) → 0 < c → c < n → parent c ≡ i → key d c ≤ key d m

-- What holds of both children of `i` holds of every child.
below :
    (i c : ℕ) → 0 < c → parent c ≡ i → (P : Type 0) → (c ≡ 2 * i + 1 → P) → (c ≡ 2 * i + 2 → P) → P
below i c p r P left right =
    let cases : (c ≡ 2 * i + 1) ⊎ (c ≡ 2 * i + 2) = omega arith in
    elim cases [ inl e ↦ left e | inr e ↦ right e ]

bigger_child-IsBigger :
    (n : ℕ) (d : List ℕ) (i : ℕ)
    → n ≤ length d
    → n < sign
    → 2 * i + 1 < n
    → Returns (IsBigger n d i) (bigger_child d n (2 * i + 1))
unfolding bigger_child heap_cmp
bigger_child-IsBigger n d i size small h = elim (dec_lt (2 * i + 2) n) [
  | no last ↦
      let e : ltb (add32 (2 * i + 1) 1) n ≡ false = ground arith in
      rw e (
        returns (record {
          inside = h;
          child = inl refl;
          greatest = λ c p q r. let only : c ≡ 2 * i + 1 = omega arith in rw only (omega arith);
        }))
  | yes two ↦
      let e : ltb (add32 (2 * i + 1) 1) n ≡ true = ground arith in
      let other : add32 (2 * i + 1) 1 ≡ 2 * i + 2 = omega arith in
      rw (e, other, load-ok d (2 * i + 2) (omega arith), load-ok d (2 * i + 1) (omega arith))
        (elim (dec_le (key d (2 * i + 1)) (key d (2 * i + 2))) [
          | yes le ↦
              let right : leb (key d (2 * i + 1)) (key d (2 * i + 2)) ≡ true = ground arith in
              rw right (
                returns (record {
                  inside = two;
                  child = inr refl;
                  greatest = λ c p q r. below i c p r _ (λ e. rw e le) (λ e. rw e (omega arith));
                }))
          | no gt ↦
              let left : leb (key d (2 * i + 1)) (key d (2 * i + 2)) ≡ false = ground arith in
              rw left (
                returns (record {
                  inside = h;
                  child = inl refl;
                  greatest = λ c p q r.
                      below i c p r _ (λ e. rw e (omega arith)) (λ e. rw e (omega arith));
                }))
        ])
]

-- An index with no child ends the loop.
pub down_loop-leaf :
    (fuel n value : ℕ) (d : List ℕ) (i : ℕ)
    → 0 < fuel
    → n ≤ 2 * i + 1
    → 2 * i + 1 < word
    → down_loop fuel n value d i ≡ ok (d, i)
unfolding down_loop
down_loop-leaf zero n value d i f h small = elim f [ ]
down_loop-leaf (suc fuel) n value d i f h small =
    let swap : add32 ((i * 2) % word) 1 ≡ 2 * i + 1 = omega arith in
    rw (swap, le→leb n (2 * i + 1) h)

module _ (lo n value : ℕ) where
  stop :
      (d : List ℕ) (i : ℕ)
      → i < n
      → n ≤ length d
      → DownInv lo n (set d i value) i
      → ((c : ℕ) → 0 < c → c < n → parent c ≡ i → key d c ≤ rank value)
      → Placed lo n value (set d i value) (d, i)
  stop d i hi size inv fits = record {
    inside = hi;
    size = sym (length-set d i value);
    heap = λ c p q r.
        ground
          (arith, inv.edges c, fits c, get_or-set d i c value 0, get_or-set d i (parent c) value 0);
    perm = Perm.refl _;
  }

  sink :
      (d : List ℕ) (i m : ℕ)
      → i < n
      → n ≤ length d
      → DownInv lo n (set d i value) i
      → IsBigger n d i m
      → rank value < key d m
      → DownInv lo n (set (set d i (get_or d m 0)) m value) m
  sink d i m hi size inv big below =
      let y = get_or d m 0 in
      let d' = set d i y in
      let len = length-set d i y in
      record {
        edges = λ c p q r ne. ground (
          arith,
          len,
          big.child,
          big.inside,
          inv.edges c,
          inv.bridged m,
          big.greatest c,
          get_or-set d i c value 0,
          get_or-set d i m value 0,
          get_or-set d i (parent i) value 0,
          get_or-set d i (parent c) value 0,
          get_or-set d i c y 0,
          get_or-set d i (parent c) y 0,
          get_or-set d' m c value 0,
          get_or-set d' m (parent c) value 0,
        );
        bridged = λ c p q e pp r. ground (
          arith,
          len,
          big.child,
          big.inside,
          inv.edges c,
          get_or-set d i c value 0,
          get_or-set d i m value 0,
          get_or-set d i c y 0,
          get_or-set d i i y 0,
          get_or-set d' m c value 0,
          get_or-set d' m (parent m) value 0,
        );
      }

  -- The loop ends within one round for each index from the hole on and one more, inside the array,
  -- at a place where the item makes a heap, from `lo` on, of the same items.
  pub down_loop-Placed :
      (fuel : ℕ) (d : List ℕ) (i : ℕ)
      → n < i + fuel
      → i < n
      → n ≤ length d
      → n < sign
      → DownInv lo n (set d i value) i
      → Returns (Placed lo n value (set d i value)) (down_loop fuel n value d i)
  unfolding down_loop heap_cmp
  down_loop-Placed zero d i f hi size small inv = absurd (omega arith)
  down_loop-Placed (suc fuel) d i f hi size small inv =
      let swap : add32 ((i * 2) % word) 1 ≡ 2 * i + 1 = omega arith in
      elim (dec_lt (2 * i + 1) n) [
        | no leaf ↦
            let e : leb n (2 * i + 1) ≡ true = ground arith in
            rw (swap, e) (returns (stop d i hi size inv (λ c p q r. absurd (omega arith))))
        | yes inner ↦
            let e : leb n (2 * i + 1) ≡ false = ground arith in
            rw (swap, e)
              (Returns.bind (bigger_child-IsBigger n d i size small inner) λ m big.
                let y = get_or d m 0 in
                let hm = big.inside in
                rw (load-ok d m (omega arith)) (elim (dec_le (key d m) (rank value)) [
                  | yes fits ↦ rw (le→leb (key d m) (rank value) fits) (
                      returns (stop d i hi size inv λ c p q r. omega (arith, big.greatest c p q r)))
                  | no above ↦
                      let more : leb (key d m) (rank value) ≡ false = ground arith in
                      let later =
                        down_loop-Placed fuel (set d i y) m (omega arith) hm (rw length-set size)
                          small (sink d i m hi size inv big (omega arith)) in
                      rw (more, store-ok d i y (omega arith))
                        (Returns.mono later λ r placed. record {
                          inside = placed.inside;
                          size = placed.size ∙ simp length-set;
                          heap = placed.heap;
                          perm =
                              Perm.trans placed.perm
                                (take-move n value d i m hi size hm (omega arith));
                        })
                ]))
      ]

-- The loop moves the hole only away from the root, and where it leaves the hole in place it has
-- not written to the array.
pub down_loop-still :
    (fuel n value : ℕ) (d : List ℕ) (i : ℕ)
    → n < i + fuel
    → i < n
    → n ≤ length d
    → n < sign
    → Returns (λ (d', j). (i ≤ j) × (j ≡ i → d' ≡ d)) (down_loop fuel n value d i)
unfolding down_loop heap_cmp
down_loop-still zero n value d i f hi size small = absurd (omega arith)
down_loop-still (suc fuel) n value d i f hi size small =
    let swap : add32 ((i * 2) % word) 1 ≡ 2 * i + 1 = omega arith in
    elim (dec_lt (2 * i + 1) n) [
      | no leaf ↦
          let e : leb n (2 * i + 1) ≡ true = ground arith in
          rw (swap, e) (returns (omega arith, λ e. refl))
      | yes inner ↦
          let e : leb n (2 * i + 1) ≡ false = ground arith in
          rw (swap, e)
            (Returns.bind (bigger_child-IsBigger n d i size small inner) λ m big.
              let y = get_or d m 0 in
              let hm = big.inside in
              rw (load-ok d m (omega arith)) (elim (Bool-cases (leb (key d m) (rank value))) [
                | inl fits ↦ rw fits (returns (omega arith, λ e. refl))
                | inr more ↦
                    let later =
                      down_loop-still fuel n value (set d i y) m (omega arith) hm
                        (rw length-set size) small in
                    rw (more, store-ok d i y (omega arith))
                      (Returns.mono later
                        λ (d', j) (far, same). (omega arith, λ e. absurd (omega arith)))
              ]))
    ]
