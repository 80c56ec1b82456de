-- ===== src/BinTree/Search.antt =====
-- The search: where it ends, and what stands before and behind that place.
use mathlib.Core.List.{append_assoc}
use devclego.Prelude.{List, [], ap, arith, inl, inr, refl, sym, ℕ, ◌++◌, ◌∙◌, ◌∷◌, ◌≡◌, ◌⊎◌}
use devclego.Store.{Ptr}
use devclego.BinTree.{
  Cell, Tree, leaf, node, Frame, to_left, to_right, less, equal, greater, bintreecmp_int32, plug,
  cells, search_value,
}
use devclego.BinTree.Cells.{before, behind, cells-plug}
use devclego.BinTree.Inv.{
  entries, entry, entries-append, key, Below, Above, Sorted, IsMemory, Below-append, Above-append,
  Below-mono, Above-mono, Sorted-split, cmp_cases,
}

pub cells-around :
    (xs ls : List Cell) (c : Cell) (rs ys : List Cell)
    → xs ++ ((ls ++ c ∷ rs) ++ ys) ≡ (xs ++ ls) ++ c ∷ (rs ++ ys)
cells-around xs ls c rs ys = rw (append_assoc, append_assoc)

module _ (memory : ℕ → ℕ) where
  -- A search ends at a leaf, or at a node with the key.
  pub data Ends (k : ℕ) : Tree → Type 0 where
    at_leaf : Ends k leaf
    at_node : (l : Tree) (c : Cell) (r : Tree) → key memory c.item ≡ k → Ends k (node l c r)

  -- A place in the tree `t` between the lesser keys and the greater ones.
  pub IsPlace : ℕ → Tree → List Frame × Tree → Type 0
  IsPlace k t (above, here) =
      (plug above here ≡ t)
      × Below memory k (entries (before above))
      × Above memory k (entries (behind above))
      × Ends k here

  pub Sorted-node :
      (l : Tree) (c : Cell) (r : Tree)
      → Sorted memory (entries (cells (node l c r)))
      → Sorted memory (entries (cells l))
        × Sorted memory (entries (cells r))
        × Below memory (key memory c.item) (entries (cells l))
        × Above memory (key memory c.item) (entries (cells r))
  unfolding cells entries
  Sorted-node l c r s =
      Sorted-split memory (entries (cells l)) (entry c) (entries (cells r))
        (rw (entries-append (cells l) (c ∷ cells r)) at s)

  search_value-less :
      (l : Tree) (c : Cell) (r : Tree) (above : List Frame) (q : Ptr)
      → bintreecmp_int32 memory q c.item ≡ less
      → search_value memory (node l c r) above q ≡ search_value memory l (to_left c r ∷ above) q
  unfolding search_value
  search_value-less l c r above q e = rw (e, search_value) refl

  search_value-greater :
      (l : Tree) (c : Cell) (r : Tree) (above : List Frame) (q : Ptr)
      → bintreecmp_int32 memory q c.item ≡ greater
      → search_value memory (node l c r) above q ≡ search_value memory r (to_right l c ∷ above) q
  unfolding search_value
  search_value-greater l c r above q e = rw (e, search_value) refl

  search_value-equal :
      (l : Tree) (c : Cell) (r : Tree) (above : List Frame) (q : Ptr)
      → bintreecmp_int32 memory q c.item ≡ equal
      → search_value memory (node l c r) above q ≡ (above, node l c r)
  unfolding search_value
  search_value-equal l c r above q e = rw (e, search_value) refl

  search_value-leaf :
      (above : List Frame) (q : Ptr) → search_value memory leaf above q ≡ (above, leaf)
  unfolding search_value
  search_value-leaf above q = refl

  search_value-IsPlace :
      IsMemory memory
      → (t : Tree) (above : List Frame) (q : Ptr) → Sorted memory (entries (cells t))
      → Below memory (key memory q) (entries (before above))
      → Above memory (key memory q) (entries (behind above))
      → IsPlace (key memory q) (plug above t) (search_value memory t above q)
  unfolding IsPlace plug before behind cells entries Below Above
  search_value-IsPlace m leaf above q s b a = rw (search_value-leaf above q) (refl, b, a, at_leaf)
  search_value-IsPlace m (node l c r) above q s b a =
      let (sl, sr, bl, ar) = Sorted-node l c r s in
      elim (cmp_cases memory m q c.item) [
        | inl (e, same) ↦
            rw (search_value-equal l c r above q e) (refl, b, a, at_node l c r (sym same))
        | inr (inl (e, lt)) ↦ rw (search_value-less l c r above q e) (
            search_value-IsPlace m l (to_left c r ∷ above) q sl b (
              lt,
              rw (entries-append (cells r) (behind above)) (
                  Above-append memory _ (entries (cells r)) (entries (behind above))
                    (Above-mono memory _ _ (entries (cells r)) (omega (arith, lt)) ar) a),
            ))
        | inr (inr (e, gt)) ↦ rw (search_value-greater l c r above q e) (
            search_value-IsPlace m r (to_right l c ∷ above) q sr
              (rw
                (
                  entries-append (before above) (cells l ++ c ∷ []),
                  entries-append (cells l) (c ∷ []),
                )
                (Below-append memory _ (entries (before above)) (entries (cells l) ++ entry c ∷ [])
                  b
                  (Below-append memory _ (entries (cells l)) (entry c ∷ [])
                    (Below-mono memory _ _ (entries (cells l)) (omega (arith, gt)) bl) (gt, tt))))
              a)
      ]

  -- The two ends of a search from the root.
  pub record IsMissing (t : Tree) (q : Ptr) : Type 0 where
    pub up : List Frame
    pub ends : search_value memory t [] q ≡ (up, leaf)
    pub split : cells t ≡ before up ++ behind up
    pub lesser : Below memory (key memory q) (entries (before up))
    pub upper : Above memory (key memory q) (entries (behind up))

  pub record IsFound (t : Tree) (q : Ptr) : Type 0 where
    pub up : List Frame
    pub left : Tree
    pub cell : Cell
    pub right : Tree
    pub ends : search_value memory t [] q ≡ (up, node left cell right)
    pub same : key memory cell.item ≡ key memory q
    pub split : cells t ≡ (before up ++ cells left) ++ cell ∷ (cells right ++ behind up)

  place_root :
      (t : Tree) (q : Ptr) (up : List Frame) (here : Tree)
      → search_value memory t [] q ≡ (up, here)
      → IsPlace (key memory q) t (up, here)
      → IsMissing t q ⊎ IsFound t q
  unfolding IsPlace cells
  place_root t q up _ e (whole, b, a, at_leaf) = inl (record {
    up = up;
    ends = e;
    split = ap cells (sym whole) ∙ cells-plug up leaf;
    lesser = b;
    upper = a;
  })
  place_root t q up _ e (whole, b, a, at_node l c r same) = inr (record {
    up = up;
    left = l;
    cell = c;
    right = r;
    ends = e;
    same = same;
    split =
        ap cells (sym whole)
        ∙ cells-plug up (node l c r)
        ∙ cells-around (before up) (cells l) c (cells r) (behind up);
  })

  pub search_root :
      IsMemory memory
      → (t : Tree) (q : Ptr) → Sorted memory (entries (cells t))
      → IsMissing t q ⊎ IsFound t q
  unfolding IsPlace plug before behind entries Below Above
  search_root m t q s =
      let (up, here) = search_value memory t [] q in
      place_root t q up here refl (search_value-IsPlace m t [] q s tt tt)
