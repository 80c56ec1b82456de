-- ===== src/BinTree/Cells.antt =====
-- The nodes of a tree in order, and their numbers of occurrence.
use mathlib.Core.List.{append_assoc, append-nil, map-append}
use devclego.Prelude.{
  Bool-cases, List, [], ap, arith, if◌then◌else◌, inl, inr, map, refl, some, suc, sym, true, ℕ,
  ◌++◌, ◌+◌, ◌==◌, ◌∙◌, ◌∷◌, ◌≡◌, ◌≢◌,
}
use devclego.Store.{Ptr, null}
use devclego.BinTree.{
  Cell, Tree, leaf, node, Frame, to_left, to_right, plug, get_rightest, get_leftest, cells,
  find_cell, write_cell, write_at, address_of,
}

-- What stands before and behind a place in the tree.
unfoldable pub before : List Frame → List Cell
before [] = []
before (to_left c r ∷ above) = before above
before (to_right l c ∷ above) = before above ++ (cells l ++ c ∷ [])

unfoldable pub behind : List Frame → List Cell
behind [] = []
behind (to_left c r ∷ above) = c ∷ (cells r ++ behind above)
behind (to_right l c ∷ above) = behind above

pub cells-plug :
    (above : List Frame) (t : Tree)
    → cells (plug above t) ≡ before above ++ (cells t ++ behind above)
unfolding cells plug before behind
cells-plug [] t = sym (append-nil (cells t))
cells-plug (to_left c r ∷ above) t = rw (cells-plug above (node t c r), append_assoc)
cells-plug (to_right l c ∷ above) t =
    rw (cells-plug above (node l c t), append_assoc, append_assoc, append_assoc)

-- How often an address occurs.
unfoldable pub occurs : Ptr → List Ptr → ℕ
occurs a [] = 0
occurs a (b ∷ bs) = if b == a then suc (occurs a bs) else occurs a bs

pub occurs-append : (a : Ptr) (xs ys : List Ptr) → occurs a (xs ++ ys) ≡ occurs a xs + occurs a ys
unfolding occurs
occurs-append a [] ys = omega arith
occurs-append a (x ∷ xs) ys = ground (arith, occurs-append a xs ys)

unfoldable pub addresses : List Cell → List Ptr
addresses [] = []
addresses (c ∷ cs) = c.address ∷ addresses cs

pub addresses-append : (xs ys : List Cell) → addresses (xs ++ ys) ≡ addresses xs ++ addresses ys
unfolding addresses
addresses-append [] ys = refl
addresses-append (x ∷ xs) ys = ap (◌∷◌ x.address) (addresses-append xs ys)

-- How often an address is one of a node.
abbrev pub uses : Ptr → List Cell → ℕ
uses a cs = occurs a (addresses cs)

pub uses-append : (a : Ptr) (xs ys : List Cell) → uses a (xs ++ ys) ≡ uses a xs + uses a ys
uses-append a xs ys =
    ap (occurs a) (addresses-append xs ys) ∙ occurs-append a (addresses xs) (addresses ys)

pub uses-cons :
    (a : Ptr) (c : Cell) (cs : List Cell)
    → uses a (c ∷ cs) ≡ (if c.address == a then suc (uses a cs) else uses a cs)
unfolding addresses occurs
uses-cons a c cs = refl

-- A node is found at its address where no other has it.
pub find_cell-middle :
    (xs : List Cell) (c : Cell) (ys : List Cell)
    → uses c.address xs ≡ 0
    → find_cell (xs ++ c ∷ ys) c.address ≡ some c
unfolding find_cell occurs addresses
find_cell-middle [] c ys none_there = ground arith
find_cell-middle (x ∷ xs) c ys none_there = ground (arith, find_cell-middle xs c ys)

-- A write at an address that none of the nodes has, and at that of one.
suc_zero : {n : ℕ} → suc n ≢ 0
suc_zero e = absurd (omega (arith, e))

map-write_cell :
    (xs : List Cell) (a item : Ptr) (ref : ℕ) → uses a xs ≡ 0 → map (write_cell a item ref) xs ≡ xs
unfolding occurs addresses
map-write_cell [] a item ref none_there = refl
map-write_cell (x ∷ xs) a item ref none_there = elim (Bool-cases (x.address == a)) [
  | inl same ↦ absurd (suc_zero (rw same at none_there))
  | inr other ↦ rw (other, map-write_cell xs a item ref (rw other at none_there))
]

pub cells-write_at :
    (t : Tree) (a item : Ptr) (ref : ℕ)
    → cells (write_at t a item ref) ≡ map (write_cell a item ref) (cells t)
unfolding cells write_at
cells-write_at leaf a item ref = refl
cells-write_at (node l c r) a item ref =
    rw (cells-write_at l a item ref, cells-write_at r a item ref, map-append)

pub write_cell-middle :
    (xs : List Cell) (c : Cell) (ys : List Cell) (item : Ptr) (ref : ℕ)
    → uses c.address xs ≡ 0
    → uses c.address ys ≡ 0
    → map (write_cell c.address item ref) (xs ++ c ∷ ys)
      ≡ xs ++ record c { item = item; ref = ref } ∷ ys
write_cell-middle xs c ys item ref e f =
    let self : (c.address == c.address) ≡ true = ground arith in
    rw (
      map-append,
      map-write_cell xs c.address item ref e,
      self,
      map-write_cell ys c.address item ref f,
    )

-- The outermost addresses: NULL where there is no node.
unfoldable pub first_address : List Cell → Ptr
first_address [] = null
first_address (c ∷ cs) = c.address

unfoldable pub last_address : List Cell → Ptr
last_address [] = null
last_address (c ∷ []) = c.address
last_address (c ∷ d ∷ cs) = last_address (d ∷ cs)

pub last_address-append :
    (xs : List Cell) (c : Cell) (ys : List Cell)
    → last_address (xs ++ c ∷ ys) ≡ last_address (c ∷ ys)
unfolding last_address
last_address-append [] c ys = refl
last_address-append (x ∷ []) c ys = refl
last_address-append (x ∷ y ∷ xs) c ys = last_address-append (y ∷ xs) c ys

-- The outermost node of a subtree stands at the end of its nodes.
pub rightest_lem :
    (l : Tree) (c : Cell) (r : Tree)
    → (xs : List Cell) × (d : Cell) × (get_rightest (node l c r) ≡ some d)
      × (cells (node l c r) ≡ xs ++ d ∷ [])
unfolding cells get_rightest
rightest_lem l c leaf = (cells l, c, refl, refl)
rightest_lem l c (node rl d rr) =
    let (xs, e, found, split) = rightest_lem rl d rr in
    (cells l ++ c ∷ xs, e, found, rw (split, append_assoc))

pub leftest_lem :
    (l : Tree) (c : Cell) (r : Tree)
    → (d : Cell) × (ys : List Cell) × (get_leftest (node l c r) ≡ some d)
      × (cells (node l c r) ≡ d ∷ ys)
unfolding cells get_leftest
leftest_lem leaf c r = (c, cells r, refl, refl)
leftest_lem (node ll d lr) c r =
    let (e, ys, found, split) = leftest_lem ll d lr in (e, ys ++ c ∷ cells r, found, rw split)

pub rightest-last : (t : Tree) → address_of (get_rightest t) ≡ last_address (cells t)
unfolding get_rightest cells last_address
rightest-last leaf = refl
rightest-last (node l c r) =
    let (xs, d, found, split) = rightest_lem l c r in
    rw found (sym (ap last_address split ∙ last_address-append xs d []))

pub leftest-first : (t : Tree) → address_of (get_leftest t) ≡ first_address (cells t)
unfolding get_leftest cells first_address
leftest-first leaf = refl
leftest-first (node l c r) =
    let (d, ys, found, split) = leftest_lem l c r in rw found (sym (ap first_address split))
