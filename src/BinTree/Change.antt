-- ===== src/BinTree/Change.antt =====
-- A change of the tree at one node, which keeps the state well formed.
use devclego.Prelude.{
  List, [], ap, arith, length, map, refl, some, sub32, suc, sym, ℕ, ◌++◌, ◌+◌, ◌∙◌, ◌∷◌, ◌≡◌, ◌≤◌,
}
use devclego.Store.{Ptr, null}
use devclego.Puffer.{Puffer}
use devclego.Puffer.Inv.{IsValid, contents}
use devclego.BinTree.{Cell, BinTree, cells}
use devclego.BinTree.Cells.{
  occurs, addresses, uses, uses-append, uses-cons, first_address, last_address, last_address-append,
}
use devclego.BinTree.Inv.{
  entry, entries, entries-append, key, Below, Above, Sorted, IsTree, Sorted-split, Sorted-over,
  Sorted-join,
}

pub uses-middle :
    (a : Ptr) (xs : List Cell) (c : Cell) (ys : List Cell)
    → uses a (xs ++ c ∷ ys) ≡ uses a (xs ++ ys) + uses a (c ∷ [])
unfolding addresses occurs
uses-middle a xs c ys =
    ground
      (arith, uses-append a xs (c ∷ ys), uses-append a xs ys, uses-cons a c ys, uses-cons a c [])

pub uses_self : (c : Cell) → uses c.address (c ∷ []) ≡ 1
unfolding addresses occurs
uses_self c = ground arith

pub last_address-over :
    (xs : List Cell) (c d : Cell) (ys : List Cell)
    → c.address ≡ d.address
    → last_address (xs ++ c ∷ ys) ≡ last_address (xs ++ d ∷ ys)
unfolding last_address
last_address-over xs c d [] e = last_address-append xs c [] ∙ e ∙ sym (last_address-append xs d [])
last_address-over xs c d (y ∷ ys) e =
    last_address-append xs c (y ∷ ys) ∙ sym (last_address-append xs d (y ∷ ys))

pub first_address-over :
    (xs : List Cell) (c d : Cell) (ys : List Cell)
    → c.address ≡ d.address
    → first_address (xs ++ c ∷ ys) ≡ first_address (xs ++ d ∷ ys)
unfolding first_address
first_address-over [] c d ys e = e
first_address-over (x ∷ xs) c d ys e = refl

pub uses-over :
    (a : Ptr) (xs : List Cell) (c d : Cell) (ys : List Cell)
    → c.address ≡ d.address
    → uses a (xs ++ c ∷ ys) ≡ uses a (xs ++ d ∷ ys)
uses-over a xs c d ys e = rw (uses-append, uses-append, uses-cons, uses-cons, e) refl

pub length-middle :
    (xs : List Cell) (c : Cell) (ys : List Cell) → length (xs ++ c ∷ ys) ≡ suc (length (xs ++ ys))
length-middle [] c ys = refl
length-middle (x ∷ xs) c ys = ap suc (length-middle xs c ys)

module _ (memory : ℕ → ℕ) {t : BinTree} {spares : List Ptr} (whole : IsTree memory t spares) where
  -- The entries around a node.
  pub Sorted-around :
      (xs : List Cell) (c : Cell) (ys : List Cell)
      → cells t.root ≡ xs ++ c ∷ ys
      → Sorted memory (entries xs)
        × Sorted memory (entries ys)
        × Below memory (key memory c.item) (entries xs)
        × Above memory (key memory c.item) (entries ys)
  unfolding entries
  Sorted-around xs c ys e =
      Sorted-split memory (entries xs) (entry c) (entries ys)
        (rw (entries-append xs (c ∷ ys)) at (rw e at whole.sorted))

  pub Sorted-left :
      (xs : List Cell) (c : Cell) (ys : List Cell)
      → cells t.root ≡ xs ++ c ∷ ys
      → Sorted memory (entries xs ++ entries ys)
  Sorted-left xs c ys e =
      let (sx, sy, b, a) = Sorted-around xs c ys e in
      Sorted-join memory (entries xs) (entries ys) (key memory c.item) sx sy b a

  -- Other data with the same key.
  pub Sorted-changed :
      (xs : List Cell) (c d : Cell) (ys : List Cell)
      → cells t.root ≡ xs ++ c ∷ ys
      → key memory c.item ≡ key memory d.item
      → Sorted memory (entries (xs ++ d ∷ ys))
  unfolding entries
  Sorted-changed xs c d ys e same = rw (entries-append xs (d ∷ ys)) (
      Sorted-over memory (entries xs) (entry c) (entry d) (entries ys) same
        (rw (entries-append xs (c ∷ ys)) at (rw e at whole.sorted)))

  -- Another node does not have its address, and no spare one has.
  pub uses-alone :
      (xs : List Cell) (c : Cell) (ys : List Cell)
      → cells t.root ≡ xs ++ c ∷ ys
      → (uses c.address xs ≡ 0) × (uses c.address ys ≡ 0) × (occurs c.address spares ≡ 0)
  uses-alone xs c ys e =
      let facts : uses c.address xs + uses c.address ys + occurs c.address spares ≡ 0 = omega (
        arith,
        whole.unique c.address,
        ap (uses c.address) e,
        uses-middle c.address xs c ys,
        uses-append c.address xs ys,
        uses_self c,
      ) in
      (omega (arith, facts), omega (arith, facts), omega (arith, facts))

  -- The node `c` has left, and may be among the spare ones now.
  pub IsTree-left :
      (t' : BinTree) (spares' : List Ptr) (xs : List Cell) (c : Cell) (ys : List Cell)
      → cells t.root ≡ xs ++ c ∷ ys
      → cells t'.root ≡ xs ++ ys
      → t'.node_counter ≡ sub32 t.node_counter 1
      → t'.top ≡ last_address (cells t'.root)
      → t'.bottom ≡ first_address (cells t'.root)
      → IsValid t'.recycle
      → contents t'.recycle ≡ map some spares'
      → ((a : Ptr) → occurs a spares' ≤ occurs a spares + uses a (c ∷ []))
      → IsTree memory t' spares'
  IsTree-left t' spares' xs c ys e now count top bottom ring spare out = record {
    sorted = rw (now, entries-append xs ys) (Sorted-left xs c ys e);
    unique = λ a.
        omega (arith, out a, whole.unique a, ap (uses a) e, ap (uses a) now, uses-middle a xs c ys);
    real = omega (
      arith,
      out null,
      whole.real,
      ap (uses null) e,
      ap (uses null) now,
      uses-middle null xs c ys,
    );
    top_at = top;
    bottom_at = bottom;
    ring = ring;
    spare = spare;
    counted = omega (
      arith,
      count,
      whole.counted,
      whole.small,
      ap length e,
      ap length now,
      length-middle xs c ys,
    );
    small = omega (arith, whole.small, ap length e, ap length now, length-middle xs c ys);
  }

  -- The node `c` has other data, at the same address.
  pub IsTree-over :
      (t' : BinTree) (xs : List Cell) (c d : Cell) (ys : List Cell)
      → cells t.root ≡ xs ++ c ∷ ys
      → cells t'.root ≡ xs ++ d ∷ ys
      → c.address ≡ d.address
      → Sorted memory (entries (cells t'.root))
      → t'.node_counter ≡ t.node_counter
      → t'.top ≡ t.top
      → t'.bottom ≡ t.bottom
      → t'.recycle ≡ t.recycle
      → IsTree memory t' spares
  IsTree-over t' xs c d ys e now at_same s count top bottom ring = record {
    sorted = s;
    unique = λ a.
        omega
          (arith, whole.unique a, ap (uses a) e, ap (uses a) now, uses-over a xs c d ys at_same);
    real =
        omega (
          arith,
          whole.real,
          ap (uses null) e,
          ap (uses null) now,
          uses-over null xs c d ys at_same,
        );
    top_at =
        top
        ∙ whole.top_at
        ∙ ap last_address e
        ∙ last_address-over xs c d ys at_same
        ∙ sym (ap last_address now);
    bottom_at =
        bottom
        ∙ whole.bottom_at
        ∙ ap first_address e
        ∙ first_address-over xs c d ys at_same
        ∙ sym (ap first_address now);
    ring = rw ring whole.ring;
    spare = rw ring whole.spare;
    counted = omega (
      arith,
      count,
      whole.counted,
      ap length e,
      ap length now,
      length-middle xs c ys,
      length-middle xs d ys,
    );
    small = omega (
      arith,
      whole.small,
      ap length e,
      ap length now,
      length-middle xs c ys,
      length-middle xs d ys,
    );
  }

  -- Other nodes are spare.
  pub IsTree-ring :
      (kept : Puffer Ptr) (spares' : List Ptr)
      → IsValid kept
      → contents kept ≡ map some spares'
      → ((a : Ptr) → uses a (cells t.root) + occurs a spares' ≤ 1)
      → uses null (cells t.root) + occurs null spares' ≡ 0
      → IsTree memory (record t { recycle = kept }) spares'
  IsTree-ring kept spares' ring spare unique real = record {
    sorted = whole.sorted;
    unique = unique;
    real = real;
    top_at = whole.top_at;
    bottom_at = whole.bottom_at;
    ring = ring;
    spare = spare;
    counted = whole.counted;
    small = whole.small;
  }
