-- ===== src/BinTree/Replace.antt =====
-- A node with two children stays, with the data of the node before it, which leaves in its place.
use mathlib.Core.List.{append_assoc}
use devclego.Prelude.{
  List, [], ap, ap₂, arith, false, inl, inr, length, length-append, none, refl, some, suc, sym,
  zero, ℕ, ◌++◌, ◌+◌, ◌<◌, ◌==◌, ◌∙◌, ◌∷◌, ◌≡◌, ◌≢◌,
}
use devclego.Store.{Ptr}
use devclego.BinTree.{Cell, leaf, BinTree, cells, get_rightest, cell_at, write_at}
use devclego.BinTree.Remove.{candidate_of, pop_from_tree}
use devclego.BinTree.Cells.{
  before, behind, occurs, addresses, uses, uses-append, first_address, last_address,
  last_address-append, find_cell-middle, cells-write_at, write_cell-middle,
}
use devclego.BinTree.Inv.{Entry, entry, entries, entries-append, key, Below, IsMemory, IsTree}
use devclego.BinTree.Table.{lookup, lookup-absent, lookup-middle}
use devclego.BinTree.Ends.{refresh-outside, last_address-other, first_address-other}
use devclego.BinTree.Search.{IsFound, IsMissing, search_root}
use devclego.BinTree.Change.{
  uses_self, uses-alone, uses-over, Sorted-around, Sorted-left, IsTree-over,
}
use devclego.BinTree.Pop.{IsPopped, candidate_cases, pop-one, split_unique}

pub first_address-apart :
    (a : Ptr) (xs : List Cell) (c : Cell) (ys : List Cell)
    → uses a (xs ++ c ∷ ys) ≡ 0
    → (a == first_address (xs ++ c ∷ ys)) ≡ false
first_address-apart a [] c ys e = first_address-other a c ys e
first_address-apart a (x ∷ xs) c ys e = first_address-other a x (xs ++ c ∷ ys) e

pub last_address-apart :
    (a : Ptr) (xs : List Cell) (c : Cell) (ys : List Cell)
    → uses a (xs ++ c ∷ ys) ≡ 0
    → (a == last_address (xs ++ c ∷ ys)) ≡ false
last_address-apart a xs c ys e =
    rw (last_address-append xs c ys)
      (last_address-other a c ys (omega (arith, e, uses-append a xs (c ∷ ys))))

some-none : {e : Entry} → some e ≢ none
some-none f = cc

-- The state of a tree around the node `c`, and what leaves it.
module _ (memory : ℕ → ℕ) {fuel : ℕ} {t : BinTree} {spares : List Ptr} {xs ys : List Cell}
    {d c : Cell} (w : IsTree memory t spares) (split : cells t.root ≡ (xs ++ d ∷ []) ++ c ∷ ys)
    (p : IsPopped memory fuel t spares d.item xs d (c ∷ ys)) where
  abbrev pub copied : BinTree
  copied = record p.after { root = write_at p.after.root c.address p.out.item p.out.ref }

  alone : (uses c.address p.rest ≡ 0) × (uses c.address ys ≡ 0) × (occurs c.address spares ≡ 0)
  alone = uses-alone memory p.whole p.rest c ys p.shape

  pub cell_at-copied : cell_at p.after.root c.address ≡ some c
  unfolding cell_at
  cell_at-copied = rw p.shape (find_cell-middle p.rest c ys alone.0)

  pub cells-copied :
      cells copied.root ≡ p.rest ++ record c { item = p.out.item; ref = p.out.ref } ∷ ys
  cells-copied =
      rw (cells-write_at, p.shape)
        (write_cell-middle p.rest c ys p.out.item p.out.ref alone.0 alone.1)

  pub entries-copied :
      entries (p.rest ++ record c { item = p.out.item; ref = p.out.ref } ∷ [])
      ≡ entries (xs ++ d ∷ [])
  unfolding entries
  entries-copied =
      entries-append p.rest _
      ∙ ap₂ (λ a b. a ++ b ∷ []) p.kept p.taken
      ∙ sym (entries-append xs (d ∷ []))

  pub entries-whole : entries (cells copied.root) ≡ entries (xs ++ d ∷ []) ++ entries ys
  entries-whole =
      let e : entries ((p.rest ++ record c { item = p.out.item; ref = p.out.ref } ∷ []) ++ ys)
          ≡ entries (xs ++ d ∷ []) ++ entries ys =
        entries-append (p.rest ++ record c { item = p.out.item; ref = p.out.ref } ∷ []) ys
        ∙ ap (λ a. a ++ entries ys) entries-copied in
      rw
        (
          cells-copied,
          sym (append_assoc p.rest (record c { item = p.out.item; ref = p.out.ref } ∷ []) ys),
        )
        e

  pub copied-IsTree : IsTree memory copied spares
  copied-IsTree =
      IsTree-over memory p.whole copied p.rest c (record c { item = p.out.item; ref = p.out.ref })
        ys p.shape cells-copied refl
        (rw entries-whole (Sorted-left memory w (xs ++ d ∷ []) c ys split)) refl refl refl refl

  -- The node that leaves is none of the tree's, and none of the spare ones.
  pub out-gone : uses p.out.address (cells p.after.root) + occurs p.out.address spares ≡ 0
  out-gone = omega (arith, p.moved p.out.address, uses_self p.out, w.unique p.out.address)

  pub out-outside : (p.out.address == p.after.top) ≡ false
  out-outside =
      rw (p.whole.top_at, p.shape)
        (last_address-apart p.out.address p.rest c ys
          (omega (arith, out-gone, ap (uses p.out.address) p.shape)))

  pub out-outside_bottom : (p.out.address == p.after.bottom) ≡ false
  out-outside_bottom =
      rw (p.whole.bottom_at, p.shape)
        (first_address-apart p.out.address p.rest c ys
          (omega (arith, out-gone, ap (uses p.out.address) p.shape)))

module _ (memory : ℕ → ℕ) where
  -- The step of `_pop_from_tree` at a node with two children.
  pub pop-replaced :
      (fuel : ℕ) (t : BinTree) (spares : List Ptr) (q : Ptr)
      → IsTree memory t spares
      → (f : IsFound memory t.root q) (zs : List Cell) (d : Cell)
      → candidate_of f.left f.right ≡ none
      → get_rightest f.left ≡ some d
      → cells t.root ≡ ((before f.up ++ zs) ++ d ∷ []) ++ f.cell ∷ (cells f.right ++ behind f.up)
      → before f.up ++ cells f.left ≡ (before f.up ++ zs) ++ d ∷ []
      → IsPopped memory fuel t spares d.item
          (before f.up ++ zs)
          d
          (f.cell ∷ (cells f.right ++ behind f.up))
      → IsPopped memory
          (suc fuel)
          t
          spares
          q
          (before f.up ++ cells f.left)
          f.cell
          (cells f.right ++ behind f.up)
  unfolding pop_from_tree addresses occurs
  pop-replaced fuel t spares q w f zs d none_there most split lower p =
      let after = copied memory w split p in
      let c' = record f.cell { item = p.out.item; ref = p.out.ref } in
      record {
        after = after;
        out = record p.out { item = f.cell.item; ref = f.cell.ref };
        rest = p.rest ++ c' ∷ [];
        run =
            rw
              (
                ap (λ s. s.1) f.ends,
                none_there,
                most,
                p.run,
                cell_at-copied memory w split p,
                pop_from_tree,
              )
              (ap (λ x. some (x, some (record p.out { item = f.cell.item; ref = f.cell.ref })))
                (refresh-outside leaf p.out.address leaf after (out-outside memory w split p)
                  (out-outside_bottom memory w split p)));
        taken = refl;
        shape =
            cells-copied memory w split p
            ∙ sym (append_assoc p.rest (c' ∷ []) (cells f.right ++ behind f.up));
        kept = entries-copied memory w split p ∙ ap entries (sym lower);
        whole = copied-IsTree memory w split p;
        moved = λ a. omega (
          arith,
          p.moved a,
          ap (uses a) p.shape,
          ap (uses a) (cells-copied memory w split p),
          uses-over a p.rest c' f.cell (cells f.right ++ behind f.up) refl,
        );
        ring = p.ring;
      }

  -- The place of the node before one with two children.
  pub lower_split :
      (up ls zs : List Cell) (d : Cell) → ls ≡ zs ++ d ∷ [] → up ++ ls ≡ (up ++ zs) ++ d ∷ []
  lower_split up ls zs d e = rw (e, append_assoc)

  -- A search misses no key that is there.
  pub found_key :
      {t : BinTree} {spares : List Ptr} {q : Ptr}
      → IsTree memory t spares
      → IsMissing memory t.root q
      → (xs : List Cell) (c : Cell) (ys : List Cell) → cells t.root ≡ xs ++ c ∷ ys
      → key memory c.item ≢ key memory q
  unfolding entries
  found_key {t = t} {q = q} w out xs c ys e same =
      let (_, _, b, _) = Sorted-around memory w xs c ys e in
      let here : lookup memory (key memory q) (entries (cells t.root)) ≡ some (entry c) =
        rw (e, entries-append xs (c ∷ ys))
          (lookup-middle memory (key memory q) (entries xs) (entry c) (entries ys) (rw same at b)
            same) in
      let nowhere : lookup memory (key memory q) (entries (cells t.root)) ≡ none =
        rw (out.split, entries-append (before out.up) (behind out.up))
          (lookup-absent memory (key memory q) (entries (before out.up)) (entries (behind out.up))
            out.lesser out.upper) in
      some-none (sym here ∙ nowhere)

  Below-found :
      {t : BinTree} {spares : List Ptr} (q : Ptr)
      → IsTree memory t spares
      → (xs : List Cell) (c : Cell) (ys : List Cell) → cells t.root ≡ xs ++ c ∷ ys
      → key memory c.item ≡ key memory q
      → Below memory (key memory q) (entries xs)
  Below-found q w xs c ys e same =
      let (_, _, b, _) = Sorted-around memory w xs c ys e in rw same at b

  -- The node that the search finds is the one with the key.
  pub found_unique :
      {t : BinTree} {spares : List Ptr} {q : Ptr}
      → IsTree memory t spares
      → (f : IsFound memory t.root q) (xs : List Cell) (c : Cell) (ys : List Cell)
      → cells t.root ≡ xs ++ c ∷ ys
      → key memory c.item ≡ key memory q
      → (xs ≡ before f.up ++ cells f.left) × (c ≡ f.cell) × (ys ≡ cells f.right ++ behind f.up)
  found_unique {q = q} w f xs c ys e same =
      split_unique memory _ xs c ys (before f.up ++ cells f.left) f.cell
        (cells f.right ++ behind f.up) (sym e ∙ f.split) same f.same
        (Below-found q w xs c ys e same)
        (Below-found q w (before f.up ++ cells f.left) f.cell (cells f.right ++ behind f.up) f.split
          f.same)

  -- With as much fuel as there are lesser nodes, and one more.
  pub pop-found :
      IsMemory memory
      → (fuel : ℕ) (t : BinTree) (spares : List Ptr) (q : Ptr) (xs : List Cell) (c : Cell)
        (ys : List Cell)
      → IsTree memory t spares
      → cells t.root ≡ xs ++ c ∷ ys
      → key memory c.item ≡ key memory q
      → length xs < fuel
      → IsPopped memory fuel t spares q xs c ys
  pop-found m zero t spares q xs c ys w e same enough = absurd (omega (arith, enough))
  pop-found m (suc fuel) t spares q xs c ys w e same enough =
      elim (search_root memory m t.root q w.sorted) [
        | inl out ↦ absurd (found_key w out xs c ys e same)
        | inr f ↦
            let (ex, ec, ey) = found_unique w f xs c ys e same in
            rw (ex, ec, ey)
              (elim (candidate_cases f.left f.right) [
                | inl (candidate, ce, both) ↦ pop-one memory fuel t spares q w f candidate ce both
                | inr (none_there, zs, d, most, at_end) ↦
                    let lower = lower_split (before f.up) (cells f.left) zs d at_end in
                    let around = rw lower at f.split in
                    let apart =
                      around
                      ∙ append_assoc (before f.up ++ zs) (d ∷ [])
                          (f.cell ∷ (cells f.right ++ behind f.up)) in
                    pop-replaced fuel t spares q w f zs d none_there most around lower (
                      pop-found m fuel t spares d.item (before f.up ++ zs) d
                        (f.cell ∷ (cells f.right ++ behind f.up)) w apart refl
                        (omega (
                          arith,
                          enough,
                          ap length ex,
                          ap length lower,
                          length-append (before f.up ++ zs) (d ∷ []),
                        )))
              ])
      ]
