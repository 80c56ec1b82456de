-- ===== src/BinTree/Pop.antt =====
-- `_pop_from_tree` gives back the entry with the key, and leaves the other ones.
use mathlib.Core.List.{append-nil, append_assoc}
use devclego.Prelude.{
  List, [], ap, ap₂, arith, inl, inr, none, refl, some, sub32, suc, sym, ℕ, ◌++◌, ◌+◌, ◌∙◌, ◌∷◌,
  ◌≡◌, ◌⊎◌,
}
use devclego.Store.{Ptr}
use devclego.BinTree.{Cell, Tree, leaf, node, BinTree, cells, plug, get_rightest}
use devclego.BinTree.Remove.{candidate_of, pop_from_tree}
use devclego.BinTree.Cells.{
  before, behind, cells-plug, uses, first_address, last_address, rightest_lem,
}
use devclego.BinTree.Inv.{entry, entries, key, Below, IsTree}
use devclego.BinTree.Ends.{refresh-gone}
use devclego.BinTree.Search.{IsFound}
use devclego.BinTree.Change.{uses-middle, uses-alone, IsTree-left}

-- The link that takes a node's place, or the node in the left subtree whose data do.
pub candidate_cases :
    (l r : Tree)
    → ((t : Tree) × (candidate_of l r ≡ some t) × (cells t ≡ cells l ++ cells r))
      ⊎ ((candidate_of l r ≡ none)
          × (zs : List Cell) × (d : Cell) × (get_rightest l ≡ some d)
          × (cells l ≡ zs ++ d ∷ []))
unfolding candidate_of cells
candidate_cases leaf r = inl (r, refl, refl)
candidate_cases (node ll c lr) leaf =
    inl (node ll c lr, refl, sym (append-nil (cells ll ++ c ∷ cells lr)))
candidate_cases (node ll c lr) (node rl d rr) =
    let (zs, e, most, at_end) = rightest_lem ll c lr in inr (refl, zs, e, most, at_end)

pub cells-joined :
    (xs ls rs ys : List Cell) {zs : List Cell}
    → zs ≡ ls ++ rs
    → xs ++ (zs ++ ys) ≡ (xs ++ ls) ++ (rs ++ ys)
cells-joined xs ls rs ys e = rw (e, append_assoc, append_assoc)

pub cons-parts {ℓ} : {A : Type ℓ} {x y : A} {xs ys : List A} → x ∷ xs ≡ y ∷ ys → (x ≡ y) × (xs ≡ ys)
cons-parts e = (cc, cc)

module _ (memory : ℕ → ℕ) where
  -- A sorted list has one place with a key.
  pub split_unique :
      (k : ℕ) (xs : List Cell) (c : Cell) (ys zs : List Cell) (d : Cell) (ws : List Cell)
      → xs ++ c ∷ ys ≡ zs ++ d ∷ ws
      → key memory c.item ≡ k
      → key memory d.item ≡ k
      → Below memory k (entries xs)
      → Below memory k (entries zs)
      → (xs ≡ zs) × (c ≡ d) × (ys ≡ ws)
  unfolding entries Below
  split_unique k [] c ys [] d ws e kc kd b b' = let (f, g) = cons-parts e in (refl, f, g)
  split_unique k [] c ys (z ∷ zs) d ws e kc kd b b' =
      absurd (omega (arith, kc, b'.0, ap (λ x. key memory x.item) (cons-parts e).0))
  split_unique k (x ∷ xs) c ys [] d ws e kc kd b b' =
      absurd (omega (arith, kd, b.0, ap (λ x. key memory x.item) (cons-parts e).0))
  split_unique k (x ∷ xs) c ys (z ∷ zs) d ws e kc kd b b' =
      let (f, g) = cons-parts e in
      let (p, q, r) = split_unique k xs c ys zs d ws g kc kd b.1 b'.1 in (ap₂ ◌∷◌ f p, q, r)

  -- What a removal of the node `c` from between `xs` and `ys` gives.
  pub record IsPopped (fuel : ℕ) (t : BinTree) (spares : List Ptr) (q : Ptr) (xs : List Cell)
      (c : Cell) (ys : List Cell) : Type 0 where
    pub after : BinTree
    pub out : Cell
    pub rest : List Cell
    pub run : pop_from_tree memory fuel t q ≡ some (after, some out)
    pub taken : entry out ≡ entry c
    pub shape : cells after.root ≡ rest ++ ys
    pub kept : entries rest ≡ entries xs
    pub whole : IsTree memory after spares
    pub moved : (a : Ptr) → uses a (cells t.root) ≡ uses a (cells after.root) + uses a (out ∷ [])
    pub ring : after.recycle ≡ t.recycle

  -- A node with one child at most: the child takes its place.
  abbrev lifted : BinTree → Tree → Cell → BinTree
  lifted t root c = record t {
    root = root;
    node_counter = sub32 t.node_counter 1;
    duplicate_counter = sub32 t.duplicate_counter (sub32 c.ref 1);
  }

  abbrev unlinked : BinTree → Tree → Cell → BinTree
  unlinked t root c = record t {
    root = root;
    node_counter = sub32 t.node_counter 1;
    duplicate_counter = sub32 t.duplicate_counter (sub32 c.ref 1);
    top = last_address (cells root);
    bottom = first_address (cells root);
  }

  pub pop-one :
      (fuel : ℕ) (t : BinTree) (spares : List Ptr) (q : Ptr)
      → IsTree memory t spares
      → (f : IsFound memory t.root q) (candidate : Tree)
      → candidate_of f.left f.right ≡ some candidate
      → cells candidate ≡ cells f.left ++ cells f.right
      → IsPopped
          (suc fuel)
          t
          spares
          q
          (before f.up ++ cells f.left)
          f.cell
          (cells f.right ++ behind f.up)
  unfolding cells pop_from_tree
  pop-one fuel t spares q w f candidate ce both =
      let xs = before f.up ++ cells f.left in
      let ys = cells f.right ++ behind f.up in
      let now : cells (plug f.up candidate) ≡ xs ++ ys =
        cells-plug f.up candidate
        ∙ cells-joined (before f.up) (cells f.left) (cells f.right) (behind f.up) both in
      let (none_before, none_behind, _) = uses-alone memory w xs f.cell ys f.split in
      record {
        after = unlinked t (plug f.up candidate) f.cell;
        out = f.cell;
        rest = xs;
        run =
            rw (ap (λ s. s.1) f.ends, ce, ap (λ s. s.0) f.ends, pop_from_tree)
              (ap (λ x. some (x, some f.cell))
                (refresh-gone leaf leaf (lifted t (plug f.up candidate) f.cell) xs f.cell ys xs ys
                  none_before none_behind now (sym (append-nil xs)) refl
                  (w.top_at ∙ ap last_address f.split) (w.bottom_at ∙ ap first_address f.split)));
        taken = refl;
        shape = now;
        kept = refl;
        whole =
            IsTree-left memory w (unlinked t (plug f.up candidate) f.cell) spares xs f.cell ys
              f.split now refl refl refl w.ring w.spare (λ a. omega arith);
        moved =
            λ a. omega (arith, ap (uses a) f.split, ap (uses a) now, uses-middle a xs f.cell ys);
        ring = refl;
      }
