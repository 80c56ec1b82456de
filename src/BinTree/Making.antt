-- ===== src/BinTree/Making.antt =====
-- A new tree, and a new node for one.
use devclego.Prelude.{
  Bool-cases, List, Option, [], ap, arith, false, inl, inr, length, refl, some, sym, true, ℕ, ◌+◌,
  ◌<◌, ◌∙◌, ◌∷◌, ◌≡◌,
}
use devclego.Store.{Ptr, null}
use devclego.Puffer.{Puffer, datapuffer_isempty}
use devclego.Puffer.Inv.{read-some, ctor-IsValid}
use devclego.BinTree.{Cell, BinTree, cells, make_bintree, make_bintreenode}
use devclego.BinTree.Cells.{occurs-append, occurs, addresses, first_address, last_address}
use devclego.BinTree.Inv.{entry, entries, Sorted, IsTree}
use devclego.BinTree.Change.{IsTree-ring, uses_self}
use devclego.BinTree.Pop.{cons-parts}
use devclego.BinTree.Enter.{IsFresh}

module _ (memory : ℕ → ℕ) where
  -- A new tree stands for the empty table.
  pub make_bintree-IsTree : (junk : Option Ptr) → IsTree memory (make_bintree junk) []
  unfolding make_bintree cells entries Sorted addresses occurs first_address last_address
  make_bintree-IsTree junk =
      let (ring, no_nodes) = ctor-IsValid junk 32 (omega arith) (omega arith) in
      record {
        sorted = tt;
        unique = λ a. omega arith;
        real = refl;
        top_at = refl;
        bottom_at = refl;
        ring = ring;
        spare = no_nodes;
        counted = refl;
        small = omega arith;
      }

  -- A new node is one that was dropped, or a fresh one.
  pub record IsMade (fresh : Ptr) (t : BinTree) (item : Ptr) : Type 0 where
    pub after : BinTree
    pub spares : List Ptr
    pub cell : Cell
    pub run : make_bintreenode fresh t item ≡ some (after, cell)
    pub whole : IsTree memory after spares
    pub apart : IsFresh after spares cell.address
    pub holds : entry cell ≡ record { item = item; ref = 1 }
    pub root : after.root ≡ t.root

  make-fresh :
      (fresh : Ptr) (t : BinTree) (item : Ptr) (spares : List Ptr)
      → IsTree memory t spares
      → IsFresh t spares fresh
      → datapuffer_isempty t.recycle ≡ true
      → IsMade fresh t item
  unfolding make_bintreenode
  make-fresh fresh t item spares w f none_there = record {
    after = t;
    spares = spares;
    cell = record { address = fresh; item = item; ref = 1 };
    run = rw none_there refl;
    whole = w;
    apart = f;
    holds = refl;
    root = refl;
  }

  not_empty : (p : Puffer Ptr) → datapuffer_isempty p ≡ false → 0 < p.count
  unfolding datapuffer_isempty
  not_empty p e = ground (arith, e)

  make-spare :
      (fresh : Ptr) (t : BinTree) (item : Ptr) (spares : List Ptr)
      → IsTree memory t spares
      → datapuffer_isempty t.recycle ≡ false
      → IsMade fresh t item
  unfolding make_bintreenode occurs addresses
  make-spare fresh t item [] w some_there =
      let (_, _, _, _, _, _, stored) =
        read-some t.recycle w.ring (not_empty t.recycle some_there) in
      absurd (omega (arith, ap length (sym stored ∙ w.spare)))
  make-spare fresh t item (a ∷ spares) w some_there =
      let (kept, x, run, ring, _, _, stored) =
        read-some t.recycle w.ring (not_empty t.recycle some_there) in
      let (is_a, rest) = cons-parts (sym stored ∙ w.spare) in
      let cell : Cell = record { address = a; item = item; ref = 1 } in
      let more : (b : Ptr) → occurs b (a ∷ spares) ≡ occurs b (a ∷ []) + occurs b spares =
        λ b. occurs-append b (a ∷ []) spares in
      record {
        after = record t { recycle = kept };
        spares = spares;
        cell = cell;
        run = rw (some_there, run, is_a) refl;
        whole =
            IsTree-ring memory w kept spares ring rest (λ b. omega (arith, w.unique b, more b))
              (omega (arith, w.real, more null));
        apart = record {
          apart = omega (arith, w.unique a, more a, uses_self cell);
          real = omega (arith, w.real, more null);
        };
        holds = refl;
        root = refl;
      }

  pub make_lem :
      (fresh : Ptr) (t : BinTree) (item : Ptr) (spares : List Ptr)
      → IsTree memory t spares
      → IsFresh t spares fresh
      → IsMade fresh t item
  make_lem fresh t item spares w f = elim (Bool-cases (datapuffer_isempty t.recycle)) [
    | inl e ↦ make-fresh fresh t item spares w f e
    | inr e ↦ make-spare fresh t item spares w e
  ]
