-- ===== src/BinTree/Trash.antt =====
-- `_trash_bintreenode`: what becomes of a node that is dropped.
use mathlib.Core.List.{map-append}
use devclego.Prelude.{
  Bool-cases, List, [], ap, arith, false, inl, inr, map, refl, some, sym, ◌++◌, ◌+◌, ◌<◌, ◌∙◌, ◌∷◌,
  ◌≡◌, ◌≤◌,
}
use devclego.Store.{Ptr}
use devclego.Puffer.{Puffer, datapuffer_isfull}
use devclego.Puffer.Inv.{IsValid, contents, write-fits}
use devclego.BinTree.{Tree, BinTree, trash_bintreenode, refresh}
use devclego.BinTree.Cells.{occurs, occurs-append}

-- A node that is dropped is kept for later use, or freed.
pub record IsTrashed (left : Tree) (a : Ptr) (right : Tree) (t t' : BinTree) (spares : List Ptr)
    : Type 0 where
  pub kept : Puffer Ptr
  pub spares' : List Ptr
  pub run : trash_bintreenode left a right t ≡ some (record t' { recycle = kept })
  pub ring : IsValid kept
  pub spare : contents kept ≡ map some spares'
  pub one_more : (b : Ptr) → occurs b spares' ≤ occurs b spares + occurs b (a ∷ [])

not_full : (p : Puffer Ptr) → IsValid p → datapuffer_isfull p ≡ false → p.count < p.abs_length
unfolding datapuffer_isfull
not_full p v room = ground (arith, v.count_in)

pub trash_bintreenode_lem :
    (left : Tree) (a : Ptr) (right : Tree) (t t' : BinTree) (spares : List Ptr)
    → refresh left a right t ≡ t'
    → IsValid t'.recycle
    → contents t'.recycle ≡ map some spares
    → IsTrashed left a right t t' spares
unfolding trash_bintreenode datapuffer_isfull
trash_bintreenode_lem left a right t t' spares e ring spare =
    elim (Bool-cases (datapuffer_isfull t'.recycle)) [
      | inl full ↦ record {
        kept = t'.recycle;
        spares' = spares;
        run = rw (e, full) refl;
        ring = ring;
        spare = spare;
        one_more = λ b. omega arith;
      }
      | inr room ↦
          let (kept, run, ring', _, _, stored) =
            write-fits t'.recycle (some a) ring (not_full t'.recycle ring room) in
          record {
            kept = kept;
            spares' = spares ++ a ∷ [];
            run = rw (e, room, run) refl;
            ring = ring';
            spare =
                stored ∙ ap (λ x. x ++ some a ∷ []) spare ∙ sym (map-append some spares (a ∷ []));
            one_more = λ b. omega (arith, occurs-append b spares (a ∷ []));
          }
    ]
