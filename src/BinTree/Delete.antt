-- ===== src/BinTree/Delete.antt =====
-- `_deref_from_tree` takes one off the count of a key, and its node away at the last one.
use mathlib.Core.List.{append_assoc}
use devclego.Prelude.{
  List, [], ap, arith, false, if◌then◌else◌, length, length-append, lt_signed, none, refl, some,
  sub32, sym, true, ℕ, ◌++◌, ◌+◌, ◌∙◌, ◌∷◌, ◌≡◌, ◌≤◌,
}
use devclego.Store.{Ptr, null}
use devclego.BinTree.{Cell, Tree, leaf, node, BinTree, cells, plug, get_rightest}
use devclego.BinTree.Remove.{candidate_of, deref_from_tree}
use devclego.BinTree.Cells.{
  before, behind, cells-plug, occurs, addresses, uses, first_address, last_address,
}
use devclego.BinTree.Inv.{entry, entries, entries-append, key, IsMemory, IsTree}
use devclego.BinTree.Trash.{trash_bintreenode_lem}
use devclego.BinTree.Table.{release, release-absent, release-middle}
use devclego.BinTree.Ends.{refresh-outside, refresh-gone}
use devclego.BinTree.Search.{IsFound, IsMissing, cells-around}
use devclego.BinTree.Change.{
  uses-over, uses-alone, Sorted-around, Sorted-changed, IsTree-ring, IsTree-left, IsTree-over,
}
use devclego.BinTree.Pop.{IsPopped, cells-joined}
use devclego.BinTree.Replace.{
  copied, cells-copied, copied-IsTree, entries-whole, out-outside, out-outside_bottom, lower_split,
  pop-found,
}

module _ (memory : ℕ → ℕ) where
  -- What a call leaves behind.
  unfoldable pub IsReleased : (fuel : ℕ) → BinTree → Ptr → Type 0
  IsReleased fuel t q =
      (t' : BinTree) × (spares' : List Ptr) × (deref_from_tree memory fuel t q ≡ some t')
      × IsTree memory t' spares'
      × (entries (cells t'.root) ≡ release memory (key memory q) (entries (cells t.root)))

  module _ (fuel : ℕ) (t : BinTree) (spares : List Ptr) (q : Ptr) (w : IsTree memory t spares) where
    pub deref-missing : IsMissing memory t.root q → IsReleased fuel t q
    unfolding deref_from_tree IsReleased
    deref-missing f = (
      t,
      spares,
      rw (ap (λ s. s.1) f.ends, deref_from_tree) refl,
      w,
      rw (f.split, entries-append (before f.up) (behind f.up))
          (sym (
            release-absent memory (key memory q) (entries (before f.up)) (entries (behind f.up))
              f.lesser f.upper)),
    )

    module _ (f : IsFound memory t.root q) where
      lower : List Cell
      lower = before f.up ++ cells f.left

      upper : List Cell
      upper = cells f.right ++ behind f.up

      release-found :
          release memory (key memory q) (entries (cells t.root))
          ≡ entries lower
            ++ (if lt_signed 1 f.cell.ref
                then record { item = f.cell.item; ref = sub32 f.cell.ref 1 } ∷ entries upper
                else entries upper)
      unfolding entries lower upper
      release-found =
          let (_, _, b, _) = Sorted-around memory w lower f.cell upper f.split in
          rw (f.split, entries-append lower (f.cell ∷ upper))
            (release-middle memory (key memory q) (entries lower) (entry f.cell) (entries upper)
              (rw f.same at b) f.same)

      pub deref-survives : lt_signed 1 f.cell.ref ≡ true → IsReleased fuel t q
      unfolding IsReleased deref_from_tree lower upper cells entries
      deref-survives many =
          let c' = record f.cell { ref = sub32 f.cell.ref 1 } in
          let after : BinTree = record t {
            root = plug f.up (node f.left c' f.right);
            duplicate_counter = sub32 t.duplicate_counter 1;
          } in
          let now : cells after.root ≡ lower ++ c' ∷ upper =
            cells-plug f.up (node f.left c' f.right)
            ∙ cells-around (before f.up) (cells f.left) c' (cells f.right) (behind f.up) in
          (
            after,
            spares,
            rw (ap (λ s. s.1) f.ends, many, ap (λ s. s.0) f.ends, deref_from_tree) refl,
            IsTree-over memory w after lower f.cell c' upper f.split now refl
                (rw now (Sorted-changed memory w lower f.cell c' upper f.split refl)) refl refl refl
                refl,
            ap entries now ∙ entries-append lower (c' ∷ upper) ∙ sym (rw many at release-found),
          )

      pub deref-one :
          lt_signed 1 f.cell.ref ≡ false
          → (candidate : Tree) → candidate_of f.left f.right ≡ some candidate
          → cells candidate ≡ cells f.left ++ cells f.right
          → IsReleased fuel t q
      unfolding IsReleased deref_from_tree lower upper addresses
      deref-one last candidate ce both =
          let gone : BinTree = record t { root = plug f.up candidate } in
          let now : cells gone.root ≡ lower ++ upper =
            cells-plug f.up candidate
            ∙ cells-joined (before f.up) (cells f.left) (cells f.right) (behind f.up) both in
          let (none_before, none_behind, _) = uses-alone memory w lower f.cell upper f.split in
          let ends : BinTree = record gone {
            top = last_address (cells gone.root);
            bottom = first_address (cells gone.root);
          } in
          let out =
            trash_bintreenode_lem f.left f.cell.address f.right gone ends spares
              (refresh-gone f.left f.right gone lower f.cell upper (before f.up) (behind f.up)
                none_before none_behind now refl refl (w.top_at ∙ ap last_address f.split)
                (w.bottom_at ∙ ap first_address f.split))
              w.ring w.spare in
          let after : BinTree = record ends {
            recycle = out.kept;
            node_counter = sub32 t.node_counter 1;
          } in
          (
            after,
            out.spares',
            rw (ap (λ s. s.1) f.ends, last, ce, ap (λ s. s.0) f.ends, out.run, deref_from_tree)
                refl,
            IsTree-left memory w after out.spares' lower f.cell upper f.split now refl refl refl
                out.ring out.spare out.one_more,
            ap entries now ∙ entries-append lower upper ∙ sym (rw last at release-found),
          )

      popped_before :
          IsMemory memory
          → (zs : List Cell) (d : Cell)
          → cells t.root
            ≡ ((before f.up ++ zs) ++ d ∷ []) ++ f.cell ∷ (cells f.right ++ behind f.up)
          → length (cells t.root) ≤ fuel
          → IsPopped memory fuel t spares d.item
              (before f.up ++ zs)
              d
              (f.cell ∷ (cells f.right ++ behind f.up))
      popped_before m zs d around enough =
          let apart =
            around
            ∙ append_assoc (before f.up ++ zs) (d ∷ []) (f.cell ∷ (cells f.right ++ behind f.up)) in
          pop-found memory m fuel t spares d.item (before f.up ++ zs) d
            (f.cell ∷ (cells f.right ++ behind f.up)) w apart refl
            (omega (
              arith,
              enough,
              ap length apart,
              length-append (before f.up ++ zs) (d ∷ f.cell ∷ (cells f.right ++ behind f.up)),
            ))

      -- The addresses after the data were copied, with the node that left among the spare ones.
      module _ (m : IsMemory memory) (zs : List Cell) (d : Cell)
          (around : cells t.root
            ≡ ((before f.up ++ zs) ++ d ∷ []) ++ f.cell ∷ (cells f.right ++ behind f.up))
          (enough : length (cells t.root) ≤ fuel) (spares' : List Ptr) where
        p :
            IsPopped memory fuel t spares d.item
              (before f.up ++ zs)
              d
              (f.cell ∷ (cells f.right ++ behind f.up))
        p = popped_before m zs d around enough

        uses-copied :
            (a : Ptr) → uses a (cells (copied memory w around p).root) ≡ uses a (cells p.after.root)
        uses-copied a =
            ap (uses a) (cells-copied memory w around p)
            ∙ uses-over a p.rest (record f.cell { item = p.out.item; ref = p.out.ref }) f.cell
                (cells f.right ++ behind f.up) refl
            ∙ sym (ap (uses a) p.shape)

        unique_with :
            ((a : Ptr) → occurs a spares' ≤ occurs a spares + uses a (p.out ∷ []))
            → (a : Ptr) → uses a (cells (copied memory w around p).root) + occurs a spares' ≤ 1
        unique_with more a = omega (arith, more a, p.moved a, w.unique a, uses-copied a)

        real_with :
            ((a : Ptr) → occurs a spares' ≤ occurs a spares + uses a (p.out ∷ []))
            → uses null (cells (copied memory w around p).root) + occurs null spares' ≡ 0
        real_with more = omega (arith, more null, p.moved null, w.real, uses-copied null)

      pub deref-replaced :
          IsMemory memory
          → lt_signed 1 f.cell.ref ≡ false
          → candidate_of f.left f.right ≡ none
          → (zs : List Cell) (d : Cell) → get_rightest f.left ≡ some d
          → cells f.left ≡ zs ++ d ∷ []
          → length (cells t.root) ≤ fuel
          → IsReleased fuel t q
      unfolding IsReleased deref_from_tree lower upper addresses p
      deref-replaced m last none_there zs d most at_end enough =
          let before_it = lower_split memory (before f.up) (cells f.left) zs d at_end in
          let around = rw before_it at f.split in
          let p = popped_before m zs d around enough in
          let now = copied memory w around p in
          let out =
            trash_bintreenode_lem leaf p.out.address leaf now now spares
              (refresh-outside leaf p.out.address leaf now (out-outside memory w around p)
                (out-outside_bottom memory w around p))
              p.whole.ring p.whole.spare in
          let after : BinTree = record now { recycle = out.kept } in
          (
            after,
            out.spares',
            rw (ap (λ s. s.1) f.ends, last, none_there, most, p.run, out.run, deref_from_tree) refl,
            IsTree-ring memory (copied-IsTree memory w around p) out.kept out.spares' out.ring
                out.spare (unique_with m zs d around enough out.spares' out.one_more)
                (real_with m zs d around enough out.spares' out.one_more),
            entries-whole memory w around p
                ∙ ap (λ x. entries x ++ entries upper) (sym before_it)
                ∙ sym (rw last at release-found),
          )
