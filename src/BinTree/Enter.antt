-- ===== src/BinTree/Enter.antt =====
-- `_insert` enters a node into the table that the tree implements.
use devclego.Prelude.{
  ==_iff, Bool-cases, List, [], add32, ap, ap₂, arith, false, if◌then◌else◌, inl, inr, length, refl,
  some, sym, word, ℕ, ◌++◌, ◌+◌, ◌<◌, ◌==◌, ◌∙◌, ◌∷◌, ◌≡◌, ◌≤◌, ◌⊎◌,
}
use devclego.Store.{Ptr, null}
use devclego.BinTree.{Cell, leaf, BinTree, cells, insert_into_tree, insert}
use devclego.BinTree.Cells.{occurs, addresses, uses}
use devclego.BinTree.Inv.{entry, entries, entries-append, Sorted-insert, IsMemory, IsTree}
use devclego.BinTree.Table.{enter, enter-absent, enter-middle}
use devclego.BinTree.Ends.{refresh-outside}
use devclego.BinTree.Replace.{first_address-apart, last_address-apart}
use devclego.BinTree.Change.{
  uses-middle, uses-over, IsTree-over, IsTree-ring, Sorted-around, Sorted-changed, length-middle,
}
use devclego.BinTree.Insert.{IsLinked, IsMerged, changed, insert_into_lem}
use devclego.BinTree.Settle.{IsAround, settle, settled}
use devclego.BinTree.Trash.{IsTrashed, trash_bintreenode_lem}

-- An address that no node has, in the tree or spare.
pub record IsFresh (t : BinTree) (spares : List Ptr) (a : Ptr) : Type 0 where
  pub apart : uses a (cells t.root) + occurs a spares ≡ 0
  pub real : occurs null (a ∷ []) ≡ 0

occurs_one : (a b : Ptr) → (occurs a (b ∷ []) ≡ 0) ⊎ ((a ≡ b) × (occurs a (b ∷ []) ≡ 1))
unfolding occurs
occurs_one a b = elim (Bool-cases (b == a)) [
  | inl e ↦ inr (sym ((==_iff b a).0 e), rw e refl)
  | inr e ↦ inl (rw e refl)
]

module _ (memory : ℕ → ℕ) where
  unfoldable pub IsEntered : BinTree → Cell → Type 0
  IsEntered t new =
      (t' : BinTree) × (spares' : List Ptr) × (insert memory t new ≡ some t')
      × IsTree memory t' spares'
      × (entries (cells t'.root) ≡ enter memory (entry new) (entries (cells t.root)))

  module _ (m : IsMemory memory) (t : BinTree) (spares : List Ptr) (new : Cell)
      (w : IsTree memory t spares) (fresh : IsFresh t spares new.address)
      (room : length (cells t.root) + 1 < word) where
    module _ (i : IsLinked memory t.root new) where
      abbrev grown : BinTree
      grown = record t { root = i.after; node_counter = add32 t.node_counter 1 }

      uses-grown : (a : Ptr) → uses a (cells grown.root) + occurs a spares ≤ 1
      unfolding addresses
      uses-grown a = elim (occurs_one a new.address) [
        | inl e ↦ omega (
          arith,
          e,
          w.unique a,
          ap (uses a) i.was,
          ap (uses a) i.now,
          uses-middle a i.xs new i.ys,
        )
        | inr (same, e) ↦ omega (
          arith,
          e,
          rw (sym same) at fresh.apart,
          ap (uses a) i.was,
          ap (uses a) i.now,
          uses-middle a i.xs new i.ys,
        )
      ]

      grown_counted : grown.node_counter ≡ length (cells grown.root)
      grown_counted =
          omega
            (arith, w.counted, room, ap length i.was, ap length i.now, length-middle i.xs new i.ys)

      grown-IsAround : IsAround memory grown new.item new i.xs i.ys
      grown-IsAround = record {
        now = i.now;
        once = λ a. omega (arith, uses-grown a);
        same = refl;
        lesser = i.lesser;
        upper = i.upper;
        names = inl (rw (sym i.was) (w.top_at, w.bottom_at));
        counted = grown_counted;
      }

      tree-linked : insert_into_tree memory t new ≡ some (grown, new.address)
      unfolding insert_into_tree
      tree-linked = rw (ap (λ s. s.1) i.run, ap (λ s. s.0) i.run, insert_into_tree) refl

      insert-linked : IsEntered t new
      unfolding insert insert_into_tree IsEntered entries addresses
      insert-linked = (
        settled memory grown new.item new,
        spares,
        rw (tree-linked, insert) (settle memory grown new.item new m i.xs i.ys grown-IsAround),
        record {
          sorted =
              rw (i.now, entries-append i.xs (new ∷ i.ys))
                (Sorted-insert memory (entries i.xs) (entry new) (entries i.ys)
                  (rw (i.was, entries-append i.xs i.ys) at w.sorted) i.lesser i.upper);
          unique = uses-grown;
          real = omega (
            arith,
            w.real,
            fresh.real,
            ap (uses null) i.was,
            ap (uses null) i.now,
            uses-middle null i.xs new i.ys,
          );
          top_at = refl;
          bottom_at = refl;
          ring = w.ring;
          spare = w.spare;
          counted = grown_counted;
          small =
              omega (arith, room, ap length i.was, ap length i.now, length-middle i.xs new i.ys);
        },
        ap entries i.now
            ∙ entries-append i.xs (new ∷ i.ys)
            ∙ sym (
                ap (λ cs. enter memory (entry new) (entries cs)) i.was
                ∙ ap (enter memory (entry new)) (entries-append i.xs i.ys)
                ∙ enter-absent memory (entry new) (entries i.xs) (entries i.ys) i.lesser i.upper),
      )

    module _ (i : IsMerged memory t.root new) where
      abbrev merging : BinTree
      merging = record t {
        root = i.after;
        notices = if t.has_notifier then t.notices ++ i.into.item ∷ [] else t.notices;
      }

      -- The new node is not at an end.
      new-outside : ((new.address == t.top) ≡ false) × ((new.address == t.bottom) ≡ false)
      new-outside =
          let none_there : uses new.address (i.xs ++ i.into ∷ i.ys) ≡ 0 =
            omega (arith, fresh.apart, ap (uses new.address) i.was) in
          (
            rw (w.top_at, i.was) (last_address-apart new.address i.xs i.into i.ys none_there),
            rw (w.bottom_at, i.was) (first_address-apart new.address i.xs i.into i.ys none_there),
          )

      trashed : IsTrashed leaf new.address leaf merging merging spares
      trashed =
          trash_bintreenode_lem leaf new.address leaf merging merging spares
            (refresh-outside leaf new.address leaf merging new-outside.0 new-outside.1) w.ring
            w.spare

      abbrev over : BinTree
      over = record merging {
        recycle = trashed.kept;
        duplicate_counter = add32 t.duplicate_counter 1;
      }

      uses-merged : (a : Ptr) → uses a (cells i.after) ≡ uses a (cells t.root)
      uses-merged a =
          ap (uses a) i.now
          ∙ uses-over a i.xs (changed memory i.into new) i.into i.ys refl
          ∙ sym (ap (uses a) i.was)

      over_unique : (a : Ptr) → uses a (cells i.after) + occurs a trashed.spares' ≤ 1
      over_unique a = elim (occurs_one a new.address) [
        | inl e ↦ omega (arith, e, w.unique a, uses-merged a, trashed.one_more a)
        | inr (same, e) ↦
            omega (arith, e, rw (sym same) at fresh.apart, uses-merged a, trashed.one_more a)
      ]

      over-IsTree : IsTree memory over trashed.spares'
      over-IsTree =
          let same_place : IsTree memory
              (record merging { duplicate_counter = add32 t.duplicate_counter 1 }) spares =
            IsTree-over memory w _ i.xs i.into (changed memory i.into new) i.ys i.was i.now refl
              (rw i.now
                (Sorted-changed memory w i.xs i.into (changed memory i.into new) i.ys i.was i.same))
              refl refl refl refl in
          IsTree-ring memory same_place trashed.kept trashed.spares' trashed.ring trashed.spare
            over_unique (omega (arith, w.real, fresh.real, uses-merged null, trashed.one_more null))

      over-IsAround : IsAround memory over new.item (changed memory i.into new) i.xs i.ys
      over-IsAround =
          let (_, _, b, a) = Sorted-around memory w i.xs i.into i.ys i.was in
          record {
            now = i.now;
            once = λ a. omega (arith, over_unique a);
            same = refl;
            lesser = rw i.same at b;
            upper = rw i.same at a;
            names = inr (over-IsTree.top_at, over-IsTree.bottom_at);
            counted = over-IsTree.counted;
          }

      tree-merged : insert_into_tree memory t new ≡ some (over, i.into.address)
      unfolding insert_into_tree
      tree-merged =
          rw (ap (λ s. s.1) i.run, ap (λ s. s.0) i.run, trashed.run, insert_into_tree) refl

      insert-merged : IsEntered t new
      unfolding insert insert_into_tree IsEntered entries addresses trashed
      insert-merged = (
        over,
        trashed.spares',
        rw (tree-merged, insert)
            (settle memory over new.item (changed memory i.into new) m i.xs i.ys over-IsAround
              ∙ ap₂ (λ x y. some (record over { top = x; bottom = y })) (sym over-IsTree.top_at)
                  (sym over-IsTree.bottom_at)),
        over-IsTree,
        let (_, _, b, _) = Sorted-around memory w i.xs i.into i.ys i.was in
            ap entries i.now
            ∙ entries-append i.xs (changed memory i.into new ∷ i.ys)
            ∙ sym (
                ap (λ cs. enter memory (entry new) (entries cs)) i.was
                ∙ ap (enter memory (entry new)) (entries-append i.xs (i.into ∷ i.ys))
                ∙ enter-middle memory (entry new) (entries i.xs) (entry i.into) (entries i.ys)
                    (rw i.same at b) (sym i.same)),
      )

    pub insert_lem : IsEntered t new
    insert_lem = elim (insert_into_lem memory m t.root new w.sorted) [
      | inl i ↦ insert-linked i
      | inr i ↦ insert-merged i
    ]
