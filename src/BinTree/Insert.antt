-- ===== src/BinTree/Insert.antt =====
-- The descent of `_insert_into_tree`: a new node between the lesser and the greater ones, or new data
-- for the node with the key.
use mathlib.Core.List.{append_assoc}
use devclego.Prelude.{List, [], add32, ap, arith, inl, inr, refl, ℕ, ◌++◌, ◌<◌, ◌∷◌, ◌≡◌, ◌⊎◌}
use devclego.BinTree.{
  Cell, Tree, leaf, node, less, equal, greater, bintreecmp_int32, cells, linked, merged,
  insert_into,
}
use devclego.BinTree.Inv.{
  entry, entries, entries-append, key, Below, Above, Sorted, IsMemory, Below-append, Above-append,
  Below-mono, Above-mono, cmp_cases,
}
use devclego.BinTree.Search.{Sorted-node}

module _ (memory : ℕ → ℕ) where
  pub record IsLinked (t : Tree) (new : Cell) : Type 0 where
    pub after : Tree
    pub xs : List Cell
    pub ys : List Cell
    pub run : insert_into memory t new ≡ (after, linked)
    pub was : cells t ≡ xs ++ ys
    pub now : cells after ≡ xs ++ new ∷ ys
    pub lesser : Below memory (key memory new.item) (entries xs)
    pub upper : Above memory (key memory new.item) (entries ys)

  abbrev pub changed : Cell → Cell → Cell
  changed c new = record c { item = new.item; ref = add32 c.ref new.ref }

  pub record IsMerged (t : Tree) (new : Cell) : Type 0 where
    pub after : Tree
    pub xs : List Cell
    pub into : Cell
    pub ys : List Cell
    pub run : insert_into memory t new ≡ (after, merged into)
    pub was : cells t ≡ xs ++ into ∷ ys
    pub now : cells after ≡ xs ++ changed into new ∷ ys
    pub same : key memory into.item ≡ key memory new.item

  module _ (l : Tree) (c : Cell) (r : Tree) (new : Cell) where
    right-IsLinked :
        Sorted memory (entries (cells (node l c r)))
        → bintreecmp_int32 memory c.item new.item ≡ less
        → key memory c.item < key memory new.item
        → IsLinked r new
        → IsLinked (node l c r) new
    unfolding cells entries insert_into Below
    right-IsLinked s e lt i =
        let (_, _, b, _) = Sorted-node memory l c r s in
        record {
          after = node l c i.after;
          xs = cells l ++ c ∷ i.xs;
          ys = i.ys;
          run = rw (e, ap (λ s. s.0) i.run, ap (λ s. s.1) i.run, insert_into) refl;
          was = rw (i.was, append_assoc);
          now = rw (i.now, append_assoc);
          lesser = rw (entries-append (cells l) (c ∷ i.xs)) (
              Below-append memory _ (entries (cells l)) (entry c ∷ entries i.xs)
                (Below-mono memory _ _ (entries (cells l)) (omega (arith, lt)) b) (lt, i.lesser));
          upper = i.upper;
        }

    left-IsLinked :
        Sorted memory (entries (cells (node l c r)))
        → bintreecmp_int32 memory c.item new.item ≡ greater
        → key memory new.item < key memory c.item
        → IsLinked l new
        → IsLinked (node l c r) new
    unfolding cells entries insert_into Above
    left-IsLinked s e gt i =
        let (_, _, _, a) = Sorted-node memory l c r s in
        record {
          after = node i.after c r;
          xs = i.xs;
          ys = i.ys ++ c ∷ cells r;
          run = rw (e, ap (λ s. s.0) i.run, ap (λ s. s.1) i.run, insert_into) refl;
          was = rw (i.was, append_assoc);
          now = rw (i.now, append_assoc);
          lesser = i.lesser;
          upper = rw (entries-append i.ys (c ∷ cells r)) (
              Above-append memory _ (entries i.ys) (entry c ∷ entries (cells r)) i.upper
                (gt, Above-mono memory _ _ (entries (cells r)) (omega (arith, gt)) a));
        }

    right-IsMerged :
        bintreecmp_int32 memory c.item new.item ≡ less → IsMerged r new → IsMerged (node l c r) new
    unfolding cells insert_into
    right-IsMerged e i = record {
      after = node l c i.after;
      xs = cells l ++ c ∷ i.xs;
      into = i.into;
      ys = i.ys;
      run = rw (e, ap (λ s. s.0) i.run, ap (λ s. s.1) i.run, insert_into) refl;
      was = rw (i.was, append_assoc);
      now = rw (i.now, append_assoc);
      same = i.same;
    }

    left-IsMerged :
        bintreecmp_int32 memory c.item new.item ≡ greater
        → IsMerged l new
        → IsMerged (node l c r) new
    unfolding cells insert_into
    left-IsMerged e i = record {
      after = node i.after c r;
      xs = i.xs;
      into = i.into;
      ys = i.ys ++ c ∷ cells r;
      run = rw (e, ap (λ s. s.0) i.run, ap (λ s. s.1) i.run, insert_into) refl;
      was = rw (i.was, append_assoc);
      now = rw (i.now, append_assoc);
      same = i.same;
    }

    here-IsMerged :
        bintreecmp_int32 memory c.item new.item ≡ equal
        → key memory c.item ≡ key memory new.item
        → IsMerged (node l c r) new
    unfolding cells insert_into
    here-IsMerged e same = record {
      after = node l (changed c new) r;
      xs = cells l;
      into = c;
      ys = cells r;
      run = rw (e, insert_into) refl;
      was = refl;
      now = refl;
      same = same;
    }

  pub insert_into_lem :
      IsMemory memory
      → (t : Tree) (new : Cell) → Sorted memory (entries (cells t))
      → IsLinked t new ⊎ IsMerged t new
  unfolding cells entries insert_into Below Above
  insert_into_lem m leaf new s = inl (record {
    after = node leaf new leaf;
    xs = [];
    ys = [];
    run = refl;
    was = refl;
    now = refl;
    lesser = tt;
    upper = tt;
  })
  insert_into_lem m (node l c r) new s =
      let (sl, sr, _, _) = Sorted-node memory l c r s in
      elim (cmp_cases memory m c.item new.item) [
        | inl (e, same) ↦ inr (here-IsMerged l c r new e same)
        | inr (inl (e, lt)) ↦ elim (insert_into_lem m r new sr) [
          | inl i ↦ inl (right-IsLinked l c r new s e lt i)
          | inr i ↦ inr (right-IsMerged l c r new e i)
        ]
        | inr (inr (e, gt)) ↦ elim (insert_into_lem m l new sl) [
          | inl i ↦ inl (left-IsLinked l c r new s e gt i)
          | inr i ↦ inr (left-IsMerged l c r new e i)
        ]
      ]
