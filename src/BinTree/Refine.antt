-- ===== src/BinTree/Refine.antt =====
-- The calls of the users, as operations on the table.
use devclego.Prelude.{
  Bool-cases, List, Option, ap, ap₂, arith, inl, inr, length, length-append, lt_signed, none, refl,
  some, suc, sym, word, zero, ℕ, ◌++◌, ◌+◌, ◌<◌, ◌∙◌, ◌∷◌, ◌≡◌, ◌≢◌, ◌≤◌,
}
use devclego.Store.{Ptr}
use devclego.BinTree.{Cell, BinTree, cells, insert_data}
use devclego.BinTree.Remove.{pop_from_tree, delete_value, has_value}
use devclego.BinTree.Cells.{before, behind, occurs, addresses, uses}
use devclego.BinTree.Inv.{entry, entry_of, entries, entries-append, key, IsMemory, IsTree}
use devclego.BinTree.Table.{
  lookup, holds, lookup-absent, lookup-middle, without, without-absent, without-middle, enter,
  release,
}
use devclego.BinTree.Search.{IsFound, IsMissing, search_root}
use devclego.BinTree.Change.{Sorted-around, uses_self}
use devclego.BinTree.Pop.{candidate_cases}
use devclego.BinTree.Replace.{pop-found}
use devclego.BinTree.Making.{make_lem}
use devclego.BinTree.Enter.{IsFresh, IsEntered, insert_lem}
use devclego.BinTree.Delete.{IsReleased, deref-missing, deref-survives, deref-one, deref-replaced}

none-some : {c : Cell} → none ≢ some c
none-some e = cc

some-parts : {c d : Cell} → some c ≡ some d → c ≡ d
some-parts e = cc

module _ (memory : ℕ → ℕ) where
  -- `bintree_insert_data` enters the datum with the count 1, and the tree stays well formed.
  pub insert_data-refines :
      IsMemory memory
      → (fresh : Ptr) (t : BinTree) (spares : List Ptr) (item : Ptr) → IsTree memory t spares
      → IsFresh t spares fresh
      → length (cells t.root) + 1 < word
      → (t' : BinTree) × (spares' : List Ptr) × (insert_data memory fresh t item ≡ some t')
        × IsTree memory t' spares'
        × (entries (cells t'.root)
            ≡ enter memory (record { item = item; ref = 1 }) (entries (cells t.root)))
  unfolding insert_data IsEntered
  insert_data-refines m fresh t spares item w f room =
      let made = make_lem memory fresh t item spares w f in
      let (t', spares', run, whole, stands) =
        insert_lem memory m made.after made.spares made.cell made.whole made.apart
          (rw made.root room) in
      (
        t',
        spares',
        rw (made.run, run) refl,
        whole,
        stands ∙ ap₂ (λ e root. enter memory e (entries (cells root))) made.holds made.root,
      )

  -- The table around the place where a search ends.
  missing_absent :
      (t : BinTree) (q : Ptr)
      → IsMissing memory t.root q
      → (lookup memory (key memory q) (entries (cells t.root)) ≡ none)
        × (without memory (key memory q) (entries (cells t.root)) ≡ entries (cells t.root))
  missing_absent t q f =
      let split : entries (cells t.root) ≡ entries (before f.up) ++ entries (behind f.up) =
        ap entries f.split ∙ entries-append (before f.up) (behind f.up) in
      (
        ap (lookup memory (key memory q)) split
            ∙ lookup-absent memory (key memory q) (entries (before f.up)) (entries (behind f.up))
                f.lesser f.upper,
        ap (without memory (key memory q)) split
            ∙ without-absent memory (key memory q) (entries (before f.up)) (entries (behind f.up))
                f.lesser f.upper
            ∙ sym split,
      )

  found_middle :
      {t : BinTree} {spares : List Ptr} {q : Ptr}
      → IsTree memory t spares
      → (f : IsFound memory t.root q)
      → (lookup memory (key memory q) (entries (cells t.root)) ≡ some (entry f.cell))
        × (without memory (key memory q) (entries (cells t.root))
            ≡ entries (before f.up ++ cells f.left) ++ entries (cells f.right ++ behind f.up))
  unfolding entries
  found_middle {t = t} {q = q} w f =
      let xs = before f.up ++ cells f.left in
      let ys = cells f.right ++ behind f.up in
      let (_, _, b, a) = Sorted-around memory w xs f.cell ys f.split in
      let split : entries (cells t.root) ≡ entries xs ++ entry f.cell ∷ entries ys =
        ap entries f.split ∙ entries-append xs (f.cell ∷ ys) in
      (
        ap (lookup memory (key memory q)) split
            ∙ lookup-middle memory (key memory q) (entries xs) (entry f.cell) (entries ys)
                (rw f.same at b) f.same,
        ap (without memory (key memory q)) split
            ∙ without-middle memory (key memory q) (entries xs) (entry f.cell) (entries ys)
                (rw f.same at b) f.same (rw f.same at a),
      )

  -- What a removal leaves and gives.
  unfoldable IsTaken : (fuel : ℕ) → BinTree → List Ptr → Ptr → Type 0
  IsTaken fuel t spares q =
      (t' : BinTree) × (out : Option Cell) × (pop_from_tree memory fuel t q ≡ some (t', out))
      × IsTree memory t' spares
      × (entries (cells t'.root) ≡ without memory (key memory q) (entries (cells t.root)))
      × (entry_of out ≡ lookup memory (key memory q) (entries (cells t.root)))
      × ((c : Cell) → out ≡ some c → uses c.address (cells t'.root) + occurs c.address spares ≡ 0)

  pop-missing :
      (fuel : ℕ) (t : BinTree) (spares : List Ptr) (q : Ptr)
      → IsTree memory t spares
      → IsMissing memory t.root q
      → IsTaken (suc fuel) t spares q
  unfolding IsTaken pop_from_tree
  pop-missing fuel t spares q w f = (
    t,
    none,
    rw (ap (λ s. s.1) f.ends, pop_from_tree) refl,
    w,
    sym ((missing_absent t q f).1),
    sym ((missing_absent t q f).0),
    λ c e. absurd (none-some e),
  )

  pop-there :
      IsMemory memory
      → (fuel : ℕ) (t : BinTree) (spares : List Ptr) (q : Ptr) → IsTree memory t spares
      → length (cells t.root) < fuel
      → IsFound memory t.root q
      → IsTaken fuel t spares q
  unfolding IsTaken addresses
  pop-there m fuel t spares q w enough f =
      let xs = before f.up ++ cells f.left in
      let ys = cells f.right ++ behind f.up in
      let p =
        pop-found memory m fuel t spares q xs f.cell ys w f.split f.same
          (omega (arith, enough, ap length f.split, length-append xs (f.cell ∷ ys))) in
      let (here, rest) = found_middle w f in
      let gone : uses p.out.address (cells p.after.root) + occurs p.out.address spares ≡ 0 =
        omega (arith, p.moved p.out.address, uses_self p.out, w.unique p.out.address) in
      (
        p.after,
        some p.out,
        p.run,
        p.whole,
        ap entries p.shape ∙ entries-append p.rest ys ∙ ap (λ x. x ++ entries ys) p.kept ∙ sym rest,
        ap some p.taken ∙ sym here,
        λ c e. rw (some-parts e) at gone,
      )

  -- `_pop_from_tree`, with fuel for the nodes: it gives the entry with the key, if there is one, and
  -- leaves the other ones. The node that it gives back is no more the tree's.
  pub pop_from_tree-refines :
      IsMemory memory
      → (fuel : ℕ) (t : BinTree) (spares : List Ptr) (q : Ptr) → IsTree memory t spares
      → length (cells t.root) < fuel
      → (t' : BinTree) × (out : Option Cell) × (pop_from_tree memory fuel t q ≡ some (t', out))
        × IsTree memory t' spares
        × (entries (cells t'.root) ≡ without memory (key memory q) (entries (cells t.root)))
        × (entry_of out ≡ lookup memory (key memory q) (entries (cells t.root)))
        × ((c : Cell) → out ≡ some c → uses c.address (cells t'.root) + occurs c.address spares ≡ 0)
  unfolding IsTaken
  pop_from_tree-refines m zero t spares q w enough = absurd (omega (arith, enough))
  pop_from_tree-refines m (suc fuel) t spares q w enough =
      elim (search_root memory m t.root q w.sorted) [
        | inl f ↦ pop-missing fuel t spares q w f
        | inr f ↦ pop-there m (suc fuel) t spares q w enough f
      ]

  -- `bintree_delete_value`, with fuel for the nodes, takes one off the count of the key, or its entry
  -- away where the count is 1 or less; without the key nothing changes.
  pub delete_value-refines :
      IsMemory memory
      → (fuel : ℕ) (t : BinTree) (spares : List Ptr) (q : Ptr) → IsTree memory t spares
      → length (cells t.root) ≤ fuel
      → (t' : BinTree) × (spares' : List Ptr) × (delete_value memory fuel t q ≡ some t')
        × IsTree memory t' spares'
        × (entries (cells t'.root) ≡ release memory (key memory q) (entries (cells t.root)))
  unfolding delete_value IsReleased
  delete_value-refines m fuel t spares q w enough = elim (search_root memory m t.root q w.sorted) [
    | inl f ↦ deref-missing memory fuel t spares q w f
    | inr f ↦ elim (Bool-cases (lt_signed 1 f.cell.ref)) [
      | inl many ↦ deref-survives memory fuel t spares q w f many
      | inr last ↦ elim (candidate_cases f.left f.right) [
        | inl (candidate, ce, both) ↦ deref-one memory fuel t spares q w f last candidate ce both
        | inr (none_there, zs, d, most, at_end) ↦
            deref-replaced memory fuel t spares q w f m last none_there zs d most at_end enough
      ]
    ]
  ]

  -- `bintree_has_value` says whether the table has the key.
  pub has_value-refines :
      IsMemory memory
      → (t : BinTree) (spares : List Ptr) (q : Ptr) → IsTree memory t spares
      → has_value memory t q ≡ holds memory (key memory q) (entries (cells t.root))
  unfolding has_value holds
  has_value-refines m t spares q w = elim (search_root memory m t.root q w.sorted) [
    | inl f ↦ rw (ap (λ s. s.1) f.ends, (missing_absent t q f).0, holds) refl
    | inr f ↦ rw (ap (λ s. s.1) f.ends, (found_middle w f).0, holds) refl
  ]
