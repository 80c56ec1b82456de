-- ===== src/BinTree/Table.antt =====
-- The table that a tree implements: a list of entries in the order of their keys.
use devclego.Prelude.{
  ==_iff, Bool, List, Option, [], add32, arith, false, if◌then◌else◌, lt_signed, ltb, none, refl,
  some, sub32, true, ℕ, ◌++◌, ◌==◌, ◌∷◌, ◌≡◌,
}
use devclego.BinTree.Inv.{Entry, key, Below, Above}

module _ (memory : ℕ → ℕ) where
  unfoldable pub lookup : ℕ → List Entry → Option Entry
  lookup k [] = none
  lookup k (e ∷ es) = if key memory e.item == k then some e else lookup k es

  unfoldable pub holds : ℕ → List Entry → Bool
  unfolding lookup
  holds k es = elim (lookup k es) [ none ↦ false | some e ↦ true ]

  unfoldable pub without : ℕ → List Entry → List Entry
  without k [] = []
  without k (e ∷ es) = if key memory e.item == k then without k es else e ∷ without k es

  -- An entry with the key of another takes its place, and its count is added.
  unfoldable pub enter : Entry → List Entry → List Entry
  enter new [] = new ∷ []
  enter new (e ∷ es) =
      if key memory new.item == key memory e.item
      then record { item = new.item; ref = add32 e.ref new.ref } ∷ es
      else (if ltb (key memory new.item) (key memory e.item)
          then new ∷ e ∷ es
          else e ∷ enter new es)

  lookup-Above : (k : ℕ) (ys : List Entry) → Above memory k ys → lookup k ys ≡ none
  unfolding lookup Above
  lookup-Above k [] a = refl
  lookup-Above k (y ∷ ys) a = ground (arith, a.0, lookup-Above k ys a.1)

  without-Above : (k : ℕ) (ys : List Entry) → Above memory k ys → without k ys ≡ ys
  unfolding without Above
  without-Above k [] a = refl
  without-Above k (y ∷ ys) a = ground (arith, a.0, without-Above k ys a.1)

  pub lookup-absent :
      (k : ℕ) (xs ys : List Entry)
      → Below memory k xs
      → Above memory k ys
      → lookup k (xs ++ ys) ≡ none
  unfolding lookup Below
  lookup-absent k [] ys b a = lookup-Above k ys a
  lookup-absent k (x ∷ xs) ys b a = ground (arith, b.0, lookup-absent k xs ys b.1 a)

  pub lookup-middle :
      (k : ℕ) (xs : List Entry) (e : Entry) (ys : List Entry)
      → Below memory k xs
      → key memory e.item ≡ k
      → lookup k (xs ++ e ∷ ys) ≡ some e
  unfolding lookup Below
  lookup-middle k [] e ys b same = ground (arith, same)
  lookup-middle k (x ∷ xs) e ys b same = ground (arith, b.0, lookup-middle k xs e ys b.1 same)

  pub without-absent :
      (k : ℕ) (xs ys : List Entry)
      → Below memory k xs
      → Above memory k ys
      → without k (xs ++ ys) ≡ xs ++ ys
  unfolding without Below
  without-absent k [] ys b a = without-Above k ys a
  without-absent k (x ∷ xs) ys b a = ground (arith, b.0, without-absent k xs ys b.1 a)

  pub without-middle :
      (k : ℕ) (xs : List Entry) (e : Entry) (ys : List Entry)
      → Below memory k xs
      → key memory e.item ≡ k
      → Above memory k ys
      → without k (xs ++ e ∷ ys) ≡ xs ++ ys
  unfolding without Below
  without-middle k [] e ys b same a = ground (arith, same, without-Above k ys a)
  without-middle k (x ∷ xs) e ys b same a = ground (arith, b.0, without-middle k xs e ys b.1 same a)

  pub enter-absent :
      (new : Entry) (xs ys : List Entry)
      → Below memory (key memory new.item) xs
      → Above memory (key memory new.item) ys
      → enter new (xs ++ ys) ≡ xs ++ new ∷ ys
  unfolding enter Below Above
  enter-absent new [] [] b a = refl
  enter-absent new [] (y ∷ ys) b a = ground (arith, a.0)
  enter-absent new (x ∷ xs) ys b a = ground (arith, b.0, enter-absent new xs ys b.1 a)

  pub enter-middle :
      (new : Entry) (xs : List Entry) (e : Entry) (ys : List Entry)
      → Below memory (key memory new.item) xs
      → key memory new.item ≡ key memory e.item
      → enter new (xs ++ e ∷ ys) ≡ xs ++ record { item = new.item; ref = add32 e.ref new.ref } ∷ ys
  unfolding enter Below
  enter-middle new [] e ys b same = ground (arith, same)
  enter-middle new (x ∷ xs) e ys b same = ground (arith, b.0, enter-middle new xs e ys b.1 same)

  -- One is taken off the count of a key, or its entry goes.
  unfoldable pub release : ℕ → List Entry → List Entry
  release k [] = []
  release k (e ∷ es) =
      if key memory e.item == k
      then (if lt_signed 1 e.ref then record e { ref = sub32 e.ref 1 } ∷ es else es)
      else e ∷ release k es

  release-Above : (k : ℕ) (ys : List Entry) → Above memory k ys → release k ys ≡ ys
  unfolding release Above
  release-Above k [] a = refl
  release-Above k (y ∷ ys) a = ground (arith, a.0, release-Above k ys a.1)

  pub release-absent :
      (k : ℕ) (xs ys : List Entry)
      → Below memory k xs
      → Above memory k ys
      → release k (xs ++ ys) ≡ xs ++ ys
  unfolding release Below
  release-absent k [] ys b a = release-Above k ys a
  release-absent k (x ∷ xs) ys b a = ground (arith, b.0, release-absent k xs ys b.1 a)

  pub release-middle :
      (k : ℕ) (xs : List Entry) (e : Entry) (ys : List Entry)
      → Below memory k xs
      → key memory e.item ≡ k
      → release k (xs ++ e ∷ ys)
        ≡ xs ++ (if lt_signed 1 e.ref then record e { ref = sub32 e.ref 1 } ∷ ys else ys)
  unfolding release Below
  release-middle k [] e ys b same = rw ((==_iff (key memory e.item) k).1 same) refl
  release-middle k (x ∷ xs) e ys b same =
      let other : (key memory x.item == k) ≡ false = ground (arith, b.0) in
      rw (other, release-middle k xs e ys b.1 same) refl
