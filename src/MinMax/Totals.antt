-- ===== src/MinMax/Totals.antt =====
-- How often a key was inserted, in the table of a search tree and among the items in the window.
use devclego.Prelude.{
  List, [], arith, if◌then◌else◌, length, refl, sign, word, ℕ, ◌++◌, ◌+◌, ◌<◌, ◌==◌, ◌∷◌, ◌≡◌, ◌≤◌,
}
use devclego.Store.{Ptr}
use devclego.BinTree.Inv.{Entry, key, Below, Above}
use devclego.BinTree.Table.{enter, release}

module _ (memory : ℕ → ℕ) where
  unfoldable pub tally : ℕ → List Ptr → ℕ
  tally k [] = 0
  tally k (x ∷ xs) = (if key memory x == k then 1 else 0) + tally k xs

  unfoldable pub total : ℕ → List Entry → ℕ
  total k [] = 0
  total k (e ∷ es) = (if key memory e.item == k then e.ref else 0) + total k es

  pub tally-append : (k : ℕ) (xs ys : List Ptr) → tally k (xs ++ ys) ≡ tally k xs + tally k ys
  unfolding tally
  tally-append k [] ys = omega arith
  tally-append k (x ∷ xs) ys = omega (arith, tally-append k xs ys)

  -- Before the least key and behind the greatest there is none.
  pub total-Above : (m k : ℕ) (es : List Entry) → Above memory m es → k ≤ m → total k es ≡ 0
  unfolding total Above
  total-Above m k [] a le = refl
  total-Above m k (e ∷ es) a le = ground (arith, a.0, total-Above m k es a.1 le)

  pub total-Below : (m k : ℕ) (es : List Entry) → Below memory m es → m ≤ k → total k es ≡ 0
  unfolding total Below
  total-Below m k [] b le = refl
  total-Below m k (e ∷ es) b le = ground (arith, b.0, total-Below m k es b.1 le)

  pub total-append : (k : ℕ) (xs ys : List Entry) → total k (xs ++ ys) ≡ total k xs + total k ys
  unfolding total
  total-append k [] ys = omega arith
  total-append k (x ∷ xs) ys = omega (arith, total-append k xs ys)

-- All insertions, and that every entry has one.
unfoldable pub weight : List Entry → ℕ
weight [] = 0
weight (e ∷ es) = e.ref + weight es

unfoldable pub Positive : List Entry → Type 0
Positive [] = Unit
Positive (e ∷ es) = (0 < e.ref) × Positive es

pub length-weight : (es : List Entry) → Positive es → length es ≤ weight es
unfolding weight Positive
length-weight [] p = omega arith
length-weight (e ∷ es) p = omega (arith, p.0, length-weight es p.1)

pub Positive-last : (es : List Entry) (e : Entry) → Positive (es ++ e ∷ []) → 0 < e.ref
unfolding Positive
Positive-last [] e p = p.0
Positive-last (x ∷ es) e p = Positive-last es e p.1

module _ (memory : ℕ → ℕ) (new : Entry) where
  pub total-enter :
      (k : ℕ) (es : List Entry)
      → weight es + new.ref < word
      → total memory k (enter memory new es)
        ≡ total memory k es + (if key memory new.item == k then new.ref else 0)
  unfolding total enter weight
  total-enter k [] small = omega arith
  total-enter k (e ∷ es) small = ground (arith, total-enter k es (omega arith))

  pub weight-enter :
      (es : List Entry)
      → weight es + new.ref < word
      → weight (enter memory new es) ≡ weight es + new.ref
  unfolding enter weight
  weight-enter [] small = omega arith
  weight-enter (e ∷ es) small = ground (arith, weight-enter es (omega arith))

  pub Positive-enter :
      (es : List Entry)
      → weight es + new.ref < word
      → 0 < new.ref
      → Positive es
      → Positive (enter memory new es)
  unfolding enter weight Positive
  Positive-enter [] small one p = (one, tt)
  Positive-enter (e ∷ es) small one p =
      ground (arith, p.0, p.1, Positive-enter es (omega arith) one p.1)

module _ (memory : ℕ → ℕ) (k : ℕ) where
  pub total-release :
      (j : ℕ) (es : List Entry)
      → Positive es
      → weight es < sign
      → 0 < total memory k es
      → total memory j (release memory k es) + (if k == j then 1 else 0) ≡ total memory j es
  unfolding total release weight Positive
  total-release j [] p small some_there = absurd (omega (arith, some_there))
  total-release j (e ∷ es) p small some_there =
      ground (arith, p.0, total-release j es p.1 (omega arith))

  pub weight-release :
      (es : List Entry)
      → Positive es
      → weight es < sign
      → 0 < total memory k es
      → weight (release memory k es) + 1 ≡ weight es
  unfolding total release weight Positive
  weight-release [] p small some_there = absurd (omega (arith, some_there))
  weight-release (e ∷ es) p small some_there =
      ground (arith, p.0, weight-release es p.1 (omega arith))

  pub Positive-release :
      (es : List Entry) → Positive es → weight es < sign → Positive (release memory k es)
  unfolding release weight Positive
  Positive-release [] p small = tt
  Positive-release (e ∷ es) p small =
      ground (arith, p.0, p.1, Positive-release es p.1 (omega arith))
