-- ===== src/BinTree/Inv.antt =====
-- What a tree stands for: its entries in order, each a datum with its count, and the state that the
-- operations keep.
use mathlib.Core.List.{map-append}
use devclego.Prelude.{
  List, Option, [], arith, length, length-map, map, none, sign, some, word, ℕ, ◌%◌, ◌++◌, ◌+◌, ◌<◌,
  ◌∷◌, ◌≡◌, ◌≤◌, ◌⊎◌,
}
use devclego.Store.{Ptr, null}
use devclego.Puffer.Inv.{IsValid, contents}
use devclego.BinTree.{Cell, BinTree, less, equal, greater, bintreecmp_int32, cells}
use devclego.BinTree.Cells.{occurs, uses, first_address, last_address}

-- A datum, and how often it was inserted.
pub record Entry : Type 0 where
  pub item : Ptr
  pub ref : ℕ

abbrev pub entry : Cell → Entry
entry c = record { item = c.item; ref = c.ref }

abbrev pub entry_of : Option Cell → Option Entry
entry_of none = none
entry_of (some c) = some (entry c)

unfoldable pub entries : List Cell → List Entry
entries cs = map entry cs

pub entries-append : (xs ys : List Cell) → entries (xs ++ ys) ≡ entries xs ++ entries ys
unfolding entries
entries-append xs ys = map-append entry xs ys

pub length-entries : (xs : List Cell) → length (entries xs) ≡ length xs
unfolding entries
length-entries xs = length-map xs entry

module _ (memory : ℕ → ℕ) where
  -- The number that a pointer points at, moved to the natural numbers in its order.
  abbrev pub key : Ptr → ℕ
  key p = (memory p + sign) % word

  unfoldable pub Below : ℕ → List Entry → Type 0
  Below k [] = Unit
  Below k (e ∷ es) = (key e.item < k) × Below k es

  unfoldable pub Above : ℕ → List Entry → Type 0
  Above k [] = Unit
  Above k (e ∷ es) = (k < key e.item) × Above k es

  unfoldable pub Sorted : List Entry → Type 0
  unfolding Above
  Sorted [] = Unit
  Sorted (e ∷ es) = Above (key e.item) es × Sorted es

  -- What the pointers to `int32_t` say.
  abbrev pub IsMemory : Type 0
  IsMemory = (p : Ptr) → memory p < word

  pub record IsTree (t : BinTree) (spares : List Ptr) : Type 0 where
    pub sorted : Sorted (entries (cells t.root))
    pub unique : (a : Ptr) → uses a (cells t.root) + occurs a spares ≤ 1
    pub real : uses null (cells t.root) + occurs null spares ≡ 0
    pub top_at : t.top ≡ last_address (cells t.root)
    pub bottom_at : t.bottom ≡ first_address (cells t.root)
    pub ring : IsValid t.recycle
    pub spare : contents t.recycle ≡ map some spares
    pub counted : t.node_counter ≡ length (cells t.root)
    pub small : length (cells t.root) < word

  pub Below-append : (k : ℕ) (xs ys : List Entry) → Below k xs → Below k ys → Below k (xs ++ ys)
  unfolding Below
  Below-append k [] ys h i = i
  Below-append k (x ∷ xs) ys h i = (h.0, Below-append k xs ys h.1 i)

  pub Above-append : (k : ℕ) (xs ys : List Entry) → Above k xs → Above k ys → Above k (xs ++ ys)
  unfolding Above
  Above-append k [] ys h i = i
  Above-append k (x ∷ xs) ys h i = (h.0, Above-append k xs ys h.1 i)

  pub Below-split : (k : ℕ) (xs ys : List Entry) → Below k (xs ++ ys) → Below k xs × Below k ys
  unfolding Below
  Below-split k [] ys h = (tt, h)
  Below-split k (x ∷ xs) ys h = let (a, b) = Below-split k xs ys h.1 in ((h.0, a), b)

  pub Above-split : (k : ℕ) (xs ys : List Entry) → Above k (xs ++ ys) → Above k xs × Above k ys
  unfolding Above
  Above-split k [] ys h = (tt, h)
  Above-split k (x ∷ xs) ys h = let (a, b) = Above-split k xs ys h.1 in ((h.0, a), b)

  pub Below-mono : (k m : ℕ) (xs : List Entry) → k ≤ m → Below k xs → Below m xs
  unfolding Below
  Below-mono k m [] le h = tt
  Below-mono k m (x ∷ xs) le h = (omega (arith, h.0), Below-mono k m xs le h.1)

  pub Above-mono : (k m : ℕ) (xs : List Entry) → m ≤ k → Above k xs → Above m xs
  unfolding Above
  Above-mono k m [] le h = tt
  Above-mono k m (x ∷ xs) le h = (omega (arith, h.0), Above-mono k m xs le h.1)

  -- A sorted list around one of its entries.
  pub Sorted-split :
      (xs : List Entry) (e : Entry) (ys : List Entry)
      → Sorted (xs ++ e ∷ ys)
      → Sorted xs × Sorted ys × Below (key e.item) xs × Above (key e.item) ys
  unfolding Sorted Below Above
  Sorted-split [] e ys h = (tt, h.1, tt, h.0)
  Sorted-split (x ∷ xs) e ys h =
      let (sx, sy, b, a) = Sorted-split xs e ys h.1 in
      let (ax, ae) = Above-split (key x.item) xs (e ∷ ys) h.0 in ((ax, sx), sy, (ae.0, b), a)

  pub Sorted-join :
      (xs ys : List Entry) (k : ℕ)
      → Sorted xs
      → Sorted ys
      → Below k xs
      → Above k ys
      → Sorted (xs ++ ys)
  unfolding Sorted Below Above
  Sorted-join [] ys k sx sy b a = sy
  Sorted-join (x ∷ xs) ys k sx sy b a = (
    Above-append (key x.item) xs ys sx.0 (Above-mono k _ ys (omega (arith, b.0)) a),
    Sorted-join xs ys k sx.1 sy b.1 a,
  )

  -- A new entry between the lesser and the greater ones.
  pub Sorted-insert :
      (xs : List Entry) (e : Entry) (ys : List Entry)
      → Sorted (xs ++ ys)
      → Below (key e.item) xs
      → Above (key e.item) ys
      → Sorted (xs ++ e ∷ ys)
  unfolding Sorted Below Above
  Sorted-insert [] e ys s b a = (a, s)
  Sorted-insert (x ∷ xs) e ys s b a =
      let (ax, ay) = Above-split (key x.item) xs ys s.0 in
      (Above-append (key x.item) xs (e ∷ ys) ax (b.0, ay), Sorted-insert xs e ys s.1 b.1 a)

  -- An entry with the same key may take the place of another.
  pub Sorted-over :
      (xs : List Entry) (e d : Entry) (ys : List Entry)
      → key e.item ≡ key d.item
      → Sorted (xs ++ e ∷ ys)
      → Sorted (xs ++ d ∷ ys)
  unfolding Sorted Above
  Sorted-over [] e d ys same s = rw same at s
  Sorted-over (x ∷ xs) e d ys same s =
      let (a, b) = Above-split (key x.item) xs (e ∷ ys) s.0 in
      (Above-append (key x.item) xs (d ∷ ys) a (rw same at b), Sorted-over xs e d ys same s.1)

  -- The comparison is that of the keys.
  pub cmp_cases :
      IsMemory
      → (p q : Ptr)
      → ((bintreecmp_int32 memory p q ≡ equal) × (key p ≡ key q))
        ⊎ (((bintreecmp_int32 memory p q ≡ less) × (key p < key q))
            ⊎ ((bintreecmp_int32 memory p q ≡ greater) × (key q < key p)))
  unfolding bintreecmp_int32
  cmp_cases bounded p q = ground (arith, bounded p, bounded q)
