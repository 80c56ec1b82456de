-- ===== src/BinTree/Settle.antt =====
-- `top` and `bottom` of the tree when a node was linked in, or got new data.
use mathlib.Core.List.{append-nil, append_assoc}
use devclego.Prelude.{
  ==_iff, List, [], ap, ap₂, arith, false, inl, inr, length, length-append, refl, some, sym, true,
  ℕ, ◌++◌, ◌+◌, ◌<◌, ◌==◌, ◌∙◌, ◌∷◌, ◌≡◌, ◌≤◌, ◌⊎◌,
}
use devclego.Store.{Ptr}
use devclego.BinTree.{
  less, equal, greater, bintreecmp_int32, settle_ends, Cell, BinTree, cells, find_cell, cell_at,
}
use devclego.BinTree.Cells.{
  uses, uses-append, first_address, last_address, last_address-append, find_cell-middle,
}
use devclego.BinTree.Inv.{
  IsMemory, cmp_cases, entry, entries, entries-append, key, Below, Above, Above-split, Below-split,
}
use devclego.BinTree.Change.{uses-middle, uses_self}

pub snoc_view :
    (y : Cell) (ys : List Cell) → (ws : List Cell) × (e : Cell) × (y ∷ ys ≡ ws ++ e ∷ [])
snoc_view y [] = ([], y, refl)
snoc_view y (z ∷ ys) = let (ws, e, f) = snoc_view z ys in (y ∷ ws, e, ap (◌∷◌ y) f)

pub find_cell_unique :
    (cs zs : List Cell) (d : Cell) (ws : List Cell)
    → cs ≡ zs ++ d ∷ ws
    → uses d.address cs ≤ 1
    → find_cell cs d.address ≡ some d
find_cell_unique cs zs d ws e once = rw e (
    find_cell-middle zs d ws (
      omega (
        arith,
        once,
        ap (uses d.address) e,
        uses-middle d.address zs d ws,
        uses-append d.address zs ws,
        uses_self d,
      )))

Above-last :
    (memory : ℕ → ℕ) (k : ℕ) (ys ws : List Cell) (e : Cell)
    → ys ≡ ws ++ e ∷ []
    → Above memory k (entries ys)
    → k < key memory e.item
unfolding entries Above
Above-last memory k ys ws e split a =
    (Above-split memory k (entries ws) (entry e ∷ [])
      (rw (split, entries-append ws (e ∷ [])) at a)).1.0

Below-last :
    (memory : ℕ → ℕ) (k : ℕ) (ys ws : List Cell) (e : Cell)
    → ys ≡ ws ++ e ∷ []
    → Below memory k (entries ys)
    → key memory e.item < k
unfolding entries Below
Below-last memory k ys ws e split a =
    (Below-split memory k (entries ws) (entry e ∷ [])
      (rw (split, entries-append ws (e ∷ [])) at a)).1.0

module _ (memory : ℕ → ℕ) (t : BinTree) (item : Ptr) (n : Cell) where
  -- The nodes that `top` and `bottom` name, and whether the node `n` is to take their place.
  pub record IsTop : Type 0 where
    pub e : Cell
    pub there : cell_at t.root t.top ≡ some e
    pub order :
        ((key memory e.item < key memory item)
          × (last_address (cells t.root) ≡ n.address)
          × (first_address (cells t.root) ≡ t.bottom))
        ⊎ ((key memory item ≤ key memory e.item) × (last_address (cells t.root) ≡ t.top))

  pub record IsBottom : Type 0 where
    pub e : Cell
    pub there : cell_at t.root t.bottom ≡ some e
    pub order :
        ((key memory item < key memory e.item) × (first_address (cells t.root) ≡ n.address))
        ⊎ ((key memory e.item ≤ key memory item) × (first_address (cells t.root) ≡ t.bottom))

  -- The two addresses are those of the tree without `n`, where it is linked in, or with it.
  abbrev pub Names : List Cell → Type 0
  Names cs = (t.top ≡ last_address cs) × (t.bottom ≡ first_address cs)

  -- The tree with the node `n` between the lesser and the greater ones.
  pub record IsAround (xs ys : List Cell) : Type 0 where
    pub now : cells t.root ≡ xs ++ n ∷ ys
    pub once : (a : Ptr) → uses a (cells t.root) ≤ 1
    pub same : key memory n.item ≡ key memory item
    pub lesser : Below memory (key memory item) (entries xs)
    pub upper : Above memory (key memory item) (entries ys)
    pub names : Names (xs ++ ys) ⊎ Names (cells t.root)
    pub counted : t.node_counter ≡ length (cells t.root)

  found :
      ((a : Ptr) → uses a (cells t.root) ≤ 1)
      → (a : Ptr) (zs : List Cell) (d : Cell) (ws : List Cell) → a ≡ d.address
      → cells t.root ≡ zs ++ d ∷ ws
      → cell_at t.root a ≡ some d
  unfolding cell_at
  found once a zs d ws e split =
      rw e (find_cell_unique (cells t.root) zs d ws split (once d.address))

  -- The last node is one of the greater ones.
  top_upper : (xs : List Cell) (y : Cell) (ys : List Cell) → IsAround xs (y ∷ ys) → IsTop
  unfolding entries Above last_address
  top_upper xs y ys a =
      let (ws, e, split) = snoc_view y ys in
      let at_end : last_address (y ∷ ys) ≡ e.address =
        ap last_address split ∙ last_address-append ws e [] in
      let whole : last_address (cells t.root) ≡ last_address (y ∷ ys) =
        ap last_address a.now ∙ last_address-append xs n (y ∷ ys) in
      let top : t.top ≡ last_address (y ∷ ys) = elim a.names [
        | inl h ↦ h.0 ∙ last_address-append xs y ys
        | inr h ↦ h.0 ∙ whole
      ] in
      let above = Above-last memory _ (y ∷ ys) ws e split a.upper in
      record {
        e = e;
        there =
            found a.once t.top (xs ++ n ∷ ws) e [] (top ∙ at_end)
              (a.now ∙ ap (λ x. xs ++ n ∷ x) split ∙ sym (append_assoc xs (n ∷ ws) (e ∷ [])));
        order = inr (omega (arith, above), whole ∙ sym top);
      }

  -- There is no greater one: the node itself, or the last of the lesser ones.
  top_lesser : (x : Cell) (xs : List Cell) → IsAround (x ∷ xs) [] → Names ((x ∷ xs) ++ []) → IsTop
  unfolding entries Below last_address first_address
  top_lesser x xs a h =
      let (ws, e, split) = snoc_view x xs in
      let below = Below-last memory _ (x ∷ xs) ws e split a.lesser in
      record {
        e = e;
        there =
            found a.once t.top ws e (n ∷ [])
              (h.0 ∙ ap last_address (append-nil (x ∷ xs) ∙ split) ∙ last_address-append ws e [])
              (a.now ∙ ap (λ z. z ++ n ∷ []) split ∙ append_assoc ws (e ∷ []) (n ∷ []));
        order = inl (
          below,
          ap last_address a.now ∙ last_address-append (x ∷ xs) n [],
          ap first_address a.now ∙ sym h.1,
        );
      }

  top_self : (xs : List Cell) → IsAround xs [] → Names (cells t.root) → IsTop
  unfolding last_address
  top_self xs a h = record {
    e = n;
    there =
        found a.once t.top xs n [] (h.0 ∙ ap last_address a.now ∙ last_address-append xs n [])
          a.now;
    order = inr (omega (arith, a.same), sym h.0);
  }

  top_of : (xs ys : List Cell) → 0 < length xs + length ys → IsAround xs ys → IsTop
  top_of xs (y ∷ ys) more a = top_upper xs y ys a
  top_of [] [] more a = absurd (omega (arith, more))
  top_of (x ∷ xs) [] more a = elim a.names [
    | inl h ↦ top_lesser x xs a h
    | inr h ↦ top_self (x ∷ xs) a h
  ]

  bottom_of : (xs ys : List Cell) → 0 < length xs + length ys → IsAround xs ys → IsBottom
  unfolding entries Above Below first_address
  bottom_of [] [] more a = absurd (omega (arith, more))
  bottom_of (x ∷ xs) ys more a =
      let bottom : t.bottom ≡ x.address = elim a.names [
        | inl h ↦ h.1
        | inr h ↦ h.1 ∙ ap first_address a.now
      ] in
      record {
        e = x;
        there = found a.once t.bottom [] x (xs ++ n ∷ ys) bottom a.now;
        order = inr (omega (arith, a.lesser.0), ap first_address a.now ∙ sym bottom);
      }
  bottom_of [] (y ∷ ys) more a = elim a.names [
    | inl h ↦ record {
      e = y;
      there = found a.once t.bottom (n ∷ []) y ys h.1 a.now;
      order = inl (a.upper.0, ap first_address a.now);
    }
    | inr h ↦ record {
      e = n;
      there = found a.once t.bottom [] n (y ∷ ys) (h.1 ∙ ap first_address a.now) a.now;
      order = inr (omega (arith, a.same), sym h.1);
    }
  ]

  abbrev pub settled : BinTree
  settled = record t { top = last_address (cells t.root); bottom = first_address (cells t.root) }

  not_less :
      (p q : Ptr)
      → IsMemory memory
      → key memory q ≤ key memory p
      → (bintreecmp_int32 memory p q ≡ equal) ⊎ (bintreecmp_int32 memory p q ≡ greater)
  not_less p q m le = elim (cmp_cases memory m p q) [
    | inl (e, _) ↦ inl e
    | inr (inl (e, lt)) ↦ absurd (omega (arith, lt, le))
    | inr (inr (e, _)) ↦ inr e
  ]

  is_less :
      (p q : Ptr)
      → IsMemory memory
      → key memory p < key memory q
      → bintreecmp_int32 memory p q ≡ less
  is_less p q m lt = elim (cmp_cases memory m p q) [
    | inl (e, same) ↦ absurd (omega (arith, lt, same))
    | inr (inl (e, _)) ↦ e
    | inr (inr (e, gt)) ↦ absurd (omega (arith, lt, gt))
  ]

  -- The second comparison, which is left out where the node is the new top.
  settle_bottom :
      IsMemory memory
      → last_address (cells t.root) ≡ t.top
      → (b : IsBottom)
      → (elim (bintreecmp_int32 memory item b.e.item) [
        | less ↦ some (record t { bottom = n.address })
        | _ ↦ some t
      ])
        ≡ some settled
  settle_bottom m la b =
      let both : (a : Ptr)
          → a ≡ first_address (cells t.root)
          → some (record t { bottom = a }) ≡ some settled =
        λ a fi. ap₂ (λ x y. some (record t { top = x; bottom = y })) (sym la) fi in
      elim b.order [
        | inl (lt, fi) ↦ rw (is_less item b.e.item m lt) (both _ (sym fi))
        | inr (le, fi) ↦ elim (not_less item b.e.item m le) [
          | inl e ↦ rw e (both _ (sym fi))
          | inr e ↦ rw e (both _ (sym fi))
        ]
      ]

  settle_more :
      IsMemory memory
      → (t.node_counter == 1) ≡ false
      → IsTop
      → IsBottom
      → settle_ends memory t n.address item ≡ some settled
  unfolding settle_ends
  settle_more m more top bottom = elim top.order [
    | inl (lt, la, fi) ↦
        rw (more, top.there, bottom.there, is_less top.e.item item m lt)
          (ap₂ (λ x y. some (record t { top = x; bottom = y })) (sym la) (sym fi))
    | inr (le, la) ↦ elim (not_less top.e.item item m le) [
      | inl e ↦ rw (more, top.there, bottom.there, e) (settle_bottom m la bottom)
      | inr e ↦ rw (more, top.there, bottom.there, e) (settle_bottom m la bottom)
    ]
  ]

  -- There is a second node.
  not_alone :
      (xs ys : List Cell)
      → 0 < length xs + length ys
      → IsAround xs ys
      → (t.node_counter == 1) ≡ false
  not_alone xs ys more a =
      let many : 1 < t.node_counter =
        omega (arith, more, a.counted, ap length a.now, length-append xs (n ∷ ys)) in
      ground (arith, many)

  pub settle :
      IsMemory memory
      → (xs ys : List Cell) → IsAround xs ys
      → settle_ends memory t n.address item ≡ some settled
  unfolding settle_ends last_address first_address
  settle m [] [] a =
      let once : (t.node_counter == 1) ≡ true =
        (==_iff t.node_counter 1).1 (a.counted ∙ ap length a.now) in
      rw once (
        ap₂ (λ x y. some (record t { top = x; bottom = y })) (sym (ap last_address a.now))
          (sym (ap first_address a.now)))
  settle m (x ∷ xs) ys a =
      settle_more m (not_alone (x ∷ xs) ys (omega arith) a) (top_of (x ∷ xs) ys (omega arith) a)
        (bottom_of (x ∷ xs) ys (omega arith) a)
  settle m [] (y ∷ ys) a =
      settle_more m (not_alone [] (y ∷ ys) (omega arith) a) (top_of [] (y ∷ ys) (omega arith) a)
        (bottom_of [] (y ∷ ys) (omega arith) a)
