-- ===== src/BinTree/Ends.antt =====
-- `top` and `bottom` of the tree when a node leaves it.
use mathlib.Core.List.{append-nil, append_assoc}
use devclego.Prelude.{
  ==_iff, Bool-cases, List, [], ap, ap₂, arith, false, if◌then◌else◌, inl, inr, refl, sym, true,
  ◌++◌, ◌<◌, ◌==◌, ◌∙◌, ◌∷◌, ◌≡◌,
}
use devclego.Store.{Ptr}
use devclego.BinTree.{
  Cell, Tree, leaf, node, BinTree, get_rightest, get_leftest, address_of, is_leaf, cells, refresh,
}
use devclego.BinTree.Cells.{
  occurs, addresses, uses, first_address, last_address, last_address-append, rightest-last,
  leftest-first, rightest_lem, leftest_lem,
}

-- What the outermost addresses become.
abbrev pub next_top : Tree → Ptr → BinTree → Ptr
next_top left a t =
    if a == t.top
    then address_of (if is_leaf left then get_rightest t.root else get_rightest left)
    else t.top

abbrev pub next_bottom : Tree → Ptr → BinTree → Ptr
next_bottom right a t =
    if a == t.bottom
    then address_of (if is_leaf right then get_leftest t.root else get_leftest right)
    else t.bottom

refresh-parts :
    (left : Tree) (a : Ptr) (right : Tree) (t : BinTree)
    → refresh left a right t ≡ record t { top = next_top left a t; bottom = next_bottom right a t }
unfolding refresh
refresh-parts left a right t = elim (Bool-cases (a == t.top)) [
  | inl e ↦ elim (Bool-cases (a == t.bottom)) [ inl f ↦ rw (e, f) refl | inr f ↦ rw (e, f) refl ]
  | inr e ↦ elim (Bool-cases (a == t.bottom)) [ inl f ↦ rw (e, f) refl | inr f ↦ rw (e, f) refl ]
]

pub refresh-outside :
    (left : Tree) (a : Ptr) (right : Tree) (t : BinTree)
    → (a == t.top) ≡ false
    → (a == t.bottom) ≡ false
    → refresh left a right t ≡ t
unfolding refresh
refresh-outside left a right t e f = rw (e, f) refl

-- The outermost addresses are used.
last_address-used : (y : Cell) (ys : List Cell) → 0 < uses (last_address (y ∷ ys)) (y ∷ ys)
unfolding last_address occurs addresses
last_address-used y [] = ground arith
last_address-used y (z ∷ ys) = ground (arith, last_address-used z ys)

pub last_address-other :
    (a : Ptr) (y : Cell) (ys : List Cell)
    → uses a (y ∷ ys) ≡ 0
    → (a == last_address (y ∷ ys)) ≡ false
last_address-other a y ys e = elim (Bool-cases (a == last_address (y ∷ ys))) [
  | inl same ↦
      absurd
        (omega (arith, rw ((==_iff a (last_address (y ∷ ys))).0 same) at e, last_address-used y ys))
  | inr other ↦ other
]

pub first_address-other :
    (a : Ptr) (y : Cell) (ys : List Cell)
    → uses a (y ∷ ys) ≡ 0
    → (a == first_address (y ∷ ys)) ≡ false
unfolding occurs addresses first_address
first_address-other a y ys e = ground arith

outer_top :
    (left root : Tree) (zs : List Cell)
    → cells root ≡ zs ++ cells left
    → address_of (if is_leaf left then get_rightest root else get_rightest left)
      ≡ last_address (cells root)
unfolding last_address
outer_top leaf root zs e = rightest-last root
outer_top (node l c r) root zs e =
    let (xs, d, found, split) = rightest_lem l c r in
    let whole : cells root ≡ (zs ++ xs) ++ d ∷ [] =
      e ∙ ap (λ x. zs ++ x) split ∙ sym (append_assoc zs xs (d ∷ [])) in
    rw found (sym (ap last_address whole ∙ last_address-append (zs ++ xs) d []))

outer_bottom :
    (right root : Tree) (zs : List Cell)
    → cells root ≡ cells right ++ zs
    → address_of (if is_leaf right then get_leftest root else get_leftest right)
      ≡ first_address (cells root)
unfolding first_address
outer_bottom leaf root zs e = leftest-first root
outer_bottom (node l c r) root zs e =
    let (d, ys, found, split) = leftest_lem l c r in
    rw found (sym (ap first_address (e ∙ ap (λ x. x ++ zs) split)))

module _ (left right : Tree) (t : BinTree) (c : Cell) where
  next_top-gone :
      (xs ys xs' : List Cell)
      → uses c.address ys ≡ 0
      → cells t.root ≡ xs ++ ys
      → xs ≡ xs' ++ cells left
      → t.top ≡ last_address (xs ++ c ∷ ys)
      → next_top left c.address t ≡ last_address (cells t.root)
  unfolding last_address
  next_top-gone xs [] xs' f now el et =
      let there : t.top ≡ c.address = et ∙ last_address-append xs c [] in
      let same : (c.address == t.top) ≡ true = (==_iff c.address t.top).1 (sym there) in
      rw same (outer_top left t.root xs' (now ∙ append-nil xs ∙ el))
  next_top-gone xs (y ∷ ys) xs' f now el et =
      let there : t.top ≡ last_address (y ∷ ys) = et ∙ last_address-append xs c (y ∷ ys) in
      let other : (c.address == t.top) ≡ false = rw there (last_address-other c.address y ys f) in
      rw other (there ∙ sym (ap last_address now ∙ last_address-append xs y ys))

  next_bottom-gone :
      (xs ys ys' : List Cell)
      → uses c.address xs ≡ 0
      → cells t.root ≡ xs ++ ys
      → ys ≡ cells right ++ ys'
      → t.bottom ≡ first_address (xs ++ c ∷ ys)
      → next_bottom right c.address t ≡ first_address (cells t.root)
  unfolding first_address
  next_bottom-gone [] ys ys' f now er eb =
      let same : (c.address == t.bottom) ≡ true = (==_iff c.address t.bottom).1 (sym eb) in
      rw same (outer_bottom right t.root ys' (now ∙ er))
  next_bottom-gone (x ∷ xs) ys ys' f now er eb =
      let other : (c.address == t.bottom) ≡ false = rw eb (first_address-other c.address x xs f) in
      rw other (eb ∙ sym (ap first_address now))

-- The node `c` left from between `xs` and `ys`, with these subtrees, or with none.
pub refresh-gone :
    (left right : Tree) (t : BinTree) (xs : List Cell) (c : Cell) (ys xs' ys' : List Cell)
    → uses c.address xs ≡ 0
    → uses c.address ys ≡ 0
    → cells t.root ≡ xs ++ ys
    → xs ≡ xs' ++ cells left
    → ys ≡ cells right ++ ys'
    → t.top ≡ last_address (xs ++ c ∷ ys)
    → t.bottom ≡ first_address (xs ++ c ∷ ys)
    → refresh left c.address right t
      ≡ record t { top = last_address (cells t.root); bottom = first_address (cells t.root) }
refresh-gone left right t xs c ys xs' ys' e f now el er et eb =
    refresh-parts left c.address right t
    ∙ ap₂ (λ x y. record t { top = x; bottom = y })
        (next_top-gone left right t c xs ys xs' f now el et)
        (next_bottom-gone left right t c xs ys ys' e now er eb)
