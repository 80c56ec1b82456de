-- ===== src/Queue/Chain.antt =====
-- Doubly linked chains of nodes in the store.
use devclego.Prelude.{
  Bool, List, Option, [], ap, arith, false, length, none, refl, sign, some, true, ◌++◌, ◌<◌, ◌==◌,
  ◌||◌, ◌∙◌, ◌∷◌, ◌≡◌, ◌≢◌,
}
use mathlib.Core.Bool.{or_assoc}
use devclego.Store.{Ptr, null, Store, get, put, get-put}
use devclego.Queue.{Node, node, Queue}

-- The address and the item of each node, in order.
abbrev pub Cells : Type 0
Cells = List (Ptr × Ptr)

abbrev pub has : Ptr → Cells → Bool
has p [] = false
has p ((a, d) ∷ xs) = (p == a) || has p xs

abbrev pub items : Cells → List Ptr
items [] = []
items ((a, d) ∷ xs) = d ∷ items xs

-- The address of the first node, or `next` where there is none; of the last node, or `prev`.
abbrev pub first : Cells → Ptr → Ptr
first [] next = next
first ((a, d) ∷ xs) next = a

abbrev pub last : Cells → Ptr → Ptr
last [] prev = prev
last ((a, d) ∷ xs) prev = last xs a

-- Between `prev` and `next` stand the nodes `xs`, linked both ways, at distinct addresses.
abbrev pub Chain : Store Node → Ptr → Cells → Ptr → Type 0
Chain h prev [] next = Unit {0}
Chain h prev ((a, d) ∷ xs) next =
    (a ≢ null)
    × (has a xs ≡ false)
    × (get h a ≡ some (node d (first xs next) prev))
    × Chain h a xs next

pub record IsQueue (h : Store Node) (q : Queue) (xs : Cells) : Type 0 where
  pub chain : Chain h null xs null
  pub head : q.head ≡ first xs null
  pub tail : q.tail ≡ last xs null
  pub counter : q.counter ≡ length xs
  pub small : length xs < sign

pub has-append : (p : Ptr) (xs ys : Cells) → has p (xs ++ ys) ≡ (has p xs || has p ys)
has-append p [] ys = refl
has-append p ((a, d) ∷ xs) ys = rw (has-append p xs ys, or_assoc)

pub items-append : (xs ys : Cells) → items (xs ++ ys) ≡ items xs ++ items ys
items-append [] ys = refl
items-append ((a, d) ∷ xs) ys = ap (◌∷◌ d) (items-append xs ys)

-- A chain survives any change that spares its own addresses.
pub frame :
    (h g : Store Node) (prev : Ptr) (xs : Cells) (next : Ptr)
    → ((a : Ptr) → has a xs ≡ true → get g a ≡ get h a)
    → Chain h prev xs next
    → Chain g prev xs next
frame h g prev [] next same c = tt
frame h g prev ((a, d) ∷ xs) next same (live, out, holds, rest) = (
  live,
  out,
  same a (ground arith) ∙ holds,
  frame h g a xs next (λ b i. same b (ground arith)) rest,
)

pub frame-put :
    (h : Store Node) (p : Ptr) (c : Option Node) (prev : Ptr) (xs : Cells) (next : Ptr)
    → has p xs ≡ false
    → Chain h prev xs next
    → Chain (put h p c) prev xs next
frame-put h p c prev xs next out =
    frame h (put h p c) prev xs next λ a i. ground (arith, get-put h p a c)

-- An address with no node is not in a chain.
pub not-has_of_none :
    (h : Store Node) (p prev : Ptr) (xs : Cells) (next : Ptr)
    → Chain h prev xs next
    → get h p ≡ none
    → has p xs ≡ false
not-has_of_none h p prev [] next c e = refl
not-has_of_none h p prev ((a, d) ∷ xs) next (live, out, holds, rest) e =
    ground (arith, not-has_of_none h p a xs next rest e)

pub first-snoc : (xs : Cells) (a d next : Ptr) → first (xs ++ (a, d) ∷ []) next ≡ first xs a
first-snoc [] a d next = refl
first-snoc ((b, e) ∷ xs) a d next = refl

-- The end of a chain that is not empty.
pub last-append : (xs : Cells) (a d prev : Ptr) → last (xs ++ (a, d) ∷ []) prev ≡ a
last-append [] a d prev = refl
last-append ((b, e) ∷ xs) a d prev = last-append xs a d b

-- A chain that ends in a known node, split there.
pub Chain-snoc :
    (h : Store Node) (prev : Ptr) (xs : Cells) (a d next : Ptr)
    → Chain h prev (xs ++ (a, d) ∷ []) next
    → Chain h prev xs a
      × (a ≢ null)
      × (has a xs ≡ false)
      × (get h a ≡ some (node d next (last xs prev)))
Chain-snoc h prev [] a d next (live, out, holds, rest) = (tt, live, refl, holds)
Chain-snoc h prev ((b, e) ∷ xs) a d next (live, out, holds, rest) =
    let (c, live', out', at') = Chain-snoc h b xs a d next rest in
    let apart : has b xs ≡ false = ground (arith, has-append b xs ((a, d) ∷ [])) in
    (
      (live, apart, rw first-snoc at holds, c),
      live',
      ground (arith, has-append b xs ((a, d) ∷ [])),
      at',
    )

pub snoc-Chain :
    (h : Store Node) (prev : Ptr) (xs : Cells) (a d next : Ptr)
    → Chain h prev xs a
    → a ≢ null
    → has a xs ≡ false
    → get h a ≡ some (node d next (last xs prev))
    → Chain h prev (xs ++ (a, d) ∷ []) next
snoc-Chain h prev [] a d next c live out at = (live, refl, at, tt)
snoc-Chain h prev ((b, e) ∷ xs) a d next (live, out, holds, rest) live' out' at' =
    let apart : has b (xs ++ (a, d) ∷ []) ≡ false = ground (arith, has-append b xs ((a, d) ∷ [])) in
    (live, apart, rw first-snoc holds, snoc-Chain h b xs a d next rest live' (ground arith) at')
