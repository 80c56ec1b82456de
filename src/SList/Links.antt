-- ===== src/SList/Links.antt =====
-- Lists in the store, and what the functions do to them.
use devclego.Prelude.{
  List, Option, [], ap, arith, false, length, none, refl, some, suc, sym, true, zero, ℕ, ℕ_discrete,
  ◌++◌, ◌<◌, ◌==◌, ◌∙◌, ◌∷◌, ◌≡◌, ◌≢◌,
}
use devclego.Store.{
  Ptr, null, Store, get, put, get-put_self, get-put_ne, ok, load-ok, modify-ok, create-ok,
}
use devclego.Store.Returns.{Returns, returns}
use devclego.Queue.Chain.{Cells, has, first, last, has-append}
use devclego.SList.{Link, link, make_slist, find_tail, slist_append, slist_prepend, slist_foreach}

-- The nodes of a list, at distinct addresses, each with its item.
abbrev pub Links : Store Link → Cells → Type 0
Links h [] = Unit {0}
Links h ((a, d) ∷ xs) =
    (a ≢ null) × (has a xs ≡ false) × (get h a ≡ some (link d (first xs null))) × Links h xs

abbrev pub addresses : Cells → List Ptr
addresses [] = []
addresses ((a, d) ∷ xs) = a ∷ addresses xs

find_tail-last :
    (xs : Cells) (fuel : ℕ) (h : Store Link) (a d : Ptr)
    → Links h ((a, d) ∷ xs)
    → length xs < fuel
    → find_tail fuel a h ≡ ok (last xs a) h
unfolding find_tail
find_tail-last xs zero h a d c f = absurd (omega (arith, f))
find_tail-last [] (suc fuel) h a d (live, out, holds, rest) f =
    rw (load-ok h a (link d null) live holds)
find_tail-last ((b, e) ∷ xs) (suc fuel) h a d (live, out, holds, rest) f =
    let more : (b == null) ≡ false = ground (arith, rest.0) in
    rw (load-ok h a (link d b) live holds, more)
      (find_tail-last xs fuel h b e rest (omega (arith, f)))

-- `slist_foreach` calls the process once on every node, in order.
pub slist_foreach_lem :
    (xs : Cells) (fuel : ℕ) (h : Store Link)
    → Links h xs
    → length xs < fuel
    → slist_foreach fuel (first xs null) h ≡ ok (addresses xs) h
unfolding slist_foreach
slist_foreach_lem xs zero h c f = absurd (omega (arith, f))
slist_foreach_lem [] (suc fuel) h c f = refl
slist_foreach_lem ((a, d) ∷ xs) (suc fuel) h (live, out, holds, rest) f =
    let more : (a == null) ≡ false = ground (arith, live) in
    rw (
      more,
      load-ok h a (link d (first xs null)) live holds,
      slist_foreach_lem xs fuel h rest (omega (arith, f)),
    )

none_is_some : {A : Type 0} {a : A} → none ≢ some a
none_is_some e = cc

-- An address in nobody's use is none of the list's.
not-has : (xs : Cells) (h : Store Link) (p : Ptr) → Links h xs → get h p ≡ none → has p xs ≡ false
not-has [] h p c e = refl
not-has ((a, d) ∷ xs) h p (live, out, holds, rest) e =
    let others = not-has xs h p rest e in
    elim (ℕ_discrete p a) [
      | yes same ↦ absurd (none_is_some (sym e ∙ ap (get h) same ∙ holds))
      | no ne ↦ ground (arith, others, ne)
    ]

frame-Links :
    (xs : Cells) (h g : Store Link)
    → ((a : Ptr) → has a xs ≡ true → get g a ≡ get h a)
    → Links h xs
    → Links g xs
frame-Links [] h g same c = tt
frame-Links ((a, d) ∷ xs) h g same (live, out, holds, rest) = (
  live,
  out,
  same a (ground arith) ∙ holds,
  frame-Links xs h g (λ b i. same b (ground arith)) rest,
)

true_is_false : true ≢ false
true_is_false e = cc

has-last : (xs : Cells) (a d : Ptr) → has (last xs a) ((a, d) ∷ xs) ≡ true
has-last [] a d = ground arith
has-last ((b, e) ∷ xs) a d = ground (arith, has-last xs b e)

-- The last node has no next one.
last_node :
    (xs : Cells) (h : Store Link) (a d : Ptr)
    → Links h ((a, d) ∷ xs)
    → (e : Ptr) × (get h (last xs a) ≡ some (link e null)) × (last xs a ≢ null)
last_node [] h a d (live, out, holds, rest) = (d, holds, live)
last_node ((b, e) ∷ xs) h a d (live, out, holds, rest) = last_node xs h b e rest

-- `slist_prepend` puts a node with the item in front.
pub slist_prepend_lem :
    (xs : Cells) (h : Store Link) (fresh item : Ptr)
    → Links h xs
    → fresh ≢ null
    → get h fresh ≡ none
    → Returns
        (λ l g. (l ≡ fresh) × Links g ((fresh, item) ∷ xs))
        (slist_prepend fresh (first xs null) item h)
unfolding slist_prepend make_slist
slist_prepend_lem [] h fresh item c live unused =
    rw (create-ok h fresh (link item null) live)
      (returns (refl, (live, refl, get-put_self h fresh (some (link item null)), tt)))
slist_prepend_lem ((a, d) ∷ xs) h fresh item c live unused =
    let more : (a == null) ≡ false = ground (arith, c.0) in
    let apart = not-has ((a, d) ∷ xs) h fresh c unused in
    let h₁ = put h fresh (some (link item null)) in
    let made = get-put_self h fresh (some (link item null)) in
    let h₂ = put h₁ fresh (some (link item a)) in
    let other : (b : Ptr) → has b ((a, d) ∷ xs) ≡ true → get h₂ b ≡ get h b = λ b i.
      let ne : fresh ≢ b =
        λ e. true_is_false (sym i ∙ ap (λ p. has p ((a, d) ∷ xs)) (sym e) ∙ apart) in
      get-put_ne h₁ fresh b (some (link item a)) ne
      ∙ get-put_ne h fresh b (some (link item null)) ne in
    rw
      (
        more,
        create-ok h fresh (link item null) live,
        modify-ok h₁ fresh (link item null) live made (λ n. record n { next = a }),
      )
      (returns (
        refl,
        (
          live,
          apart,
          get-put_self h₁ fresh (some (link item a)),
          frame-Links ((a, d) ∷ xs) h h₂ other c,
        ),
      ))

abbrev item_or_null : Option Link → Ptr
item_or_null none = null
item_or_null (some n) = n.item

-- The list grows at its end where the last node's link is set to a new node.
grow :
    (xs : Cells) (h g : Store Link) (a d fresh item : Ptr)
    → Links h ((a, d) ∷ xs)
    → fresh ≢ null
    → has fresh ((a, d) ∷ xs) ≡ false
    → get g fresh ≡ some (link item null)
    → ((e : Ptr) → get h (last xs a) ≡ some (link e null) → get g (last xs a) ≡ some (link e fresh))
    → ((b : Ptr) → b ≢ fresh → b ≢ last xs a → get g b ≡ get h b)
    → Links g (((a, d) ∷ xs) ++ (fresh, item) ∷ [])
grow [] h g a d fresh item (live, out, holds, rest) there apart new tail same =
    (live, ground (arith, apart), tail d holds, (there, refl, new, tt))
grow ((b, e) ∷ xs) h g a d fresh item (live, out, holds, rest) there apart new tail same =
    let apart' : has fresh ((b, e) ∷ xs) ≡ false = ground (arith, apart) in
    let ne : a ≢ fresh = ground (arith, apart) in
    let ne' : a ≢ last xs b =
      λ eq. true_is_false (sym (has-last xs b e) ∙ ap (λ p. has p ((b, e) ∷ xs)) (sym eq) ∙ out) in
    (
      live,
      ground (arith, has-append a xs ((fresh, item) ∷ []), out, ne),
      same a ne ne' ∙ holds,
      grow xs h g b e fresh item rest there apart' new tail same,
    )

-- `slist_append` puts a node with the item behind the last one, and leaves the others in place.
pub slist_append_lem :
    (xs : Cells) (fuel : ℕ) (h : Store Link) (fresh item : Ptr)
    → Links h xs
    → length xs < fuel
    → fresh ≢ null
    → get h fresh ≡ none
    → Returns
        (λ l g. (l ≡ first (xs ++ (fresh, item) ∷ []) null) × Links g (xs ++ (fresh, item) ∷ []))
        (slist_append fuel fresh (first xs null) item h)
unfolding slist_append make_slist
slist_append_lem [] fuel h fresh item c f live unused =
    rw (create-ok h fresh (link item null) live)
      (returns (refl, (live, refl, get-put_self h fresh (some (link item null)), tt)))
slist_append_lem ((a, d) ∷ xs) fuel h fresh item c f live unused =
    let more : (a == null) ≡ false = ground (arith, c.0) in
    let apart = not-has ((a, d) ∷ xs) h fresh c unused in
    let t = last xs a in
    let (e, there, live_t) = last_node xs h a d c in
    let h₁ = put h fresh (some (link item null)) in
    let ne : fresh ≢ t = λ eq. none_is_some (sym unused ∙ ap (get h) eq ∙ there) in
    let still : get h₁ t ≡ some (link e null) =
      get-put_ne h fresh t (some (link item null)) ne ∙ there in
    let h₂ = put h₁ t (some (link e fresh)) in
    rw
      (
        more,
        find_tail-last xs fuel h a d c (omega (arith, f)),
        create-ok h fresh (link item null) live,
        modify-ok h₁ t (link e null) live_t still (λ n. record n { next = fresh }),
      )
      (returns (
        refl,
        grow xs h h₂ a d fresh item c live apart
            (get-put_ne h₁ t fresh (some (link e fresh)) (λ eq. ne (sym eq))
              ∙ get-put_self h fresh (some (link item null)))
            (λ e' got.
              get-put_self h₁ t (some (link e fresh))
              ∙ ap (λ i. some (link i fresh)) (ap item_or_null (sym there ∙ got)))
            (λ b b1 b2.
              get-put_ne h₁ t b (some (link e fresh)) (λ eq. b2 (sym eq))
              ∙ get-put_ne h fresh b (some (link item null)) (λ eq. b1 (sym eq))),
      ))
