-- ===== src/DList/Chains.antt =====
-- Chains in the store, and what the functions do to them.
use devclego.Prelude.{
  List, [], ap, arith, false, length, none, refl, some, suc, sym, zero, ℕ, ◌++◌, ◌<◌, ◌==◌, ◌∙◌,
  ◌∷◌, ◌≡◌, ◌≢◌,
}
use devclego.Store.{
  Ptr, null, Store, get, put, get-put_self, get-put_ne, ok, load-ok, modify-ok, create-ok,
}
use devclego.Store.Returns.{Returns, returns}
use devclego.Queue.{Node, node, make_dlist}
use devclego.Queue.Chain.{
  Cells, has, first, last, Chain, frame-put, not-has_of_none, last-append, has-append, Chain-snoc,
  snoc-Chain,
}
use devclego.DList.{find_last, dlist_append, dlist_prepend, dlist_foreach}

abbrev pub addresses : Cells → List Ptr
addresses [] = []
addresses ((a, d) ∷ xs) = a ∷ addresses xs

find_last-last :
    (xs : Cells) (fuel : ℕ) (h : Store Node) (a d prev : Ptr)
    → Chain h prev ((a, d) ∷ xs) null
    → length xs < fuel
    → find_last fuel a h ≡ ok (last xs a) h
unfolding find_last
find_last-last xs zero h a d prev c f = absurd (omega (arith, f))
find_last-last [] (suc fuel) h a d prev (live, out, holds, rest) f =
    rw (load-ok h a (node d null prev) live holds)
find_last-last ((b, e) ∷ xs) (suc fuel) h a d prev (live, out, holds, rest) f =
    let more : (b == null) ≡ false = ground (arith, rest.0) in
    rw (load-ok h a (node d b prev) live holds, more)
      (find_last-last xs fuel h b e a rest (omega (arith, f)))

snoc_cells :
    (a d : Ptr) (xs : Cells)
    → (ys : Cells) × (b : Ptr) × (e : Ptr) × ((a, d) ∷ xs ≡ ys ++ (b, e) ∷ [])
snoc_cells a d [] = ([], a, d, refl)
snoc_cells a d ((b, e) ∷ xs) =
    let (ys, c, f, split) = snoc_cells b e xs in ((a, d) ∷ ys, c, f, ap (◌∷◌ (a, d)) split)

same-Chain :
    (h : Store Node) {xs ys : Cells} → xs ≡ ys → Chain h null xs null → Chain h null ys null
same-Chain h e c = rw e at c

-- A node that is in nobody's use becomes the last one.
grown-Chain :
    (h : Store Node) (ys : Cells) (a d fresh item : Ptr)
    → Chain h null (ys ++ (a, d) ∷ []) null
    → fresh ≢ null
    → has fresh (ys ++ (a, d) ∷ []) ≡ false
    → Chain
        (put
          (put (put h fresh (some (node item null null))) a (some (node d fresh (last ys null))))
          fresh
          (some (node item null a)))
        null
        ((ys ++ (a, d) ∷ []) ++ (fresh, item) ∷ [])
        null
grown-Chain h ys a d fresh item c live out =
    let (cy, alive, aout, at_a) = Chain-snoc h null ys a d null c in
    let apart : has fresh ys ≡ false = ground (arith, has-append fresh ys ((a, d) ∷ []), out) in
    let ne : fresh ≢ a = ground (arith, has-append fresh ys ((a, d) ∷ []), out) in
    let g₁ = put h fresh (some (node item null null)) in
    let g₂ = put g₁ a (some (node d fresh (last ys null))) in
    let g₃ = put g₂ fresh (some (node item null a)) in
    let c₁ = frame-put h fresh (some (node item null null)) null ys a apart cy in
    let c₂ = frame-put g₁ a (some (node d fresh (last ys null))) null ys a aout c₁ in
    let c₃ = frame-put g₂ fresh (some (node item null a)) null ys a apart c₂ in
    let here : get g₃ a ≡ some (node d fresh (last ys null)) =
      get-put_ne g₂ fresh a (some (node item null a)) ne
      ∙ get-put_self g₁ a (some (node d fresh (last ys null))) in
    let new : get g₃ fresh ≡ some (node item null (last (ys ++ (a, d) ∷ []) null)) =
      get-put_self g₂ fresh (some (node item null a))
      ∙ ap (λ p. some (node item null p)) (sym (last-append ys a d null)) in
    snoc-Chain g₃ null (ys ++ (a, d) ∷ []) fresh item null
      (snoc-Chain g₃ null ys a d fresh c₃ alive aout here) live out new

-- `dlist_append` puts a node with the item behind the last one, linked both ways, and leaves the
-- others in place.
pub dlist_append_lem :
    (xs : Cells) (fuel : ℕ) (h : Store Node) (fresh item : Ptr)
    → Chain h null xs null
    → length xs < fuel
    → fresh ≢ null
    → get h fresh ≡ none
    → Returns
        (λ l g.
          (l ≡ first (xs ++ (fresh, item) ∷ []) null)
          × Chain g null (xs ++ (fresh, item) ∷ []) null)
        (dlist_append fuel fresh (first xs null) item h)
unfolding dlist_append make_dlist
dlist_append_lem [] fuel h fresh item c f live unused =
    rw (create-ok h fresh (node item null null) live)
      (returns (refl, (live, refl, get-put_self h fresh (some (node item null null)), tt)))
dlist_append_lem ((a, d) ∷ xs) fuel h fresh item c f live unused =
    let more : (a == null) ≡ false = ground (arith, c.0) in
    let out = not-has_of_none h fresh null ((a, d) ∷ xs) null c unused in
    let (ys, b, e, split) = snoc_cells a d xs in
    let cs : Chain h null (ys ++ (b, e) ∷ []) null = same-Chain h split c in
    let outs : has fresh (ys ++ (b, e) ∷ []) ≡ false = ap (has fresh) (sym split) ∙ out in
    let (_, alive, _, at_b) = Chain-snoc h null ys b e null cs in
    let ends : last xs a ≡ b = ap (λ x. last x null) split ∙ last-append ys b e null in
    let ne : fresh ≢ b = ground (arith, has-append fresh ys ((b, e) ∷ []), outs) in
    let g₁ = put h fresh (some (node item null null)) in
    let here : get g₁ b ≡ some (node e null (last ys null)) =
      get-put_ne h fresh b (some (node item null null)) ne ∙ at_b in
    let g₂ = put g₁ b (some (node e fresh (last ys null))) in
    let linked : get g₂ b ≡ some (node e fresh (last ys null)) =
      get-put_self g₁ b (some (node e fresh (last ys null))) in
    let new : get g₂ fresh ≡ some (node item null null) =
      get-put_ne g₁ b fresh (some (node e fresh (last ys null))) (λ eq. ne (sym eq))
      ∙ get-put_self h fresh (some (node item null null)) in
    rw
      (
        more,
        find_last-last xs fuel h a d null c (omega (arith, f)),
        ends,
        create-ok h fresh (node item null null) live,
        modify-ok g₁ b (node e null (last ys null)) alive here (λ n. record n { next = fresh }),
        load-ok g₂ b (node e fresh (last ys null)) alive linked,
        modify-ok g₂ fresh (node item null null) live new (λ k. record k { prev = b }),
      )
      (returns (
        refl,
        same-Chain _ (sym (ap (λ x. x ++ (fresh, item) ∷ []) split))
            (grown-Chain h ys b e fresh item cs live outs),
      ))

-- `dlist_prepend` puts a node with the item in front, linked both ways, and leaves the others in
-- place.
pub dlist_prepend_lem :
    (xs : Cells) (h : Store Node) (fresh item : Ptr)
    → Chain h null xs null
    → fresh ≢ null
    → get h fresh ≡ none
    → Returns
        (λ l g. (l ≡ fresh) × Chain g null ((fresh, item) ∷ xs) null)
        (dlist_prepend fresh (first xs null) item h)
unfolding dlist_prepend make_dlist
dlist_prepend_lem [] h fresh item c live unused =
    rw (create-ok h fresh (node item null null) live)
      (returns (refl, (live, refl, get-put_self h fresh (some (node item null null)), tt)))
dlist_prepend_lem ((a, d) ∷ xs) h fresh item (alive, aout, at_a, rest) live unused =
    let more : (a == null) ≡ false = ground (arith, alive) in
    let out = not-has_of_none h fresh null ((a, d) ∷ xs) null (alive, aout, at_a, rest) unused in
    let ne : fresh ≢ a = ground (arith, out) in
    let apart : has fresh xs ≡ false = ground (arith, out) in
    let after = first xs null in
    let g₁ = put h fresh (some (node item null null)) in
    let made = get-put_self h fresh (some (node item null null)) in
    let g₂ = put g₁ fresh (some (node item a null)) in
    let here : get g₂ a ≡ some (node d after null) =
      get-put_ne g₁ fresh a (some (node item a null)) ne
      ∙ get-put_ne h fresh a (some (node item null null)) ne
      ∙ at_a in
    let g₃ = put g₂ a (some (node d after fresh)) in
    let c₁ = frame-put h fresh (some (node item null null)) a xs null apart rest in
    let c₂ = frame-put g₁ fresh (some (node item a null)) a xs null apart c₁ in
    let c₃ = frame-put g₂ a (some (node d after fresh)) a xs null aout c₂ in
    let head : get g₃ fresh ≡ some (node item a null) =
      get-put_ne g₂ a fresh (some (node d after fresh)) (λ eq. ne (sym eq))
      ∙ get-put_self g₁ fresh (some (node item a null)) in
    rw
      (
        more,
        create-ok h fresh (node item null null) live,
        modify-ok g₁ fresh (node item null null) live made (λ n. record n { next = a }),
        modify-ok g₂ a (node d after null) alive here (λ n. record n { prev = fresh }),
      )
      (returns
        (refl, (live, out, head, (alive, aout, get-put_self g₂ a (some (node d after fresh)), c₃))))

-- `dlist_foreach` calls the process once on every node, in order.
pub dlist_foreach_lem :
    (xs : Cells) (fuel : ℕ) (h : Store Node) (prev : Ptr)
    → Chain h prev xs null
    → length xs < fuel
    → dlist_foreach fuel (first xs null) h ≡ ok (addresses xs) h
unfolding dlist_foreach
dlist_foreach_lem xs zero h prev c f = absurd (omega (arith, f))
dlist_foreach_lem [] (suc fuel) h prev c f = refl
dlist_foreach_lem ((a, d) ∷ xs) (suc fuel) h prev (live, out, holds, rest) f =
    let more : (a == null) ≡ false = ground (arith, live) in
    rw (
      more,
      load-ok h a (node d (first xs null) prev) live holds,
      dlist_foreach_lem xs fuel h a rest (omega (arith, f)),
    )
