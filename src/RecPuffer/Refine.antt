-- ===== src/RecPuffer/Refine.antt =====
-- The recycling component refines the list of its items.
use devclego.Prelude.{
  List, Option, [], arith, dec_lt, false, if◌then◌else◌, length, refl, some, true, ℕ, ℕ_discrete,
  ◌++◌, ◌==◌, ◌∙◌, ◌∷◌, ◌≡◌,
}
use devclego.Puffer.{Puffer, datapuffer_isfull, datapuffer_isempty}
use devclego.Puffer.Inv.{IsValid, contents, length-contents, write-fits, read-some}
use devclego.RecPuffer.{
  Call, receive, supply, Effect, nothing, destroys, makes, process_receiver, process_supplier,
  serve, serve_all,
}

length_zero : {A : Type 0} (xs : List A) → length xs ≡ 0 → xs ≡ []
length_zero [] e = refl
length_zero (x ∷ xs) e = absurd (omega (arith, e))

module _ {A : Type 0} (item_ctor : A) (item_clean : A → A) (capacity : ℕ) where
  -- What a call does to a list of at most `capacity` items: the new list, what is supplied, and the
  -- effect.
  unfoldable pub answer : List (Option A) → Call A → List (Option A) × List (Option A) × Effect A
  answer xs (receive item) =
      if length xs == capacity
      then (xs, [], destroys item)
      else (xs ++ some (item_clean item) ∷ [], [], nothing)
  answer [] supply = ([], some item_ctor ∷ [], makes)
  answer (x ∷ xs) supply = (xs, x ∷ [], nothing)

  unfoldable pub answers :
      List (Option A) → List (Call A) → List (Option A) × List (Option A) × List (Effect A)
  answers xs [] = (xs, [], [])
  answers xs (c ∷ calls) =
      let (ys, supplied, e) = answer xs c in
      let (zs, rest, effects) = answers ys calls in (zs, supplied ++ rest, e ∷ effects)

module _ {A : Type 0} (item_ctor : A) (item_clean : A → A) where
  serve-answer :
      (p : Puffer A) (c : Call A)
      → IsValid p
      → (p' : Puffer A) × (serve item_ctor item_clean p c
          ≡ some (
            p',
            (answer item_ctor item_clean p.abs_length (contents p) c).1,
            (answer item_ctor item_clean p.abs_length (contents p) c).2,
          ))
        × IsValid p'
        × (p'.abs_length ≡ p.abs_length)
        × (contents p' ≡ (answer item_ctor item_clean p.abs_length (contents p) c).0)
  unfolding serve process_receiver process_supplier datapuffer_isfull datapuffer_isempty answer
  serve-answer p (receive item) v = elim (dec_lt p.count p.abs_length) [
    | yes room ↦
        let (q, done, u, cap, n, c) = write-fits p (some (item_clean item)) v room in
        let free : (p.count == p.abs_length) ≡ false = ground arith in
        rw (length-contents p, free) (q, rw done, u, cap, c)
    | no full ↦
        let at_most = v.count_in in
        let is_full : (p.count == p.abs_length) ≡ true = ground (arith, at_most) in
        rw (length-contents p, is_full) (p, refl, v, refl, refl)
  ]
  serve-answer p supply v = elim (ℕ_discrete p.count 0) [
    | yes none_in ↦
        let empty : (p.count == 0) ≡ true = ground (arith, none_in) in
        let no_items = length_zero (contents p) (length-contents p ∙ none_in) in
        rw no_items (p, rw empty, v, refl, no_items)
    | no some_in ↦
        let not_empty : (p.count == 0) ≡ false = ground (arith, some_in) in
        let (q, x, got, u, cap, n, c) = read-some p v (omega (arith, some_in)) in
        rw c (q, rw (not_empty, got), u, cap, refl)
  ]

  -- From any valid state, no sequence of calls of the receiver and the supplier faults, and they do
  -- with the puffer's items what the calls do with a list that holds as many items as the puffer may:
  -- a received item is cleaned and comes last, or is destroyed if the list is full; what is supplied
  -- is the first item, which leaves, or a new one if the list is empty. The supplied items, the
  -- effects and the items that are left are those of the list.
  pub serve_all_refines :
      (calls : List (Call A)) (p : Puffer A)
      → IsValid p
      → (p' : Puffer A) × (serve_all item_ctor item_clean p calls
          ≡ some (
            p',
            (answers item_ctor item_clean p.abs_length (contents p) calls).1,
            (answers item_ctor item_clean p.abs_length (contents p) calls).2,
          ))
        × IsValid p'
        × (p'.abs_length ≡ p.abs_length)
        × (contents p' ≡ (answers item_ctor item_clean p.abs_length (contents p) calls).0)
  unfolding serve_all answers
  serve_all_refines [] p v = (p, refl, v, refl, refl)
  serve_all_refines (c ∷ calls) p v =
      let (q, ran, u, cap, now) = serve-answer p c v in
      let (p', done, v', cap', left) = serve_all_refines calls q u in
      (p', rw (ran, done, cap, now), v', cap' ∙ cap, left ∙ rw (cap, now))
