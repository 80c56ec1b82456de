-- ===== src/MinMax/Tracking.antt =====
-- The plugin keeps the minimum and the maximum of the items in the window, whatever comes and goes.
use devclego.Prelude.{
  Bool, Bool-cases, List, Option, [], ap, arith, if◌then◌else◌, inl, inr, leb, leb→le, length,
  length-append, refl, sign, some, sym, word, ℕ, ◌++◌, ◌+◌, ◌<◌, ◌∙◌, ◌∷◌, ◌≡◌, ◌≤◌, ◌⊎◌,
}
use devclego.Store.{Ptr, null}
use devclego.BinTree.{BinTree, cells, make_bintree}
use devclego.BinTree.Remove.{get_top_data, get_bottom_data}
use devclego.BinTree.Inv.{Entry, entries, length-entries, key, Below, Above, IsMemory, IsTree}
use devclego.BinTree.Extremes.{get_top_data-greatest, get_bottom_data-least}
use devclego.BinTree.Enter.{IsFresh}
use devclego.BinTree.Refine.{insert_data-refines, delete_value-refines}
use devclego.BinTree.Making.{make_bintree-IsTree}
use devclego.MinMax.{Stat, MinMax, report, minmax_add_pipe, minmax_rem_pipe, minmaxpriv_ctor}
use devclego.MinMax.Totals.{
  tally, total, weight, Positive, tally-append, total-Above, total-Below, total-append,
  length-weight, Positive-last, total-enter, weight-enter, Positive-enter, total-release,
  weight-release, Positive-release,
}

length_zero : (ws : List Ptr) → length ws ≡ 0 → ws ≡ []
length_zero [] e = refl
length_zero (x ∷ ws) e = absurd (omega (arith, e))

module _ (memory : ℕ → ℕ) where
  -- The tree holds the items `ws`, as often as they are there.
  pub record IsTracking (p : MinMax) (spares ws : List Ptr) : Type 0 where
    pub whole : IsTree memory p.tree spares
    pub positive : Positive (entries (cells p.tree.root))
    pub tallied : (k : ℕ) → total memory k (entries (cells p.tree.root)) ≡ tally memory k ws
    pub weighed : weight (entries (cells p.tree.root)) ≡ length ws

  -- An item of the window that none is less than, or NULL for the empty window.
  unfoldable pub IsLeast : Ptr → List Ptr → Type 0
  IsLeast x ws =
      ((ws ≡ []) × (x ≡ null))
      ⊎ ((0 < tally memory (key memory x) ws)
          × ((k : ℕ) → 0 < tally memory k ws → key memory x ≤ k))

  unfoldable pub IsGreatest : Ptr → List Ptr → Type 0
  IsGreatest x ws =
      ((ws ≡ []) × (x ≡ null))
      ⊎ ((0 < tally memory (key memory x) ws)
          × ((k : ℕ) → 0 < tally memory k ws → k ≤ key memory x))

  total-first :
      (e : Entry) (es : List Entry) (k : ℕ)
      → Above memory (key memory e.item) es
      → 0 < total memory k (e ∷ es)
      → key memory e.item ≤ k
  unfolding total
  total-first e es k a some_there = elim (Bool-cases (leb (key memory e.item) k)) [
    | inl le ↦ leb→le _ _ le
    | inr gt ↦
        let lt : k < key memory e.item = ground (arith, gt) in
        let nowhere = total-Above memory (key memory e.item) k es a (omega (arith, lt)) in
        absurd (ground (arith, lt, nowhere, some_there))
  ]

  total-last :
      (es : List Entry) (e : Entry) (k : ℕ)
      → Below memory (key memory e.item) es
      → 0 < total memory k (es ++ e ∷ [])
      → k ≤ key memory e.item
  unfolding total
  total-last es e k b some_there = elim (Bool-cases (leb k (key memory e.item))) [
    | inl le ↦ leb→le _ _ le
    | inr gt ↦
        let lt : key memory e.item < k = ground (arith, gt) in
        let nowhere = total-Below memory (key memory e.item) k es b (omega (arith, lt)) in
        absurd (ground (arith, lt, nowhere, some_there, total-append memory k es (e ∷ [])))
  ]

  total_self :
      (es : List Entry) (e : Entry) (ys : List Entry)
      → 0 < e.ref
      → 0 < total memory (key memory e.item) (es ++ e ∷ ys)
  unfolding total
  total_self es e ys one = ground (arith, total-append memory (key memory e.item) es (e ∷ ys))

  least_lem :
      (p : MinMax) (spares ws : List Ptr)
      → IsTracking p spares ws
      → (x : Ptr) × (get_bottom_data p.tree ≡ some x) × IsLeast x ws
  unfolding IsLeast Positive weight total
  least_lem p spares ws t = elim (get_bottom_data-least memory t.whole) [
    | inl (none_there, e) ↦
        (null, e, inl (length_zero ws (sym t.weighed ∙ ap weight none_there), refl))
    | inr (e, es, split, got, a) ↦
        let one : 0 < e.ref = (rw split at t.positive).0 in
        (
          e.item,
          got,
          inr (
            omega (
              arith,
              total_self [] e es one,
              t.tallied (key memory e.item),
              ap (total memory (key memory e.item)) split,
            ),
            λ k h. total-first e es k a (omega (arith, h, t.tallied k, ap (total memory k) split)),
          ),
        )
  ]

  greatest_lem :
      (p : MinMax) (spares ws : List Ptr)
      → IsTracking p spares ws
      → (x : Ptr) × (get_top_data p.tree ≡ some x) × IsGreatest x ws
  unfolding IsGreatest weight
  greatest_lem p spares ws t = elim (get_top_data-greatest memory t.whole) [
    | inl (none_there, e) ↦
        (null, e, inl (length_zero ws (sym t.weighed ∙ ap weight none_there), refl))
    | inr (es, e, split, got, b) ↦
        let one : 0 < e.ref = Positive-last es e (rw split at t.positive) in
        (
          e.item,
          got,
          inr (
            omega (
              arith,
              total_self es e [] one,
              t.tallied (key memory e.item),
              ap (total memory (key memory e.item)) split,
            ),
            λ k h. total-last es e k b (omega (arith, h, t.tallied k, ap (total memory k) split)),
          ),
        )
  ]

  -- What a call leaves: the tree of the items, and the two numbers of them.
  unfoldable pub Reported : MinMax → Option MinMax → List Ptr → Type 0
  Reported old result ws =
      (p : MinMax) × (spares : List Ptr) × (result ≡ some p)
      × IsTracking p spares ws
      × IsLeast p.stat.minimum ws
      × IsGreatest p.stat.maximum ws
      × (p.has_pipe ≡ old.has_pipe)
      × (p.reports ≡ (if old.has_pipe then old.reports ++ p.stat ∷ [] else old.reports))

  report_lem :
      (old : MinMax) (tree' : BinTree) (spares ws : List Ptr)
      → IsTracking (record old { tree = tree' }) spares ws
      → Reported old (report (record old { tree = tree' })) ws
  unfolding report Reported
  report_lem old tree' spares ws t =
      let p : MinMax = record old { tree = tree' } in
      let (low, el, least) = least_lem p spares ws t in
      let (high, eh, greatest) = greatest_lem p spares ws t in
      let stat : Stat = record { minimum = low; maximum = high } in
      (
        record p {
          stat = stat;
          reports = if p.has_pipe then p.reports ++ stat ∷ [] else p.reports;
        },
        spares,
        rw (el, eh) refl,
        record { whole = t.whole; positive = t.positive; tallied = t.tallied; weighed = t.weighed },
        least,
        greatest,
        refl,
        refl,
      )

  pub minmaxpriv_ctor-IsTracking :
      (junk : Option Ptr) (has_pipe : Bool) → IsTracking (minmaxpriv_ctor junk has_pipe) [] []
  unfolding minmaxpriv_ctor make_bintree cells entries total tally weight Positive
  minmaxpriv_ctor-IsTracking junk has_pipe = record {
    whole = make_bintree-IsTree memory junk;
    positive = tt;
    tallied = λ k. refl;
    weighed = refl;
  }

  -- When an item comes into a window of less than 2^31 - 1 items, and an allocation gives an address
  -- that is in no use, the plugin's minimum and maximum become those of the window with it. If the
  -- user gave a pipe, it is called once, with these two, and not at all if not.
  pub minmax_add_pipe-reports :
      IsMemory memory
      → (fresh : Ptr) (p : MinMax) (spares ws : List Ptr) (item : Ptr) → IsTracking p spares ws
      → IsFresh p.tree spares fresh
      → length ws + 1 < sign
      → Reported p (minmax_add_pipe memory fresh p item) (ws ++ item ∷ [])
  unfolding minmax_add_pipe tally
  minmax_add_pipe-reports m fresh p spares ws item t f small =
      let es = entries (cells p.tree.root) in
      let new : Entry = record { item = item; ref = 1 } in
      let fits : weight es + new.ref < word = omega (arith, t.weighed, small) in
      let (tree', spares', run, whole, stands) =
        insert_data-refines memory m fresh p.tree spares item t.whole f (
          omega (
            arith,
            small,
            t.weighed,
            length-weight es t.positive,
            length-entries (cells p.tree.root),
          )) in
      let after : IsTracking (record p { tree = tree' }) spares' (ws ++ item ∷ []) = record {
        whole = whole;
        positive = rw stands (Positive-enter memory new es fits (omega arith) t.positive);
        tallied = λ k. omega (
          arith,
          ap (total memory k) stands,
          total-enter memory new k es fits,
          t.tallied k,
          tally-append memory k ws (item ∷ []),
        );
        weighed = omega (
          arith,
          ap weight stands,
          weight-enter memory new es fits,
          t.weighed,
          length-append ws (item ∷ []),
        );
      } in
      rw run (report_lem p tree' spares' (ws ++ item ∷ []) after)

  -- When the oldest item leaves a window of less than 2^31 items, with fuel for the items, the
  -- plugin's minimum and maximum become those of the items that stay. If the user gave a pipe, it is
  -- called once, with these two, and not at all if not.
  pub minmax_rem_pipe-reports :
      IsMemory memory
      → (fuel : ℕ) (p : MinMax) (spares ws : List Ptr) (item : Ptr)
      → IsTracking p spares (item ∷ ws)
      → length ws + 1 < sign
      → length ws + 1 ≤ fuel
      → Reported p (minmax_rem_pipe memory fuel p item) ws
  unfolding minmax_rem_pipe tally
  minmax_rem_pipe-reports m fuel p spares ws item t small enough =
      let es = entries (cells p.tree.root) in
      let k = key memory item in
      let light : weight es < sign = omega (arith, t.weighed, small) in
      let there : 0 < total memory k es = ground (arith, t.tallied k) in
      let (tree', spares', run, whole, stands) =
        delete_value-refines memory m fuel p.tree spares item t.whole (
          omega (
            arith,
            enough,
            t.weighed,
            length-weight es t.positive,
            length-entries (cells p.tree.root),
          )) in
      let after : IsTracking (record p { tree = tree' }) spares' ws = record {
        whole = whole;
        positive = rw stands (Positive-release memory k es t.positive light);
        tallied = λ j. omega (
          arith,
          ap (total memory j) stands,
          total-release memory k j es t.positive light there,
          t.tallied j,
        );
        weighed =
            omega (
              arith,
              ap weight stands,
              weight-release memory k es t.positive light there,
              t.weighed,
            );
      } in
      rw run (report_lem p tree' spares' ws after)
