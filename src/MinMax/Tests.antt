-- ===== src/MinMax/Tests.antt =====
-- The minimum and the maximum of windows of one item and of none.
use devclego.Prelude.{
  List, Option, [], ap, arith, length, map, none, refl, some, true, word, ℕ, ◌%◌, ◌+◌, ◌<◌, ◌∙◌,
  ◌∷◌, ◌≡◌,
}
use devclego.BinTree.{cells, make_bintree, leaf, node, BinTree}
use devclego.BinTree.Cells.{occurs, addresses, first_address, last_address}
use devclego.BinTree.Inv.{IsMemory, entries, Sorted, Above}
use devclego.BinTree.Enter.{IsFresh}
use devclego.BinTree.Making.{make_bintree-IsTree}
use devclego.MinMax.{MinMax, minmaxpriv_ctor, minmax_add_pipe, minmax_rem_pipe}
use devclego.MinMax.Totals.{tally, total, weight, Positive}
use devclego.Puffer.{datapuffer_ctor}
use devclego.Puffer.Inv.{contents}
use devclego.Store.{Ptr}
use devclego.SlidingWindow.{Item, Window, window_ctor, add_plugin}
use devclego.SlidingWindow.Inv.{IsWindow, window_ctor-IsWindow}
use devclego.MinMax.Plugin.{make_minmax, data_of, IsMalloc}
use devclego.MinMax.InWindow.{come_all, IsServed, minmax_window_lem}
use devclego.MinMax.Reports.{Kept, minmaxpriv_ctor-Kept}
use devclego.MinMax.Tracking.{
  IsTracking, Reported, minmax_add_pipe-reports, minmax_rem_pipe-reports,
}

abbrev own : ℕ → ℕ
own p = p % word

own-IsMemory : IsMemory own
own-IsMemory p = omega arith

abbrev id_clock : ℕ → ℕ
id_clock n = n

abbrev start : MinMax
start = minmaxpriv_ctor none true

abbrev one_item : MinMax
one_item = record start {
  tree = record (start.tree) {
    root = node leaf (record { address = 100; item = 7; ref = 2 }) leaf;
    bottom = 100;
    top = 100;
    node_counter = 1;
    duplicate_counter = 1;
  };
}

one_item-IsTracking : IsTracking own one_item [] (7 ∷ 7 ∷ [])
unfolding minmaxpriv_ctor make_bintree cells entries occurs addresses Sorted Above first_address
    last_address total tally weight Positive
one_item-IsTracking =
    let begin = make_bintree-IsTree own none in
    record {
      whole = record {
        sorted = (tt, tt);
        unique = λ a. ground arith;
        real = refl;
        top_at = refl;
        bottom_at = refl;
        ring = begin.ring;
        spare = begin.spare;
        counted = refl;
        small = omega arith;
      };
      positive = (omega arith, tt);
      tallied = λ k. ground arith;
      weighed = refl;
    }

one_item-IsFresh : IsFresh one_item.tree [] 101
unfolding cells occurs addresses
one_item-IsFresh = record { apart = refl; real = refl }

minmax_add_pipe-reports_example :
    Reported own one_item (minmax_add_pipe own 101 one_item 9) (7 ∷ 7 ∷ 9 ∷ [])
minmax_add_pipe-reports_example =
    minmax_add_pipe-reports own own-IsMemory 101 one_item [] (7 ∷ 7 ∷ []) 9 one_item-IsTracking
      one_item-IsFresh (omega arith)

minmax_rem_pipe-reports_example : Reported own one_item (minmax_rem_pipe own 2 one_item 7) (7 ∷ [])
minmax_rem_pipe-reports_example =
    minmax_rem_pipe-reports own own-IsMemory 2 one_item [] (7 ∷ []) 7 one_item-IsTracking
      (omega arith) (omega arith)

-- An allocation behind all addresses in use.
abbrev sum_of : List Ptr → ℕ
sum_of [] = 0
sum_of (a ∷ bs) = a + sum_of bs

abbrev sum_some : List (Option Ptr) → ℕ
sum_some [] = 0
sum_some (none ∷ bs) = sum_some bs
sum_some (some a ∷ bs) = a + sum_some bs

abbrev next_address : BinTree → Ptr
next_address t = sum_of (addresses (cells t.root)) + sum_some (contents t.recycle) + 1

sum_some_lem : (bs : List Ptr) → sum_some (map some bs) ≡ sum_of bs
sum_some_lem [] = refl
sum_some_lem (a ∷ bs) = omega (arith, sum_some_lem bs)

occurs_behind : (a : Ptr) (bs : List Ptr) → sum_of bs < a → occurs a bs ≡ 0
unfolding occurs
occurs_behind a [] h = refl
occurs_behind a (b ∷ bs) h = ground (arith, occurs_behind a bs (omega (arith, h)))

next_address-IsMalloc : IsMalloc own own-IsMemory next_address 3
unfolding occurs
next_address-IsMalloc t spares w =
    let spare : sum_some (contents t.recycle) ≡ sum_of spares =
      ap sum_some w.spare ∙ sum_some_lem spares in
    let low = occurs_behind (next_address t) (addresses (cells t.root)) (omega arith) in
    let high = occurs_behind (next_address t) spares (omega (arith, spare)) in
    record { apart = omega (arith, low, high); real = ground arith }

abbrev watch : Window (Option MinMax)
watch = add_plugin (window_ctor none 3 0 none) (make_minmax next_address 3)

watch-IsServed :
    IsServed id_clock own own-IsMemory next_address 3 next_address-IsMalloc start 0 watch
      (some start)
      []
unfolding window_ctor add_plugin data_of datapuffer_ctor
watch-IsServed =
    let w = window_ctor-IsWindow {W = Option MinMax} none 3 0 none (omega arith) in
    record {
      plugins = refl;
      storage = refl;
      whole = record {
        ring = w.ring;
        vacant = w.vacant;
        holds = w.holds;
        spare_ring = w.spare_ring;
        spares = w.spares;
        spare_holds = w.spare_holds;
      };
      fits = omega arith;
      kept = minmaxpriv_ctor-Kept own none true;
    }

minmax_window_lem_example :
    (v' : Window (Option MinMax)) × (w' : Option MinMax) × (items' : List Item) × (n' : ℕ)
    × (come_all id_clock own 5 watch (some start) (4 ∷ 9 ∷ 9 ∷ 2 ∷ 7 ∷ []) ≡ some (v', w'))
    × IsWindow v' items'
    × Kept own start n' w' (data_of items')
    × (n' + length items' ≡ 10)
unfolding window_ctor add_plugin datapuffer_ctor
minmax_window_lem_example =
    minmax_window_lem id_clock own own-IsMemory next_address 3 next_address-IsMalloc
      (4 ∷ 9 ∷ 9 ∷ 2 ∷ 7 ∷ []) 5 start 0 watch (some start) [] watch-IsServed (omega arith)
