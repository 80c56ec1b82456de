-- ===== src/SlidingWindow/Tests.antt =====
-- The theorems on the sliding window at concrete windows.
use devclego.Prelude.{
  List, Option, [], arith, none, refl, some, true, word, ℕ, ◌%◌, ◌*◌, ◌++◌, ◌<◌, ◌∷◌, ◌≡◌,
}
use devclego.Puffer.Inv.{contents}
use devclego.Puffer.Window.{window, next}
use devclego.Puffer.{
  datapuffer_isfull, datapuffer_ctor, datapuffer_isempty, datapuffer_write, datapuffer_read,
}
use devclego.SlidingWindow.{
  rem_pipes, Item, Plugin, Storage, Window, memory_of, add_pipes, window_ctor, window_clear,
  window_add_data,
}
use devclego.SlidingWindow.Inv.{IsWindow, IsSame}
use devclego.SlidingWindow.Heard.{told, call_each, add_listeners}
use devclego.SlidingWindow.Storing.{IsStorage, stored, place}
use devclego.SlidingWindow.Leaving.{excess, within, window_clear_lem}
use devclego.SlidingWindow.AddData.{old_ones, young_ones, window_add_data_lem}
use devclego.SlidingWindow.Summer.{Summer, summer_ctor, make_summer, total, add_all, summer_lem}

-- the `n`-th reading of the clock is `10 n`, and the number at address `a` is `a`
abbrev clock : ℕ → ℕ
clock n = 10 * n

abbrev heap : ℕ → ℕ
heap a = a % word

heap_bounded : (a : ℕ) → heap a < word
heap_bounded a = omega arith

-- room for two items, with the sum
abbrev two_wide : Window Summer
two_wide = record (window_ctor none 2 0 none) { plugins = make_summer ∷ [] }

-- of 3, 4 and 5 the window keeps the last two
abbrev sum_of : Option (Window Summer × Summer) → ℕ
sum_of none = 0
sum_of (some (v, s)) = s.sum

kept_two : sum_of (add_all clock heap 9 two_wide (summer_ctor true) (3 ∷ 4 ∷ 5 ∷ [])) ≡ 9
unfolding add_all window_add_data window_ctor summer_ctor make_summer datapuffer_isfull
    datapuffer_ctor datapuffer_isempty datapuffer_write datapuffer_read add_pipes rem_pipes
kept_two = refl

-- a full window
abbrev older : Item
older = record { datum = 3; pushed = 0 }

abbrev newer : Item
newer = record { datum = 4; pushed = 10 }

abbrev full_window : Window Summer
full_window = record {
  tracked = record {
    items = some older ∷ some newer ∷ [];
    abs_length = 2;
    start = 0;
    end = 0;
    count = 2;
    read = none;
  };
  recycle = record {
    items = none ∷ none ∷ [];
    abs_length = 2;
    start = 0;
    end = 0;
    count = 0;
    read = none;
  };
  plugins = make_summer ∷ [];
  storage = none;
  time_limit = 0;
  ticks = 2;
}

full_window-IsWindow : IsWindow full_window (older ∷ newer ∷ [])
unfolding contents window next
full_window-IsWindow = record {
  ring = record {
    storage = refl;
    positive = omega arith;
    small = omega arith;
    start_in = omega arith;
    count_in = omega arith;
    end_at = record { inside = omega arith; distance = omega arith };
  };
  vacant = λ i h out. ground arith;
  holds = refl;
  spare_ring = record {
    storage = refl;
    positive = omega arith;
    small = omega arith;
    start_in = omega arith;
    count_in = omega arith;
    end_at = record { inside = omega arith; distance = omega arith };
  };
  spares = [];
  spare_holds = refl;
}

abbrev seven : Summer
seven = record { sum = 7; has_pipe = true; reports = [] }

-- a plugin without pipes, and the sum behind it
abbrev both_plugins : List (Plugin Summer)
both_plugins = record { rem_pipe = none; add_pipe = none } ∷ make_summer ∷ []

-- the storage has three cells, of which the last is the next
abbrev cells : Storage
cells = record { cells = 1 ∷ 2 ∷ 3 ∷ []; index = 2; length = 3 }

abbrev stored_window : Window Summer
stored_window = record full_window { plugins = both_plugins; storage = some cells }

stored_window-IsWindow : IsWindow stored_window (older ∷ newer ∷ [])
stored_window-IsWindow = record {
  ring = full_window-IsWindow.ring;
  vacant = full_window-IsWindow.vacant;
  holds = full_window-IsWindow.holds;
  spare_ring = full_window-IsWindow.spare_ring;
  spares = full_window-IsWindow.spares;
  spare_holds = full_window-IsWindow.spare_holds;
}

cells-IsStorage : IsStorage (some cells)
unfolding IsStorage
cells-IsStorage = (omega arith, refl, omega arith)

window_clear_lem_example :
    (v' : Window Summer) × (window_clear clock heap 9 stored_window seven
      ≡ some (v', told both_plugins (memory_of heap (some cells)) seven (older ∷ newer ∷ [])))
    × IsWindow v' []
    × IsSame stored_window v'
window_clear_lem_example =
    window_clear_lem clock heap (older ∷ newer ∷ []) 9 stored_window seven stored_window-IsWindow
      (omega arith)

window_add_data_lem_example :
    (v' : Window Summer) × (window_add_data clock heap 9 stored_window seven 7
      ≡ some (
        v',
        call_each
            (add_listeners both_plugins)
            (memory_of heap (stored heap (some cells) 7))
            (told both_plugins (memory_of heap (some cells)) seven (
              old_ones clock 0 2 (older ∷ newer ∷ [])
              ++ excess 2 (young_ones clock 0 2 (older ∷ newer ∷ []))))
            2,
      ))
    × IsWindow v' (
        within 2 (young_ones clock 0 2 (older ∷ newer ∷ []))
        ++ record { datum = 2; pushed = 20 } ∷ [])
    × (v'.plugins ≡ both_plugins)
    × (v'.storage ≡ stored heap (some cells) 7)
    × IsStorage v'.storage
    × (v'.tracked.abs_length ≡ 2)
unfolding place
window_add_data_lem_example =
    window_add_data_lem clock heap (older ∷ newer ∷ []) 9 stored_window seven 7
      stored_window-IsWindow (omega arith) cells-IsStorage

summer_lem_example :
    (v' : Window Summer) × (s' : Summer) × (items' : List Item) × (add_all clock heap 9 full_window
        seven
        (5 ∷ 6 ∷ 7 ∷ [])
      ≡ some (v', s'))
    × IsWindow v' items'
    × (s'.sum ≡ total heap items' % word)
unfolding total
summer_lem_example =
    summer_lem clock heap heap_bounded (5 ∷ 6 ∷ 7 ∷ []) 9 full_window seven (older ∷ newer ∷ [])
      refl refl full_window-IsWindow (omega arith) refl
