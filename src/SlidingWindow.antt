-- ===== src/SlidingWindow.antt =====
-- lib/lib_puffers.c, the sliding window: the items of a puffer with the time when they came, which
-- leave when they are too old or too many, and the plugins that are told of every item that comes
-- and goes. An item is the contents of a `slidingwindowitem_t`; the puffers hold the only pointer
-- to it, and its allocation is taken to succeed. The data are addresses of `int32_t` numbers, of the storage if the window has one.
-- `clock n` is what the `n`-th reading of the time gives, in milliseconds.
pub mod Heard
pub mod Inv
pub mod Refresh
pub mod Leaving
pub mod Storing
pub mod AddData
pub mod Summer
mod Tests
use devclego.Prelude.{
  Bool, List, Option, [], add32, get_elem?, get_or, if◌then◌else◌, lt_signed, ltb, none, set, some,
  suc, zero, ℕ, ◌++◌, ◌+◌, ◌==◌, ◌∷◌, ◌>>=◌, ◌>>◌,
}
use devclego.Puffer.{
  Puffer, datapuffer_ctor, datapuffer_write, datapuffer_read, datapuffer_peek_first,
  datapuffer_isfull, datapuffer_isempty,
}

-- `slidingwindowitem_t`
pub record Item : Type 0 where
  pub datum : ℕ
  pub pushed : ℕ

-- `swstorage_t`, with the numbers that it stores.
pub record Storage : Type 0 where
  pub cells : List ℕ
  pub index : ℕ
  pub length : ℕ

-- The pipes of a `swplugin_t` that are not NULL, on the state `W` that the plugins keep. A pipe
-- reads memory, and gets an address.
pub record Plugin (W : Type 0) : Type 0 where
  pub rem_pipe : Option ((ℕ → ℕ) → W → ℕ → W)
  pub add_pipe : Option ((ℕ → ℕ) → W → ℕ → W)

-- `slidingwindow_t`; `time_limit` in whole milliseconds. `ticks` counts the readings of the clock.
pub record Window (W : Type 0) : Type 0 where
  pub recycle : Puffer Item
  pub tracked : Puffer Item
  pub plugins : List (Plugin W)
  pub storage : Option Storage
  pub time_limit : ℕ
  pub ticks : ℕ

-- `make_swstorage_int32`; `malloc` gives the block.
unfoldable pub make_storage : (malloc : ℕ → List ℕ) → ℕ → Storage
make_storage malloc num_limit = record {
  cells = malloc (add32 num_limit 1);
  index = 0;
  length = add32 num_limit 1;
}

-- `_swstorage_store_int32`: the address that it returns is the index of the cell.
unfoldable pub storage_store : Storage → ℕ → Option (Storage × ℕ)
storage_store s value = do
  _ ← get_elem? s.cells s.index
  let next = add32 s.index 1 in
      some (
        record s {
          cells = set s.cells s.index value;
          index = if next == s.length then 0 else next;
        },
        s.index,
      )

-- The calls of the pipes, in the order of the plugins.
unfoldable pub rem_pipes : {W : Type 0} → List (Plugin W) → (ℕ → ℕ) → W → ℕ → W
rem_pipes [] memory w datum = w
rem_pipes (q ∷ plugins) memory w datum =
    rem_pipes plugins memory (elim q.rem_pipe [ none ↦ w | some f ↦ f memory w datum ]) datum

unfoldable pub add_pipes : {W : Type 0} → List (Plugin W) → (ℕ → ℕ) → W → ℕ → W
add_pipes [] memory w datum = w
add_pipes (q ∷ plugins) memory w datum =
    add_pipes plugins memory (elim q.add_pipe [ none ↦ w | some f ↦ f memory w datum ]) datum

-- What the pipes read: the storage, or the user's memory.
unfoldable pub memory_of : (heap : ℕ → ℕ) → Option Storage → ℕ → ℕ
memory_of heap none address = heap address
memory_of heap (some s) address = get_or s.cells address 0

-- The address that the window keeps: the given one, or that of the copy.
unfoldable pub keep : (heap : ℕ → ℕ) → Option Storage → ℕ → Option (Option Storage × ℕ)
keep heap none source = some (none, source)
keep heap (some s) source = do
  (s', address) ← storage_store s (heap source)
  some (some s', address)

abbrev pub default_num_limit : ℕ
default_num_limit = 32

module _ {W : Type 0} where
  -- `junk` stands for the fields that the two puffers do not set.
  unfoldable pub window_ctor :
      (junk : Option Item)
      → (num_limit time_limit : ℕ) → (storage_maker : Option (ℕ → Storage)) → Window W
  window_ctor junk num_limit time_limit storage_maker =
      let limit : ℕ = if num_limit == 0 then default_num_limit else num_limit in
      record {
        tracked = datapuffer_ctor junk limit;
        recycle = datapuffer_ctor junk (if lt_signed 1024 limit then 1024 else limit);
        plugins = [];
        storage = elim storage_maker [ none ↦ none | some make ↦ some (make limit) ];
        time_limit = time_limit;
        ticks = 0;
      }

  -- `slidingwindow_add_plugin`: the list grows at its end.
  unfoldable pub add_plugin : Window W → Plugin W → Window W
  add_plugin v q = record v { plugins = v.plugins ++ q ∷ [] }

  unfoldable pub window_is_empty : Window W → Bool
  window_is_empty v = datapuffer_isempty v.tracked

  -- The item that `slidingwindow_add_data` fills: its old contents are zeroed.
  unfoldable pub take_item : Window W → Option (Window W × Item)
  take_item v =
      if datapuffer_isempty v.recycle then some (v, record { datum = 0; pushed = 0 }) else (do
        (recycle', read) ← datapuffer_read v.recycle
        _ ← read
        some (record v { recycle = recycle' }, record { datum = 0; pushed = 0 }))

  module _ (clock heap : ℕ → ℕ) where
    -- `_slidingwindow_rem`: a NULL item is a fault. An item that is not kept is freed.
    unfoldable pub window_rem : Window W → W → Option (Window W × W)
    unfolding memory_of
    window_rem v w = do
      (tracked', read) ← datapuffer_read v.tracked
      item ← read
      let w' : W = rem_pipes v.plugins (memory_of heap v.storage) w item.datum in
          if datapuffer_isfull v.recycle then some (record v { tracked = tracked' }, w') else (do
            recycle' ← datapuffer_write v.recycle (some (record item { datum = 0 }))
            some (record v { tracked = tracked'; recycle = recycle' }, w'))

    -- The loops run on fuel.
    unfoldable pub window_clear : (fuel : ℕ) → Window W → W → Option (Window W × W)
    unfolding window_rem
    window_clear zero v w = none
    window_clear (suc fuel) v w =
        let round : Option (Window W × W) = do (v', w') ← window_rem v w; window_clear fuel v' w'
        in if datapuffer_isempty v.tracked then some (v, w) else round

    unfoldable pub num_loop : (fuel : ℕ) → Window W → W → Option (Window W × W)
    unfolding window_rem
    num_loop zero v w = none
    num_loop (suc fuel) v w =
        let round : Option (Window W × W) = do (v', w') ← window_rem v w; num_loop fuel v' w'
        in if datapuffer_isfull v.tracked then round else some (v, w)

    -- The clock is read for an item only; `diffmtime_fromnow(..) < time_limit` is the test.
    unfoldable pub time_loop : (fuel : ℕ) → Window W → W → Option (Window W × W)
    unfolding window_rem
    time_loop zero v w = none
    time_loop (suc fuel) v w = do
      first ← datapuffer_peek_first v.tracked
      let v₁ : Window W = record v { ticks = v.ticks + 1 } in
          let round : Option (Window W × W) = do (v', w') ← window_rem v₁ w; time_loop fuel v' w'
          in elim first [
            | none ↦ some (v, w)
            | some item ↦
                if ltb (clock v.ticks) (item.pushed + v.time_limit) then some (v₁, w) else round
          ]

    -- `slidingwindow_refresh`
    unfoldable pub window_refresh : (fuel : ℕ) → Window W → W → Option (Window W × W)
    unfolding num_loop time_loop
    window_refresh fuel v w = do
      (v', w') ← if v.time_limit == 0 then some (v, w) else time_loop fuel v w
      num_loop fuel v' w'

    unfoldable pub window_add_data : (fuel : ℕ) → Window W → W → ℕ → Option (Window W × W)
    unfolding window_refresh take_item keep memory_of
    window_add_data fuel v w source = do
      (v₁, w₁) ← window_refresh fuel v w
      (v₂, item) ← take_item v₁
      (storage', datum) ← keep heap v₂.storage source
      tracked' ←
          datapuffer_write v₂.tracked
            (some (record item { datum = datum; pushed = clock v₂.ticks }))
      some (
        record v₂ { tracked = tracked'; storage = storage'; ticks = v₂.ticks + 1 },
        add_pipes v₂.plugins (memory_of heap storage') w₁ datum,
      )
