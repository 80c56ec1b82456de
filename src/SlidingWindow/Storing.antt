-- ===== src/SlidingWindow/Storing.antt =====
-- The storage of a window: `_swstorage_store_int32` goes round over its cells.
use devclego.Prelude.{
  Option, add32, arith, get_elem?-eq-get_or, if◌then◌else◌, length, length-set, none, refl, set,
  some, word, ℕ, ◌+◌, ◌<◌, ◌==◌, ◌∙◌, ◌≡◌,
}
use devclego.SlidingWindow.{Storage, keep, storage_store}

-- The cells are as many as the storage says, and the index is that of one of them.
unfoldable pub IsStorage : Option Storage → Type 0
IsStorage none = Unit
IsStorage (some s) = (s.index < s.length) × (length s.cells ≡ s.length) × (s.length < word)

-- The cell at the index has the new number, and the index is that of the next cell, or 0 behind the
-- last one.
unfoldable pub stored : (heap : ℕ → ℕ) → Option Storage → ℕ → Option Storage
stored heap none source = none
stored heap (some s) source = some (record {
  cells = set s.cells s.index (heap source);
  index = if s.index + 1 == s.length then 0 else s.index + 1;
  length = s.length;
})

-- Where the window finds the new number.
unfoldable pub place : Option Storage → ℕ → ℕ
place none source = source
place (some s) source = s.index

pub keep_lem :
    (heap : ℕ → ℕ) (o : Option Storage) (source : ℕ)
    → IsStorage o
    → keep heap o source ≡ some (stored heap o source, place o source)
unfolding keep storage_store IsStorage stored place
keep_lem heap none source i = refl
keep_lem heap (some s) source (inside, whole, small) =
    let next : add32 s.index 1 ≡ s.index + 1 = omega (arith, inside, small) in
    rw (get_elem?-eq-get_or s.cells s.index 0 (omega (arith, inside, whole)), next)

pub stored-IsStorage :
    (heap : ℕ → ℕ) (o : Option Storage) (source : ℕ)
    → IsStorage o
    → IsStorage (stored heap o source)
unfolding IsStorage stored
stored-IsStorage heap none source i = tt
stored-IsStorage heap (some s) source (inside, whole, small) =
    (ground (arith, inside), length-set s.cells s.index (heap source) ∙ whole, small)
