-- ===== src/RecPuffer.antt =====
-- The puffer component that recycles items, which `CMP_DEF_RECPUFFER` of cmp/cmp_predefs.h makes:
-- its receiver and its supplier, each under a spin lock, and its end. `item_ctor`, `item_clean` and
-- the items are the user's.
pub mod Refine
pub mod End
mod Tests
use devclego.Prelude.{List, Option, [], if◌then◌else◌, some, ℕ, ◌++◌, ◌∷◌, ◌>>=◌, ◌>>◌}
use devclego.Puffer.{
  Puffer, datapuffer_ctor, datapuffer_write, datapuffer_read, datapuffer_isfull, datapuffer_isempty,
  datapuffer_dtor,
}
use devclego.Puffer.Policies.{clear_while}

-- A call of the component: an item is handed over, or asked for.
pub data Call (A : Type 0) : Type 0 where
  receive : A → Call A
  supply : Call A

-- What a call does besides: it destroys this item, makes one, or neither.
pub data Effect (A : Type 0) : Type 0 where
  nothing makes : Effect A
  destroys : A → Effect A

module _ {A : Type 0} (item_ctor : A) (item_clean : A → A) where
  -- A full puffer destroys the item.
  unfoldable pub process_receiver : Puffer A → A → Option (Puffer A × Effect A)
  process_receiver p item =
      if datapuffer_isfull p
      then some (p, destroys item)
      else (do p' ← datapuffer_write p (some (item_clean item)); some (p', nothing))

  -- An empty puffer makes an item; the pointer that is read may be NULL.
  unfoldable pub process_supplier : Puffer A → Option (Puffer A × Option A × Effect A)
  process_supplier p =
      if datapuffer_isempty p
      then some (p, some item_ctor, makes)
      else (do (p', item) ← datapuffer_read p; some (p', item, nothing))

  unfoldable pub component_init : (junk : Option A) → ℕ → Puffer A
  component_init junk puffer_length = datapuffer_ctor junk puffer_length

  -- The items that the destructor gets, and what `datapuffer_dtor` frees besides.
  unfoldable pub component_deinit : (fuel : ℕ) → Puffer A → Option (List (Option A) × List A)
  component_deinit fuel p = do
    (p', destroyed) ← clear_while fuel p []
    freed ← datapuffer_dtor (some p')
    some (destroyed, freed)

  -- One call: the new state, the item that is supplied, if any, and the effect.
  unfoldable pub serve : Puffer A → Call A → Option (Puffer A × List (Option A) × Effect A)
  unfolding process_receiver process_supplier
  serve p (receive item) = do (p', e) ← process_receiver p item; some (p', [], e)
  serve p supply = do (p', item, e) ← process_supplier p; some (p', item ∷ [], e)

  unfoldable pub serve_all :
      Puffer A → List (Call A) → Option (Puffer A × List (Option A) × List (Effect A))
  unfolding serve
  serve_all p [] = some (p, [], [])
  serve_all p (c ∷ calls) = do
    (p₁, supplied, e) ← serve p c
    (p₂, rest, effects) ← serve_all p₁ calls
    some (p₂, supplied ++ rest, e ∷ effects)
