-- ===== src/Puffer/Policies.antt =====
-- The ways in which the program's macros use a puffer: `GEN_PUFF_RECV_PROC_WINE`,
-- `GEN_PUFF_RECV_PROC_MILK`, `GEN_PUFF_SUPL_PROC` and `GEN_PUFF_CLEAR_PROC` of lib/lib_puffers.h.
-- Each call returns the new state and the items that it hands to the destructor.
use devclego.Prelude.{
  Bool, List, Option, [], if◌then◌else◌, none, some, suc, zero, ℕ, ◌++◌, ◌∷◌, ◌>>=◌,
}
use devclego.Puffer.{
  Puffer, datapuffer_write, datapuffer_read, datapuffer_isfull, datapuffer_isempty,
  datapuffer_clear, datapuffer_dtor,
}

module _ {ℓ} {A : Type ℓ} where
  -- The older the better: a full puffer drops the new item. The write behind the macro is the
  -- user's.
  unfoldable pub recv_wine : Puffer A → Option A → Option (Puffer A × List (Option A))
  recv_wine p x =
      if datapuffer_isfull p then some (p, x ∷ []) else do p' ← datapuffer_write p x; some (p', [])

  -- The fresher the better: a full puffer drops its oldest item.
  unfoldable pub recv_milk : Puffer A → Option A → Option (Puffer A × List (Option A))
  recv_milk p x =
      if datapuffer_isfull p
      then (do (p', old) ← datapuffer_read p; p'' ← datapuffer_write p' x; some (p'', old ∷ []))
      else do p' ← datapuffer_write p x; some (p', [])

  -- `none` in the result is the early `return` of an empty puffer.
  unfoldable pub supply : Puffer A → Option (Puffer A × Option (Option A))
  supply p =
      if datapuffer_isempty p
      then some (p, none)
      else do (p', item) ← datapuffer_read p; some (p', some item)

  -- `while(not empty)`, on fuel; the fault stands for fuel that ran out, too.
  unfoldable pub clear_while :
      (fuel : ℕ) → Puffer A → List (Option A) → Option (Puffer A × List (Option A))
  clear_while zero p calls = none
  clear_while (suc fuel) p calls =
      let round : Option (Puffer A × List (Option A)) = do
        (p', item) ← datapuffer_read p
        clear_while fuel p' (calls ++ item ∷ [])
      in if datapuffer_isempty p then some (p, calls) else round

  -- A stream of items received under the second policy, with all that is dropped.
  unfoldable pub recv_all_milk :
      Puffer A → List (Option A) → List (Option A) → Option (Puffer A × List (Option A))
  recv_all_milk p [] dropped = some (p, dropped)
  recv_all_milk p (x ∷ xs) dropped = do
    (p', old) ← recv_milk p x
    recv_all_milk p' xs (dropped ++ old)

  -- `datapuffer_clear` and `datapuffer_dtor` in a row: the calls of the destructor, and what is
  -- freed besides.
  unfoldable pub release : Bool → Puffer A → Option (List (Option A) × List A)
  release has_dtor p = do
    (p', calls) ← datapuffer_clear has_dtor p
    freed ← datapuffer_dtor (some p')
    some (calls, freed)
