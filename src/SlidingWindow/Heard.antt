-- ===== src/SlidingWindow/Heard.antt =====
-- What the plugins of a sliding window hear, as calls of a list of functions: those of the plugins
-- that have the pipe. A plugin without it is passed by.
use devclego.Prelude.{List, Option, [], map, none, refl, some, ℕ, ◌∙◌, ◌∷◌, ◌≡◌}
use devclego.SlidingWindow.{Plugin, rem_pipes, add_pipes, Item}

-- Those that are not NULL.
unfoldable pub present : {A : Type 0} → List (Option A) → List A
present [] = []
present (none ∷ os) = present os
present (some a ∷ os) = a ∷ present os

-- The functions, called one by one in their order.
unfoldable pub call_each : {W : Type 0} → List ((ℕ → ℕ) → W → ℕ → W) → (ℕ → ℕ) → W → ℕ → W
call_each [] memory w datum = w
call_each (f ∷ fs) memory w datum = call_each fs memory (f memory w datum) datum

module _ {W : Type 0} where
  abbrev pub rem_listeners : List (Plugin W) → List ((ℕ → ℕ) → W → ℕ → W)
  rem_listeners plugins = present (map (λ (q : Plugin W). q.rem_pipe) plugins)

  abbrev pub add_listeners : List (Plugin W) → List ((ℕ → ℕ) → W → ℕ → W)
  add_listeners plugins = present (map (λ (q : Plugin W). q.add_pipe) plugins)

  -- The plugins' state after they were told that these items leave, one by one.
  unfoldable pub told : List (Plugin W) → (ℕ → ℕ) → W → List Item → W
  told plugins memory w [] = w
  told plugins memory w (item ∷ items) =
      told plugins memory (call_each (rem_listeners plugins) memory w item.datum) items

  call_each-present :
      (o : Option ((ℕ → ℕ) → W → ℕ → W)) (os : List (Option ((ℕ → ℕ) → W → ℕ → W))) (memory : ℕ → ℕ)
      (w : W) (datum : ℕ)
      → call_each (present os) memory (elim o [ none ↦ w | some f ↦ f memory w datum ]) datum
        ≡ call_each (present (o ∷ os)) memory w datum
  unfolding call_each present
  call_each-present none os memory w datum = refl
  call_each-present (some f) os memory w datum = refl

  pub rem_pipes_lem :
      (plugins : List (Plugin W)) (memory : ℕ → ℕ) (w : W) (datum : ℕ)
      → rem_pipes plugins memory w datum ≡ call_each (rem_listeners plugins) memory w datum
  unfolding rem_pipes call_each present
  rem_pipes_lem [] memory w datum = refl
  rem_pipes_lem (q ∷ plugins) memory w datum =
      rem_pipes_lem plugins memory (elim q.rem_pipe [ none ↦ w | some f ↦ f memory w datum ]) datum
      ∙ call_each-present q.rem_pipe (map (λ (p : Plugin W). p.rem_pipe) plugins) memory w datum

  pub add_pipes_lem :
      (plugins : List (Plugin W)) (memory : ℕ → ℕ) (w : W) (datum : ℕ)
      → add_pipes plugins memory w datum ≡ call_each (add_listeners plugins) memory w datum
  unfolding add_pipes call_each present
  add_pipes_lem [] memory w datum = refl
  add_pipes_lem (q ∷ plugins) memory w datum =
      add_pipes_lem plugins memory (elim q.add_pipe [ none ↦ w | some f ↦ f memory w datum ]) datum
      ∙ call_each-present q.add_pipe (map (λ (p : Plugin W). p.add_pipe) plugins) memory w datum
