-- ===== src/Agent/Link/Outbox/Runs.antt =====
-- The outbox at concrete inputs.
use birdman.Base.{List, [], false, map, refl, true, ℕ, ◌∷◌, ◌≡◌}
use birdman.Agent.Link.Outbox.{
  Event, Msg, drain_round, len, pop, push, pushed, pushes, round, run, start, step,
}

-- A send that fails leaves its message for the next session.
abbrev broken : List (Event ℕ)
broken = pushed 7 ∷ round [] false ∷ pushed 8 ∷ round (9 ∷ []) true ∷ round [] true ∷ []

broken_sends : map (λ (m : Msg ℕ). m.body) (run start broken).sent ≡ 8 ∷ 7 ∷ []
unfolding run step start drain_round pushes push pop
broken_sends = refl

broken_keeps : len (run start broken).outbox ≡ 1
unfolding run step start drain_round pushes push pop len
broken_keeps = refl
