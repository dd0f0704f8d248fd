-- ===== src/AgentLink/LogRouter/Runs.antt =====
-- Two subscriptions, one of which ends.
use birdman.Base.{List, String, [], false, refl, ℕ, ◌∷◌, ◌≡◌}
use birdman.AgentLink.LogRouter.{cancel, dispatch}

abbrev subs : List (String × List ℕ)
subs = ("c1", []) ∷ ("c2", 7 ∷ []) ∷ []

ends : dispatch "c1" 5 (cancel false "c1" subs) ≡ ("c2", 7 ∷ []) ∷ []
unfolding dispatch cancel
ends = refl
