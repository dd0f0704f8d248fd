-- ===== src/Agent/Link/CmdCache/Runs.antt =====
-- The cache at concrete inputs.
use birdman.Base.{[], arith, false, refl, true, ◌∷◌, ◌≡◌}
use birdman.Agent.Link.CmdCache.{add, add_all, new_cmd_cache}
use birdman.Agent.Link.CmdCache.Window.{add-remembers}

-- With two slots, the third new id evicts the first.
evicted_again : (add (add_all (new_cmd_cache 2) ("a" ∷ "b" ∷ "c" ∷ [])) "a").1 ≡ true
unfolding add_all add new_cmd_cache
evicted_again = refl

add-remembers_example :
    (add (add_all (add (add_all (new_cmd_cache 3) ("x" ∷ [])) "a").0 ("b" ∷ "c" ∷ [])) "a").1
    ≡ false
unfolding add_all add new_cmd_cache
add-remembers_example = add-remembers 2 ("x" ∷ []) ("b" ∷ "c" ∷ []) "a" (λ e. cc) refl (omega arith)
