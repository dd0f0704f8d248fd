-- ===== src/AgentLink/Fleet.antt =====
-- The hub's views over the queues of all nodes (master/internal/agentlink/hub.go).
mod Runs
use birdman.Base.{
  Bool, List, String, [], arith, false, if◌then◌else◌, length, lookup, ltb, nat_eq, none, some,
  string_eq, true, ℕ, ◌+◌, ◌∷◌, ◌≡◌,
}
use birdman.AgentLink.Hub.{NodeQueue}

module _ {ℓ} {M : Type ℓ} where
  abbrev has_sess : NodeQueue M → Bool
  has_sess q = elim q.sess [ none ↦ false | some s ↦ true ]

  unfoldable pub pending_count : String → List (String × NodeQueue M) → ℕ
  pending_count node qs = elim (lookup node qs) [ none ↦ 0 | some q ↦ length q.pending ]

  unfoldable pub pending_counts : List (String × NodeQueue M) → List (String × ℕ)
  pending_counts [] = []
  pending_counts ((id, q) ∷ qs) =
      let rest = pending_counts qs in
      if ltb 0 (length q.pending) then (id, length q.pending) ∷ rest else rest

  -- The live sessions with a client certificate, and the others.
  unfoldable pub session_auth_counts : List (String × NodeQueue M) → ℕ × ℕ
  session_auth_counts [] = (0, 0)
  session_auth_counts ((id, q) ∷ qs) =
      let (mtls, token) = session_auth_counts qs in
      elim q.sess [
        | none ↦ (mtls, token)
        | some s ↦ if s.cert_auth then (mtls + 1, token) else (mtls, token + 1)
      ]

  unfoldable pub has_session : String → List (String × NodeQueue M) → Bool
  has_session node qs = elim (lookup node qs) [ none ↦ false | some q ↦ has_sess q ]

  unfoldable pub connected_nodes : List (String × NodeQueue M) → List String
  connected_nodes [] = []
  connected_nodes ((id, q) ∷ qs) =
      let rest = connected_nodes qs in if has_sess q then id ∷ rest else rest

  -- The gauge of sessions and the list of connected nodes agree.
  pub connected_nodes-session_auth_counts :
      (qs : List (String × NodeQueue M))
      → length (connected_nodes qs) ≡ (session_auth_counts qs).0 + (session_auth_counts qs).1
  unfolding connected_nodes session_auth_counts
  connected_nodes-session_auth_counts [] = omega arith
  connected_nodes-session_auth_counts ((id, q) ∷ qs) =
      ground (arith, connected_nodes-session_auth_counts qs)
