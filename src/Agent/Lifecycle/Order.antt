-- ===== src/Agent/Lifecycle/Order.antt =====
-- The order of a server's states, over every sequence of calls of `To`.
use birdman.Base.{
  Bool-cases, List, String, [], arith, inl, inr, length, refl, subst, sym, true, ℕ, ◌+◌, ◌<◌, ◌∙◌,
  ◌∷◌, ◌≡◌, ◌≢◌, ◌≤◌, ◌⊎◌,
}
use birdman.Agent.Lifecycle.{
  Machine, State, Transition, allocated, draining, is_terminal, new_machine, new_machine_at, next,
  pulling, ready, starting, to,
}

-- A call of `To`: the state that is asked for, the reason and the time.
abbrev pub Call : Type 0
Call = State × String × ℕ

unfoldable pub step : Machine → Call → Machine
unfolding to
step m (s, reason, now) = (to m s reason now).0

unfoldable pub run : Machine → List Call → Machine
unfolding step
run m [] = m
run m (c ∷ cs) = run (step m c) cs

-- How many moves a state is away from the end, at most.
unfoldable pub rank : State → ℕ
rank pulling = 5
rank starting = 4
rank ready = 3
rank allocated = 2
rank draining = 1
rank _ = 0

-- The log is a path of legal moves that starts at `s₀` and ends at `s`.
abbrev pub IsPath : State → State → List Transition → Type 0
IsPath s₀ s [] = s ≡ s₀
IsPath s₀ s (tr ∷ rest) = (tr.to ≡ s) × (next tr.from tr.to ≡ true) × IsPath s₀ tr.from rest

step-IsPath :
    (s₀ : State) (m : Machine) (c : Call)
    → IsPath s₀ m.cur m.log
    → IsPath s₀ (step m c).cur (step m c).log
unfolding step
step-IsPath s₀ m (s, reason, now) h = elim (Bool-cases (next m.cur s)) [
  | inl legal ↦ rw (legal, step) (refl, legal, h)
  | inr illegal ↦ rw (illegal, step) h
]

run-IsPath :
    (s₀ : State) (m : Machine) (cs : List Call)
    → IsPath s₀ m.cur m.log
    → IsPath s₀ (run m cs).cur (run m cs).log
unfolding run
run-IsPath s₀ m [] h = h
run-IsPath s₀ m (c ∷ cs) h = run-IsPath s₀ (step m c) cs (step-IsPath s₀ m c h)

-- Whatever calls are made on a machine that starts at `s₀`, its transition log is one path of legal
-- moves, each from the state that the one before it reached, from `s₀` to the current state.
pub run-new_machine_at-IsPath :
    (id : String) (s₀ : State) (cs : List Call)
    → IsPath s₀ (run (new_machine_at id s₀) cs).cur (run (new_machine_at id s₀) cs).log
unfolding new_machine_at
run-new_machine_at-IsPath id s₀ cs = run-IsPath s₀ (new_machine_at id s₀) cs refl

pub next-rank : (s t : State) → next s t ≡ true → rank t < rank s
unfolding next rank
next-rank s t h = ground arith

path_length :
    (s₀ s : State) (log : List Transition) → IsPath s₀ s log → length log + rank s ≤ rank s₀
path_length s₀ s [] h = rw h (omega arith)
path_length s₀ s (tr ∷ rest) h =
    rw (← h.0) (omega (arith, next-rank tr.from tr.to h.1, path_length s₀ tr.from rest h.2))

-- A server makes at most five moves in its life, whatever calls are made on its machine; a restored
-- one makes at most `rank` of the state that it is restored at.
pub moves_bounded :
    (id : String) (s₀ : State) (cs : List Call)
    → length (run (new_machine_at id s₀) cs).log + rank (run (new_machine_at id s₀) cs).cur
      ≤ rank s₀
moves_bounded id s₀ cs = path_length s₀ _ _ (run-new_machine_at-IsPath id s₀ cs)

step_terminal : (m : Machine) (c : Call) → is_terminal m.cur ≡ true → step m c ≡ m
unfolding step is_terminal
step_terminal m (s, reason, now) h = ground arith

-- No call changes a machine that is stopped or failed: not its state, its log or its channels.
pub terminal_absorbs : (m : Machine) (cs : List Call) → is_terminal m.cur ≡ true → run m cs ≡ m
unfolding run
terminal_absorbs m [] h = refl
terminal_absorbs m (c ∷ cs) h = rw (step_terminal m c h) (terminal_absorbs m cs h)

-- The log has a move to `s`.
abbrev pub Reached : State → List Transition → Type 0
Reached s [] = ⊥
Reached s (tr ∷ rest) = (tr.to ≡ s) ⊎ Reached s rest

path_through :
    (s s' : State) (log : List Transition)
    → ((t : State) → next t s' ≡ true → t ≡ s)
    → s' ≢ pulling
    → IsPath pulling s' log
    → s ≢ pulling
    → Reached s log
path_through s s' [] only h p q = absurd (h p)
path_through s s' (tr ∷ []) only h p q =
    absurd (q (sym (only tr.from (subst (λ z. next tr.from z ≡ true) p.0 p.1)) ∙ p.2))
path_through s s' (tr ∷ tr' ∷ rest) only h p q =
    inr (inl (p.2.0 ∙ only tr.from (subst (λ z. next tr.from z ≡ true) p.0 p.1)))

allocated_from_ready : (t : State) → next t allocated ≡ true → t ≡ ready
unfolding next
allocated_from_ready t h = ground arith

-- A server that was launched from `pulling` is allocated only if its machine has gone through
-- `ready`, that is after its game process reported ready.
pub allocated_was_ready :
    (id : String) (cs : List Call)
    → (run (new_machine id) cs).cur ≡ allocated
    → Reached ready (run (new_machine id) cs).log
unfolding new_machine
allocated_was_ready id cs h =
    path_through ready allocated _ allocated_from_ready (λ e. cc)
      (subst (λ s. IsPath pulling s (run (new_machine id) cs).log) h
        (run-new_machine_at-IsPath id pulling cs))
      (λ e. cc)
