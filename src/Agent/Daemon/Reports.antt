-- ===== src/Agent/Daemon/Reports.antt =====
-- The `ready` and `failed` events, and the log of the machines.
use birdman.Base.{
  Bool, Bool-cases, List, String, [], ap, arith, false, if◌then◌else◌, inl, inr, nat_eq, refl,
  string_eq, true, ℕ, ◌&&◌, ◌++◌, ◌+◌, ◌∙◌, ◌∷◌, ◌≡◌, ◌⊎◌,
}
use birdman.Agent.Lifecycle.Order
use birdman.Agent.Lifecycle.{Machine, State, Transition, failed, is_terminal, next, ready, to}
use birdman.Agent.Daemon.Server.{
  Effect, Server, announce, fail, server_event, store_state, transition,
}

-- The two states that the master is told of by an event.
pub data Kind : Type 0 where
  tells_ready tells_failed : Kind

unfoldable pub is_kind : Kind → State → Bool
is_kind tells_ready ready = true
is_kind tells_failed failed = true
is_kind _ _ = false

unfoldable pub kind_name : Kind → String
kind_name tells_ready = "ready"
kind_name tells_failed = "failed"

-- How many of the effects tell the master of `k` for the server `id`.
unfoldable pub told : String → Kind → List Effect → ℕ
unfolding kind_name
told id k [] = 0
told id k (server_event i kind detail ∷ es) =
    (if string_eq.beq i id && string_eq.beq kind (kind_name k) then 1 else 0) + told id k es
told id k (_ ∷ es) = told id k es

-- How many moves to the state of `k` the log of a machine has.
unfoldable pub moves_to : Kind → List Transition → ℕ
unfolding is_kind
moves_to k [] = 0
moves_to k (tr ∷ log) = (if is_kind k tr.to then 1 else 0) + moves_to k log

unfoldable pub logged : String → Kind → Server → ℕ
unfolding moves_to
logged id k srv = if string_eq.beq srv.id id then moves_to k srv.machine.log else 0

pub told-append :
    (id : String) (k : Kind) (xs ys : List Effect)
    → told id k (xs ++ ys) ≡ told id k xs + told id k ys
unfolding told
told-append id k [] ys = omega arith
told-append id k (x ∷ xs) ys = ground (arith, told-append id k xs ys)

-- A step makes at most one call of `To`, and tells the master of exactly the moves that it makes.
pub record Truthful (srv : Server) (out : Server × List Effect) : Type 0 where
  pub same_id : out.0.id ≡ srv.id
  pub moved :
      (out.0.machine ≡ srv.machine)
      ⊎ ((c : Order.Call) × (out.0.machine ≡ Order.step srv.machine c))
  pub truthful : (id : String) (k : Kind) → logged id k out.0 ≡ logged id k srv + told id k out.1

pub Truthful-refl : (srv : Server) → Truthful srv (srv, [])
unfolding told
Truthful-refl srv = record { same_id = refl; moved = inl refl; truthful = λ id k. omega arith }

pub told-store_state : (id : String) (k : Kind) (srv : Server) → told id k (store_state srv) ≡ 0
unfolding told store_state
told-store_state id k srv = ground arith

told-announce :
    (id : String) (k : Kind) (i : String) (st : State) (reason : String)
    → told id k (announce i st reason) ≡ (if string_eq.beq i id && is_kind k st then 1 else 0)
unfolding told announce is_kind kind_name
told-announce id tells_ready i ready reason = ground arith
told-announce id tells_ready i failed reason = ground arith
told-announce id tells_failed i ready reason = ground arith
told-announce id tells_failed i failed reason = ground arith
told-announce id k i st reason = ground arith

told-labels :
    (id : String) (k : Kind) (b : Bool) (srv : Server)
    → told id k (if b then [] else store_state srv) ≡ 0
unfolding told
told-labels id k true srv = refl
told-labels id k false srv = told-store_state id k srv

to-moves :
    (k : Kind) (m : Machine) (st : State) (reason : String) (now : ℕ)
    → (to m st reason now).1 ≡ true
    → moves_to k (to m st reason now).0.log ≡ (if is_kind k st then 1 else 0) + moves_to k m.log
unfolding to moves_to
to-moves k m st reason now legal = elim (Bool-cases (next m.cur st)) [
  | inl e ↦ rw (e, to) refl
  | inr e ↦ absurd (let h = rw (e, to) at legal in cc)
]

pub transition-Truthful :
    (srv : Server) (st : State) (reason : String) (now : ℕ)
    → Truthful srv (transition srv st reason now)
unfolding transition logged Order.step
transition-Truthful srv st reason now = elim (Bool-cases (to srv.machine st reason now).1) [
  | inr illegal ↦ rw (illegal, transition) (Truthful-refl srv)
  | inl legal ↦
      let moved : Server = record srv { machine = (to srv.machine st reason now).0 } in
      let labels : List Effect = if is_terminal st then [] else store_state moved in
      rw (legal, transition)
        (record {
          same_id = refl;
          moved = inr ((st, reason, now), refl);
          truthful = λ id k.
              let sum = told-append id k (announce srv.id st reason) labels in
              let said = told-announce id k srv.id st reason in
              let none_said = told-labels id k (is_terminal st) moved in
              let more = to-moves k srv.machine st reason now legal in ground arith;
        })
]

-- Only the name and the machine count on the sides of the server, and the two events of effects.
pub frame :
    (srv srv₁ : Server) (out : Server × List Effect) (srv₂ : Server) (es : List Effect)
    → (srv₁.id ≡ srv.id) × (srv₁.machine ≡ srv.machine)
    → (srv₂.id ≡ out.0.id) × (srv₂.machine ≡ out.0.machine)
    → ((id : String) (k : Kind) → told id k es ≡ told id k out.1)
    → Truthful srv₁ out
    → Truthful srv (srv₂, es)
unfolding logged
frame srv srv₁ out srv₂ es (i, m) (i', m') same t = record {
  same_id = i' ∙ t.same_id ∙ i;
  moved = elim t.moved [
    | inl e ↦ inl (m' ∙ e ∙ m)
    | inr (c, e) ↦ inr (c, m' ∙ e ∙ ap (λ (z : Machine). Order.step z c) m)
  ];
  truthful = λ id k.
      rw i' (
        rw m'
          (rw (same id k) (t.truthful id k ∙ ap (λ n. n + told id k out.1) (rw i (rw m refl)))));
}

-- A server whose name and machine stay, and effects that tell nothing.
pub still :
    (srv srv' : Server) (es : List Effect)
    → (srv'.id ≡ srv.id) × (srv'.machine ≡ srv.machine)
    → ((id : String) (k : Kind) → told id k es ≡ 0)
    → Truthful srv (srv', es)
unfolding told
still srv srv' es e none_told =
    frame srv srv (srv, []) srv' es (refl, refl) e none_told (Truthful-refl srv)

-- A further effect that tells nothing.
pub told-last :
    (id : String) (k : Kind) (es es' : List Effect)
    → told id k es' ≡ 0
    → told id k (es ++ es') ≡ told id k es
told-last id k es es' h = told-append id k es es' ∙ rw h (omega arith)

pub fail-Truthful : (srv : Server) (reason : String) (now : ℕ) → Truthful srv (fail srv reason now)
unfolding fail
fail-Truthful srv reason now =
    frame srv srv (transition srv failed reason now) _ _ (refl, refl) (refl, refl) (λ id k. refl)
      (transition-Truthful srv failed reason now)
