-- ===== src/Agent/Lifecycle/Grace.antt =====
-- Subscriptions and the readiness grace (`Subscribe`, `WatchReadyGrace`).
use mathlib.Core.List.{reverse, reverse-cons}
use birdman.Base.{
  Bool, Bool-cases, List, [], ap, arith, false, inl, inr, length, length-append, refl, sym, true,
  ◌++◌, ◌+◌, ◌<◌, ◌↔◌, ◌∙◌, ◌∷◌, ◌≡◌, ◌≢◌, ◌≤◌, ◌⊎◌,
}
use birdman.Agent.Lifecycle.{
  Machine, State, State-discrete, Transition, Wake, channel_cap, done, moved, next, offer, starting,
  subscribe, timer, watch_loop, watch_ready_grace,
}
use birdman.Agent.Lifecycle.Order.{Call, next-rank, rank, run, step}

length-reverse {ℓ} : {A : Type ℓ} (xs : List A) → length (reverse xs) ≡ length xs
length-reverse [] = refl
length-reverse (x ∷ xs) =
    omega
      (arith, ap length (reverse-cons x xs), length-append (reverse xs) (x ∷ []), length-reverse xs)

rank-le : (s : State) → rank s ≤ 5
unfolding rank
rank-le s = ground arith

abbrev Sees : Machine → List Transition → List Transition → Type 0
Sees m old news =
    (m.log ≡ news ++ old) × (m.subs ≡ reverse news ∷ []) × (length news + rank m.cur ≤ 5)

offer_fits :
    (tr : Transition) (ch : List Transition) → length ch < channel_cap → offer tr ch ≡ ch ++ tr ∷ []
offer_fits tr ch h = ground arith

move_Sees :
    (m : Machine) (old news : List Transition) (c : Call)
    → next m.cur c.0 ≡ true
    → Sees m old news
    → (tr : Transition) × Sees (step m c) old (tr ∷ news)
unfolding step
move_Sees m old news (s, reason, now) legal (l, q, b) =
    let tr : Transition = record {
      server_id = m.server_id;
      from = m.cur;
      to = s;
      reason = reason;
      at = now;
    } in
    let room : length (reverse news) < channel_cap = omega (arith, length-reverse news) in
    let lower : rank s < rank m.cur = next-rank m.cur s legal in
    let kept = offer_fits tr (reverse news) room ∙ sym (reverse-cons tr news) in
    (tr, rw (legal, step) (rw l, rw q (ap (λ (ch : List Transition). ch ∷ []) kept), omega arith))

illegal_step : (m : Machine) (c : Call) → next m.cur c.0 ≡ false → step m c ≡ m
unfolding step
illegal_step m (s, reason, now) h = ground arith

run_Sees :
    (m : Machine) (old news : List Transition) (cs : List Call)
    → Sees m old news
    → (news' : List Transition) × Sees (run m cs) old news'
unfolding run
run_Sees m old news [] h = (news, h)
run_Sees m old news (c ∷ cs) h = elim (Bool-cases (next m.cur c.0)) [
  | inl legal ↦
      let (tr, h') = move_Sees m old news c legal h in run_Sees (step m c) old (tr ∷ news) cs h'
  | inr illegal ↦ rw (illegal_step m c illegal, run) (run_Sees m old news cs h)
]

-- A subscriber never misses a transition, although a send to a full channel is dropped: whatever
-- calls follow, the channel of a first subscription holds exactly the transitions made since,
-- in order.
pub subscriber_misses_nothing :
    (m : Machine) (cs : List Call)
    → m.subs ≡ []
    → (news : List Transition) × ((run (subscribe m) cs).log ≡ news ++ m.log)
      × ((run (subscribe m) cs).subs ≡ reverse news ∷ [])
unfolding subscribe
subscriber_misses_nothing m cs h =
    let (news, h') = run_Sees (subscribe m) m.log [] cs (
      refl,
      ap (λ (subs : List (List Transition)). subs ++ [] ∷ []) h,
      omega (arith, rank-le m.cur),
    ) in
    (news, h'.0, h'.1)

-- Holds of wake-ups that keep the watcher waiting.
unfoldable pub stays : List Wake → Bool
stays [] = true
stays (moved tr ∷ ws) = let rest = stays ws in elim tr.to [ starting ↦ rest | _ ↦ false ]
stays (_ ∷ ws) = false

starting_cases : (s : State) → (s ≡ starting) ⊎ (s ≢ starting)
starting_cases s = elim (State-discrete s starting) [ yes p ↦ inl p | no p ↦ inr p ]

abbrev Fires : List Wake → Type 0
Fires ws =
    (before after : List Wake) × (ws ≡ before ++ timer starting ∷ after) × (stays before ≡ true)

watch_loop-Fires : (ws : List Wake) → watch_loop ws ≡ true → Fires ws
unfolding watch_loop stays
watch_loop-Fires [] h = absurd (cc)
watch_loop-Fires (done ∷ ws) h = absurd (cc)
watch_loop-Fires (moved tr ∷ ws) h = elim (starting_cases tr.to) [
  | inl e ↦
      let (before, after, split, wait) = watch_loop-Fires ws (ground arith) in
      (moved tr ∷ before, after, ap (λ (z : List Wake). moved tr ∷ z) split, ground arith)
  | inr ne ↦ absurd (ground arith)
]
watch_loop-Fires (timer s ∷ ws) h = elim (starting_cases s) [
  | inl e ↦ ([], ws, ap (λ z. timer z ∷ ws) e, refl)
  | inr ne ↦ absurd (ground arith)
]

Fires-watch_loop :
    (before after : List Wake)
    → stays before ≡ true
    → watch_loop (before ++ timer starting ∷ after) ≡ true
unfolding watch_loop stays
Fires-watch_loop [] after h = refl
Fires-watch_loop (done ∷ ws) after h = absurd (cc)
Fires-watch_loop (timer s ∷ ws) after h = absurd (cc)
Fires-watch_loop (moved tr ∷ ws) after h = ground (arith, Fires-watch_loop ws after)

watch_starts :
    (s : State) (ws : List Wake)
    → watch_ready_grace s ws ≡ true
    → (s ≡ starting) × (watch_loop ws ≡ true)
unfolding watch_ready_grace
watch_starts s ws h = ground arith

-- The grace watcher expires a server exactly when the server was `starting` as the watch began, and
-- the timer fired with the server still `starting` before the context was done and before any move
-- out of `starting` was received.
pub watch_ready_grace-fires :
    (s : State) (ws : List Wake)
    → (watch_ready_grace s ws ≡ true) ↔ (
        (s ≡ starting)
        × ((before after : List Wake) × (ws ≡ before ++ timer starting ∷ after)
            × (stays before ≡ true)))
watch_ready_grace-fires s ws = (
  λ h. let (e, l) = watch_starts s ws h in (e, watch_loop-Fires ws l),
  λ f. unfold watch_ready_grace in rw (f.0, f.1.2) (Fires-watch_loop f.1.0 f.1.1 f.1.3),
)
