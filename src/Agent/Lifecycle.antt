-- ===== src/Agent/Lifecycle.antt =====
-- The state machine of one server (agent/internal/lifecycle/state.go). The mutex makes each method
-- one step. A subscriber's channel is the list of what it holds; time is an argument.
pub mod Order
pub mod Grace
mod Runs
use birdman.Base.{
  Bool, List, String, [], false, if◌then◌else◌, length, ltb, map, true, ℕ, ◌++◌, ◌∷◌,
}

pub data State : Type 0 where
  pulling starting ready allocated draining stopped failed : State

pub State-discrete : Discrete State
State-discrete = hlevel

-- `Terminal`.
unfoldable pub is_terminal : State → Bool
is_terminal stopped = true
is_terminal failed = true
is_terminal _ = false

-- The table `next`.
unfoldable pub next : State → State → Bool
next pulling starting = true
next pulling stopped = true
next pulling failed = true
next starting ready = true
next starting stopped = true
next starting failed = true
next ready allocated = true
next ready draining = true
next ready stopped = true
next ready failed = true
next allocated draining = true
next allocated stopped = true
next allocated failed = true
next draining stopped = true
next draining failed = true
next _ _ = false

pub record Transition : Type 0 where
  pub server_id : String
  pub from : State
  pub to : State
  pub reason : String
  pub at : ℕ

-- `log` is what `onChange` was called with, the newest first; `subs` are the subscribed channels,
-- the oldest entry of a channel first.
pub record Machine : Type 0 where
  pub server_id : String
  pub cur : State
  pub subs : List (List Transition)
  pub log : List Transition

abbrev pub channel_cap : ℕ
channel_cap = 16

unfoldable pub new_machine_at : String → State → Machine
new_machine_at id at = record { server_id = id; cur = at; subs = []; log = [] }

unfoldable pub new_machine : String → Machine
unfolding new_machine_at
new_machine id = new_machine_at id pulling

-- A send that does not wait: a full channel drops the transition.
abbrev offer : Transition → List Transition → List Transition
offer tr ch = if ltb (length ch) channel_cap then ch ++ tr ∷ [] else ch

-- `To`: the new machine, and whether the move was legal.
unfoldable pub to : Machine → State → String → ℕ → Machine × Bool
unfolding next
to m s reason now =
    let tr : Transition = record {
      server_id = m.server_id;
      from = m.cur;
      to = s;
      reason = reason;
      at = now;
    } in
    if next m.cur s
    then (record m { cur = s; subs = map (offer tr) m.subs; log = tr ∷ m.log }, true)
    else (m, false)

unfoldable pub subscribe : Machine → Machine
subscribe m = record m { subs = m.subs ++ [] ∷ [] }

-- What wakes the loop of `WatchReadyGrace`.
pub data Wake : Type 0 where
  done : Wake
  moved : Transition → Wake
  timer : State → Wake  -- carries the state that `Current` answers then

-- The loop over its wake-ups; `true` when it calls `onExpire`.
unfoldable pub watch_loop : List Wake → Bool
watch_loop [] = false
watch_loop (done ∷ ws) = false
watch_loop (moved tr ∷ ws) = let rest = watch_loop ws in elim tr.to [ starting ↦ rest | _ ↦ false ]
watch_loop (timer s ∷ ws) = elim s [ starting ↦ true | _ ↦ false ]

unfoldable pub watch_ready_grace : State → List Wake → Bool
unfolding watch_loop
watch_ready_grace starting ws = watch_loop ws
watch_ready_grace _ ws = false
