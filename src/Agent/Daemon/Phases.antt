-- ===== src/Agent/Daemon/Phases.antt =====
-- How the state of a server and the place of its goroutine go together.
use birdman.Base.{
  Bool, Bool-cases, Option, String, [], arith, concat, decimal, false, if◌then◌else◌, inl, inr,
  none, refl, some, subst, sym, true, ℕ, ℤ, ◌∙◌, ◌∷◌, ◌≡◌, ◌≢◌, ◌⊎◌,
}
use birdman.Agent.Ports.{}
use birdman.Agent.Uds
use birdman.Agent.Lifecycle.{
  Machine, State, allocated, draining, failed, is_terminal, next, pulling, ready, starting, stopped,
  to,
}
use birdman.Agent.Daemon.Server.{
  Phase, Server, opens_socket, over, runs_container, supervised, takes_port, transition,
}
use birdman.Agent.Daemon.Supervise.{
  Callback, Exit, allocate, begin_draining, begin_stop, callback, drain_server, exited,
  note_allocation, on_match_end, on_match_start, on_metric, on_players, on_ready, on_sock,
  see_grace, see_kill_timer, see_ping, see_ready, see_stop, settle, stop, time_out, watch_failed,
  write_frame,
}

-- Before the container runs the server is pulling, in `supervise` it is not, and at its end it is
-- terminal; the time of the end is set at the end and no sooner.
unfoldable pub fits : Phase → State → Option ℕ → Bool
unfolding is_terminal
fits over s (some t) = is_terminal s
fits supervised starting none = true
fits supervised ready none = true
fits supervised allocated none = true
fits supervised draining none = true
fits supervised failed none = true
fits supervised stopped none = true
fits takes_port pulling none = true
fits opens_socket pulling none = true
fits runs_container pulling none = true
fits _ _ _ = false

abbrev pub IsFit : Server → Type 0
IsFit srv = fits srv.phase srv.machine.cur srv.done_at ≡ true

pub transition_lem :
    (srv : Server) (st : State) (reason : String) (now : ℕ)
    → (transition srv st reason now).0 ≡ record srv { machine = (to srv.machine st reason now).0 }
unfolding transition to
transition_lem srv st reason now = ground arith

pub to-cur :
    (m : Machine) (st : State) (reason : String) (now : ℕ)
    → (to m st reason now).0.cur ≡ (if next m.cur st then st else m.cur)
unfolding to
to-cur m st reason now = ground arith

-- A step that leaves the goroutine where it is: the state stays, or moves from one that is not
-- `pulling`.
pub record Tame (srv srv' : Server) : Type 0 where
  pub phase : srv'.phase ≡ srv.phase
  pub port : srv'.port ≡ srv.port
  pub done_at : srv'.done_at ≡ srv.done_at
  pub moves :
      (srv'.machine.cur ≡ srv.machine.cur)
      ⊎ ((srv.machine.cur ≢ pulling) × (next srv.machine.cur srv'.machine.cur ≡ true))

pub Tame-refl : (srv : Server) → Tame srv srv
Tame-refl srv = record { phase = refl; port = refl; done_at = refl; moves = inl refl }

-- A transition from a state that is not `pulling`.
transition-Tame :
    (srv : Server) (st : State) (reason : String) (now : ℕ)
    → srv.machine.cur ≢ pulling
    → Tame srv (transition srv st reason now).0
transition-Tame srv st reason now h =
    subst (Tame srv) (sym (transition_lem srv st reason now))
      (elim (Bool-cases (next srv.machine.cur st)) [
        | inl legal ↦
            let e : (to srv.machine st reason now).0.cur ≡ st =
              to-cur srv.machine st reason now ∙ rw legal refl in
            record { phase = refl; port = refl; done_at = refl; moves = inr (h, rw e legal) }
        | inr illegal ↦ record {
          phase = refl;
          port = refl;
          done_at = refl;
          moves = inl (to-cur srv.machine st reason now ∙ rw illegal refl);
        }
      ])

pub see_ready-Tame : (srv : Server) (now : ℕ) → Tame srv (see_ready srv now).0
unfolding see_ready
see_ready-Tame srv now =
    ground (arith, transition-Tame (record srv { ready_ch = false }) ready "liba ready" now)

begin_draining-Tame :
    (srv : Server) (reason : String) (now : ℕ) → Tame srv (begin_draining srv reason now).0
unfolding begin_draining
begin_draining-Tame srv reason now = ground (arith, transition-Tame srv draining reason now)

pub see_grace-Tame : (srv : Server) (now : ℕ) → Tame srv (see_grace srv now).0
unfolding see_grace time_out
see_grace-Tame srv now = ground (arith, transition-Tame srv failed "no ready within 30s" now)

pub see_stop-Tame : (srv : Server) (now : ℕ) → Tame srv (see_stop srv now).0
unfolding see_stop begin_stop
see_stop-Tame srv now = ground (
  arith,
  begin_draining-Tame (record srv { stop_ch = none; stop_requested = true })
      "stop requested by master" now,
)

pub see_kill_timer-Tame : (srv : Server) → Tame srv (see_kill_timer srv).0
unfolding see_kill_timer
see_kill_timer-Tame srv = ground arith

on_sock-Tame :
    (srv srv' : Server) (f : Uds.Server → Uds.Server) → Tame srv srv' → Tame srv (on_sock srv' f)
unfolding on_sock
on_sock-Tame srv srv' f t = ground arith

pub see_ping-Tame : (srv : Server) → Tame srv (see_ping srv)
unfolding see_ping on_sock
see_ping-Tame srv = ground arith

pub write_frame-Tame : (srv : Server) (i : ℕ) (ok : Bool) → Tame srv (write_frame srv i ok)
unfolding write_frame on_sock
write_frame-Tame srv i ok = ground arith

pub stop-Tame : (srv : Server) (grace_s : ℤ) → Tame srv (stop srv grace_s)
unfolding stop
stop-Tame srv grace_s = ground arith

pub callback-Tame : (srv : Server) (c : Callback) → Tame srv (callback srv c).0
unfolding callback
callback-Tame srv on_ready = ground arith
callback-Tame srv (on_players n) = ground arith
callback-Tame srv (on_metric metric v) = ground arith
callback-Tame srv (on_match_start match_id) = ground arith
callback-Tame srv (on_match_end match_id result) = ground arith

pub allocate-Tame : (srv : Server) (a : Uds.Allocation) (now : ℕ) → Tame srv (allocate srv a now).0
unfolding allocate note_allocation on_sock
allocate-Tame srv a now = ground (
  arith,
  transition-Tame (record srv { match_id = a.match_id }) allocated
      (concat ("allocated by master (match " ∷ a.match_id ∷ ")" ∷ [])) now,
)

pub drain_server-Tame :
    (srv : Server) (deadline : ℤ) (reason : String) (now : ℕ)
    → Tame srv (drain_server srv deadline reason now).0
unfolding drain_server
drain_server-Tame srv deadline reason now =
    on_sock-Tame srv _ _
      (begin_draining-Tame srv (concat ("drain requested by master (" ∷ reason ∷ ")" ∷ [])) now)

-- Every state that is not terminal can be failed or stopped.
next_terminal : (s t : State) → is_terminal s ≡ false → is_terminal t ≡ true → next s t ≡ true
unfolding is_terminal next
next_terminal s t h k = ground arith

pub ends :
    (srv : Server) (st : State) (reason : String) (now : ℕ)
    → is_terminal srv.machine.cur ≡ false
    → is_terminal st ≡ true
    → (transition srv st reason now).0.machine.cur ≡ st
ends srv st reason now h k =
    rw (transition_lem srv st reason now)
      (to-cur srv.machine st reason now ∙ rw (next_terminal srv.machine.cur st h k) refl)

-- `finish` leaves every server terminal.
pub settle_terminal :
    (srv : Server) (exit : Exit) (now : ℕ) → is_terminal (settle srv exit now).0.machine.cur ≡ true
unfolding settle is_terminal
settle_terminal srv watch_failed now = elim (Bool-cases (is_terminal srv.machine.cur)) [
  | inl ended ↦ rw (ended, settle) ended
  | inr unended ↦
      rw (unended, settle) (rw (ends srv failed "exit watch failed" now unended refl) refl)
]
settle_terminal srv (exited code) now = elim (Bool-cases (is_terminal srv.machine.cur)) [
  | inl ended ↦ rw (ended, settle) ended
  | inr unended ↦
      rw (unended, settle)
        (ground (
          arith,
          ends srv stopped (concat ("container exited (code " ∷ decimal code ∷ ")" ∷ [])) now
              unended refl,
          ends srv failed (concat ("container exited with code " ∷ decimal code ∷ [])) now unended
              refl,
        ))
]

fits_next :
    (ph : Phase) (s t : State) (d : Option ℕ)
    → fits ph s d ≡ true
    → s ≢ pulling
    → next s t ≡ true
    → fits ph t d ≡ true
unfolding fits next
fits_next ph s t d h k l = ground arith

pub Tame-IsFit : (srv srv' : Server) → Tame srv srv' → IsFit srv → IsFit srv'
Tame-IsFit srv srv' t h = rw t.phase (
    rw t.done_at (elim t.moves [
      | inl e ↦ rw e h
      | inr (k, l) ↦ fits_next srv.phase srv.machine.cur srv'.machine.cur srv.done_at h k l
    ]))
