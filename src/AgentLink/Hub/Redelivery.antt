-- ===== src/AgentLink/Hub/Redelivery.antt =====
-- At-least-once: a command waits until it is acknowledged, and every new session gets it again.
use birdman.Base.{
  All, Bool, Bool-cases, List, Option, Option-cases, String, [], ap, arith, false, if◌then◌else◌,
  inl, inr, keep_if, length, length-append, ltb, nat_eq, none, not, refl, some, string_eq, subst,
  sym, true, ℕ, ◌&&◌, ◌++◌, ◌+◌, ◌<◌, ◌==◌, ◌||◌, ◌∙◌, ◌∷◌, ◌≡◌, ◌≤◌,
}
use birdman.AgentLink.Hub.{
  Cmd, Event, NodeQueue, Session, ack, attach, detach, find_cmd, is_trusted, new_session, out_cap,
  pending_at_attach, push, push_all, remove_cmd, remove_set_registries, run, send, step,
}

-- The command is one of the list.
pub data Waits {ℓ} {M : Type ℓ} (m : Cmd M) : List (Cmd M) → Type ℓ where
  first : {ms : List (Cmd M)} → Waits m (m ∷ ms)
  later : {x : Cmd M} {ms : List (Cmd M)} → Waits m ms → Waits m (x ∷ ms)

module _ {ℓ} {M : Type ℓ} where
  Waits-append : (m : Cmd M) (ms more : List (Cmd M)) → Waits m ms → Waits m (ms ++ more)
  Waits-append m _ more first = first
  Waits-append m _ more (later h) = later (Waits-append m _ more h)

  Waits-last : (m : Cmd M) (ms : List (Cmd M)) → Waits m (ms ++ m ∷ [])
  Waits-last m [] = first
  Waits-last m (x ∷ xs) = later (Waits-last m xs)

  Waits-remove_set_registries :
      (m : Cmd M) (ms : List (Cmd M))
      → m.registries ≡ false
      → Waits m ms
      → Waits m (remove_set_registries ms)
  unfolding remove_set_registries
  Waits-remove_set_registries m [] plain h = elim h [ ]
  Waits-remove_set_registries m (_ ∷ ms) plain first =
      subst
        (λ b. Waits m (
          if not b
          then m ∷ keep_if (λ z. not z.registries) ms
          else keep_if (λ z. not z.registries) ms))
        (sym plain) first
  Waits-remove_set_registries m (x ∷ ms) plain (later h) =
      let rest = Waits-remove_set_registries m ms plain h in
      elim (Bool-cases x.registries) [ inl e ↦ rw e rest | inr e ↦ rw e (later rest) ]

  Waits-remove_cmd :
      (m : Cmd M) (id : String) (ms : List (Cmd M))
      → string_eq.beq m.cmd_id id ≡ false
      → Waits m ms
      → Waits m (remove_cmd id ms)
  unfolding remove_cmd
  Waits-remove_cmd m id [] other h = elim h [ ]
  Waits-remove_cmd m id (_ ∷ ms) other first =
      subst (λ b. Waits m (if b then ms else m ∷ remove_cmd id ms)) (sym other) first
  Waits-remove_cmd m id (x ∷ ms) other (later h) = elim (Bool-cases (string_eq.beq x.cmd_id id)) [
    | inl e ↦ rw e h
    | inr e ↦ rw e (later (Waits-remove_cmd m id ms other h))
  ]

  Waits-attach :
      (m : Cmd M) (trusted : Bool) (preface : Option (Cmd M)) (ms : List (Cmd M))
      → m.registries ≡ false
      → Waits m ms
      → Waits m (pending_at_attach trusted preface ms)
  unfolding pending_at_attach
  Waits-attach m true none ms plain h = h
  Waits-attach m true (some p) ms plain h = later (Waits-remove_set_registries m ms plain h)
  Waits-attach m false preface ms plain h = Waits-remove_set_registries m ms plain h

  send-Waits :
      (m x : Cmd M) (q : NodeQueue M)
      → m.registries ≡ false
      → Waits m q.pending
      → Waits m (send x q).0.pending
  unfolding send
  send-Waits m x q plain h = elim (Option-cases (find_cmd x.cmd_id q.pending)) [
    | inr (known, e) ↦ rw (e, send) h
    | inl missing ↦ elim (Bool-cases (x.registries && not (is_trusted q.sess))) [
      | inl withheld ↦ rw (missing, withheld, send) h
      | inr allowed ↦ rw (missing, allowed, send) (Waits-append m _ (x ∷ []) (kept x.registries))
    ]
  ]
    where
      kept : (b : Bool) → Waits m (if b then remove_set_registries q.pending else q.pending)
      kept true = Waits-remove_set_registries m q.pending plain h
      kept false = h

  -- The event acknowledges the id.
  abbrev pub is_ack : String → Event M → Bool
  is_ack id (Event.acks a) = string_eq.beq id a
  is_ack id _ = false

  detach-pending : (ptr : ℕ) (q : NodeQueue M) → (detach ptr q).pending ≡ q.pending
  unfolding detach
  detach-pending ptr q = elim (Option-cases q.sess) [
    | inl off ↦ rw (off, detach) refl
    | inr (s, e) ↦ elim (Bool-cases (s.ptr == ptr)) [
      | inl same ↦ rw (e, same, detach) refl
      | inr other ↦ rw (e, other, detach) refl
    ]
  ]

  takes-pending : (q : NodeQueue M) → (step q Event.takes).pending ≡ q.pending
  unfolding step
  takes-pending q = elim (Option-cases q.sess) [
    | inl off ↦ rw (off, step) refl
    | inr (s, e) ↦ rw (e, step) refl
  ]

  step-Waits :
      (m : Cmd M) (q : NodeQueue M) (e : Event M)
      → m.registries ≡ false
      → is_ack m.cmd_id e ≡ false
      → Waits m q.pending
      → Waits m (step q e).pending
  unfolding step ack attach
  step-Waits m q (Event.sends x) plain other h = send-Waits m x q plain h
  step-Waits m q (Event.acks id) plain other h = Waits-remove_cmd m id q.pending other h
  step-Waits m q (Event.attaches ptr preface cert_auth loopback) plain other h =
      Waits-attach m (cert_auth || loopback) preface q.pending plain h
  step-Waits m q (Event.detaches ptr) plain other h = subst (Waits m) (sym (detach-pending ptr q)) h
  step-Waits m q Event.takes plain other h = subst (Waits m) (sym (takes-pending q)) h

  run-Waits :
      (m : Cmd M) (q : NodeQueue M) (es : List (Event M))
      → m.registries ≡ false
      → All (λ e. is_ack m.cmd_id e ≡ false) es
      → Waits m q.pending
      → Waits m (run q es).pending
  unfolding run
  run-Waits m q [] plain none_acks h = h
  run-Waits m q (e ∷ es) plain none_acks h =
      run-Waits m (step q e) es plain none_acks.1 (step-Waits m q e plain none_acks.0 h)

  append_nil : (ms : List (Cmd M)) → ms ++ [] ≡ ms
  append_nil [] = refl
  append_nil (m ∷ ms) = ap (◌∷◌ m) (append_nil ms)

  append_snoc : (xs ms : List (Cmd M)) (m : Cmd M) → (xs ++ m ∷ []) ++ ms ≡ xs ++ m ∷ ms
  append_snoc [] ms m = refl
  append_snoc (x ∷ xs) ms m = ap (◌∷◌ x) (append_snoc xs ms m)

  push_room :
      (s : Session M) (m : Cmd M)
      → length s.out < out_cap
      → push s m ≡ record s { out = s.out ++ m ∷ [] }
  unfolding push
  push_room s m h = let e : ltb (length s.out) out_cap ≡ true = ground arith in rw (e, push) refl

  push_all-out :
      (s : Session M) (ms : List (Cmd M))
      → length s.out + length ms ≤ out_cap
      → (push_all s ms).out ≡ s.out ++ ms
  unfolding push_all
  push_all-out s [] h = sym (append_nil s.out)
  push_all-out s (m ∷ ms) h =
      let e = push_room s m (omega arith) in
      let n = length-append s.out (m ∷ []) in
      ap (λ (z : Session M). (push_all z ms).out) e
      ∙ push_all-out (record s { out = s.out ++ m ∷ [] }) ms (omega arith)
      ∙ append_snoc s.out ms m

  sent-Waits :
      (m : Cmd M) (q : NodeQueue M)
      → m.registries ≡ false
      → find_cmd m.cmd_id q.pending ≡ none
      → Waits m (send m q).0.pending
  unfolding send
  sent-Waits m q plain missing = elim (Bool-cases (m.registries && not (is_trusted q.sess))) [
    | inl withheld ↦ absurd (ground (arith, plain, withheld))
    | inr allowed ↦ rw (missing, allowed, send) (Waits-last m _)
  ]

  -- A command that is no SetRegistries, sent under an id that is not pending, waits after every run
  -- of events in which its id is not acknowledged: through new and lost sessions, full channels and
  -- other commands.
  pub run-send-Waits :
      (m : Cmd M) (q : NodeQueue M) (es : List (Event M))
      → m.registries ≡ false
      → find_cmd m.cmd_id q.pending ≡ none
      → All (λ e. is_ack m.cmd_id e ≡ false) es
      → Waits m (run (send m q).0 es).pending
  run-send-Waits m q es plain missing none_acks =
      run-Waits m (send m q).0 es plain none_acks (sent-Waits m q plain missing)

  -- The commands that are no SetRegistries.
  abbrev pub others : List (Cmd M) → List (Cmd M)
  others [] = []
  others (m ∷ ms) = let rest = others ms in if m.registries then rest else m ∷ rest

  -- What a new session has to be sent: the preface and then the other commands, if the session is
  -- trusted and there is a preface; what is pending, if there is none; the other commands, if the
  -- session is not trusted.
  abbrev pub replayed : Bool → Option (Cmd M) → List (Cmd M) → List (Cmd M)
  replayed true (some p) ms = p ∷ others ms
  replayed true none ms = ms
  replayed false preface ms = others ms

  remove_set_registries-others : (ms : List (Cmd M)) → remove_set_registries ms ≡ others ms
  unfolding remove_set_registries
  remove_set_registries-others [] = refl
  remove_set_registries-others (m ∷ ms) = ground (arith, remove_set_registries-others ms)

  pending_at_attach-replayed :
      (trusted : Bool) (preface : Option (Cmd M)) (ms : List (Cmd M))
      → pending_at_attach trusted preface ms ≡ replayed trusted preface ms
  unfolding pending_at_attach
  pending_at_attach-replayed true (some p) ms = ap (λ t. p ∷ t) (remove_set_registries-others ms)
  pending_at_attach-replayed true none ms = refl
  pending_at_attach-replayed false (some p) ms = remove_set_registries-others ms
  pending_at_attach-replayed false none ms = remove_set_registries-others ms

  -- If at most 256 commands are pending after `attach`, the channel of the new session holds exactly
  -- these in their order: those pending before that are no SetRegistries, behind the preface if the
  -- session is trusted and there is one; or all, if it is trusted and there is no preface. Whatever
  -- waited and is no SetRegistries is among them.
  pub attach-replays :
      (ptr : ℕ) (preface : Option (Cmd M)) (cert_auth loopback : Bool) (q : NodeQueue M)
      → length (attach ptr preface cert_auth loopback q).pending ≤ out_cap
      → (s : Session M) × ((attach ptr preface cert_auth loopback q).sess ≡ some s)
        × (s.out ≡ (attach ptr preface cert_auth loopback q).pending)
        × (s.out ≡ replayed (cert_auth || loopback) preface q.pending)
        × ((m : Cmd M) → m.registries ≡ false → Waits m q.pending → Waits m s.out)
  unfolding attach
  attach-replays ptr preface cert_auth loopback q h =
      let ms = pending_at_attach (cert_auth || loopback) preface q.pending in
      let e = push_all-out (new_session ptr cert_auth loopback) ms (omega arith) in
      (
        push_all (new_session ptr cert_auth loopback) ms,
        refl,
        e,
        e ∙ pending_at_attach-replayed (cert_auth || loopback) preface q.pending,
        (λ m plain w.
            subst (Waits m) (sym e)
              (Waits-attach m (cert_auth || loopback) preface q.pending plain w)),
      )
