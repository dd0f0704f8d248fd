-- ===== src/AgentLink/Hub/Secrecy.antt =====
-- What every run of a node's queue keeps of the gate.
use birdman.Base.{
  All-append, Bool, Bool-cases, List, Option, Option-cases, String, [], ap, arith, false,
  if◌then◌else◌, inl, inr, none, not, refl, some, subst, sym, true, ℕ, ◌&&◌, ◌++◌, ◌==◌, ◌||◌, ◌∙◌,
  ◌∷◌, ◌≡◌, ◌≤◌,
}
use birdman.AgentLink.Hub.{
  Cmd, Event, NodeQueue, Session, ack, attach, detach, find_cmd, is_trusted, new_node_queue,
  new_session, pending_at_attach, push_to, remove_cmd, remove_set_registries, run, send, step,
  take_out, trusted_for_registries,
}
use birdman.AgentLink.Hub.Gate.{
  Inv, IsGated, NoRegistries, NoRegistries-count, find_cmd-NoRegistries, push-IsGated, push-trusted,
  push_all-IsGated, push_all-trusted, registries_in, registries_in-remove_cmd, registries_in-snoc,
  remove-NoRegistries, remove_cmd-NoRegistries,
}

module _ {ℓ} {M : Type ℓ} where
  known_cmd :
      (m known : Cmd M) (q : NodeQueue M)
      → find_cmd m.cmd_id q.pending ≡ some known
      → Inv q
      → (o : Option (Session M)) → q.sess ≡ o
      → IsGated q.pending (push_to o known)
  known_cmd m known q e v none f = tt
  known_cmd m known q e v (some s) f = λ u.
      let g : IsGated q.pending (some s) = subst (IsGated q.pending) f v.0 in
      let t = sym (push-trusted s known) ∙ u in
      push-IsGated q.pending s known (find_cmd-NoRegistries m.cmd_id q.pending (g t).0 e) g u

  new_cmd :
      (m : Cmd M) (q : NodeQueue M)
      → Inv q
      → (m.registries && not (is_trusted q.sess)) ≡ false
      → (o : Option (Session M)) → q.sess ≡ o
      → IsGated
          ((if m.registries then remove_set_registries q.pending else q.pending) ++ m ∷ [])
          (push_to o m)
  new_cmd m q v allowed none f = tt
  new_cmd m q v allowed (some s) f = λ u.
      let g : IsGated q.pending (some s) = subst (IsGated q.pending) f v.0 in
      let t = sym (push-trusted s m) ∙ u in
      let plain : m.registries ≡ false = ground (arith, allowed, t, ap is_trusted f) in
      let (a, b, c) = push-IsGated q.pending s m plain g u in
      (
        subst
            (λ r.
              NoRegistries ((if r then remove_set_registries q.pending else q.pending) ++ m ∷ []))
            (sym plain) (All-append (λ z. z.registries ≡ false) q.pending (m ∷ []) a (plain, tt)),
        b,
        c,
      )

  new_cmd_count :
      (m : Cmd M) (q : NodeQueue M)
      → registries_in q.pending ≤ 1
      → registries_in
          ((if m.registries then remove_set_registries q.pending else q.pending) ++ m ∷ [])
        ≤ 1
  new_cmd_count m q h = elim (Bool-cases m.registries) [
    | inl e ↦
        let ms = remove_set_registries q.pending in
        let n = NoRegistries-count ms (remove-NoRegistries q.pending) in
        let k = registries_in-snoc ms m in chosen true (ground (arith, e, n, k)) e
    | inr e ↦ let k = registries_in-snoc q.pending m in chosen false (ground (arith, e, h, k)) e
  ]
    where
      chosen :
          (b : Bool)
          → registries_in ((if b then remove_set_registries q.pending else q.pending) ++ m ∷ []) ≤ 1
          → m.registries ≡ b
          → registries_in
              ((if m.registries then remove_set_registries q.pending else q.pending) ++ m ∷ [])
            ≤ 1
      chosen b h e =
          subst
            (λ b.
              registries_in ((if b then remove_set_registries q.pending else q.pending) ++ m ∷ [])
              ≤ 1)
            (sym e) h

  send-Inv : (m : Cmd M) (q : NodeQueue M) → Inv q → Inv (send m q).0
  unfolding send
  send-Inv m q v = elim (Option-cases (find_cmd m.cmd_id q.pending)) [
    | inr (known, e) ↦ rw (e, send) (known_cmd m known q e v q.sess refl, v.1)
    | inl missing ↦ elim (Bool-cases (m.registries && not (is_trusted q.sess))) [
      | inl withheld ↦ rw (missing, withheld, send) v
      | inr allowed ↦
          rw (missing, allowed, send) (new_cmd m q v allowed q.sess refl, new_cmd_count m q v.1)
    ]
  ]

  ack-Inv : (id : String) (q : NodeQueue M) → Inv q → Inv (ack id q)
  unfolding ack
  ack-Inv id q v =
      (gated q.sess v.0, (let n = registries_in-remove_cmd id q.pending in omega (arith, v.1)))
    where
      gated : (o : Option (Session M)) → IsGated q.pending o → IsGated (remove_cmd id q.pending) o
      gated none g = tt
      gated (some s) g = λ u. let (a, b, c) = g u in (remove_cmd-NoRegistries id q.pending a, b, c)

  attach_count :
      (trusted : Bool) (preface : Option (Cmd M)) (ms : List (Cmd M))
      → registries_in ms ≤ 1
      → registries_in (pending_at_attach trusted preface ms) ≤ 1
  unfolding pending_at_attach registries_in
  attach_count true none ms h = h
  attach_count true (some p) ms h =
      let n = NoRegistries-count (remove_set_registries ms) (remove-NoRegistries ms) in
      ground (arith, n)
  attach_count false preface ms h =
      let n = NoRegistries-count (remove_set_registries ms) (remove-NoRegistries ms) in omega arith

  attach_gate :
      (trusted : Bool) (preface : Option (Cmd M)) (ms : List (Cmd M))
      → trusted ≡ false
      → NoRegistries (pending_at_attach trusted preface ms)
  unfolding pending_at_attach
  attach_gate true preface ms e = absurd (cc)
  attach_gate false preface ms e = remove-NoRegistries ms

  attach-Inv :
      (ptr : ℕ) (preface : Option (Cmd M)) (cert_auth loopback : Bool) (q : NodeQueue M)
      → Inv q
      → Inv (attach ptr preface cert_auth loopback q)
  unfolding attach
  attach-Inv ptr preface cert_auth loopback q v =
      let ms = pending_at_attach (cert_auth || loopback) preface q.pending in
      let s = new_session ptr cert_auth loopback in
      (
        (λ u.
            let plain =
              attach_gate (cert_auth || loopback) preface q.pending
                (sym (push_all-trusted s ms) ∙ u) in
            push_all-IsGated ms s ms plain (λ _. (plain, tt, tt)) u),
        attach_count (cert_auth || loopback) preface q.pending v.1,
      )

  detach-Inv : (ptr : ℕ) (q : NodeQueue M) → Inv q → Inv (detach ptr q)
  unfolding detach
  detach-Inv ptr q v = elim (Option-cases q.sess) [
    | inl off ↦ rw (off, detach) v
    | inr (s, e) ↦ elim (Bool-cases (s.ptr == ptr)) [
      | inl same ↦ rw (e, same, detach) (tt, v.1)
      | inr other ↦ rw (e, other, detach) v
    ]
  ]

  take_out-IsGated :
      (pending : List (Cmd M)) (s : Session M)
      → IsGated pending (some s)
      → IsGated pending (some (take_out s))
  unfolding take_out
  take_out-IsGated pending s g = go s.out refl
    where
      go : (out : List (Cmd M)) → s.out ≡ out → IsGated pending (some (take_out s))
      go [] e = rw (e, take_out) g
      go (m ∷ ms) e =
          rw (e, take_out)
            (λ u.
              let (a, b, c) = g u in
              let b' : NoRegistries (m ∷ ms) = subst NoRegistries e b in
              (a, b'.1, All-append (λ z. z.registries ≡ false) s.wire (m ∷ []) c (b'.0, tt)))

  step-Inv : (q : NodeQueue M) (e : Event M) → Inv q → Inv (step q e)
  unfolding step
  step-Inv q (Event.sends m) v = send-Inv m q v
  step-Inv q (Event.acks id) v = ack-Inv id q v
  step-Inv q (Event.attaches ptr preface cert_auth loopback) v =
      attach-Inv ptr preface cert_auth loopback q v
  step-Inv q (Event.detaches ptr) v = detach-Inv ptr q v
  step-Inv q Event.takes v = elim (Option-cases q.sess) [
    | inl off ↦ rw (off, step) v
    | inr (s, e) ↦
        rw (e, step) (take_out-IsGated q.pending s (subst (IsGated q.pending) e v.0), v.1)
  ]

  run-Inv : (q : NodeQueue M) (es : List (Event M)) → Inv q → Inv (run q es)
  unfolding run
  run-Inv q [] v = v
  run-Inv q (e ∷ es) v = run-Inv (step q e) es (step-Inv q e v)

  -- Whatever happens to a node's queue from its creation on: what waits for an untrusted session,
  -- lies in its channel or went through it is never a SetRegistries, and at most one waits at all.
  pub run-new_node_queue_gated :
      (es : List (Event M))
      → ((s : Session M)
          → (run new_node_queue es).sess ≡ some s
          → trusted_for_registries s ≡ false
          → NoRegistries (run new_node_queue es).pending × NoRegistries s.out × NoRegistries s.wire)
        × (registries_in (run new_node_queue es).pending ≤ 1)
  unfolding registries_in
  run-new_node_queue_gated es =
      let (g, n) = run-Inv new_node_queue es (tt, omega arith) in
      ((λ s e. subst (IsGated (run new_node_queue es).pending) e g), n)
