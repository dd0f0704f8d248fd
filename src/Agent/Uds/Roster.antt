-- ===== src/Agent/Uds/Roster.antt =====
-- Which roster the socket keeps for a game that reconnects, and what the reconnect writes.
use birdman.Base.{
  All, Bool-cases, List, String, [], arith, false, if◌then◌else◌, inl, inr, ltb_ℤ, ltb→≤ℤ, refl,
  some, string_eq, subst, sym, true, ℕ, ≤ℤ_refl, ≤ℤ_trans, ◌++◌, ◌∙◌, ◌∷◌, ◌≡◌, ◌≤ℤ◌, ◌⊎◌,
}
use birdman.Agent.Uds.{
  Allocation, OutFrame, Server, Step, accept, accepts, allocated_frame, allocates, close, closes,
  drains, hang_up, hangs_up, hear, hears, is_older, listen, pings, replay_next, replays, run,
  send_allocated, send_drain, send_ping, step, take_send, to_current, write_send, write_to, writes,
}

-- What the steps ask of `SendAllocated`.
unfoldable pub request : Step → List Allocation
request (allocates a) = a ∷ []
request _ = []

unfoldable pub requests : List Step → List Allocation
unfolding request
requests [] = []
requests (e ∷ es) = request e ++ requests es

abbrev pub IsAmong : Allocation → List Allocation → Type 0
IsAmong a [] = ⊥
IsAmong a (b ∷ bs) = (b ≡ a) ⊎ IsAmong a bs

abbrev pub IsFor : String → Allocation → Type 0
IsFor id a = a.match_id ≡ id

abbrev pub IsAtMost : Allocation → Allocation → Type 0
IsAtMost a b = b.players_expected ≤ℤ a.players_expected

to_current-last_allocated :
    (s : Server) (f : OutFrame) → (to_current s f).0.last_allocated ≡ s.last_allocated
unfolding to_current
to_current-last_allocated s f = ground arith

-- Only `SendAllocated` changes the cached roster.
step_cases :
    (s : Server) (e : Step)
    → ((a : Allocation) × (e ≡ allocates a))
      ⊎ ((request e ≡ []) × ((step s e).last_allocated ≡ s.last_allocated))
unfolding step request send_drain send_ping write_send replay_next write_to accept hear hang_up
    close
step_cases s (allocates a) = inl (a, refl)
step_cases s (drains d r) =
    inr (refl, to_current-last_allocated (record s { last_drain = some (d, r) }) _)
step_cases s pings = inr (refl, to_current-last_allocated s _)
step_cases s (writes i ok) = inr (refl, ground arith)
step_cases s (replays ok) = inr (refl, ground arith)
step_cases s (accepts conn now) = inr (refl, ground arith)
step_cases s (hears now) = inr (refl, refl)
step_cases s (hangs_up conn) = inr (refl, ground arith)
step_cases s closes = inr (refl, ground arith)

is_older-same :
    (a b : Allocation)
    → a.match_id ≡ b.match_id
    → is_older b (some a) ≡ ltb_ℤ b.players_expected a.players_expected
unfolding is_older
is_older-same a b m = rw ((string_eq.beq_iff a.match_id b.match_id).1 m) refl

-- `SendAllocated` for the match that is cached keeps the larger roster.
send_allocated-last_allocated :
    (s : Server) (a b : Allocation)
    → s.last_allocated ≡ some a
    → a.match_id ≡ b.match_id
    → (send_allocated s b).0.last_allocated
      ≡ (if ltb_ℤ b.players_expected a.players_expected then some a else some b)
unfolding send_allocated
send_allocated-last_allocated s a b h m =
    elim (Bool-cases (ltb_ℤ b.players_expected a.players_expected)) [
      | inl older ↦
          let e : is_older b s.last_allocated ≡ true = rw h (is_older-same a b m ∙ older) in
          rw older (rw (e, send_allocated) h)
      | inr newer ↦
          let e : is_older b s.last_allocated ≡ false = rw h (is_older-same a b m ∙ newer) in
          rw newer (
            rw (e, send_allocated)
              (to_current-last_allocated (record s { last_allocated = some b })
                (allocated_frame b)))
    ]

-- What the cache holds after the requests `asked`, when it held `a` before.
pub record Newest (a : Allocation) (asked : List Allocation) (s : Server) : Type 0 where
  pub cached : Allocation
  pub is_cached : s.last_allocated ≡ some cached
  pub among : IsAmong cached (a ∷ asked)
  pub largest : All (IsAtMost cached) (a ∷ asked)

-- One request in front, after which the cache holds `a'`.
Newest-keeps :
    (a b : Allocation) (bs : List Allocation) (s : Server)
    → b.players_expected ≤ℤ a.players_expected
    → Newest a bs s
    → Newest a (b ∷ bs) s
Newest-keeps a b bs s le n = record {
  cached = n.cached;
  is_cached = n.is_cached;
  among = elim n.among [ inl e ↦ inl e | inr r ↦ inr (inr r) ];
  largest =
      let up =
        ≤ℤ_trans b.players_expected a.players_expected n.cached.players_expected le n.largest.0 in
      (n.largest.0, (up, n.largest.1));
}

Newest-moves :
    (a b : Allocation) (bs : List Allocation) (s : Server)
    → a.players_expected ≤ℤ b.players_expected
    → Newest b bs s
    → Newest a (b ∷ bs) s
Newest-moves a b bs s le n = record {
  cached = n.cached;
  is_cached = n.is_cached;
  among = inr n.among;
  largest = (
    ≤ℤ_trans a.players_expected b.players_expected n.cached.players_expected le n.largest.0,
    n.largest,
  );
}

-- While every roster that is asked for is of the match whose roster `a` is cached, the cache ends
-- with the largest of them and `a`, whatever order the requests come in and whatever connects,
-- breaks or is sent in between.
pub run-Newest :
    (id : String) (s : Server) (a : Allocation) (es : List Step)
    → s.last_allocated ≡ some a
    → a.match_id ≡ id
    → All (IsFor id) (requests es)
    → Newest a (requests es) (run s es)
unfolding run requests
run-Newest id s a [] h m all = record {
  cached = a;
  is_cached = h;
  among = inl refl;
  largest = (≤ℤ_refl a.players_expected, tt);
}
run-Newest id s a (e ∷ es) h m all = elim (step_cases s e) [
  | inr (r, same) ↦ rw r (
      run-Newest id (step s e) a es (same ∙ h) m
        (subst (λ rs. All (IsFor id) (rs ++ requests es)) r all))
  | inl (b, is) ↦
      let all' : All (IsFor id) (b ∷ requests es) =
        subst (λ d. All (IsFor id) (request d ++ requests es)) is all in
      let next = send_allocated-last_allocated s a b h (m ∙ sym all'.0) in
      subst (λ d. Newest a (request d ++ requests es) (run (step s d) es)) (sym is)
        (elim (Bool-cases (ltb_ℤ b.players_expected a.players_expected)) [
          | inl older ↦
              Newest-keeps a b (requests es) _ (ltb→≤ℤ b.players_expected a.players_expected older)
                (run-Newest id (step s (allocates b)) a es (rw older at next) m all'.1)
          | inr newer ↦
              Newest-moves a b (requests es) _ newer
                (run-Newest id (step s (allocates b)) b es (rw newer at next) all'.0 all'.1)
        ])
]

-- The replay of a reconnect can overtake a newer roster: it is read under the lock and written
-- after it. Then the game hears of the smaller roster last, though the cache holds the larger.
pub stale_replay_overtakes :
    (a b : Allocation) (conn now : ℕ)
    → a.match_id ≡ b.match_id
    → a.players_expected ≤ℤ b.players_expected
    → let s =
        run listen
          (allocates a ∷ accepts conn now ∷ allocates b ∷ writes 0 true ∷ replays true ∷ []) in
      (s.wire ≡ (conn, allocated_frame a) ∷ (conn, allocated_frame b) ∷ [])
      × (s.last_allocated ≡ some b)
unfolding run step listen send_allocated is_older to_current take_send write_send accept replay_next
    write_to
stale_replay_overtakes a b conn now m le = ground (arith, is_older-same a b m)
