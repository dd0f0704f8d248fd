-- ===== src/Matchmaker/Merge/Runs.antt =====
-- A ticket that another master has cancelled.
use birdman.Base.{Bool, [], false, none, not, refl, some, some_eq, subst, true, ◌≡◌}
use birdman.Matchmaker.Queue.{Status, Ticket, is_queued}
use birdman.Matchmaker.Merge.{merged, merged_closes}

abbrev ticket : Status → Bool → Ticket
ticket status done = record {
  id = "t1";
  project = "p";
  env = "prod";
  player_id = "ann";
  client_version = "1.3.0";
  game_mode = "";
  bucket = "1.3";
  regions = [];
  created_at = 0;
  members = [];
  party_id = "";
  party_revision = 0;
  request_id = "";
  fingerprint = 0;
  payload = "";
  status = status;
  result = none;
  terminal_at = 0;
  done = done;
}

before_it :
    (t : Ticket)
    → some (ticket Status.queued false) ≡ some t
    → (t.done ≡ not (is_queued t.status)) × (false ≡ true → is_queued t.status ≡ true)
before_it t e =
    subst
      (λ (z : Ticket).
        (z.done ≡ not (is_queued z.status)) × (false ≡ true → is_queued z.status ≡ true))
      (some_eq e) (refl, (λ h. refl))

merged_closes_cancelled :
    ((merged (some (ticket Status.queued false)) (ticket Status.cancelled false)).0.done ≡ true)
    × ((merged (some (ticket Status.queued false)) (ticket Status.cancelled false)).1 ≡ false)
merged_closes_cancelled =
    merged_closes (some (ticket Status.queued false)) (ticket Status.cancelled false) before_it
