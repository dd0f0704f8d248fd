-- ===== src/Matchmaker/Snapshot.antt =====
-- What the API layer gets of a ticket (`Ticket` and `snapshot`, master/internal/matchmaker/
-- matchmaker.go): neither its bucket nor its payload, fingerprint or channel.
use birdman.Base.{List, Option, String, ℕ}
use birdman.Matchmaker.Groups.{RegionPing}
use birdman.Matchmaker.Queue.{Member, Result, Status, Ticket}

pub record Snapshot : Type 0 where
  pub id : String
  pub project : String
  pub env : String
  pub player_id : String
  pub client_version : String
  pub game_mode : String
  pub regions : List RegionPing
  pub status : Status
  pub created_at : ℕ
  pub result : Option Result
  pub members : List Member
  pub party_id : String
  pub party_revision : ℕ
  pub client_request_id : String

unfoldable pub snapshot : Ticket → Snapshot
snapshot t = record {
  id = t.id;
  project = t.project;
  env = t.env;
  player_id = t.player_id;
  client_version = t.client_version;
  game_mode = t.game_mode;
  regions = t.regions;
  status = t.status;
  created_at = t.created_at;
  result = t.result;
  members = t.members;
  party_id = t.party_id;
  party_revision = t.party_revision;
  client_request_id = t.request_id;
}
