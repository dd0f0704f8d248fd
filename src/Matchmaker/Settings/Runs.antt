-- ===== src/Matchmaker/Settings/Runs.antt =====
-- An empty configuration.
use birdman.Base.{negsuc, none, pos, refl, ◌≡◌}
use birdman.Matchmaker.Compat.{}
use birdman.Matchmaker.Settings.{Config, retention}

abbrev empty : Config
empty = record {
  tick = pos 0;
  widen_after = pos 0;
  ticket_ttl = negsuc 4;
  join_token_ttl = pos 0;
  compat = none;
}

keeps_five_minutes : retention 120000000000 ≡ 300000000000
unfolding retention
keeps_five_minutes = refl
