-- ===== src/Matchmaker/Compat/Runs.antt =====
-- Versions and tables at concrete inputs.
use birdman.Base.{
  List, [], atoi, before, codes, false, itoa, none, refl, some, split, split_n, trim_prefix,
  trim_space, true, ◌↔◌, ◌∷◌, ◌≡◌, ◌⊎◌,
}
use birdman.Matchmaker.Compat.{
  Compat, Override, Semver, bucket_of, client_overrides, compatible, new_compat, num, parse_pattern,
  parse_semver,
}
use birdman.Matchmaker.Compat.Buckets.{bucket_of-compatible}
use birdman.Matchmaker.Compat.Rules.{allowed_by, compatible_lem}

-- Clients of any 1.3 may also play on 1.4 servers, and those of 1.3.9 on any 2.
abbrev table : List Override
table =
    record { client = codes "1.3.x"; servers = codes "1.4" ∷ [] }
    ∷ record { client = codes "v1.3.9"; servers = codes "2.x" ∷ [] }
    ∷ []

compiled : Compat
compiled =
    record {
      client = record { major = 1; minor = 3; patch = 0; any_minor = false; any_patch = true };
      servers =
          record { major = 1; minor = 4; patch = 0; any_minor = false; any_patch = true } ∷ [];
    }
    ∷ record {
      client = record { major = 1; minor = 3; patch = 9; any_minor = false; any_patch = false };
      servers = record { major = 2; minor = 0; patch = 0; any_minor = true; any_patch = true } ∷ [];
    }
    ∷ []

table_compiles : new_compat table ≡ some compiled
unfolding new_compat parse_pattern trim_space trim_prefix split atoi compiled
table_compiles = refl

literal_under_wildcard : parse_pattern (codes "1.x.3") ≡ none
unfolding parse_pattern trim_space trim_prefix split atoi
literal_under_wildcard = refl

bucket_1_3 : bucket_of compiled (codes " v1.3.2-rc1") ≡ some (codes "1.3+o0")
unfolding bucket_of compiled parse_semver num atoi split_n before trim_space trim_prefix itoa
    client_overrides
bucket_1_3 = refl

bucket_1_3_0 : bucket_of compiled (codes "1.3") ≡ some (codes "1.3+o0")
unfolding bucket_of compiled parse_semver num atoi split_n before trim_space trim_prefix itoa
    client_overrides
bucket_1_3_0 = refl

bucket_of-compatible_example :
    compatible compiled (codes " v1.3.2-rc1") (codes "1.4.0")
    ≡ compatible compiled (codes "1.3") (codes "1.4.0")
bucket_of-compatible_example =
    bucket_of-compatible compiled (codes " v1.3.2-rc1") (codes "1.3") (codes "1.3+o0") bucket_1_3
      bucket_1_3_0 (codes "1.4.0")

compatible_lem_example : (compatible compiled (codes "1.3.9") (codes "2.7.1") ≡ true) ↔ (
    (cv sv : Semver) × (parse_semver (codes "1.3.9") ≡ some cv)
    × (parse_semver (codes "2.7.1") ≡ some sv)
    × (((cv.major ≡ sv.major) × (cv.minor ≡ sv.minor)) ⊎ (allowed_by compiled cv sv ≡ true)))
compatible_lem_example = compatible_lem compiled (codes "1.3.9") (codes "2.7.1")

override_allows : compatible compiled (codes "1.3.9") (codes "2.7.1") ≡ true
unfolding compatible compiled parse_semver num atoi split_n before trim_space trim_prefix
    client_overrides
override_allows = refl
