-- ===== src/Agent/Link/CmdCache.antt =====
-- The cache of executed command ids (`cmdCache` of agent/internal/link/client.go): a command whose
-- id it knows is acknowledged again and not executed again. The set is the list of its keys.
pub mod Window
mod Runs
use birdman.Base.{
  Bool, List, String, [], contains, erase_all, false, get_or, if◌then◌else◌, length, nat_eq,
  replicate, set, string_eq, true, ℕ, ◌%◌, ◌+◌, ◌∷◌,
}

pub record CmdCache : Type 0 where
  pub set : List String
  pub ring : List String
  pub next : ℕ

unfoldable pub new_cmd_cache : ℕ → CmdCache
new_cmd_cache n = record { set = []; ring = replicate n ""; next = 0 }

-- `add`: the new cache, and whether the id was new.
unfoldable pub add : CmdCache → String → CmdCache × Bool
add c id =
    if contains id c.set
    then (c, false)
    else let old = get_or c.ring c.next "" in
      (
        record {
          set = id ∷ (if string_eq.beq old "" then c.set else erase_all old c.set);
          ring = set c.ring c.next id;
          next = (c.next + 1) % length c.ring;
        },
        true,
      )

unfoldable pub add_all : CmdCache → List String → CmdCache
add_all c [] = c
add_all c (id ∷ ids) = add_all (add c id).0 ids
