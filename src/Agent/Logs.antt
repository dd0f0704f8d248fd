-- ===== src/Agent/Logs.antt =====
-- The stream of a server's log, agent/internal/logrot/stream.go: the last lines of the log files, and
-- the follow of the file that grows. A file that was compressed is given by its plain bytes, the
-- files read first open, and `emit` does not fail: where it does, the stream ends with the bytes up
-- to there.
mod Following
mod Tails
mod Runs
use birdman.Base.{
  Bool, List, Option, [], drop, false, if◌then◌else◌, leb, length, ltb, map, none, not, some, true,
  ℕ, ◌&&◌, ◌++◌, ◌+◌, ◌==◌, ◌∷◌,
}

abbrev pub Byte : Type 0
Byte = ℕ

abbrev pub flatten {ℓ} : {A : Type ℓ} → List (List A) → List A
flatten [] = []
flatten (x ∷ xs) = x ++ flatten xs

abbrev pub max_tail_lines : ℕ
max_tail_lines = 10000

abbrev pub chunk_size : ℕ
chunk_size = 32768

abbrev pub max_line : ℕ
max_line = 1048576

-- `bufio.Scanner` as `readLines` uses it: the lines end at byte 10, a last line may lack its end.
unfoldable pub split_lines : List Byte → List (List Byte)
split_lines [] = []
split_lines (b ∷ bs) =
    let rest = split_lines bs in
    if b == 10 then [] ∷ rest else elim rest [ [] ↦ (b ∷ []) ∷ [] | l ∷ ls ↦ (b ∷ l) ∷ ls ]

-- The scanner drops a byte 13 at the end of a line.
unfoldable pub drop_return : List Byte → List Byte
drop_return [] = []
drop_return (b ∷ bs) =
    let rest = drop_return bs in elim bs [ [] ↦ if b == 13 then [] else b ∷ [] | c ∷ cs ↦ b ∷ rest ]

unfoldable pub fits_buffer : List (List Byte) → Bool
fits_buffer [] = true
fits_buffer (l ∷ ls) = ltb (length l) max_line && fits_buffer ls

-- A line that does not fit the scanner's buffer is an error.
unfoldable pub read_lines : List Byte → Option (List (List Byte))
read_lines bytes =
    let ls = split_lines bytes in if fits_buffer ls then some (map drop_return ls) else none

-- The ring of the last `n` lines: `append(ring[1:], cp)` when it is full.
unfoldable pub remember {ℓ} : {A : Type ℓ} → ℕ → List A → A → List A
remember n ring line = if length ring == n then drop 1 ring ++ line ∷ [] else ring ++ line ∷ []

unfoldable pub fill {ℓ} : {A : Type ℓ} → ℕ → List A → List A → List A
fill n ring [] = ring
fill n ring (l ∷ ls) = fill n (remember n ring l) ls

-- The files in their order; none if one of them has a line that is too long.
unfoldable pub fill_from : ℕ → List (List Byte) → List (List Byte) → Option (List (List Byte))
fill_from n ring [] = some ring
fill_from n ring (src ∷ srcs) = elim (read_lines src) [
  | none ↦ none
  | some ls ↦ fill_from n (fill n ring ls) srcs
]

-- The chunks that the lines of the ring go out in.
unfoldable pub chunks : List Byte → List (List Byte) → List (List Byte)
chunks buf [] = if ltb 0 (length buf) then buf ∷ [] else []
chunks buf (l ∷ ls) =
    let longer = buf ++ l ++ 10 ∷ [] in
    let flushed = chunks [] ls in
    let kept = chunks longer ls in if leb chunk_size (length longer) then longer ∷ flushed else kept

-- The chunks of the last `tail_lines` lines, for `tail_lines` above 0.
unfoldable pub tail_chunks : ℕ → List (List Byte) → Option (List (List Byte))
tail_chunks tail_lines sources =
    elim (fill_from (if ltb max_tail_lines tail_lines then max_tail_lines else tail_lines) []
      sources) [ none ↦ none | some ring ↦ some (chunks [] ring) ]

-- What a poll of `followFile` finds: no file, with or without its compressed form; or its size, and
-- then its bytes when they are read, none if it does not open.
pub data Poll : Type 0 where
  missing : Bool → Poll
  present : ℕ → Option (List Byte) → Poll

-- The offset of a file that is seen first, or that has shrunk, is 0.
abbrev pub start_of : Option ℕ → ℕ → ℕ
start_of none size = 0
start_of (some o) size = if ltb size o then 0 else o

-- The loop of `followFile`: what it emits.
unfoldable pub follow_file : Option ℕ → List Poll → List Byte
follow_file offset [] = []
follow_file offset (missing gz ∷ polls) =
    let rest = follow_file offset polls in
    elim offset [ none ↦ rest | some o ↦ if gz then [] else rest ]
follow_file offset (present size content ∷ polls) =
    let o = start_of offset size in
    let waited = follow_file (some o) polls in
    if size == o then waited else elim content [
      | none ↦ waited
      | some bytes ↦ drop o bytes ++ follow_file (some (o + length (drop o bytes))) polls
    ]

pub data Streamed : Type 0 where
  no_logs line_too_long : Streamed
  emitted : List Byte → Streamed

-- `Stream`: the older files; the active file as it is read and its size when the tail was sent.
pub record Files : Type 0 where
  pub older : List (List Byte)
  pub active : Option (List Byte)
  pub size_after : Option ℕ

abbrev pub active_source : Option (List Byte) → List (List Byte)
active_source none = []
active_source (some bytes) = bytes ∷ []

abbrev followed : Bool → Option ℕ → List Poll → List Byte
followed true offset polls = follow_file offset polls
followed false offset polls = []

unfoldable pub stream : Files → ℕ → Bool → List Poll → Streamed
stream fs tail_lines follow polls =
    let sources = fs.older ++ active_source fs.active in
    let after_tail = followed follow fs.size_after polls in
    let offset : Option ℕ = elim fs.active [ none ↦ none | some bytes ↦ some (length bytes) ] in
    let after_all = followed follow offset polls in
    if not follow && length sources == 0
    then no_logs
    else if ltb 0 tail_lines
    then elim (tail_chunks tail_lines sources) [
      | none ↦ line_too_long
      | some out ↦ emitted (flatten out ++ after_tail)
    ]
    else emitted (flatten sources ++ after_all)
