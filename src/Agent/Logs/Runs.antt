-- ===== src/Agent/Logs/Runs.antt =====
-- Runs of the log stream.
use birdman.Base.{List, [], arith, false, none, refl, some, true, ℕ, ◌∷◌, ◌≡◌, ◌≢◌}
use birdman.Agent.Logs.{
  Files, chunks, drop_return, emitted, fill, fill_from, fits_buffer, follow_file, read_lines,
  remember, split_lines, stream, tail_chunks,
}
use birdman.Agent.Logs.Following.{Growth, Rotated, polls_of}
use birdman.Agent.Logs.Tails.{IsLine, stream-last}

abbrev two_files : Files
two_files = record {
  older = (97 ∷ 10 ∷ 98 ∷ 10 ∷ []) ∷ [];
  active = some (99 ∷ 10 ∷ []);
  size_after = some 4;
}

abbrev two_files_lines : List (List (List ℕ))
two_files_lines = ((97 ∷ []) ∷ (98 ∷ []) ∷ []) ∷ ((99 ∷ []) ∷ []) ∷ []

line : (b : ℕ) → b ≢ 10 → b ≢ 13 → IsLine (b ∷ [])
line b h k = (((h, k), tt), omega arith)

stream-last_example : stream two_files 2 false [] ≡ emitted (98 ∷ 10 ∷ 99 ∷ 10 ∷ [])
stream-last_example =
    stream-last two_files two_files_lines 2 refl
      (
        (line 97 (omega arith) (omega arith), (line 98 (omega arith) (omega arith), tt)),
        ((line 99 (omega arith) (omega arith), tt), tt),
      )
      (omega arith) (omega arith) (omega arith)

abbrev growing : List Growth
growing = record { before = 100 ∷ []; between = 101 ∷ []; opens = false } ∷ []

abbrev fresh_file : List Rotated
fresh_file = record { content = 102 ∷ []; growths = [] } ∷ []

-- With a tail, what is written after the tail was read and before the size is read is not sent.
tail_gap : stream two_files 1 true (polls_of (99 ∷ 10 ∷ 120 ∷ 10 ∷ []) []) ≡ emitted (99 ∷ 10 ∷ [])
unfolding stream tail_chunks fill_from fill remember chunks read_lines split_lines drop_return
    fits_buffer follow_file
tail_gap = refl

-- An empty line costs nothing, a last line without its end is sent with one.
unfinished_line :
    stream (record { older = []; active = some (10 ∷ 97 ∷ 13 ∷ []); size_after = none }) 5 false []
    ≡ emitted (10 ∷ 97 ∷ 10 ∷ [])
unfolding stream tail_chunks fill_from fill remember chunks read_lines split_lines drop_return
    fits_buffer
unfinished_line = refl
