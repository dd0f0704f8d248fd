-- ===== src/Base/Words.antt =====
-- Messages: `fmt.Sprintf` of texts and of numbers that are not negative.
use Prim.Native.Nat.{ℕ}
use Prim.Native.String.{String, ◌++◌}
use mathlib.Core.List.{List, [], ◌∷◌, map}
use birdman.Base.Tests.{if◌then◌else◌, ◌==◌}
use birdman.Base.Texts.{itoa}

unfoldable pub concat : List String → String
concat [] = ""
concat (s ∷ ss) = s ++ concat ss

unfoldable pub digit_string : ℕ → String
digit_string c =
    if c == b'0'
    then "0"
    else if c == b'1'
    then "1"
    else if c == b'2'
    then "2"
    else if c == b'3'
    then "3"
    else if c == b'4'
    then "4"
    else if c == b'5'
    then "5"
    else if c == b'6'
    then "6"
    else if c == b'7'
    then "7"
    else if c == b'8'
    then "8"
    else "9"

-- `%d`.
unfoldable pub decimal : ℕ → String
unfolding concat digit_string itoa
decimal n = concat (map digit_string (itoa n))
