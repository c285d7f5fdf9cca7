-- ===== src/Compare.antt =====
-- compare.go: `FilesAreEqual`, with the contents of both files.
pub mod Correct
use jkvlang.Prelude.{
  ℕ, zero, suc, ◌+◌, List, [], ◌∷◌, Text, text_eq, Option, none, some, length, ◌==◌, if◌then◌else◌,
}
use jkvlang.Prelude.Outcomes.{Outcome, ok, panic, out_of_fuel}

-- What it returns: nil, an error of `Open` for the first or second file, the end of one file, or
-- the number of a line that differs.
pub data Verdict : Type 0 where
  equal : Verdict
  no_first : Verdict
  no_second : Verdict
  ended_early : Verdict
  differs : ℕ → Verdict

abbrev pub newline : ℕ
newline = 10

abbrev behind : ℕ → Option (Text × Text) → Option (Text × Text)
behind c none = none
behind c (some (line, rest)) = some (c ∷ line, rest)

-- `ReadString` of the reader: the text up to a newline, and what is left; none is the error at the
-- end of the file, when no newline is left.
unfoldable pub read_line : Text → Option (Text × Text)
read_line [] = none
read_line (c ∷ cs) =
    let rest = read_line cs in if c == newline then some (c ∷ [], cs) else behind c rest

abbrev pub compare_lines :
    (Text → Text → Outcome Verdict)
    → ℕ
    → Option (Text × Text)
    → Option (Text × Text)
    → Outcome Verdict
compare_lines go n none none = ok equal
compare_lines go n none (some r) = ok ended_early
compare_lines go n (some l) none = ok ended_early
compare_lines go n (some l) (some r) = if text_eq l.0 r.0 then go l.1 r.1 else ok (differs n)

-- The loop, at the line `n`.
unfoldable pub compare_loop : ℕ → ℕ → Text → Text → Outcome Verdict
unfolding read_line
compare_loop zero n a b = out_of_fuel
compare_loop (suc fuel) n a b =
    compare_lines (compare_loop fuel (n + 1)) n (read_line a) (read_line b)

-- `FilesAreEqual`, with none for a file that cannot be opened.
unfoldable pub files_are_equal : Option Text → Option Text → Outcome Verdict
unfolding compare_loop
files_are_equal none b = ok no_first
files_are_equal (some a) none = ok no_second
files_are_equal (some a) (some b) = compare_loop (length a + 1) 1 a b
