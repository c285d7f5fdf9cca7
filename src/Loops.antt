-- ===== src/Loops.antt =====
-- state.go: the stack of the loops around the current statement, with their labels.
pub mod Nesting
use jkvlang.Prelude.{ℕ, List, [], ◌∷◌, length}
use jkvlang.Prelude.Outcomes.{Outcome, ok, panic}
use jkvlang.Code.Asm.{Asm, new_label}

pub record LoopInfo : Type 0 where
  pub start_label : ℕ
  pub exit_label : ℕ
  pub break_label : ℕ

-- `LoopStack`, from its last entry on.
abbrev pub LoopStack : Type 0
LoopStack = List LoopInfo

-- `LoopLevel` and `GetLoopLevel`
unfoldable pub loop_level : LoopStack → ℕ
loop_level s = length s

unfoldable pub push_loop_block : LoopStack → Asm → LoopStack × Asm
unfolding new_label
push_loop_block s a =
    let (start, b) = new_label a in
    let (exit, c) = new_label b in
    let (brk, d) = new_label c in
    (record { start_label = start; exit_label = exit; break_label = brk } ∷ s, d)

unfoldable pub push_for_block : LoopStack → Asm → LoopStack × Asm
unfolding new_label
push_for_block s a =
    let (start, b) = new_label a in
    let (end, c) = new_label b in
    (record { start_label = start; exit_label = end; break_label = start } ∷ s, c)

unfoldable pub pop_loop_block : LoopStack → Outcome LoopStack
pop_loop_block [] = panic
pop_loop_block (l ∷ ls) = ok ls

unfoldable pub get_loop_start_label : LoopStack → ℕ
get_loop_start_label [] = 0
get_loop_start_label (l ∷ ls) = l.start_label

unfoldable pub get_loop_exit_label : LoopStack → ℕ
get_loop_exit_label [] = 0
get_loop_exit_label (l ∷ ls) = l.exit_label

unfoldable pub get_loop_break_label : LoopStack → ℕ
get_loop_break_label [] = 0
get_loop_break_label (l ∷ ls) = l.break_label
