-- ===== src/Loops/Nesting.antt =====
-- The labels of nested loops.
use jkvlang.Prelude.{ℕ, ◌≤◌, ◌<◌, ◌≡◌, ◌≢◌, ◌↔◌, [], ◌∷◌, arith}
use jkvlang.Prelude.Outcomes.{ok, Ends-ok}
use jkvlang.Code.Asm.{Asm, new_label}
use jkvlang.Loops.{
  LoopStack, loop_level, push_loop_block, push_for_block, pop_loop_block, get_loop_start_label,
  get_loop_exit_label, get_loop_break_label,
}

-- A number is a label given after the first `below` ones and among the first `upto`.
abbrev Between : ℕ → ℕ → ℕ → Type 0
Between below upto n = (below < n) × (n ≤ upto)

-- The labels of a loop are among the first `n`, its start and its exit differ, and all of them are
-- later than those of the loops around it.
abbrev pub Nested : ℕ → LoopStack → Type 0
Nested n [] = Unit
Nested n (l ∷ ls) =
    (l.start_label ≢ l.exit_label)
    × ((below : ℕ) × (Between below n l.start_label
          × Between below n l.exit_label
          × Between below n l.break_label)
        × Nested below ls)

-- What the compiler does to the stack, and to the labels in between.
pub data Reachable : LoopStack → Asm → Type 0 where
  start : (a : Asm) → Reachable [] a
  push_loop :
      (s : LoopStack) (a : Asm)
      → Reachable s a
      → Reachable (push_loop_block s a).0 (push_loop_block s a).1
  push_for :
      (s : LoopStack) (a : Asm)
      → Reachable s a
      → Reachable (push_for_block s a).0 (push_for_block s a).1
  pop : (s t : LoopStack) (a : Asm) → Reachable s a → pop_loop_block s ≡ ok t → Reachable t a
  -- Other code, which takes new labels alone.
  other : (s : LoopStack) (a b : Asm) → Reachable s a → a.label_no ≤ b.label_no → Reachable s b

Nested-weaken : (m n : ℕ) (s : LoopStack) → m ≤ n → Nested m s → Nested n s
Nested-weaken m n [] h k = tt
Nested-weaken m n (l ∷ ls) h (d, (below, (p, q, r), k)) =
    (d, (below, ((p.0, omega arith), (q.0, omega arith), (r.0, omega arith)), k))

Nested-pop : (n : ℕ) (s t : LoopStack) → pop_loop_block s ≡ ok t → Nested n s → Nested n t
unfolding pop_loop_block
Nested-pop n [] t e h = cc
Nested-pop n (l ∷ ls) t e (d, (below, (p, q, r), k)) =
    Ends-ok (Nested n) (ok ls) t e (Nested-weaken below n ls (omega arith) k)

-- In every state that the compiler reaches, the labels of each loop are later than those of all
-- loops around it, and its start and exit labels differ.
pub Reachable-Nested : (s : LoopStack) (a : Asm) → Reachable s a → Nested a.label_no s
unfolding push_loop_block push_for_block new_label
Reachable-Nested _ _ (start a) = tt
Reachable-Nested _ _ (push_loop s a h) = (
  omega arith,
  (
    a.label_no,
    ((omega arith, omega arith), (omega arith, omega arith), (omega arith, omega arith)),
    Reachable-Nested s a h,
  ),
)
Reachable-Nested _ _ (push_for s a h) = (
  omega arith,
  (
    a.label_no,
    ((omega arith, omega arith), (omega arith, omega arith), (omega arith, omega arith)),
    Reachable-Nested s a h,
  ),
)
Reachable-Nested _ _ (pop s t a h e) = Nested-pop a.label_no s t e (Reachable-Nested s a h)
Reachable-Nested _ _ (other s a b h le) =
    Nested-weaken a.label_no b.label_no s le (Reachable-Nested s a h)

none_is_zero :
    (n : ℕ) (s : LoopStack)
    → Nested n s
    → ((loop_level s ≡ 0) ↔ (get_loop_start_label s ≡ 0))
      × ((loop_level s ≡ 0) ↔ (get_loop_exit_label s ≡ 0))
      × ((loop_level s ≡ 0) ↔ (get_loop_break_label s ≡ 0))
unfolding loop_level get_loop_start_label get_loop_exit_label get_loop_break_label
none_is_zero n [] h = ground arith
none_is_zero n (l ∷ ls) (d, (below, (p, q, r), k)) = ground arith

-- In every state that the compiler reaches, the three getters give 0 outside all loops and there
-- alone, so that 0 never is the label of a loop.
pub Reachable-zero :
    (s : LoopStack) (a : Asm)
    → Reachable s a
    → ((loop_level s ≡ 0) ↔ (get_loop_start_label s ≡ 0))
      × ((loop_level s ≡ 0) ↔ (get_loop_exit_label s ≡ 0))
      × ((loop_level s ≡ 0) ↔ (get_loop_break_label s ≡ 0))
Reachable-zero s a h = none_is_zero a.label_no s (Reachable-Nested s a h)
