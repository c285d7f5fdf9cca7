-- ===== src/Code/Asm.antt =====
-- code/code.go: the state of the assembly writer, and where its text goes.
pub mod Laws
use jkvlang.Prelude.{
  ℕ, zero, suc, ◌+◌, ◌-◌, Bool, true, false, List, [], ◌∷◌, ◌++◌, length, take, drop, ltb, ◌==◌,
  if◌then◌else◌, get_elem?, Option, none, some,
}
use jkvlang.Prelude.Outcomes.{Outcome, ok, panic, ◌>>=◌}
use jkvlang.Prelude.Int.{ℤ, pos}
use jkvlang.Code.Lines.{Line}

pub data StackState : Type 0 where
  undef sp ax : StackState

-- The global variables of the package. `output` is the file's content; the last entries of
-- `arg_code` and `cleanup_code` are their tops.
pub record Asm : Type 0 where
  pub state : StackState
  pub label_no : ℕ
  pub local_sp : ℤ
  pub next_line_num : ℕ
  pub line_num : ℕ
  pub output : List Line
  pub arg_code : List (List Line)
  pub cleanup_code : List (List Line)
  pub no_code : ℕ

unfoldable pub set_ax : Asm → Asm
set_ax a = record a { state = ax }

unfoldable pub set_sp : Asm → Asm
set_sp a = record a { state = sp }

unfoldable pub set_undef : Asm → Asm
set_undef a = record a { state = undef }

abbrev is_ax : StackState → Bool
is_ax ax = true
is_ax _ = false

abbrev is_sp : StackState → Bool
is_sp sp = true
is_sp _ = false

unfoldable pub ax_is_tos : Asm → Bool
ax_is_tos a = is_ax a.state

unfoldable pub sp_is_tos : Asm → Bool
sp_is_tos a = is_sp a.state

-- `NewAsmFile`, when the file could be created.
unfoldable pub new_asm_file : Asm → Asm
new_asm_file a = record a {
  next_line_num = 1;
  line_num = 1;
  output = [];
  arg_code = [];
  cleanup_code = [];
}

unfoldable pub new_label : Asm → ℕ × Asm
new_label a = (a.label_no + 1, record a { label_no = a.label_no + 1 })

unfoldable pub new_arg_code : Asm → Asm
new_arg_code a = record a { arg_code = a.arg_code ++ [] ∷ [] }

unfoldable pub push_cleanup_code : Asm → Asm
push_cleanup_code a = record a { cleanup_code = a.cleanup_code ++ [] ∷ [] }

-- The last entry replaced by `f` of it; no entry is a panic.
unfoldable pub change_last : (List Line → List Line) → List (List Line) → Outcome (List (List Line))
change_last f [] = panic
change_last f (x ∷ []) = ok (f x ∷ [])
change_last f (x ∷ y ∷ ys) = change_last f (y ∷ ys) >>= λ r. ok (x ∷ r)

unfoldable pub set_cleanup_code : List Line → Asm → Outcome Asm
set_cleanup_code [] a = ok a
set_cleanup_code (l ∷ ls) a =
    change_last (λ old. l ∷ ls) a.cleanup_code >>= λ r. ok (record a { cleanup_code = r })

-- The loop of `OutputCleanupCode`, which counts `n` down to 0. The list is the top of the cleanup
-- code, from the last entry on; an entry that is not empty goes to the last entry of `ArgCode`.
unfoldable pub cleanup_loop :
    ℕ → List (List Line) → List (List Line) → Outcome (ℕ × List (List Line))
unfolding change_last
cleanup_loop zero tops args = ok (0, args)
cleanup_loop (suc n) [] args = panic
cleanup_loop (suc n) ([] ∷ tops) args = cleanup_loop n tops args
cleanup_loop (suc n) ((l ∷ ls) ∷ tops) args =
    change_last (λ a. a ++ l ∷ ls) args >>= λ args'. cleanup_loop n tops args'

abbrev pub backwards : List (List Line) → List (List Line)
backwards [] = []
backwards (x ∷ xs) = backwards xs ++ x ∷ []

-- `OutputCleanupCode`: its last line cuts `n` entries off, with the `n` that the loop left.
unfoldable pub output_cleanup_code : ℕ → Asm → Outcome Asm
unfolding cleanup_loop
output_cleanup_code n a =
    let run = cleanup_loop n (backwards a.cleanup_code) a.arg_code >>= λ r. ok (record a {
      arg_code = r.1;
      cleanup_code = take (length a.cleanup_code - r.0) a.cleanup_code;
    }) in
    if ltb (length a.cleanup_code) n then panic else run

abbrev pub concat : List (List Line) → List Line
concat [] = []
concat (x ∷ xs) = x ++ concat xs

-- `ConsArgCode`: the last `count` entries become one.
unfoldable pub cons_arg_code : ℕ → Bool → Asm → Asm
cons_arg_code zero reverse a = a
cons_arg_code (suc n) reverse a =
    let start = length a.arg_code - suc n in
    let args = drop start a.arg_code in
    let txt = if reverse then concat (backwards args) else concat args in
    if ltb start (length a.arg_code)
    then record a { arg_code = take start a.arg_code ++ txt ∷ [] }
    else a

unfoldable pub output_arg_code : Asm → Outcome Asm
output_arg_code a =
    if ltb 0 a.no_code
    then ok a
    else if ltb 1 (length a.arg_code)
    then panic
    else ok (record a { output = a.output ++ concat a.arg_code; arg_code = [] })

-- Text at the end of the last entry of `ArgCode`, or of the file if there is no entry.
unfoldable pub append_last : List Line → List (List Line) → List (List Line)
append_last txt [] = []
append_last txt (x ∷ []) = (x ++ txt) ∷ []
append_last txt (x ∷ y ∷ ys) = x ∷ append_last txt (y ∷ ys)

-- `Write`; its result, the length of the text, serves the layout of comments alone.
unfoldable pub write : List Line → Asm → Asm
unfolding append_last
write txt a =
    if ltb 0 a.no_code
    then a
    else if length a.arg_code == 0
    then record a { output = a.output ++ txt }
    else record a { arg_code = append_last txt a.arg_code }
