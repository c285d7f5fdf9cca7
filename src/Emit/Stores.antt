-- ===== src/Emit/Stores.antt =====
-- The assignments of an integer in rax to a variable of 64 bits.
use mathlib.Core.Path.{subst}
use jkvlang.Prelude.{
  ℕ, ◌+◌, ◌-◌, ◌*◌, ◌/◌, ◌%◌, ◌^◌, ◌<◌, ◌≡◌, refl, ap, Bool, false, List, [], ◌∷◌, ◌++◌, Option,
  none, some, arith,
}
use jkvlang.Prelude.Outcomes.{ok, Returns, Returns-bind, ◌>>=◌}
use jkvlang.Prelude.Int.{ℤ, pos}
use jkvlang.Token.Kind
use jkvlang.Token.Kind.{Token}
use jkvlang.Code.Lines
use jkvlang.Code.Lines.{Mnemonic, Line, instr, reg, blank, bp_rel, rax, rcx}
use jkvlang.Code.Asm.{Asm, ax, set_sp}
use jkvlang.Code.Asm.Laws.{emitted}
use jkvlang.Emit.Instr.{sp_change, emit, emit_all, bp_relative, ax_name}
use jkvlang.Emit.Ops.{Failable, no_error, token_op}
use jkvlang.Emit.Machine.{Machine, word}
use jkvlang.Emit.Writes.{Wrote, AllInstr, emit-Wrote, emit_all-Wrote}
use jkvlang.Emit.Balance.{in_rax}
use jkvlang.Emit.AssignInts.{variable_code, emit_assign_variable_expression_int}
use jkvlang.Emit.Frame.{Frame, store, run_frame}

-- The text behind that of `a` that takes a frame with `y` in rax to one where the variable at `adr`
-- holds `f` of its old value and `y`, and the other variables what they held.
abbrev pub Stores : Asm → ℤ → (ℕ → ℕ → ℕ) → ℕ → Asm → Type 0
Stores a adr f y b =
    (ls : List Line) × (emitted b ≡ emitted a ++ ls)
    × ((m : Machine)
        → (slot : ℤ → ℕ)
        → (h : Frame) × (run_frame ls (record { machine = record m { a = y }; slot = slot })
            ≡ some h)
          × (h.slot ≡ store adr (f (slot adr) y) slot))

-- What the assignments mean for the value of the variable, on the left, and the one assigned.
abbrev pub assign_meaning : Token → Option (ℕ → ℕ → ℕ)
assign_meaning Kind.tok_assign = some (λ x y. y)
assign_meaning Kind.tok_plus_assign = some (λ x y. (x + y) % word)
assign_meaning Kind.tok_minus_asgn = some (λ x y. (x + (word - y)) % word)
assign_meaning Kind.tok_mult_asgn = some (λ x y. y * x % word)
assign_meaning op = none

abbrev function_of : Option (ℕ → ℕ → ℕ) → ℕ → ℕ → ℕ
function_of none = λ x y. 0
function_of (some f) = f

same_function :
    (g f : ℕ → ℕ → ℕ) (a : Asm) (adr : ℤ) (y : ℕ) (o : Failable)
    → some g ≡ some f
    → Returns (λ r. (r.0 ≡ false) × Stores a adr g y r.1) o
    → Returns (λ r. (r.0 ≡ false) × Stores a adr f y r.1) o
same_function g f a adr y o e h =
    subst (λ k. Returns (λ r. (r.0 ≡ false) × Stores a adr k y r.1) o) (ap function_of e) h

unmoved : (a b : Asm) (ls : List Line) → Wrote ls a b → emitted (set_sp b) ≡ emitted a ++ ls
unfolding set_sp
unmoved a b ls w = w.text

-- The text behind that of `a` that takes a frame with `y` in rax and `x` in the variable at `adr` to
-- one where the variable holds `y / x`, and the other variables what they held.
abbrev pub Divides : Asm → ℤ → ℕ → ℕ → Asm → Type 0
Divides a adr x y b =
    (ls : List Line) × (emitted b ≡ emitted a ++ ls)
    × ((m : Machine)
        → (slot : ℤ → ℕ) → slot adr ≡ x
        → (h : Frame) × (run_frame ls (record { machine = record m { a = y }; slot = slot })
            ≡ some h)
          × (h.slot ≡ store adr (y / x) slot))

abbrev mult_code : Lines.Operand → List Line
mult_code v = instr Lines.op_imul (reg rax) v ∷ instr Lines.op_mov v (reg rax) ∷ []

abbrev division_code : Lines.Operand → List Line
division_code v =
    instr Lines.op_mov (reg rcx) v
    ∷ instr Lines.op_cqo blank blank
    ∷ instr Lines.op_idiv (reg rcx) blank
    ∷ instr Lines.op_mov v (reg rax)
    ∷ []

-- What a text does to a frame with `y` in rax.
abbrev Runs : List Line → ℤ → (ℕ → ℕ → ℕ) → ℕ → Type 0
Runs ls adr f y =
    (m : Machine)
    → (slot : ℤ → ℕ)
    → (h : Frame) × (run_frame ls (record { machine = record m { a = y }; slot = slot }) ≡ some h)
      × (h.slot ≡ store adr (f (slot adr) y) slot)

-- One instruction on the variable.
single-Stores :
    (i : Mnemonic) (f : ℕ → ℕ → ℕ) (a : Asm) (adr : ℤ) (y : ℕ)
    → sp_change i (bp_rel adr) (reg rax) ≡ some (pos 0)
    → Runs (instr i (bp_rel adr) (reg rax) ∷ []) adr f y
    → a.no_code ≡ 0
    → Returns
        (λ (r : Bool × Asm). (r.0 ≡ false) × Stores a adr f y r.1)
        (emit i (bp_rel adr) (reg rax) a >>= λ c. ok (false, set_sp c))
single-Stores i f a adr y s runs k =
    let ls = instr i (bp_rel adr) (reg rax) ∷ [] in
    Returns-bind (λ b. Wrote ls a b) (λ (r : Bool × Asm). (r.0 ≡ false) × Stores a adr f y r.1)
      (emit i (bp_rel adr) (reg rax) a) (λ c. ok (false, set_sp c))
      (emit-Wrote i (bp_rel adr) (reg rax) a s k) (λ b w. (refl, (ls, unmoved a b ls w, runs)))

-- Several instructions.
code-Stores :
    (ls : List Line) (f : ℕ → ℕ → ℕ) (a : Asm) (adr : ℤ) (y : ℕ)
    → AllInstr ls
    → Runs ls adr f y
    → a.no_code ≡ 0
    → Returns (λ r. (r.0 ≡ false) × Stores a adr f y r.1) (emit_all ls a >>= no_error)
code-Stores ls f a adr y all runs k =
    Returns-bind (λ b. Wrote ls a b) (λ (r : Bool × Asm). (r.0 ≡ false) × Stores a adr f y r.1)
      (emit_all ls a) no_error (emit_all-Wrote ls a all k) (λ b w. (refl, (ls, w.text, runs)))

-- With code generation on, a value in rax and an offset that `BpRel` takes,
-- `EmitAssignVariableExpressionInt` of 8 bytes returns no error for = += -= *=, and its code changes
-- the variable, modulo 2 ^ 64, as the operator means, and no other variable.
pub emit_assign_variable_expression_int-Stores :
    (op : Token) (f : ℕ → ℕ → ℕ) (a : Asm) (adr : ℤ) (y : ℕ)
    → assign_meaning op ≡ some f
    → bp_relative adr ≡ ok (bp_rel adr)
    → a.state ≡ ax
    → a.no_code ≡ 0
    → Returns
        (λ r. (r.0 ≡ false) × Stores a adr f y r.1)
        (emit_assign_variable_expression_int op (pos 8) adr a)
unfolding emit_assign_variable_expression_int variable_code token_op ax_name sp_change run_frame
emit_assign_variable_expression_int-Stores Kind.tok_assign f a adr y e p h k =
    same_function _ f a adr y _ e (
      rw (p, in_rax a h)
        (single-Stores Lines.op_mov (λ x y. y) a adr y refl (λ m slot. (_, refl, refl)) k))
emit_assign_variable_expression_int-Stores Kind.tok_plus_assign f a adr y e p h k =
    same_function _ f a adr y _ e (
      rw (p, in_rax a h)
        (single-Stores Lines.op_add (λ x y. (x + y) % word) a adr y refl (λ m slot. (_, refl, refl))
          k))
emit_assign_variable_expression_int-Stores Kind.tok_minus_asgn f a adr y e p h k =
    same_function _ f a adr y _ e (
      rw (p, in_rax a h)
        (single-Stores Lines.op_sub (λ x y. (x + (word - y)) % word) a adr y refl
          (λ m slot. (_, refl, refl)) k))
emit_assign_variable_expression_int-Stores Kind.tok_mult_asgn f a adr y e p h k =
    same_function _ f a adr y _ e (
      rw p (
        code-Stores (mult_code (bp_rel adr)) (λ x y. y * x % word) a adr y
          ((pos 0, refl), ((pos 0, refl), tt)) (λ m slot. (_, refl, refl)) k))
emit_assign_variable_expression_int-Stores _ f a adr y e p h k = cc

division_runs :
    (adr : ℤ) (x y : ℕ) (m : Machine) (slot : ℤ → ℕ)
    → slot adr ≡ x
    → 0 < x
    → x < 2 ^ 63
    → y < 2 ^ 63
    → (h : Frame) × (run_frame
          (division_code (bp_rel adr))
          (record { machine = record m { a = y }; slot = slot })
        ≡ some h)
      × (h.slot ≡ store adr (y / x) slot)
unfolding run_frame
division_runs adr x y m slot e px lx ly = (
  record { machine = record m { a = y / x; c = x; d = y % x }; slot = store adr (y / x) slot },
  rw e (ground arith),
  refl,
)

-- With code generation on and an offset that `BpRel` takes, the code of
-- `EmitAssignVariableExpressionInt` of 8 bytes for `/=` divides the value in rax by the variable and
-- stores that quotient in the variable, for a value and a variable without a sign bit, the variable
-- not 0.
pub emit_assign_variable_expression_int-reversed :
    (a : Asm) (adr : ℤ) (x y : ℕ)
    → bp_relative adr ≡ ok (bp_rel adr)
    → a.no_code ≡ 0
    → 0 < x
    → x < 2 ^ 63
    → y < 2 ^ 63
    → Returns
        (λ r. (r.0 ≡ false) × Divides a adr x y r.1)
        (emit_assign_variable_expression_int Kind.tok_div_asgn (pos 8) adr a)
unfolding emit_assign_variable_expression_int variable_code sp_change
emit_assign_variable_expression_int-reversed a adr x y p k px lx ly = rw p (
    Returns-bind (λ b. Wrote (division_code (bp_rel adr)) a b)
      (λ (r : Bool × Asm). (r.0 ≡ false) × Divides a adr x y r.1)
      (emit_all (division_code (bp_rel adr)) a) no_error
      (emit_all-Wrote (division_code (bp_rel adr)) a
        ((pos 0, refl), ((pos 0, refl), ((pos 0, refl), ((pos 0, refl), tt)))) k)
      (λ b w. (
        refl,
        (division_code (bp_rel adr), w.text, λ m slot e. division_runs adr x y m slot e px lx ly),
      )))
