-- ===== src/Emit/Balance.antt =====
-- What the code of emit_nasm.go does to `LocalSp`, the number of words that the compiler knows on
-- the stack.
use mathlib.Core.Path.{subst}
use jkvlang.Prelude.{
  ℕ, ◌+◌, ◌≡◌, refl, sym, ap, ◌∙◌, Bool, true, false, Bool-cases, inl, inr, length, ◌==◌, List, [],
  ◌∷◌, ltb, Option, none, some,
}
use jkvlang.Prelude.Outcomes.{Outcome, ok, Returns, Returns-bind, Returns-weaken, ◌>>=◌}
use jkvlang.Prelude.Int.{ℤ, pos, negsuc, ◌+ℤ◌, ◌-ℤ◌, int_laws}
use jkvlang.Code.Lines
use jkvlang.Code.Lines.{Mnemonic, Operand, Line, instr, label, rbx, r13, rsi, rdi}
use jkvlang.Code.Asm.{Asm, ax, write, sp_is_tos, new_label}
use jkvlang.Emit.Instr.{sp_change, emit, emit_all, emit_assert_tos_in_rax, emit_pop_ax}
use jkvlang.Emit.Strings.{
  free_if, free_if_code, compare_string_code, first_code, same_code, result_code,
  emit_compare_string, compare_strings, emit_compare_strings_eq, emit_compare_strings_ne,
}
use jkvlang.Emit.Concat.{free_part, free_part_code, concat_code, drop_code, emit_concat}

-- `b` has `d` words more on the stack than `a`.
abbrev pub Moved : ℤ → Asm → Asm → Type 0
Moved d a b = b.local_sp ≡ a.local_sp +ℤ d

-- Code that returns, and moves the stack by `d`.
abbrev pub Moves : ℤ → (Asm → Outcome Asm) → Type 0
Moves d m = (a : Asm) → Returns (Moved d a) (m a)

-- The sum of the changes; none where `emit` panics.
abbrev plus_change : Option ℤ → Option ℤ → Option ℤ
plus_change (some d) (some e) = some (d +ℤ e)
plus_change d e = none

unfoldable pub balance : List Line → Option ℤ
unfolding sp_change
balance [] = some (pos 0)
balance (instr op dst src ∷ ls) = plus_change (sp_change op dst src) (balance ls)
balance (l ∷ ls) = balance ls

+ℤ_zero : (x : ℤ) → x ≡ x +ℤ pos 0
+ℤ_zero x = grind int_laws

+ℤ_assoc : (x d e : ℤ) → (x +ℤ d) +ℤ e ≡ x +ℤ (d +ℤ e)
+ℤ_assoc x d e = grind int_laws

write-Moved : (ls : List Line) (a : Asm) → (write ls a).local_sp ≡ a.local_sp
unfolding write
write-Moved ls a = elim (Bool-cases (ltb 0 a.no_code)) [
  | inl e ↦ rw e refl
  | inr e ↦ elim (Bool-cases (length a.arg_code == 0)) [
    | inl k ↦ rw (e, k) refl
    | inr k ↦ rw (e, k) refl
  ]
]

pub Moves-bind :
    (d e : ℤ) (m k : Asm → Outcome Asm) → Moves d m → Moves e k → Moves (d +ℤ e) (λ a. m a >>= k)
Moves-bind d e m k hm hk a =
    Returns-bind _ _ (m a) k (hm a)
      (λ b h. Returns-weaken _ _ (k b) (λ c g. g ∙ rw h (+ℤ_assoc a.local_sp d e)) (hk b))

pub emit-Moves :
    (op : Mnemonic) (dst src : Operand) (d : ℤ)
    → sp_change op dst src ≡ some d
    → Moves d (emit op dst src)
unfolding emit
emit-Moves op dst src d e a =
    rw e (write-Moved (instr op dst src ∷ []) (record a { local_sp = a.local_sp +ℤ d }))

both_changes :
    (o p : Option ℤ) (d : ℤ)
    → plus_change o p ≡ some d
    → (x : ℤ) × (y : ℤ) × (o ≡ some x) × (p ≡ some y) × (some (x +ℤ y) ≡ some d)
both_changes (some x) (some y) d h = (x, y, refl, refl, h)
both_changes none p d h = cc
both_changes (some x) none d h = cc

abbrev or_zero : Option ℤ → ℤ
or_zero none = pos 0
or_zero (some d) = d

cast-Moves : (d e : ℤ) (m : Asm → Outcome Asm) → d ≡ e → Moves d m → Moves e m
cast-Moves d e m h = subst (λ x. Moves x m) h

-- The same behind a change of the writer that leaves `LocalSp`, such as a new label.
behind :
    (d : ℤ) (m : Asm → Outcome Asm) (a b : Asm)
    → b.local_sp ≡ a.local_sp
    → Moves d m
    → Returns (Moved d a) (m b)
behind d m a b e h = Returns-weaken _ _ (m b) (λ c g. subst (λ x. c.local_sp ≡ x +ℤ d) e g) (h b)

-- Instructions and labels move the stack by their sum.
pub emit_all-Moves : (ls : List Line) (d : ℤ) → balance ls ≡ some d → Moves d (emit_all ls)
unfolding emit_all balance
emit_all-Moves [] d h a = rw (sym (ap or_zero h)) (+ℤ_zero a.local_sp)
emit_all-Moves (instr op dst src ∷ ls) d h a =
    let (x, y, p, q, e) = both_changes (sp_change op dst src) (balance ls) d h in
    cast-Moves (x +ℤ y) d (emit_all (instr op dst src ∷ ls)) (ap or_zero e)
      (Moves-bind x y (emit op dst src) (emit_all ls) (emit-Moves op dst src x p)
        (emit_all-Moves ls y q))
      a
emit_all-Moves (Lines.label n ∷ ls) d h a =
    behind d (emit_all ls) a _ (write-Moved (label n ∷ []) a) (emit_all-Moves ls d h)
emit_all-Moves (Lines.raw t ∷ ls) d h a =
    behind d (emit_all ls) a _ (write-Moved (Lines.raw t ∷ []) a) (emit_all-Moves ls d h)

all_behind :
    (ls : List Line) (d : ℤ) (a b : Asm)
    → b.local_sp ≡ a.local_sp
    → balance ls ≡ some d
    → Returns (Moved d a) (emit_all ls b)
all_behind ls d a b e h = behind d (emit_all ls) a b e (emit_all-Moves ls d h)

free_part-Moves : (free : Bool) (r : Lines.Register) → Moves (pos 0) (free_part free r)
unfolding free_part new_label balance ◌+ℤ◌
free_part-Moves false r a = +ℤ_zero a.local_sp
free_part-Moves true r a =
    let n = a.label_no + 1 in
    all_behind (free_part_code r n) (pos 0) a (record a { label_no = n }) refl refl

free_if-Moves : (free : Bool) (r : Lines.Register) → Moves (pos 0) (free_if free r)
unfolding free_if balance ◌+ℤ◌
free_if-Moves false r a = +ℤ_zero a.local_sp
free_if-Moves true r a = emit_all-Moves (free_if_code r) (pos 0) refl a

pop-Moves : Moves (negsuc 0) emit_pop_ax
unfolding emit_pop_ax sp_change
pop-Moves = emit-Moves Lines.op_pop (Lines.reg Lines.rax) Lines.blank (negsuc 0) refl

not_on_stack : (a : Asm) → a.state ≡ ax → sp_is_tos a ≡ false
unfolding sp_is_tos
not_on_stack a h = rw h refl

pub in_rax : (a : Asm) → a.state ≡ ax → emit_assert_tos_in_rax a ≡ ok a
unfolding emit_assert_tos_in_rax
in_rax a h = rw (not_on_stack a h) refl

-- Code that starts with `EmitAssertTosInRax`, with the top of the stack in rax.
after_assert :
    (d : ℤ) (k : Asm → Outcome Asm) (a : Asm)
    → a.state ≡ ax
    → Moves d k
    → Returns (Moved d a) (emit_assert_tos_in_rax a >>= k)
after_assert d k a h m = rw (in_rax a h) (m a)

-- With the top of the stack in rax, `EmitConcat` takes one word off.
concat-Moved :
    (free1 free2 : Bool) (a : Asm)
    → a.state ≡ ax
    → Returns (Moved (negsuc 0) a) (emit_concat free1 free2 a)
unfolding emit_concat balance ◌+ℤ◌ ◌-ℤ◌
concat-Moved free1 free2 a h = after_assert (negsuc 0) _ a h (
    Moves-bind (pos 1) (negsuc 1) (emit_all concat_code) _ (emit_all-Moves concat_code (pos 1) refl)
      (Moves-bind (pos 0) (negsuc 1) (free_part free1 rbx) _ (free_part-Moves free1 rbx) (
        Moves-bind (pos 0) (negsuc 1) (free_part free2 r13) _ (free_part-Moves free2 r13) (
          Moves-bind (negsuc 0) (negsuc 0) emit_pop_ax (emit_all drop_code) pop-Moves
            (emit_all-Moves drop_code (negsuc 0) refl)))))

compare_string-Moved : (a : Asm) → Returns (λ r. Moved (pos 0) a r.1) (emit_compare_string a)
unfolding emit_compare_string new_label balance ◌+ℤ◌
compare_string-Moved a =
    let n = a.label_no + 1 in
    let b = record a { label_no = n } in
    Returns-bind (Moved (pos 0) a) (λ (r : ℕ × Asm). Moved (pos 0) a r.1)
      (emit_all (compare_string_code n) b) (λ c. ok (n, c))
      (all_behind (compare_string_code n) (pos 0) a b refl refl) (λ c h. h)

-- What follows the comparison of the strings.
compare_end-Moves :
    (same lbl : ℕ) (temp1 temp2 : Bool)
    → Moves (pos 0) (λ a. emit_all (same_code same lbl) a >>= λ b.
        free_if temp1 rsi b >>= λ c. free_if temp2 rdi c >>= emit_all result_code)
unfolding balance ◌+ℤ◌
compare_end-Moves same lbl temp1 temp2 =
    Moves-bind (pos 0) (pos 0) (emit_all (same_code same lbl)) _
      (emit_all-Moves (same_code same lbl) (pos 0) refl)
      (Moves-bind (pos 0) (pos 0) (free_if temp1 rsi) _ (free_if-Moves temp1 rsi) (
        Moves-bind (pos 0) (pos 0) (free_if temp2 rdi) (emit_all result_code)
          (free_if-Moves temp2 rdi) (emit_all-Moves result_code (pos 0) refl)))

compare_strings-Moved :
    (different same : ℕ) (temp1 temp2 : Bool) (a : Asm)
    → a.state ≡ ax
    → Returns (Moved (negsuc 0) a) (compare_strings different same temp1 temp2 a)
unfolding compare_strings balance ◌+ℤ◌
compare_strings-Moved different same temp1 temp2 a h = after_assert (negsuc 0) _ a h (
    Moves-bind (negsuc 0) (pos 0) (emit_all (first_code different)) _
      (emit_all-Moves (first_code different) (negsuc 0) refl)
      (λ b.
        Returns-bind _ (Moved (pos 0) b) (emit_compare_string b) _ (compare_string-Moved b) (λ r g.
          behind (pos 0) _ b r.1 (g ∙ sym (+ℤ_zero b.local_sp))
            (compare_end-Moves same r.0 temp1 temp2))))

-- With the right operand in rax, `EmitConcat`, `EmitCompareStringsEq` and `EmitCompareStringsNe`
-- return, and `LocalSp` is one word less behind them, the left operand, whichever of the operands
-- are temporary.
pub string_ops-Moved :
    (first second : Bool) (a : Asm)
    → a.state ≡ ax
    → Returns (Moved (negsuc 0) a) (emit_concat first second a)
      × Returns (Moved (negsuc 0) a) (emit_compare_strings_eq first second a)
      × Returns (Moved (negsuc 0) a) (emit_compare_strings_ne first second a)
unfolding emit_compare_strings_eq emit_compare_strings_ne
string_ops-Moved first second a h = (
  concat-Moved first second a h,
  compare_strings-Moved 0 1 first second a h,
  compare_strings-Moved 1 0 first second a h,
)
