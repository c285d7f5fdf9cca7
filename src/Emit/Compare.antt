-- ===== src/Emit/Compare.antt =====
-- The code of `EmitJumpCond` and `EmitCompareIntegers` computes the comparison.
use jkvlang.Prelude.{
  ℕ, ◌+◌, ◌<◌, ◌≡◌, refl, Bool, true, false, not, List, [], ◌∷◌, ◌++◌, none, some, ltb, leb, ◌==◌,
  if◌then◌else◌, arith,
}
use jkvlang.Prelude.Outcomes.{ok, ◌>>=◌, Returns, Returns-bind, Returns-weaken}
use jkvlang.Prelude.Int.{pos}
use jkvlang.Token.Kind
use jkvlang.Token.Kind.{Token, is_compare, token_eq, token_index}
use jkvlang.Code.Lines
use jkvlang.Code.Lines.{Mnemonic, Line, instr, label, reg, imm, label_ref, blank, rax, rbx}
use jkvlang.Code.Asm.{Asm, new_label, set_ax}
use jkvlang.Emit.Instr.{emit, emit_label, emit_pop_bx, sp_change}
use jkvlang.Emit.Ops.{jump_of, emit_jump_cond, emit_compare_integers, inverse}
use jkvlang.Emit.Machine.{Machine, word, run, run_line, step, jumps, signed}
use jkvlang.Emit.Writes.{Wrote, write-Wrote, Wrote-trans, emit-Wrote}
use jkvlang.Emit.Correct.{Computes}

abbrev test_code : ℕ → Mnemonic → List Line
test_code n j =
    instr Lines.op_mov (reg rax) (imm (pos 1))
    ∷ instr j (label_ref n) blank
    ∷ instr Lines.op_mov (reg rax) (imm (pos 0))
    ∷ label n
    ∷ []

abbrev compare_code : ℕ → Mnemonic → List Line
compare_code n j =
    instr Lines.op_pop (reg rbx) blank ∷ instr Lines.op_cmp (reg rbx) (reg rax) ∷ test_code n j

same_label : (n : ℕ) → (n == n) ≡ true
same_label n = ground arith

compare_run :
    (j : Mnemonic) (n : ℕ) (t : Bool) (m : Machine) (x y : ℕ) (st : List ℕ)
    → jumps j x y ≡ some t
    → (m' : Machine) × (run (compare_code n j) none (record m { a = y; stack = x ∷ st }) ≡ some m')
      × (m'.a ≡ (if t then 1 else 0))
      × (m'.stack ≡ st)
unfolding run run_line step
compare_run j n true m x y st e = (
  record m { a = 1; b = x; stack = st; compared = (x, y) },
  rw (e, same_label n) refl,
  refl,
  refl,
)
compare_run j n false m x y st e =
    (record m { a = 0; b = x; stack = st; compared = (x, y) }, rw e refl, refl, refl)

-- A number as the comparison reads it, with its sign or without.
abbrev pub ordered : Bool → ℕ → ℕ
ordered u x = if u then x else signed x

-- What a comparison of the language means.
abbrev pub holds : Token → ℕ → ℕ → Bool
holds Kind.tok_eq x y = x == y
holds Kind.tok_ne x y = not (x == y)
holds Kind.tok_gt x y = ltb y x
holds Kind.tok_le x y = leb x y
holds Kind.tok_ge x y = leb y x
holds Kind.tok_lt x y = ltb x y
holds _ x y = false

abbrev Jump : Token → Bool → ℕ → ℕ → Mnemonic → Type 0
Jump op u x y j =
    (jump_of op u ≡ some j)
    × ((n : ℕ) → sp_change j (label_ref n) blank ≡ some (pos 0))
    × (jumps j x y ≡ some (holds op (ordered u x) (ordered u y)))

signed_eq : (x y : ℕ) → x < word → y < word → (x == y) ≡ (signed x == signed y)
signed_eq x y h k = ground arith

find-Jump :
    (op : Token) (u : Bool) (x y : ℕ)
    → is_compare op ≡ true
    → x < word
    → y < word
    → (j : Mnemonic) × Jump op u x y j
unfolding is_compare token_eq token_index jump_of sp_change jumps
find-Jump Kind.tok_eq true x y e h k = (Lines.op_je, (refl, (λ n. refl), refl))
find-Jump Kind.tok_eq false x y e h k =
    (Lines.op_je, (refl, (λ n. refl), rw (signed_eq x y h k) refl))
find-Jump Kind.tok_ne true x y e h k = (Lines.op_jne, (refl, (λ n. refl), refl))
find-Jump Kind.tok_ne false x y e h k =
    (Lines.op_jne, (refl, (λ n. refl), rw (signed_eq x y h k) refl))
find-Jump Kind.tok_gt true x y e h k = (Lines.op_ja, (refl, (λ n. refl), refl))
find-Jump Kind.tok_gt false x y e h k = (Lines.op_jg, (refl, (λ n. refl), refl))
find-Jump Kind.tok_le true x y e h k = (Lines.op_jbe, (refl, (λ n. refl), refl))
find-Jump Kind.tok_le false x y e h k = (Lines.op_jle, (refl, (λ n. refl), refl))
find-Jump Kind.tok_ge true x y e h k = (Lines.op_jae, (refl, (λ n. refl), refl))
find-Jump Kind.tok_ge false x y e h k = (Lines.op_jge, (refl, (λ n. refl), refl))
find-Jump Kind.tok_lt true x y e h k = (Lines.op_jb, (refl, (λ n. refl), refl))
find-Jump Kind.tok_lt false x y e h k = (Lines.op_jl, (refl, (λ n. refl), refl))
find-Jump _ u x y e h k = cc

jump-Wrote :
    (j : Mnemonic) (n : ℕ) (a : Asm)
    → sp_change j (label_ref n) blank ≡ some (pos 0)
    → a.no_code ≡ 0
    → Returns
        (λ c.
          Wrote (instr j (label_ref n) blank ∷ instr Lines.op_mov (reg rax) (imm (pos 0)) ∷ []) a c)
        (emit j (label_ref n) blank a >>= emit Lines.op_mov (reg rax) (imm (pos 0)))
unfolding sp_change
jump-Wrote j n a s k =
    let one = instr j (label_ref n) blank ∷ [] in
    let two = instr Lines.op_mov (reg rax) (imm (pos 0)) ∷ [] in
    Returns-bind (λ b. Wrote one a b) (λ c. Wrote (one ++ two) a c) (emit j (label_ref n) blank a)
      (emit Lines.op_mov (reg rax) (imm (pos 0))) (emit-Wrote j (label_ref n) blank a s k)
      (λ b w.
        Returns-weaken (λ c. Wrote two b c) (λ c. Wrote (one ++ two) a c)
          (emit Lines.op_mov (reg rax) (imm (pos 0)) b) (λ c v. Wrote-trans one two a b c w v)
          (emit-Wrote Lines.op_mov (reg rax) (imm (pos 0)) b refl w.writes))

-- A record field that `emitted` does not read.
labelled :
    (ls : List Line) (n : ℕ) (a b : Asm) → Wrote ls (record a { label_no = n }) b → Wrote ls a b
labelled ls n a b w = record { text = w.text; writes = w.writes }

ended : (n : ℕ) (a : Asm) → a.no_code ≡ 0 → Wrote (label n ∷ []) a (set_ax (emit_label n a))
unfolding set_ax emit_label
ended n a k = let w = write-Wrote (label n ∷ []) a k in record { text = w.text; writes = w.writes }

jump_cond-Wrote :
    (op : Token) (u : Bool) (a : Asm) (j : Mnemonic)
    → jump_of op u ≡ some j
    → ((n : ℕ) → sp_change j (label_ref n) blank ≡ some (pos 0))
    → a.no_code ≡ 0
    → Returns
        (λ r. (r.0 ≡ false) × Wrote (test_code (a.label_no + 1) j) a r.1)
        (emit_jump_cond op u a)
unfolding emit_jump_cond new_label sp_change
jump_cond-Wrote op u a j e s k = rw e (
    let n = a.label_no + 1 in
    let a' = record a { label_no = n } in
    let one = instr Lines.op_mov (reg rax) (imm (pos 1)) ∷ [] in
    let two = instr j (label_ref n) blank ∷ instr Lines.op_mov (reg rax) (imm (pos 0)) ∷ [] in
    Returns-bind (λ b. Wrote one a' b) (λ r. (r.0 ≡ false) × Wrote (test_code n j) a r.1)
      (emit Lines.op_mov (reg rax) (imm (pos 1)) a')
      (λ b. emit j (label_ref n) blank b >>= emit Lines.op_mov (reg rax) (imm (pos 0)) >>= λ c.
        ok (false, set_ax (emit_label n c)))
      (emit-Wrote Lines.op_mov (reg rax) (imm (pos 1)) a' refl k)
      (λ b v.
        Returns-bind (λ c. Wrote two b c) (λ r. (r.0 ≡ false) × Wrote (test_code n j) a r.1)
          (emit j (label_ref n) blank b >>= emit Lines.op_mov (reg rax) (imm (pos 0)))
          (λ c. ok (false, set_ax (emit_label n c))) (jump-Wrote j n b (s n) v.writes)
          (λ c w. (
            refl,
            labelled (test_code n j) n a (set_ax (emit_label n c)) (
                Wrote-trans (one ++ two) (label n ∷ []) a' c (set_ax (emit_label n c))
                  (Wrote-trans one two a' b c v w) (ended n c w.writes)),
          ))))

compare-Wrote :
    (op : Token) (u : Bool) (a : Asm) (j : Mnemonic)
    → jump_of op u ≡ some j
    → ((n : ℕ) → sp_change j (label_ref n) blank ≡ some (pos 0))
    → a.no_code ≡ 0
    → Returns
        (λ r. (r.0 ≡ false) × ((n : ℕ) × Wrote (compare_code n j) a r.1))
        (emit_compare_integers op u a)
unfolding emit_compare_integers emit_pop_bx sp_change
compare-Wrote op u a j e s k =
    let one = instr Lines.op_pop (reg rbx) blank ∷ [] in
    let two = instr Lines.op_cmp (reg rbx) (reg rax) ∷ [] in
    Returns-bind (λ c. Wrote (one ++ two) a c)
      (λ r. (r.0 ≡ false) × ((n : ℕ) × Wrote (compare_code n j) a r.1))
      (emit Lines.op_pop (reg rbx) blank a >>= emit Lines.op_cmp (reg rbx) (reg rax))
      (emit_jump_cond op u)
      (Returns-bind (λ b. Wrote one a b) (λ c. Wrote (one ++ two) a c)
        (emit Lines.op_pop (reg rbx) blank a) (emit Lines.op_cmp (reg rbx) (reg rax))
        (emit-Wrote Lines.op_pop (reg rbx) blank a refl k)
        (λ b w.
          Returns-weaken (λ c. Wrote two b c) (λ c. Wrote (one ++ two) a c)
            (emit Lines.op_cmp (reg rbx) (reg rax) b) (λ c v. Wrote-trans one two a b c w v)
            (emit-Wrote Lines.op_cmp (reg rbx) (reg rax) b refl w.writes)))
      (λ c w.
        Returns-weaken (λ r. (r.0 ≡ false) × Wrote (test_code (c.label_no + 1) j) c r.1)
          (λ r. (r.0 ≡ false) × ((n : ℕ) × Wrote (compare_code n j) a r.1)) (emit_jump_cond op u c)
          (λ r v. (
            v.0,
            (c.label_no + 1, Wrote-trans (one ++ two) (test_code (c.label_no + 1) j) a c r.1 w v.1),
          ))
          (jump_cond-Wrote op u c j e s w.writes))

-- With code generation on, the right operand in rax and the left one on the stack, both of 64
-- bits, `EmitCompareIntegers` returns no error for the six comparisons, signed or unsigned, and the code that it writes leaves 1 in rax if
-- the comparison holds and 0 if not, and takes the left operand off the stack.
pub emit_compare_integers-Computes :
    (op : Token) (u : Bool) (a : Asm) (x y : ℕ)
    → is_compare op ≡ true
    → a.no_code ≡ 0
    → x < word
    → y < word
    → Returns
        (λ r.
          (r.0 ≡ false)
          × Computes a x y (if holds op (ordered u x) (ordered u y) then 1 else 0) r.1)
        (emit_compare_integers op u a)
emit_compare_integers-Computes op u a x y e k p q =
    let found = find-Jump op u x y e p q in
    Returns-weaken _ _ (emit_compare_integers op u a)
      (λ r w. (
        w.0,
        (
          compare_code w.1.0 found.0,
          w.1.1.text,
          λ m st.
              compare_run found.0 w.1.0 (holds op (ordered u x) (ordered u y)) m x y st found.1.2,
        ),
      ))
      (compare-Wrote op u a found.0 found.1.0 found.1.1 k)

-- `Inverse` of a comparison is the comparison of the operands in the other order.
pub inverse-holds :
    (op : Token) (x y : ℕ)
    → is_compare op ≡ true
    → (is_compare (inverse op) ≡ true) × (holds (inverse op) y x ≡ holds op x y)
unfolding inverse is_compare token_eq token_index
inverse-holds Kind.tok_eq x y e = (refl, ground arith)
inverse-holds Kind.tok_ne x y e = (refl, ground arith)
inverse-holds Kind.tok_gt x y e = (refl, refl)
inverse-holds Kind.tok_le x y e = (refl, refl)
inverse-holds Kind.tok_ge x y e = (refl, refl)
inverse-holds Kind.tok_lt x y e = (refl, refl)
inverse-holds _ x y e = cc
