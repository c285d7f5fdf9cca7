-- ===== src/Emit/Writes.antt =====
-- What `emit` adds to the text, and to `LocalSp`.
use mathlib.Core.List.{append_assoc, append-nil}
use jkvlang.Prelude.{
  ◌≡◌, refl, sym, ◌∙◌, Bool-cases, inl, inr, length, ◌==◌, List, [], ◌∷◌, ◌++◌, ltb, some,
}
use jkvlang.Prelude.Outcomes.{Returns, Returns-bind, Returns-weaken}
use jkvlang.Prelude.Int.{ℤ, ◌+ℤ◌}
use jkvlang.Code.Lines
use jkvlang.Code.Lines.{Mnemonic, Operand, Line, instr, label}
use jkvlang.Code.Asm.{Asm, write}
use jkvlang.Code.Asm.Laws.{emitted, emitted-write}
use jkvlang.Emit.Instr.{sp_change, emit, emit_all}

-- `after` has the lines `ls` behind the text of `before`, and writes code as `before` did.
pub record Wrote (ls : List Line) (before after : Asm) : Type 0 where
  pub text : emitted after ≡ emitted before ++ ls
  pub writes : after.no_code ≡ 0

write-no_code : (ls : List Line) (a : Asm) → (write ls a).no_code ≡ a.no_code
unfolding write
write-no_code ls a = elim (Bool-cases (ltb 0 a.no_code)) [
  | inl e ↦ rw e refl
  | inr e ↦ elim (Bool-cases (length a.arg_code == 0)) [
    | inl k ↦ rw (e, k) refl
    | inr k ↦ rw (e, k) refl
  ]
]

pub write-Wrote : (ls : List Line) (a : Asm) → a.no_code ≡ 0 → Wrote ls a (write ls a)
write-Wrote ls a h = record {
  text = emitted-write ls a ∙ rw h refl;
  writes = write-no_code ls a ∙ h;
}

pub Wrote-trans :
    (ls ks : List Line) (a b c : Asm) → Wrote ls a b → Wrote ks b c → Wrote (ls ++ ks) a c
Wrote-trans ls ks a b c h k = record {
  text = k.text ∙ rw h.text (append_assoc (emitted a) ls ks);
  writes = k.writes;
}

pub emit-Wrote :
    (op : Mnemonic) (dst src : Operand) (a : Asm) {d : ℤ}
    → sp_change op dst src ≡ some d
    → a.no_code ≡ 0
    → Returns (λ b. Wrote (instr op dst src ∷ []) a b) (emit op dst src a)
unfolding emit
emit-Wrote op dst src a {d} e h = rw e (
    let after = record a { local_sp = a.local_sp +ℤ d } in
    let w = write-Wrote (instr op dst src ∷ []) after h in
    record { text = w.text; writes = w.writes })

-- Instructions that `emit` takes without a panic.
abbrev pub AllInstr : List Line → Type 0
AllInstr [] = Unit
AllInstr (instr op dst src ∷ ls) = ((d : ℤ) × (sp_change op dst src ≡ some d)) × AllInstr ls
AllInstr (l ∷ ls) = ⊥

pub emit_all-Wrote :
    (ls : List Line) (a : Asm)
    → AllInstr ls
    → a.no_code ≡ 0
    → Returns (λ b. Wrote ls a b) (emit_all ls a)
unfolding emit_all
emit_all-Wrote [] a h k = record { text = sym (append-nil (emitted a)); writes = k }
emit_all-Wrote (instr op dst src ∷ ls) a h k =
    Returns-bind _ _ (emit op dst src a) _ (emit-Wrote op dst src a h.0.1 k) (λ b w.
      Returns-weaken _ _ (emit_all ls b) (λ c v. Wrote-trans (instr op dst src ∷ []) ls a b c w v)
        (emit_all-Wrote ls b h.1 w.writes))
emit_all-Wrote (Lines.label n ∷ ls) a h k = absurd h
emit_all-Wrote (Lines.raw t ∷ ls) a h k = absurd h
