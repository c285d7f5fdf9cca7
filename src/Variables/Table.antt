-- ===== src/Variables/Table.antt =====
-- The table of variables: which entries an operation leaves, and where variables lie in the frame.
use mathlib.Core.Path.{subst}
use jkvlang.Prelude.{
  ℕ, ◌+◌, ◌*◌, ◌≡◌, refl, ap, ◌∙◌, ◌⊎◌, inl, inr, Bool, true, false, Bool-cases, [], ◌∷◌, Text,
  text_eq, Option, none, some, if◌then◌else◌, arith,
}
use jkvlang.Prelude.Outcomes.{ok, ok_eq, bind_ok}
use jkvlang.Prelude.Int.{ℤ, pos, negsuc, ◌-ℤ◌, ◌*ℤ◌, neg_part}
use jkvlang.Code.Lines.{bp_rel}
use jkvlang.TypeDefs.Defs.{TypeDef}
use jkvlang.Emit.Instr.{bp_relative}
use jkvlang.Variables.Defs.{
  VarDef, VarTable, find_var, set_var, delete_var, add_local_par, add_local_var, local_offset,
  add_global_const, declared, known_or_new, init_var_defs, is_local, reset_loop, var_reset,
}

-- A variable that code may read: a parameter above the return address, a local variable below the
-- frame pointer, or a global one.
abbrev pub IsPlaced : VarDef → Type 0
IsPlaced v =
    (v.is_global ≡ true) ⊎ ((v.is_global ≡ false) × (bp_relative v.offset ≡ ok (bp_rel v.offset)))

abbrev pub AllPlaced : VarTable → Type 0
AllPlaced [] = Unit
AllPlaced ((k, v) ∷ vs) = IsPlaced v × AllPlaced vs

-- `sp` words, not fewer than none.
abbrev pub IsNatural : ℤ → Type 0
IsNatural z = neg_part z ≡ 0

set_var-AllPlaced :
    (id : Text) (v : VarDef) (vars : VarTable)
    → IsPlaced v
    → AllPlaced vars
    → AllPlaced (set_var id v vars)
unfolding set_var
set_var-AllPlaced id v [] h k = (h, tt)
set_var-AllPlaced id v ((j, w) ∷ vs) h k = elim (Bool-cases (text_eq j id)) [
  | inl e ↦ rw e (h, k.1)
  | inr e ↦ rw e (k.0, set_var-AllPlaced id v vs h k.1)
]

local_placed :
    (sp : ℤ) → IsNatural sp → bp_relative (local_offset sp) ≡ ok (bp_rel (local_offset sp))
unfolding bp_relative local_offset ◌-ℤ◌ ◌*ℤ◌
local_placed (pos n) h = ground arith
local_placed (negsuc n) h = absurd (omega arith)

par_placed : (n : ℕ) → bp_relative (pos (8 + (n + 1) * 8)) ≡ ok (bp_rel (pos (8 + (n + 1) * 8)))
unfolding bp_relative
par_placed n = ground arith

delete_var-AllPlaced :
    (id : Text) (vars : VarTable) → AllPlaced vars → AllPlaced (delete_var id vars)
unfolding delete_var
delete_var-AllPlaced id [] h = tt
delete_var-AllPlaced id ((j, w) ∷ vs) h = elim (Bool-cases (text_eq j id)) [
  | inl e ↦ rw e (delete_var-AllPlaced id vs h.1)
  | inr e ↦ rw e (h.0, delete_var-AllPlaced id vs h.1)
]

abbrev or_first : {A : Type 0} → A → Option A → A
or_first a none = a
or_first a (some b) = b

-- The tables that the operations make from that of `InitVarDefs`. `LocalSp` is not negative where a
-- local variable is added, whose type may be nil. Other code changes the type and the marks of a
-- variable that it has found, and never where it lies.
pub data Reachable : VarTable → Type 0 where
  start : Reachable init_var_defs
  then_par :
      {vars : VarTable} (id : Text) (t : TypeDef) (count : ℕ)
      → Reachable vars
      → Reachable (add_local_par id t (count, vars)).1.1
  then_var :
      {vars : VarTable} (id : Text) (t : Option TypeDef) (level : ℕ) (sp : ℤ)
      → Reachable vars
      → IsNatural sp
      → Reachable (add_local_var level sp id t vars).1
  then_const :
      {vars : VarTable} (id : Text) (t : TypeDef) {v : VarDef} {made : VarTable}
      → Reachable vars
      → add_global_const id t vars ≡ some (v, made)
      → Reachable made
  then_change :
      {vars : VarTable} (id : Text) {v : VarDef} (w : VarDef)
      → Reachable vars
      → find_var id vars ≡ some v
      → w.is_global ≡ v.is_global
      → w.offset ≡ v.offset
      → Reachable (set_var id w vars)
  then_delete : {vars : VarTable} (id : Text) → Reachable vars → Reachable (delete_var id vars)
  then_reset : {vars made : VarTable} → Reachable vars → var_reset vars ≡ ok made → Reachable made

if_deleted :
    (b : Bool) (id : Text) (vars : VarTable)
    → AllPlaced vars
    → AllPlaced (if b then delete_var id vars else vars)
if_deleted true id vars h = delete_var-AllPlaced id vars h
if_deleted false id vars h = h

reset-AllPlaced :
    (visit vars : VarTable) {made : VarTable}
    → AllPlaced vars
    → reset_loop visit vars ≡ ok made
    → AllPlaced made
unfolding reset_loop
reset-AllPlaced [] vars h e = subst AllPlaced (ok_eq _ _ e) h
reset-AllPlaced ((k, v) ∷ visit) vars h e =
    let (b, q, r) = bind_ok (is_local v) _ e in
    reset-AllPlaced visit (if b then delete_var v.name vars else vars) (if_deleted b v.name vars h)
      r

par-AllPlaced :
    (id : Text) (t : TypeDef) (count : ℕ) (vars : VarTable)
    → AllPlaced vars
    → AllPlaced (add_local_par id t (count, vars)).1.1
unfolding add_local_par
par-AllPlaced id t count vars h = set_var-AllPlaced id _ vars (inr (refl, par_placed count)) h

known-AllPlaced :
    (v : VarDef) (id : Text) (vars : VarTable) (o : Option VarDef)
    → IsPlaced v
    → AllPlaced vars
    → AllPlaced (known_or_new v id vars o).1
known-AllPlaced v id vars none p h = set_var-AllPlaced id v vars p h
known-AllPlaced v id vars (some old) p h = h

var-AllPlaced :
    (id : Text) (t : Option TypeDef) (level : ℕ) (sp : ℤ) (vars : VarTable)
    → IsNatural sp
    → AllPlaced vars
    → AllPlaced (add_local_var level sp id t vars).1
unfolding add_local_var
var-AllPlaced id t level sp vars n h =
    known-AllPlaced _ id vars (find_var id vars) (inr (refl, local_placed sp n)) h

abbrev table_of : VarTable → Option (VarDef × VarTable) → VarTable
table_of vars none = vars
table_of vars (some r) = r.1

declared-AllPlaced :
    (v : VarDef) (id : Text) (vars : VarTable) (o : Option VarDef)
    → IsPlaced v
    → AllPlaced vars
    → AllPlaced (table_of vars (declared v id vars o))
declared-AllPlaced v id vars none p h = set_var-AllPlaced id v vars p h
declared-AllPlaced v id vars (some old) p h = h

const-AllPlaced :
    (id : Text) (t : TypeDef) (vars : VarTable)
    → AllPlaced vars
    → AllPlaced (table_of vars (add_global_const id t vars))
unfolding add_global_const
const-AllPlaced id t vars h = declared-AllPlaced _ id vars (find_var id vars) (inl refl) h

init-AllPlaced : AllPlaced init_var_defs
unfolding init_var_defs
init-AllPlaced = (
  inl refl,
  (
    inl refl,
    (
      inl refl,
      (inl refl, (inl refl, (inl refl, (inl refl, (inl refl, (inl refl, (inl refl, tt))))))),
    ),
  ),
)

find-AllPlaced :
    (id : Text) (vars : VarTable) (v : VarDef)
    → AllPlaced vars
    → find_var id vars ≡ some v
    → IsPlaced v
unfolding find_var
find-AllPlaced id [] v h e = cc
find-AllPlaced id ((k, w) ∷ vs) v h e = elim (Bool-cases (text_eq k id)) [
  | inl q ↦ subst IsPlaced (ap (or_first w) (rw q at e)) h.0
  | inr q ↦ find-AllPlaced id vs v h.1 (rw q at e)
]

-- A variable that lies where a placed one lies.
moved-IsPlaced :
    (v w : VarDef) → w.is_global ≡ v.is_global → w.offset ≡ v.offset → IsPlaced v → IsPlaced w
moved-IsPlaced v w g o (inl h) = inl (g ∙ h)
moved-IsPlaced v w g o (inr h) = inr (g ∙ h.0, rw o h.1)

Reachable-AllPlaced : (vars : VarTable) → Reachable vars → AllPlaced vars
unfolding var_reset
Reachable-AllPlaced _ start = init-AllPlaced
Reachable-AllPlaced _ (then_par {vars} id t count r) =
    par-AllPlaced id t count vars (Reachable-AllPlaced vars r)
Reachable-AllPlaced _ (then_var {vars} id t level sp r n) =
    var-AllPlaced id t level sp vars n (Reachable-AllPlaced vars r)
Reachable-AllPlaced made (then_const {vars} id t r e) =
    subst AllPlaced (ap (table_of vars) e) (const-AllPlaced id t vars (Reachable-AllPlaced vars r))
Reachable-AllPlaced _ (then_change {vars} id {v} w r e g o) =
    let h = Reachable-AllPlaced vars r in
    set_var-AllPlaced id w vars (moved-IsPlaced v w g o (find-AllPlaced id vars v h e)) h
Reachable-AllPlaced _ (then_delete {vars} id r) =
    delete_var-AllPlaced id vars (Reachable-AllPlaced vars r)
Reachable-AllPlaced made (then_reset {vars} r e) =
    reset-AllPlaced vars vars (Reachable-AllPlaced vars r) e

-- When `LocalSp` is not negative at each `AddLocalVar`, with a type or nil, and other changes keep a
-- variable where it lies: in every table that the operations make from that of `InitVarDefs`, where a
-- `VarReset` has not met a nil type, a variable that is found and is not global has an offset that
-- `BpRel` takes without a panic.
pub Reachable-found :
    (vars : VarTable) (id : Text) (v : VarDef)
    → Reachable vars
    → find_var id vars ≡ some v
    → v.is_global ≡ false
    → bp_relative v.offset ≡ ok (bp_rel v.offset)
Reachable-found vars id v r e h = elim (find-AllPlaced id vars v (Reachable-AllPlaced vars r) e) [
  | inl g ↦ cc
  | inr p ↦ p.1
]
