-- ===== src/Variables/Defs.antt =====
-- variables.go: `VarDef`, and the operations on the table `VarDefs` that write no code.
use jkvlang.Prelude.{
  ℕ, ◌+◌, ◌*◌, Bool, true, false, not, ◌&&◌, List, [], ◌∷◌, Text, codes, text_eq, Option, none,
  some, if◌then◌else◌, leb,
}
use jkvlang.Prelude.Outcomes.{Outcome, ok, panic, ◌>>=◌}
use jkvlang.Prelude.Int.{ℤ, pos, negsuc, ◌-ℤ◌, ◌*ℤ◌}
use jkvlang.Code.Types
use jkvlang.Code.Types.{type_eq, type_size}
use jkvlang.TypeDefs.Defs.{TypeDef, pt, i64_type, slice_type}

-- `Typ` may be nil.
pub record VarDef : Type 0 where
  pub typ : Option TypeDef
  pub name : Text
  pub is_input_type : Bool
  pub block_level : ℕ
  pub is_global : Bool
  pub offset : ℤ
  pub is_indirect : Bool
  pub destroyed : Bool
  pub const_value : Text
  pub is_returned : Bool
  pub is_arg : Bool

-- `&VarDef{Name: name, Typ: typ}`, where the type may be nil.
abbrev pub var_of : Text → Option TypeDef → VarDef
var_of name t = record {
  typ = t;
  name = name;
  is_input_type = false;
  block_level = 0;
  is_global = false;
  offset = pos 0;
  is_indirect = false;
  destroyed = false;
  const_value = [];
  is_returned = false;
  is_arg = false;
}

-- The map `VarDefs`: its entries in the order in which a `range` visits them, each key once.
abbrev pub VarTable : Type 0
VarTable = List (Text × VarDef)

unfoldable pub find_var : Text → VarTable → Option VarDef
find_var id [] = none
find_var id ((k, v) ∷ vs) = if text_eq k id then some v else find_var id vs

-- `VarDefs[id] = v`
unfoldable pub set_var : Text → VarDef → VarTable → VarTable
set_var id v [] = (id, v) ∷ []
set_var id v ((k, w) ∷ vs) =
    let rest = set_var id v vs in if text_eq k id then (id, v) ∷ vs else (k, w) ∷ rest

-- `delete(VarDefs, id)`
unfoldable pub delete_var : Text → VarTable → VarTable
delete_var id [] = []
delete_var id ((k, w) ∷ vs) =
    let rest = delete_var id vs in if text_eq k id then rest else (k, w) ∷ rest

abbrev global : Text → TypeDef → Text × VarDef
global name t = (name, record (var_of name (some t)) { is_global = true })

-- `InitVarDefs`
unfoldable pub init_var_defs : VarTable
init_var_defs =
    global (codes "err") i64_type
    ∷ global (codes "argc") i64_type
    ∷ global (codes "argv") i64_type
    ∷ global (codes "env") i64_type
    ∷ global (codes "args") slice_type
    ∷ global (codes "envs") slice_type
    ∷ global (codes "envc") i64_type
    ∷ global (codes "start_ticks") i64_type
    ∷ global (codes "tick_count") i64_type
    ∷ global (codes "tick_frequency") i64_type
    ∷ []

-- The variables that `VarReset` deletes; one without a type is a nil pointer.
unfoldable pub is_local : VarDef → Outcome Bool
unfolding type_eq pt
is_local v = elim (v.typ) [
  | none ↦ panic
  | some t ↦ ok (not (type_eq (pt t) Types.typ_error) && not v.is_global)
]

-- The loop of `VarReset` over the entries `visit`; a deletion goes by the variable's name.
unfoldable pub reset_loop : VarTable → VarTable → Outcome VarTable
unfolding is_local delete_var
reset_loop [] vars = ok vars
reset_loop ((k, v) ∷ visit) vars =
    is_local v >>= λ b. reset_loop visit (if b then delete_var v.name vars else vars)

unfoldable pub var_reset : VarTable → Outcome VarTable
unfolding reset_loop
var_reset vars = reset_loop vars vars

-- `(v *VarDef) Size()`
unfoldable pub var_size : VarDef → Outcome ℕ
unfolding type_size pt
var_size v = elim (v.typ) [ none ↦ panic | some t ↦ ok (type_size (pt t)) ]

-- `AddLocalPar`, with the `ParCount` of the state.
unfoldable pub add_local_par : Text → TypeDef → ℕ × VarTable → VarDef × (ℕ × VarTable)
unfolding set_var
add_local_par name t (count, vars) =
    let v = record (var_of name (some t)) { is_arg = true; offset = pos (8 + (count + 1) * 8) } in
    (v, (count + 1, set_var name v vars))

-- A variable that must be new, and one that may be known.
abbrev pub declared : VarDef → Text → VarTable → Option VarDef → Option (VarDef × VarTable)
declared v id vars none = some (v, set_var id v vars)
declared v id vars (some old) = none

abbrev pub known_or_new : VarDef → Text → VarTable → Option VarDef → VarDef × VarTable
known_or_new v id vars none = (v, set_var id v vars)
known_or_new v id vars (some old) = (old, vars)

-- `AddGlobalConst`; `none` is its error.
unfoldable pub add_global_const : Text → TypeDef → VarTable → Option (VarDef × VarTable)
unfolding find_var set_var
add_global_const id t vars =
    let v = record (var_of id (some t)) { is_global = true } in
    declared v id vars (find_var id vars)

-- The offset of a local variable behind `sp` words.
unfoldable pub local_offset : ℤ → ℤ
local_offset sp = negsuc 7 -ℤ sp *ℤ pos 8

-- `AddLocalVar`, with `BlockLevel`, `LocalSp` and a type that may be nil. A name that is known keeps
-- its variable.
unfoldable pub add_local_var : ℕ → ℤ → Text → Option TypeDef → VarTable → VarDef × VarTable
unfolding find_var set_var local_offset
add_local_var level sp id t vars =
    let v = record (var_of id t) { block_level = level; offset = local_offset sp } in
    known_or_new v id vars (find_var id vars)

-- How many variables have the level or a higher one.
unfoldable pub count_level : ℕ → VarTable → ℕ
count_level level [] = 0
count_level level ((k, v) ∷ vs) =
    let rest = count_level level vs in if leb level v.block_level then rest + 1 else rest
