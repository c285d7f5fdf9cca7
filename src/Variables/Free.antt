-- ===== src/Variables/Free.antt =====
-- expression.go: `FreeStruct`; variables.go: the operations that free local variables.
use jkvlang.Prelude.{
  zero, suc, ℕ, ◌+◌, Bool, true, false, not, ◌&&◌, ◌||◌, [], ◌∷◌, Text, Option, none, some,
  if◌then◌else◌, leb,
}
use jkvlang.Prelude.Outcomes.{Outcome, ok, panic, ◌>>=◌}
use jkvlang.Prelude.Int.{pos, negsuc, ◌+ℤ◌}
use jkvlang.Code.Types
use jkvlang.Code.Types.{PrimaryType, type_eq, type_index}
use jkvlang.Code.Lines.{rax}
use jkvlang.Code.Asm.{Asm, new_label}
use jkvlang.TypeDefs.Defs.{
  TypeDef, type_def, Element, no_element, element, Fields, no_fields, field, pt, size, struct_size,
  element_of, fields_of,
}
use jkvlang.Emit.Instr.{emit_label, emit_jump_false, emit_pop_ax, emit_load, emit_add_to_sp}
use jkvlang.Emit.Ops.{Failable, no_error}
use jkvlang.Emit.Strings.{emit_free_string, emit_free_struct, emit_free_slice}
use jkvlang.Emit.Objects.{emit_load_with_offset}
use jkvlang.Variables.Defs.{VarDef, VarTable, find_var, delete_var, count_level}

abbrev is_object : PrimaryType → Bool
is_object p = type_eq p Types.typ_struct || type_eq p Types.typ_slice || type_eq p Types.typ_string

-- `EmitFreeSlice` of a field; a slice without an element is an error.
abbrev free_slice_field : Element → Asm → Failable
free_slice_field no_element a = ok (true, a)
free_slice_field (element t) a = emit_free_slice (size t) a >>= no_error

-- The end of a field: the code goes on unless freeing it failed.
abbrev after_field : ℕ → (Asm → Failable) → Bool × Asm → Failable
after_field lbl rest (true, a) = ok (true, a)
after_field lbl rest (false, a) = emit_pop_ax (emit_label lbl a) >>= rest

-- The loop of `FreeStruct` and the line behind it. Go's `range` takes the fields in some order, the
-- model in that of the list.
unfoldable pub free_fields : ℕ → Fields → Asm → Failable
unfolding emit_free_struct emit_free_slice emit_free_string emit_load_with_offset emit_jump_false
    emit_label emit_pop_ax new_label type_eq size
free_fields total no_fields a = emit_free_struct total a >>= no_error
free_fields total (field name (type_def p n b e inner d el fs) ofs more) a =
    let rest = free_fields total more in
    let nested = free_fields inner fs in
    if not (is_object p) then rest a else do
      l ← emit_load_with_offset ofs a
      let (lbl, c) = new_label l
      j ← emit_jump_false rax lbl c
      r ←
          if type_eq p Types.typ_struct
          then nested j
          else if type_eq p Types.typ_slice
          then free_slice_field el j
          else (emit_free_string j >>= no_error)
      after_field lbl rest r

-- `FreeStruct`
unfoldable pub free_struct : TypeDef → Asm → Failable
unfolding free_fields struct_size fields_of
free_struct t a = free_fields (struct_size t) (fields_of t) a

-- `EmitFreeSlice` of a variable; without an element it is a nil pointer.
abbrev free_slice_var : Element → Asm → Outcome Asm
free_slice_var no_element a = panic
free_slice_var (element t) a = emit_free_slice (size t) a

-- The code that `DeleteLocalVar` writes for a variable of type `t`.
unfoldable pub free_var : VarDef → TypeDef → Asm → Failable
unfolding emit_load emit_free_string emit_free_slice free_struct type_eq type_index pt element_of
    size
free_var v t a =
    let loaded = emit_load (pos 8) v.offset a in
    if leb (type_index Types.typ_string) (type_index (pt t)) && not v.destroyed
    then (if type_eq (pt t) Types.typ_string
        then (loaded >>= emit_free_string >>= no_error)
        else if type_eq (pt t) Types.typ_struct
        then (loaded >>= free_struct t)
        else if type_eq (pt t) Types.typ_slice && not v.is_global
        then (loaded >>= free_slice_var (element_of t) >>= no_error)
        else ok (false, a))
    else ok (false, a)

-- The table and the writer.
abbrev pub Scope : Type 0
Scope = VarTable × Asm

abbrev delete_typed : Text → VarDef → Option TypeDef → Scope → Outcome (Bool × Scope)
delete_typed id v none s = panic
delete_typed id v (some t) (vars, a) = free_var v t a >>= λ r. ok (r.0, (delete_var id vars, r.1))

abbrev delete_found : Text → Option VarDef → Scope → Outcome (Bool × Scope)
delete_found id none s = ok (true, s)
delete_found id (some v) s = delete_typed id v v.typ s

-- `DeleteLocalVar`
unfoldable pub delete_local_var : Text → Scope → Outcome (Bool × Scope)
unfolding find_var delete_var free_var
delete_local_var id s = delete_found id (find_var id s.0) s

-- The code that pops `n` variables, if there are any, with `LocalSp` set back.
abbrev pub no_delete : ℕ → VarTable → Asm → Outcome Scope
no_delete zero vars a = ok (vars, a)
no_delete (suc n) vars a = emit_add_to_sp (negsuc n) a >>= λ b.
    ok (vars, record b { local_sp = b.local_sp +ℤ pos (suc n) })

-- `FreeBlockVarsNoDelete`
unfoldable pub free_block_vars_no_delete : ℕ → Scope → Outcome Scope
free_block_vars_no_delete level (vars, a) = no_delete (count_level level vars) vars a

abbrev next_var :
    (ℕ → Scope → Outcome (ℕ × (Bool × Scope))) → ℕ → Bool × Scope → Outcome (ℕ × (Bool × Scope))
next_var rest n (true, s) = ok (n + 1, (true, s))
next_var rest n (false, s) = rest (n + 1) s

-- The loop of `FreeBlockVars` over the entries `visit`: how many it freed, and whether it failed.
unfoldable pub free_loop : ℕ → VarTable → ℕ → Scope → Outcome (ℕ × (Bool × Scope))
unfolding delete_local_var
free_loop level [] n s = ok (n, (false, s))
free_loop level ((k, v) ∷ visit) n s =
    let rest = free_loop level visit in
    if leb level v.block_level then (delete_local_var v.name s >>= next_var rest n) else rest n s

-- The end of `FreeBlockVars`, which pops the variables that were freed.
abbrev pop_freed : ℕ × (Bool × Scope) → Outcome (Bool × Scope)
pop_freed (n, (true, s)) = ok (true, s)
pop_freed (zero, (false, s)) = ok (false, s)
pop_freed (suc n, (false, (vars, a))) = emit_add_to_sp (negsuc n) a >>= λ b. ok (false, (vars, b))

-- `FreeBlockVars`
unfoldable pub free_block_vars : ℕ → Scope → Outcome (Bool × Scope)
unfolding free_loop emit_add_to_sp
free_block_vars level s = free_loop level s.0 0 s >>= pop_freed
