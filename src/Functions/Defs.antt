-- ===== src/Functions/Defs.antt =====
-- functions.go: `FuncDef` and the operations on the table `FuncDefs`.
use jkvlang.Prelude.{
  ℕ, suc, ◌+◌, Bool, true, false, not, ◌&&◌, ◌||◌, List, [], ◌∷◌, ◌++◌, Text, codes, text_eq,
  Option, none, some, ltb, ◌==◌, if◌then◌else◌, length,
}
use jkvlang.Prelude.Outcomes.{Outcome, ok, panic, ◌>>=◌}
use jkvlang.Prelude.Golib.{Golib}
use jkvlang.Prelude.Floats.{Floats}
use jkvlang.Code.Types.{type_eq}
use jkvlang.TypeDefs.Defs.{TypeDef, pt}
use jkvlang.TypeDefs.Assign.{can_assign}
use jkvlang.Values.Defs.{value_of}

pub record ParDef : Type 0 where
  pub name : Text
  pub typ : TypeDef

-- `parName` and `floatParCount` are never set here.
pub record FuncDef : Type 0 where
  pub name : Text
  pub label : Text
  pub return_types : List TypeDef
  pub parameters : List ParDef
  pub stack_size : ℕ
  pub builtin : Bool
  pub var_arg : Bool
  pub extern : Bool

-- What is written to a function's table entry, beside its parameters.
pub record Marks : Type 0 where
  pub is_builtin : Bool
  pub has_var_arg : Bool
  pub is_extern : Bool

unfoldable pub func_count : Text → List FuncDef → ℕ
func_count name [] = 0
func_count name (f ∷ fs) =
    let rest = func_count name fs in if text_eq f.name name then suc rest else rest

-- `AddExternal`
unfoldable pub add_external : Text → List Text → List Text
add_external name externals = externals ++ name ∷ []

-- `TypeListVar`, of the names and types of the variables.
unfoldable pub type_list_var : List (Text × TypeDef) → List ParDef
type_list_var [] = []
type_list_var ((n, t) ∷ vs) = record { name = n; typ = t } ∷ type_list_var vs

module _ (go : Golib) where
  open go use {itoa}

  -- `TypeListVal`, from the index `i` on, of the types of the values.
  unfoldable pub type_list_val : ℕ → List TypeDef → List ParDef
  type_list_val i [] = []
  type_list_val i (t ∷ ts) =
      record { name = codes "arg" ++ itoa i; typ = t } ∷ type_list_val (i + 1) ts

module _ (fl : Floats) where
  -- One turn of the loop over the parameters: `true` goes on, `false` breaks.
  unfoldable pub accepts : Bool → ParDef → ParDef → Bool
  unfolding can_assign pt type_eq
  accepts exact p actual = not (
      exact && not (type_eq (pt p.typ) (pt actual.typ))
      || not (can_assign fl (pt p.typ) (pt actual.typ) (value_of (some actual.typ))))

  -- The loop over the parameters of a function; an index beyond the actual ones is a panic.
  unfoldable pub parameters_fit : Bool → List ParDef → List ParDef → Outcome Bool
  unfolding accepts
  parameters_fit exact [] actual = ok true
  parameters_fit exact (p ∷ ps) [] = panic
  parameters_fit exact (p ∷ ps) (q ∷ qs) =
      let rest = parameters_fit exact ps qs in if accepts exact p q then rest else ok false

  -- The test of a function's name and number of parameters.
  unfoldable pub is_candidate : Text → List ParDef → FuncDef → Bool
  is_candidate id pars f =
      text_eq f.name id
      && (f.var_arg && not (ltb (length pars) (length f.parameters))
          || length f.parameters == length pars)

  abbrev pub choose : FuncDef → Outcome (Option FuncDef) → Bool → Outcome (Option FuncDef)
  choose f rest true = ok (some f)
  choose f rest false = rest

  -- `FindFuncDefFromParList`
  unfoldable pub find_func : Text → List ParDef → Bool → List FuncDef → Outcome (Option FuncDef)
  unfolding is_candidate parameters_fit
  find_func id pars exact [] = ok none
  find_func id pars exact (f ∷ fs) =
      let rest = find_func id pars exact fs in
      if is_candidate id pars f
      then parameters_fit exact f.parameters pars >>= choose f rest
      else rest

-- What `AddFunc` returns: the entry, or its error.
pub data Added : Type 0 where
  added : FuncDef → Added
  uppercase : Added

module _ (go : Golib) (fl : Floats) where
  open go use {itoa, is_upper}

  unfoldable pub starts_with_uppercase : Text → Bool
  starts_with_uppercase [] = false
  starts_with_uppercase (c ∷ cs) = is_upper c

  abbrev pub is_some : Option FuncDef → Bool
  is_some none = false
  is_some (some f) = true

  unfoldable pub new_func : Text → List ParDef → List TypeDef → Marks → List FuncDef → FuncDef
  unfolding func_count
  new_func id pars rets m fs = record {
    name = id;
    label = if m.is_builtin then id else id ++ codes "_" ++ itoa (func_count id fs + 1);
    return_types = rets;
    parameters = pars;
    stack_size = length pars + length rets;
    builtin = m.is_builtin;
    var_arg = m.has_var_arg;
    extern = m.is_extern;
  }

  -- `AddFunc`; a function with the same parameters is a panic.
  unfoldable pub add_func :
      Text → List ParDef → List TypeDef → Marks → List FuncDef → Outcome (Added × List FuncDef)
  unfolding starts_with_uppercase func_count find_func new_func
  add_func id pars rets m fs =
      let f = new_func id pars rets m fs in
      let add = ok (added f, fs ++ f ∷ []) in
      if starts_with_uppercase id
      then ok (uppercase, fs)
      else if ltb 0 (func_count id fs)
      then (find_func fl id pars true fs >>= λ old. if is_some old then panic else add)
      else add
