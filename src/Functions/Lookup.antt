-- ===== src/Functions/Lookup.antt =====
-- functions.go: which entry a call finds, and that the entry just added is found.
use jkvlang.Prelude.{
  ◌≤◌, ◌≡◌, refl, ap, ◌∙◌, ◌⊎◌, ◌↔◌, inl, inr, Bool, true, false, Bool-cases, List, [], ◌∷◌, ◌++◌,
  Text, text_eq, text_eq_iff, Option, none, some, length, ltb, All, arith,
}
use jkvlang.Prelude.Outcomes.{Outcome, ok, panic, out_of_fuel, ◌>>=◌, Returns, Returns-weaken}
use jkvlang.Prelude.Golib.{Golib}
use jkvlang.Prelude.Floats.{Floats}
use jkvlang.Code.Types.{PrimaryType, type_eq}
use jkvlang.TypeDefs.Defs.{TypeDef, pt}
use jkvlang.TypeDefs.Assign.{can_assign}
use jkvlang.Values.Defs.{value_of}
use jkvlang.Functions.Defs.{
  ParDef, FuncDef, Marks, func_count, accepts, parameters_fit, is_candidate, choose, find_func,
  added, uppercase, starts_with_uppercase, new_func, add_func,
}

module _ (fl : Floats) (exact : Bool) where
  -- A parameter takes an actual one: by assignment, and if `exact` is asked for by its type.
  abbrev pub Takes : ParDef → ParDef → Type 0
  Takes p q =
      (exact ≡ true → type_eq (pt p.typ) (pt q.typ) ≡ true)
      × (can_assign fl (pt p.typ) (pt q.typ) (value_of (some q.typ)) ≡ true)

  -- Every parameter takes the actual one in its place.
  abbrev pub TakesAll : List ParDef → List ParDef → Type 0
  TakesAll [] qs = Unit
  TakesAll (p ∷ ps) [] = ⊥
  TakesAll (p ∷ ps) (q ∷ qs) = Takes p q × TakesAll ps qs

  not_both : (b : Bool) → b ≡ true → ¬ b ≡ false
  not_both b h k = ground arith

  accepts_iff : (p q : ParDef) → (accepts fl exact p q ≡ true) ↔ Takes p q
  unfolding accepts
  accepts_iff p q = ground arith

  parameters_fit-Returns :
      (ps qs : List ParDef)
      → length ps ≤ length qs
      → Returns
          (λ b. ((b ≡ true) × TakesAll ps qs) ⊎ ((b ≡ false) × ¬ TakesAll ps qs))
          (parameters_fit fl exact ps qs)
  unfolding parameters_fit
  parameters_fit-Returns [] qs h = inl (refl, tt)
  parameters_fit-Returns (p ∷ ps) [] h = absurd (omega arith)
  parameters_fit-Returns (p ∷ ps) (q ∷ qs) h = elim (Bool-cases (accepts fl exact p q)) [
    | inl e ↦ rw e (
        Returns-weaken _ _ (parameters_fit fl exact ps qs)
          (λ b r. elim r [
            | inl t ↦ inl (t.0, ((accepts_iff p q).0 e, t.1))
            | inr n ↦ inr (n.0, λ t. n.1 t.1)
          ])
          (parameters_fit-Returns ps qs (omega arith)))
    | inr e ↦ rw e (inr (refl, λ t. not_both (accepts fl exact p q) ((accepts_iff p q).1 t.0) e))
  ]

  -- The function has the name, a number of parameters that the actual ones are enough for, and
  -- takes them.
  abbrev pub Fits : Text → List ParDef → FuncDef → Type 0
  Fits id pars f =
      (f.name ≡ id)
      × ((f.var_arg ≡ true) × (length f.parameters ≤ length pars)
          ⊎ (length f.parameters ≡ length pars))
      × TakesAll f.parameters pars

  -- The first entry that fits, or none if no entry does.
  abbrev pub IsFirstFit : Text → List ParDef → List FuncDef → Option FuncDef → Type 0
  IsFirstFit id pars fs none = All (λ f. ¬ Fits id pars f) fs
  IsFirstFit id pars fs (some f) =
      (before : List FuncDef) × (after : List FuncDef) × (fs ≡ before ++ f ∷ after)
      × All (λ g. ¬ Fits id pars g) before
      × Fits id pars f

  abbrev HasArity : Text → List ParDef → FuncDef → Type 0
  HasArity id pars f =
      (f.name ≡ id)
      × ((f.var_arg ≡ true) × (length f.parameters ≤ length pars)
          ⊎ (length f.parameters ≡ length pars))

  is_candidate_iff :
      (id : Text) (pars : List ParDef) (f : FuncDef)
      → (is_candidate fl id pars f ≡ true
          → HasArity id pars f × (length f.parameters ≤ length pars))
        × (HasArity id pars f → is_candidate fl id pars f ≡ true)
  unfolding is_candidate
  is_candidate_iff id pars f = ground (arith, text_eq_iff f.name id)

  skip_found :
      (id : Text) (pars : List ParDef) (f : FuncDef) (fs : List FuncDef)
      → ¬ Fits id pars f
      → (o : Option FuncDef) → IsFirstFit id pars fs o
      → IsFirstFit id pars (f ∷ fs) o
  skip_found id pars f fs n none h = (n, h)
  skip_found id pars f fs n (some g) (before, after, e, h, k) =
      (f ∷ before, after, ap (λ xs. f ∷ xs) e, (n, h), k)

  candidate :
      (id : Text) (pars : List ParDef) (f : FuncDef) (rest : Outcome (Option FuncDef))
      (fits : Outcome Bool)
      → Returns
          (λ b.
            ((b ≡ true) × TakesAll f.parameters pars)
            ⊎ ((b ≡ false) × ¬ TakesAll f.parameters pars))
          fits
      → (TakesAll f.parameters pars × (fits >>= choose fl f rest ≡ ok (some f)))
        ⊎ (¬ TakesAll f.parameters pars × (fits >>= choose fl f rest ≡ rest))
  candidate id pars f rest (ok true) r = ground arith
  candidate id pars f rest (ok false) r = ground arith
  candidate id pars f rest panic r = absurd r
  candidate id pars f rest out_of_fuel r = absurd r

  -- An entry either fits and is the result, or does not and is passed over.
  find_func-step :
      (id : Text) (pars : List ParDef) (f : FuncDef) (fs : List FuncDef)
      → (Fits id pars f × (find_func fl id pars exact (f ∷ fs) ≡ ok (some f)))
        ⊎ (¬ Fits id pars f × (find_func fl id pars exact (f ∷ fs) ≡ find_func fl id pars exact fs))
  unfolding find_func
  find_func-step id pars f fs = elim (Bool-cases (is_candidate fl id pars f)) [
    | inl e ↦ rw e (
        let k = (is_candidate_iff id pars f).0 e in
        elim (candidate id pars f (find_func fl id pars exact fs)
          (parameters_fit fl exact f.parameters pars)
          (parameters_fit-Returns f.parameters pars k.1)) [
            | inl t ↦ inl ((k.0.0, k.0.1, t.0), t.1)
            | inr n ↦ inr ((λ t. n.0 t.2), n.1)
          ])
    | inr e ↦ rw e (
        inr (
          (λ t. not_both (is_candidate fl id pars f) ((is_candidate_iff id pars f).1 (t.0, t.1)) e),
          refl,
        ))
  ]

  -- `FindFuncDefFromParList` never reads beyond the actual parameters, and returns the first entry
  -- with the name whose parameters take the actual ones, or nil if there is none.
  pub find_func-IsFirstFit :
      (id : Text) (pars : List ParDef) (fs : List FuncDef)
      → Returns (IsFirstFit id pars fs) (find_func fl id pars exact fs)
  unfolding find_func
  find_func-IsFirstFit id pars [] = tt
  find_func-IsFirstFit id pars (f ∷ fs) = elim (find_func-step id pars f fs) [
    | inl h ↦ rw h.1 ([], fs, refl, tt, h.0)
    | inr h ↦ rw h.1 (
        Returns-weaken _ _ (find_func fl id pars exact fs) (skip_found id pars f fs h.0)
          (find_func-IsFirstFit id pars fs))
  ]

  find_func-append :
      (id : Text) (pars : List ParDef) (f : FuncDef) (fs : List FuncDef)
      → All (λ g. ¬ Fits id pars g) fs
      → Fits id pars f
      → find_func fl id pars exact (fs ++ f ∷ []) ≡ ok (some f)
  find_func-append id pars f [] n h = elim (find_func-step id pars f []) [
    | inl k ↦ k.1
    | inr k ↦ absurd (k.0 h)
  ]
  find_func-append id pars f (g ∷ fs) n h = elim (find_func-step id pars g (fs ++ f ∷ [])) [
    | inl k ↦ absurd (n.0 k.0)
    | inr k ↦ k.1 ∙ find_func-append id pars f fs n.1 h
  ]

type_eq_refl : (t : PrimaryType) → type_eq t t ≡ true
unfolding type_eq
type_eq_refl t = ground arith

-- A function takes parameters with its own types, exactly.
TakesAll-self : (fl : Floats) (exact : Bool) (ps : List ParDef) → TakesAll fl exact ps ps
unfolding can_assign
TakesAll-self fl exact [] = tt
TakesAll-self fl exact (p ∷ ps) =
    ((λ e. type_eq_refl (pt p.typ), rw (type_eq_refl (pt p.typ)) refl), TakesAll-self fl exact ps)

func_count-zero :
    (fl : Floats) (id : Text) (pars : List ParDef) (fs : List FuncDef)
    → func_count id fs ≡ 0
    → All (λ f. ¬ Fits fl true id pars f) fs
unfolding func_count
func_count-zero fl id pars [] h = tt
func_count-zero fl id pars (f ∷ fs) h = elim (Bool-cases (text_eq f.name id)) [
  | inl e ↦ absurd (ground arith)
  | inr e ↦ (
    (λ t. not_both fl true (text_eq f.name id) ((text_eq_iff f.name id).1 t.0) e),
    func_count-zero fl id pars fs (rw (← h, e) refl),
  )
]

module _ (go : Golib) (fl : Floats) where
  -- What `AddFunc` does, with `old` what `FindFuncDefFromParList` finds.
  abbrev pub Adds : Text → List ParDef → List TypeDef → Marks → List FuncDef → Type 0
  Adds id pars rets m fs =
      ((f : FuncDef) × IsFirstFit fl true id pars fs (some f)
        × (add_func go fl id pars rets m fs ≡ panic))
      ⊎ (IsFirstFit fl true id pars fs none
          × (add_func go fl id pars rets m fs
              ≡ ok (
                added (new_func go fl id pars rets m fs),
                fs ++ new_func go fl id pars rets m fs ∷ [],
              ))
          × (find_func fl id pars true (fs ++ new_func go fl id pars rets m fs ∷ [])
              ≡ ok (some (new_func go fl id pars rets m fs))))

  new_func-Fits :
      (id : Text) (pars : List ParDef) (rets : List TypeDef) (m : Marks) (fs : List FuncDef)
      → Fits fl true id pars (new_func go fl id pars rets m fs)
  unfolding new_func
  new_func-Fits id pars rets m fs = (refl, inr refl, TakesAll-self fl true pars)

  Adds-found :
      (id : Text) (pars : List ParDef) (rets : List TypeDef) (m : Marks) (fs : List FuncDef)
      → starts_with_uppercase go fl id ≡ false
      → ltb 0 (func_count id fs) ≡ true
      → (o : Outcome (Option FuncDef)) → find_func fl id pars true fs ≡ o
      → Returns (IsFirstFit fl true id pars fs) o
      → Adds id pars rets m fs
  unfolding add_func
  Adds-found id pars rets m fs u c (ok none) e r = inr (
    r,
    rw (u, c, e) refl,
    find_func-append fl true id pars (new_func go fl id pars rets m fs) fs r
        (new_func-Fits id pars rets m fs),
  )
  Adds-found id pars rets m fs u c (ok (some f)) e r = inl (f, r, rw (u, c, e) refl)
  Adds-found id pars rets m fs u c panic e r = absurd r
  Adds-found id pars rets m fs u c out_of_fuel e r = absurd r

  Adds-new :
      (id : Text) (pars : List ParDef) (rets : List TypeDef) (m : Marks) (fs : List FuncDef)
      → starts_with_uppercase go fl id ≡ false
      → ltb 0 (func_count id fs) ≡ false
      → Adds id pars rets m fs
  unfolding add_func
  Adds-new id pars rets m fs u c =
      let r = func_count-zero fl id pars fs (ground arith) in
      inr (
        r,
        rw (u, c) refl,
        find_func-append fl true id pars (new_func go fl id pars rets m fs) fs r
            (new_func-Fits id pars rets m fs),
      )

  -- `AddFunc` refuses a name that starts with an uppercase letter, and leaves the table alone.
  -- Otherwise it panics if an entry fits exactly; and if none does it appends the new entry, which
  -- `FindFuncDefFromParList` then finds for the parameters of the function.
  pub add_func_lem :
      (id : Text) (pars : List ParDef) (rets : List TypeDef) (m : Marks) (fs : List FuncDef)
      → ((starts_with_uppercase go fl id ≡ true)
          × (add_func go fl id pars rets m fs ≡ ok (uppercase, fs)))
        ⊎ ((starts_with_uppercase go fl id ≡ false) × Adds id pars rets m fs)
  unfolding add_func
  add_func_lem id pars rets m fs = elim (Bool-cases (starts_with_uppercase go fl id)) [
    | inl u ↦ inl (u, rw u refl)
    | inr u ↦ inr (
      u,
      elim (Bool-cases (ltb 0 (func_count id fs))) [
        | inl c ↦
            Adds-found id pars rets m fs u c (find_func fl id pars true fs) refl
              (find_func-IsFirstFit fl true id pars fs)
        | inr c ↦ Adds-new id pars rets m fs u c
      ],
    )
  ]
