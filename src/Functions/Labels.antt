-- ===== src/Functions/Labels.antt =====
-- functions.go: the labels that `AddFunc` gives to the functions of a program.
use mathlib.Core.List.{append_assoc}
use jkvlang.Prelude.{
  ℕ, ◌+◌, ◌≤◌, ◌≡◌, ◌≢◌, refl, sym, ap, ◌∙◌, inl, inr, false, Bool-cases, List, [], ◌∷◌, ◌++◌, Text,
  text_eq, text_eq_refl, All, All-append, All-weaken, arith,
}
use jkvlang.Prelude.Outcomes.{ok, Ends, Ends-ok}
use jkvlang.Prelude.Golib.{Golib, WritesDecimals}
use jkvlang.Prelude.Floats.{Floats}
use jkvlang.TypeDefs.Defs.{TypeDef}
use jkvlang.Functions.Defs.{ParDef, FuncDef, Marks, Added, func_count, new_func, add_func}
use jkvlang.Functions.Lookup.{add_func_lem}

cons_parts : (x y : ℕ) (s t : Text) → x ∷ s ≡ y ∷ t → (x ≡ y) × (s ≡ t)
cons_parts x y s t e = ground arith

has_95 : (b t : Text) → ¬ All (λ c. c ≢ 95) (b ++ 95 ∷ t)
has_95 [] t h = h.0 refl
has_95 (x ∷ b) t h = has_95 b t h.1

-- Two texts that end in `_` and digits are the same only if both parts are.
split_last :
    (a b s t : Text)
    → All (λ c. c ≢ 95) s
    → All (λ c. c ≢ 95) t
    → a ++ 95 ∷ s ≡ b ++ 95 ∷ t
    → (a ≡ b) × (s ≡ t)
split_last [] [] s t h k e = ground arith
split_last [] (y ∷ b) s t h k e =
    absurd (has_95 b t (rw (← (cons_parts 95 y s (b ++ 95 ∷ t) e).1) h))
split_last (x ∷ a) [] s t h k e = absurd (has_95 a s (rw (cons_parts x 95 (a ++ 95 ∷ s) t e).1 k))
split_last (x ∷ a) (y ∷ b) s t h k e =
    let tails = cons_parts x y (a ++ 95 ∷ s) (b ++ 95 ∷ t) e in
    let rest = split_last a b s t h k tails.1 in (rw (tails.0, rest.0) refl, rest.1)

func_count-append :
    (name : Text) (fs gs : List FuncDef)
    → func_count name (fs ++ gs) ≡ func_count name fs + func_count name gs
unfolding func_count
func_count-append name [] gs = omega arith
func_count-append name (f ∷ fs) gs = elim (Bool-cases (text_eq f.name name)) [
  | inl e ↦ rw (e, func_count-append name fs gs) (omega arith)
  | inr e ↦ rw (e, func_count-append name fs gs) refl
]

later_count :
    (a b : Text) (n : ℕ) (fs : List FuncDef)
    → a ≡ b
    → n ≤ func_count a fs
    → ¬ n ≡ func_count b fs + 1
later_count a b n fs e h k =
    let same : func_count a fs ≡ func_count b fs = ap (λ x. func_count x fs) e in omega arith

module _ (go : Golib) (fl : Floats) (laws : WritesDecimals go) where
  -- Two entries that are not built in have different labels.
  abbrev pub Apart : FuncDef → FuncDef → Type 0
  Apart f g = f.builtin ≡ false → g.builtin ≡ false → f.label ≢ g.label

  abbrev pub AllApart : List FuncDef → Type 0
  AllApart [] = Unit
  AllApart (f ∷ fs) = All (Apart f) fs × AllApart fs

  -- The label of an entry is its name and a number up to the count of that name.
  abbrev Numbered : List FuncDef → FuncDef → Type 0
  Numbered fs f =
      f.builtin ≡ false
      → (n : ℕ) × (n ≤ func_count f.name fs) × (f.label ≡ f.name ++ 95 ∷ go.itoa n)

  -- The marks of the digits of a label.
  no_underscore : (n : ℕ) → All (λ c. c ≢ 95) (go.itoa n)
  no_underscore n = All-weaken _ _ (go.itoa n) (λ c d. ground arith) (laws.digits n)

  Numbered-append : (fs gs : List FuncDef) (f : FuncDef) → Numbered fs f → Numbered (fs ++ gs) f
  Numbered-append fs gs f h b =
      let r = h b in (r.0, rw (func_count-append f.name fs gs) (omega arith), r.2)

  module _ (id : Text) (pars : List ParDef) (rets : List TypeDef) (m : Marks) where
    new_func-label :
        (fs : List FuncDef)
        → m.is_builtin ≡ false
        → (new_func go fl id pars rets m fs).label ≡ id ++ 95 ∷ go.itoa (func_count id fs + 1)
    unfolding new_func
    new_func-label fs b = rw b (append_assoc id (95 ∷ []) (go.itoa (func_count id fs + 1)))

    new_func-Numbered :
        (fs : List FuncDef)
        → Numbered (fs ++ new_func go fl id pars rets m fs ∷ []) (new_func go fl id pars rets m fs)
    unfolding new_func func_count
    new_func-Numbered fs b = (
      func_count id fs + 1,
      rw (func_count-append id fs (new_func go fl id pars rets m fs ∷ []), text_eq_refl id)
          (omega arith),
      new_func-label fs b,
    )

    new_func-Apart :
        (fs : List FuncDef) (f : FuncDef)
        → Numbered fs f
        → Apart f (new_func go fl id pars rets m fs)
    unfolding new_func
    new_func-Apart fs f h b c e =
        let r = h b in
        let parts =
          split_last f.name id (go.itoa r.0) (go.itoa (func_count id fs + 1)) (no_underscore r.0)
            (no_underscore (func_count id fs + 1)) (sym r.2 ∙ e ∙ new_func-label fs c) in
        later_count f.name id r.0 fs parts.0 r.1 (laws.injective r.0 (func_count id fs + 1) parts.1)

    AllApart-append :
        (fs gs : List FuncDef)
        → All (Numbered gs) fs
        → AllApart fs
        → AllApart (fs ++ new_func go fl id pars rets m gs ∷ [])
    AllApart-append [] gs h k = (tt, tt)
    AllApart-append (f ∷ fs) gs h k = (
      All-append (Apart f) fs (new_func go fl id pars rets m gs ∷ []) k.0
          (new_func-Apart gs f h.0, tt),
      AllApart-append fs gs h.1 k.1,
    )

    -- A table whose entries are numbered and have labels of their own stays so when `AddFunc`
    -- returns.
    pub add_func-keeps :
        (fs : List FuncDef)
        → All (Numbered fs) fs
        → AllApart fs
        → Ends (λ r. All (Numbered r.1) r.1 × AllApart r.1) (add_func go fl id pars rets m fs)
    add_func-keeps fs h k = elim (add_func_lem go fl id pars rets m fs) [
      | inl u ↦ rw u.1 (h, k)
      | inr a ↦ elim a.1 [
        | inl p ↦ rw p.2 tt
        | inr o ↦ rw o.1 (
          All-append _ fs _
              (All-weaken _ _ fs
                (λ f n. Numbered-append fs (new_func go fl id pars rets m fs ∷ []) f n) h)
              (new_func-Numbered fs, tt),
          AllApart-append fs fs h k,
        )
      ]
    ]

-- The tables that calls of `AddFunc` make, from the empty one of `FuncInit` on.
pub data Reachable (go : Golib) (fl : Floats) : List FuncDef → Type 0 where
  start : Reachable go fl []
  then_add :
      (id : Text) (pars : List ParDef) (rets : List TypeDef) (m : Marks) (fs gs : List FuncDef)
      → (r : Added) → Reachable go fl fs
      → add_func go fl id pars rets m fs ≡ ok (r, gs)
      → Reachable go fl gs

module _ (go : Golib) (fl : Floats) (laws : WritesDecimals go) where
  Reachable-Numbered :
      (fs : List FuncDef)
      → Reachable go fl fs
      → All (Numbered go fl laws fs) fs × AllApart go fl laws fs
  Reachable-Numbered _ start = (tt, tt)
  Reachable-Numbered _ (then_add id pars rets m fs gs r h e) =
      let old = Reachable-Numbered fs h in
      Ends-ok (λ a. All (Numbered go fl laws a.1) a.1 × AllApart go fl laws a.1)
        (add_func go fl id pars rets m fs) (r, gs) e
        (add_func-keeps go fl laws id pars rets m fs old.0 old.1)

  -- If `Itoa` writes decimal digits, different ones for different numbers, then in every table that
  -- calls of `AddFunc` make, the functions that are not built in have labels
  -- that differ from each other, overloads of one name included.
  pub Reachable-AllApart : (fs : List FuncDef) → Reachable go fl fs → AllApart go fl laws fs
  Reachable-AllApart fs h = (Reachable-Numbered fs h).1
