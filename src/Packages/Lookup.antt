-- ===== src/Packages/Lookup.antt =====
-- The map of the packages: what `AddPackage` finds, leaves and refuses.
use mathlib.Core.Option
use mathlib.Core.Option.{none-ne-some}
use jkvlang.Prelude.{
  ℕ, ◌≡◌, refl, sym, ap, ◌∙◌, inl, inr, true, false, Bool-cases, [], ◌∷◌, Text, text_eq,
  text_eq_iff, text_eq_refl, Option, none, some, if◌then◌else◌, ltb, arith,
}
use jkvlang.Packages.Names.{de_mangle}
use jkvlang.Packages.Imports.{
  PackageInfo, PackageMap, Places, circular, find_package, set_package, used, use_package,
  source_of, new_package, add_found, add_package,
}

set_package-found :
    (id : Text) (p : PackageInfo) (ps : PackageMap) → find_package id (set_package id p ps) ≡ some p
unfolding set_package find_package
set_package-found id p [] = rw (text_eq_refl id) refl
set_package-found id p ((j, q) ∷ ps) = elim (Bool-cases (text_eq j id)) [
  | inl e ↦ rw (e, text_eq_refl id) refl
  | inr e ↦ rw (e, e) (set_package-found id p ps)
]

use_package-set_package :
    (id : Text) (p : PackageInfo) (ps : PackageMap)
    → use_package id (set_package id (used p) ps) ≡ set_package id (used p) ps
unfolding set_package use_package
use_package-set_package id p [] = rw (text_eq_refl id) refl
use_package-set_package id p ((j, q) ∷ ps) = elim (Bool-cases (text_eq j id)) [
  | inl e ↦ rw (e, text_eq_refl id) refl
  | inr e ↦ rw (e, e) (ap (λ r. (j, q) ∷ r) (use_package-set_package id p ps))
]

-- A package that is not in the map and whose source is there is added without an error. A second
-- import of it leaves the map as it is, and is an error, that of a circular import, when it stands
-- at a higher level than the first one.
pub add_package-again :
    (c : Places) (level later : ℕ) (name alias other : Text) (ps : PackageMap)
    → find_package name ps ≡ none
    → c.exists (source_of c name) ≡ true
    → let first = add_package c level name alias ps in
      (first.0 ≡ none)
      × (add_package c later name other first.1
          ≡ (if ltb level later then some (circular (de_mangle name)) else none, first.1))
unfolding add_package source_of add_found
add_package-again c level later name alias other ps h e =
    rw (h, e)
      (
        refl,
        rw (set_package-found name (new_package c level name alias) ps)
            (elim (Bool-cases (ltb level later)) [
              | inl l ↦ rw l refl
              | inr l ↦
                  rw (l, use_package-set_package name (new_package c level name alias) ps) refl
            ]),
      )

set_package-others :
    (id other : Text) (p : PackageInfo) (ps : PackageMap)
    → text_eq id other ≡ false
    → find_package other (set_package id p ps) ≡ find_package other ps
unfolding set_package find_package
set_package-others id other p [] h = rw h refl
set_package-others id other p ((j, q) ∷ ps) h = elim (Bool-cases (text_eq j id)) [
  | inl e ↦ rw (e, h, (text_eq_iff j id).0 e, h) refl
  | inr e ↦ rw (e, set_package-others id other p ps h) refl
]

use_package-others :
    (id other : Text) (ps : PackageMap)
    → text_eq id other ≡ false
    → find_package other (use_package id ps) ≡ find_package other ps
unfolding use_package find_package
use_package-others id other [] h = refl
use_package-others id other ((j, q) ∷ ps) h = elim (Bool-cases (text_eq j id)) [
  | inl e ↦ rw (e, (text_eq_iff j id).0 e, h) refl
  | inr e ↦ rw (e, use_package-others id other ps h) refl
]

use_package-found :
    (id : Text) (ps : PackageMap)
    → find_package id (use_package id ps) ≡ Option.map used (find_package id ps)
unfolding use_package find_package
use_package-found id [] = refl
use_package-found id ((j, q) ∷ ps) = elim (Bool-cases (text_eq j id)) [
  | inl e ↦ rw (e, e) refl
  | inr e ↦ rw (e, e) (use_package-found id ps)
]

-- The package `id` is in the map, in use, and of the level or a higher one.
abbrev pub IsInUse : Text → ℕ → PackageMap → Type 0
IsInUse id level ps =
    (p : PackageInfo) × (find_package id ps ≡ some p)
    × (p.currently_used ≡ true)
    × (ltb p.level level ≡ false)

not_below : (n : ℕ) → ltb n n ≡ false
not_below n = ground arith

add_found-InUse :
    (c : Places) (level : ℕ) (name alias : Text) (ps : PackageMap) (o : Option PackageInfo)
    → find_package name ps ≡ o
    → (add_found c level name alias ps o).0 ≡ none
    → IsInUse name level (add_found c level name alias ps o).1
unfolding add_found
add_found-InUse c level name alias ps none h e = elim (Bool-cases (c.exists (source_of c name))) [
  | inl k ↦ rw k (
    new_package c level name alias,
    set_package-found name (new_package c level name alias) ps,
    refl,
    not_below level,
  )
  | inr k ↦ absurd (none-ne-some _ (sym (rw k at e)))
]
add_found-InUse c level name alias ps (some p) h e = elim (Bool-cases (ltb p.level level)) [
  | inl k ↦ absurd (none-ne-some _ (sym (rw k at e)))
  | inr k ↦ rw k (used p, use_package-found name ps ∙ ap (Option.map used) h, refl, k)
]

add_found-others :
    (c : Places) (level : ℕ) (name alias other : Text) (ps : PackageMap) (o : Option PackageInfo)
    → text_eq name other ≡ false
    → find_package other (add_found c level name alias ps o).1 ≡ find_package other ps
unfolding add_found
add_found-others c level name alias other ps none h =
    elim (Bool-cases (c.exists (source_of c name))) [
      | inl k ↦ rw k (set_package-others name other (new_package c level name alias) ps h)
      | inr k ↦ rw k refl
    ]
add_found-others c level name alias other ps (some p) h = elim (Bool-cases (ltb p.level level)) [
  | inl k ↦ rw k refl
  | inr k ↦ rw k (use_package-others name other ps h)
]

-- Where `AddPackage` returns no error, the package is in the map, in use, and its level is that of
-- the import or higher; what the map has for any other name is as it was.
pub add_package-InUse :
    (c : Places) (level : ℕ) (name alias other : Text) (ps : PackageMap)
    → (add_package c level name alias ps).0 ≡ none
    → text_eq name other ≡ false
    → IsInUse name level (add_package c level name alias ps).1
      × (find_package other (add_package c level name alias ps).1 ≡ find_package other ps)
unfolding add_package
add_package-InUse c level name alias other ps e h = (
  add_found-InUse c level name alias ps (find_package name ps) refl e,
  add_found-others c level name alias other ps (find_package name ps) h,
)
