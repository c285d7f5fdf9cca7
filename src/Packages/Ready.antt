-- ===== src/Packages/Ready.antt =====
-- The map of the packages: what is known of every entry.
use jkvlang.Prelude.{
  ℕ, ◌≡◌, refl, inl, inr, true, Bool-cases, [], ◌∷◌, Text, text_eq, Option, none, some, ltb,
}
use jkvlang.Packages.Imports.{
  PackageInfo, PackageMap, Places, find_package, set_package, use_package, set_currently_used_false,
  source_of, new_package, add_found, add_package,
}

-- What is known of a package: its name is its key, its source is there, and it is compiled when it
-- is in the cache.
abbrev pub IsReady : Places → Text → PackageInfo → Type 0
IsReady c k p =
    (p.mangled_name ≡ k) × (c.exists p.source_path ≡ true) × (p.is_compiled ≡ c.exists p.cache_path)

abbrev pub AllReady : Places → PackageMap → Type 0
AllReady c [] = Unit
AllReady c ((k, p) ∷ ps) = IsReady c k p × AllReady c ps

-- The maps that the operations make from the empty one, errors included.
pub data Reachable (c : Places) : PackageMap → Type 0 where
  start : Reachable c []
  then_add :
      {ps : PackageMap} (level : ℕ) (name alias : Text)
      → Reachable c ps
      → Reachable c (add_package c level name alias ps).1
  then_unused : {ps : PackageMap} → Reachable c ps → Reachable c (set_currently_used_false ps)

set_package-AllReady :
    (c : Places) (id : Text) (p : PackageInfo) (ps : PackageMap)
    → IsReady c id p
    → AllReady c ps
    → AllReady c (set_package id p ps)
unfolding set_package
set_package-AllReady c id p [] h k = (h, tt)
set_package-AllReady c id p ((j, q) ∷ ps) h k = elim (Bool-cases (text_eq j id)) [
  | inl e ↦ rw e (h, k.1)
  | inr e ↦ rw e (k.0, set_package-AllReady c id p ps h k.1)
]

use_package-AllReady :
    (c : Places) (id : Text) (ps : PackageMap) → AllReady c ps → AllReady c (use_package id ps)
unfolding use_package
use_package-AllReady c id [] h = tt
use_package-AllReady c id ((j, q) ∷ ps) h = elim (Bool-cases (text_eq j id)) [
  | inl e ↦ rw e h
  | inr e ↦ rw e (h.0, use_package-AllReady c id ps h.1)
]

unused-AllReady :
    (c : Places) (ps : PackageMap) → AllReady c ps → AllReady c (set_currently_used_false ps)
unfolding set_currently_used_false
unused-AllReady c [] h = tt
unused-AllReady c ((j, q) ∷ ps) h = (h.0, unused-AllReady c ps h.1)

add_found-AllReady :
    (c : Places) (level : ℕ) (name alias : Text) (ps : PackageMap) (o : Option PackageInfo)
    → AllReady c ps
    → AllReady c (add_found c level name alias ps o).1
unfolding source_of add_found
add_found-AllReady c level name alias ps none h = elim (Bool-cases (c.exists (source_of c name))) [
  | inl e ↦ rw e (set_package-AllReady c name (new_package c level name alias) ps (refl, e, refl) h)
  | inr e ↦ rw e h
]
add_found-AllReady c level name alias ps (some p) h = elim (Bool-cases (ltb p.level level)) [
  | inl e ↦ rw e h
  | inr e ↦ rw e (use_package-AllReady c name ps h)
]

-- In every map that `AddPackage` and `SetCurrentlyUsedFalse` make from the empty one, each package
-- stands under its own name, its source is there, and it is compiled when it is in the cache.
pub Reachable-AllReady : (c : Places) {ps : PackageMap} → Reachable c ps → AllReady c ps
unfolding add_package
Reachable-AllReady c start = tt
Reachable-AllReady c (then_add {ps} level name alias r) =
    add_found-AllReady c level name alias ps (find_package name ps) (Reachable-AllReady c r)
Reachable-AllReady c (then_unused {ps} r) = unused-AllReady c ps (Reachable-AllReady c r)
