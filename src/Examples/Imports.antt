-- ===== src/Examples/Imports.antt =====
-- The map of the packages with two directories on a small disk.
use jkvlang.Prelude.{◌≡◌, refl, ◌||◌, [], ◌∷◌, ◌++◌, codes, text_eq, none, some, if◌then◌else◌, ltb}
use jkvlang.Packages.Names.{slash, de_mangle, has_char}
use jkvlang.Packages.Imports.{
  PackageMap, Places, circular, find_package, set_package, set_currently_used_false, source_of,
  add_found, add_package,
}
use jkvlang.Packages.Ready.{AllReady, Reachable, Reachable-AllReady}
use jkvlang.Packages.Lookup.{IsInUse, add_package-again, add_package-InUse}

-- A library with the package `io`, which is compiled, and an import `x$y`.
abbrev disk : Places
disk = record {
  lib_path = codes "lib";
  import_path = codes "imports";
  cache_dir = codes "cache";
  join = λ a b. a ++ slash ∷ b;
  exists = λ p.
      text_eq p (codes "lib/io") || text_eq p (codes "imports/x$y") || text_eq p (codes "cache/io");
}

abbrev with_io : PackageMap
with_io = (add_package disk 1 (codes "io") (codes "io") []).1

abbrev with_both : PackageMap
with_both = (add_package disk 2 (codes "x$y") (codes "y") (set_currently_used_false with_io)).1

Reachable-AllReady_example : AllReady disk with_both
Reachable-AllReady_example = Reachable-AllReady disk (
    Reachable.then_add 2 (codes "x$y") (codes "y")
      (Reachable.then_unused (Reachable.then_add 1 (codes "io") (codes "io") Reachable.start)))

add_package-again_example :
    let first = add_package disk 2 (codes "x$y") (codes "y") with_io in
    (first.0 ≡ none)
    × (add_package disk 3 (codes "x$y") (codes "z") first.1
        ≡ (if ltb 2 3 then some (circular (de_mangle (codes "x$y"))) else none, first.1))
unfolding add_package add_found find_package set_package source_of has_char text_eq
add_package-again_example =
    add_package-again disk 2 3 (codes "x$y") (codes "y") (codes "z") with_io refl refl

add_package-InUse_example :
    IsInUse (codes "x$y") 2 with_both
    × (find_package (codes "io") with_both
        ≡ find_package (codes "io") (set_currently_used_false with_io))
unfolding add_package add_found find_package set_package source_of has_char text_eq
    set_currently_used_false
add_package-InUse_example =
    add_package-InUse disk 2 (codes "x$y") (codes "y") (codes "io")
      (set_currently_used_false with_io) refl refl
