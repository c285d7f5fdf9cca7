-- ===== src/Packages/Imports.antt =====
-- compile.go: `PackageInfo`, the map `Packages`, `AddPackage` and `SetCurrentlyUsedFalse`.
use jkvlang.Prelude.{
  ℕ, Bool, true, false, List, [], ◌∷◌, Text, text_eq, Option, none, some, if◌then◌else◌, ltb,
}
use jkvlang.Packages.Names.{dollar, de_mangle, has_char}

pub record PackageInfo : Type 0 where
  pub level : ℕ
  pub mangled_name : Text
  pub source_path : Text
  pub cache_path : Text
  pub is_compiled : Bool
  pub is_std_lib : Bool
  pub currently_used : Bool
  pub alias : Text

-- The map `Packages`: its entries in some order, each key once.
abbrev pub PackageMap : Type 0
PackageMap = List (Text × PackageInfo)

-- The directories of the configuration, `path.Join`, and whether `os.Stat` finds a path.
pub record Places : Type 0 where
  pub lib_path : Text
  pub import_path : Text
  pub cache_dir : Text
  pub join : Text → Text → Text
  pub exists : Text → Bool

pub data Failure : Type 0 where
  circular : Text → Failure
  not_found : Text → Failure

unfoldable pub find_package : Text → PackageMap → Option PackageInfo
find_package id [] = none
find_package id ((k, p) ∷ ps) = if text_eq k id then some p else find_package id ps

-- `Packages[id] = p`
unfoldable pub set_package : Text → PackageInfo → PackageMap → PackageMap
set_package id p [] = (id, p) ∷ []
set_package id p ((k, q) ∷ ps) =
    let rest = set_package id p ps in if text_eq k id then (id, p) ∷ ps else (k, q) ∷ rest

abbrev pub used : PackageInfo → PackageInfo
used p = record p { currently_used = true }

-- `p.currentlyUsed = true` for the pointer that the map has for `id`.
unfoldable pub use_package : Text → PackageMap → PackageMap
use_package id [] = []
use_package id ((k, p) ∷ ps) =
    let rest = use_package id ps in if text_eq k id then (k, used p) ∷ ps else (k, p) ∷ rest

-- `SetCurrentlyUsedFalse`
unfoldable pub set_currently_used_false : PackageMap → PackageMap
set_currently_used_false [] = []
set_currently_used_false ((k, p) ∷ ps) =
    (k, record p { currently_used = false }) ∷ set_currently_used_false ps

-- Where the source of a package is: a path stands in the directory of imports.
unfoldable pub source_of : Places → Text → Text
unfolding has_char
source_of c name = c.join (if has_char dollar name then c.import_path else c.lib_path) name

-- The information on a package that is not in the map.
abbrev pub new_package : Places → ℕ → Text → Text → PackageInfo
unfolding source_of
new_package c level name alias =
    let cache = c.join c.cache_dir name in
    record {
      level = level;
      mangled_name = name;
      source_path = source_of c name;
      cache_path = cache;
      is_compiled = c.exists cache;
      is_std_lib = false;
      currently_used = true;
      alias = alias;
    }

-- The rest of `AddPackage` behind the lookup.
unfoldable pub add_found :
    Places → ℕ → Text → Text → PackageMap → Option PackageInfo → Option Failure × PackageMap
unfolding set_package use_package source_of de_mangle
add_found c level name alias ps none =
    if c.exists (source_of c name)
    then (none, set_package name (new_package c level name alias) ps)
    else (some (not_found (source_of c name)), ps)
add_found c level name alias ps (some p) =
    if ltb p.level level
    then (some (circular (de_mangle name)), ps)
    else (none, use_package name ps)

-- `AddPackage`, with the `Level` of the state; `none` is a nil error.
unfoldable pub add_package : Places → ℕ → Text → Text → PackageMap → Option Failure × PackageMap
unfolding find_package add_found
add_package c level name alias ps = add_found c level name alias ps (find_package name ps)
