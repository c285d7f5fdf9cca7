-- ===== src/Packages/Names.antt =====
-- compile.go: `Mangle`, `DeMangle`, `MangleFun`, `DeMangleFun`, `ShortName`; state.go: `Mangle`.
use jkvlang.Prelude.{
  ℕ, ◌≡◌, ◌≢◌, refl, inl, inr, Bool, true, false, not, ◌&&◌, ◌||◌, Bool-cases, List, [], ◌∷◌, ◌++◌,
  map, Text, codes, text_eq, ◌==◌, if◌then◌else◌, All, arith,
}

-- The characters `#`, `$`, `.`, `/`, `\` and `~`.
abbrev pub hash : ℕ
hash = 35

abbrev pub dollar : ℕ
dollar = 36

abbrev pub dot : ℕ
dot = 46

abbrev pub slash : ℕ
slash = 47

abbrev pub backslash : ℕ
backslash = 92

abbrev pub tilde : ℕ
tilde = 126

-- `strings.Replace` of one character by another, everywhere.
abbrev swap : ℕ → ℕ → ℕ → ℕ
swap old new c = if c == old then new else c

abbrev replace : ℕ → ℕ → Text → Text
replace old new s = map (swap old new) s

unfoldable pub mangle : Text → Text
mangle path = replace dot tilde (replace backslash dollar (replace slash dollar path))

unfoldable pub de_mangle : Text → Text
de_mangle path = replace dollar slash (replace tilde dot path)

-- `strings.Split` at one character, which gives at least one part.
abbrev on_first : ℕ → List Text → List Text
on_first c [] = (c ∷ []) ∷ []
on_first c (w ∷ ws) = (c ∷ w) ∷ ws

unfoldable pub split : ℕ → Text → List Text
split sep [] = [] ∷ []
split sep (c ∷ cs) = let rest = split sep cs in if c == sep then [] ∷ rest else on_first c rest

unfoldable pub mangle_fun : Text → Text → Text
unfolding mangle
mangle_fun path fun = mangle path ++ hash ∷ fun

abbrev two_parts : Text → List Text → Text × Text
two_parts whole (path ∷ fun ∷ []) = (de_mangle path, fun)
two_parts whole _ = (whole, whole)

unfoldable pub de_mangle_fun : Text → Text × Text
unfolding split de_mangle
de_mangle_fun s = two_parts s (split hash s)

abbrev last_part : Text → List Text → Text
last_part w [] = w
last_part w (v ∷ vs) = last_part v vs

abbrev short_of : Text → List Text → Text
short_of whole [] = whole
short_of whole (w ∷ []) = whole
short_of whole (w ∷ v ∷ vs) = last_part v vs

-- `ShortName`
unfoldable pub short_name : Text → Text
unfolding split
short_name s = short_of s (split dollar s)

unfoldable pub has_char : ℕ → Text → Bool
has_char c [] = false
has_char c (d ∷ ds) = d == c || has_char c ds

-- `(s *State) Mangle`, with the mangled name of the package.
unfoldable pub mangle_id : Text → Text → Text
unfolding has_char
mangle_id module_name id =
    if has_char hash id
    then id
    else if not (text_eq module_name []) && not (text_eq module_name (codes "main"))
    then module_name ++ hash ∷ id
    else id

-- A path of directories and files with none of the characters that stand for others.
abbrev pub IsPathChar : ℕ → Type 0
IsPathChar c = (c ≢ dollar) × (c ≢ tilde) × (c ≢ backslash)

eq_test : (c : ℕ) → (c == c) ≡ true
eq_test c = ground arith

ne_test : (c d : ℕ) → c ≢ d → (c == d) ≡ false
ne_test c d h = ground arith

keeps_hash :
    (c : ℕ) → c ≢ hash → swap dot tilde (swap backslash dollar (swap slash dollar c)) ≢ hash
keeps_hash c h = ground arith

restores :
    (c : ℕ)
    → IsPathChar c
    → swap dollar slash
        (swap tilde dot (swap dot tilde (swap backslash dollar (swap slash dollar c))))
      ≡ c
restores c h = ground arith

-- `DeMangle` gives back every path that was mangled, when the path has no `$`, `~` or backslash.
pub de_mangle-mangle : (path : Text) → All IsPathChar path → de_mangle (mangle path) ≡ path
unfolding mangle de_mangle
de_mangle-mangle [] h = refl
de_mangle-mangle (c ∷ cs) h = rw (restores c h.0, de_mangle-mangle cs h.1) refl

abbrev pub HasNo : ℕ → Text → Type 0
HasNo sep s = All (λ c. c ≢ sep) s

split-whole : (sep : ℕ) (s : Text) → HasNo sep s → split sep s ≡ s ∷ []
unfolding split
split-whole sep [] h = refl
split-whole sep (c ∷ cs) h = rw (split-whole sep cs h.1, ne_test c sep h.0) refl

split-two :
    (sep : ℕ) (a b : Text) → HasNo sep a → HasNo sep b → split sep (a ++ sep ∷ b) ≡ a ∷ b ∷ []
unfolding split
split-two sep [] b h k = rw (split-whole sep b k, eq_test sep) refl
split-two sep (c ∷ a) b h k = rw (split-two sep a b h.1 k, ne_test c sep h.0) refl

mangle-HasNo : (path : Text) → HasNo hash path → HasNo hash (mangle path)
unfolding mangle
mangle-HasNo [] h = tt
mangle-HasNo (c ∷ cs) h = (keeps_hash c h.0, mangle-HasNo cs h.1)

-- `DeMangleFun` gives back the path and the name that `MangleFun` has joined, when the path has no
-- `#`, `$`, `~` or backslash and the name has no `#`.
pub de_mangle_fun-mangle_fun :
    (path fun : Text)
    → All IsPathChar path
    → HasNo hash path
    → HasNo hash fun
    → de_mangle_fun (mangle_fun path fun) ≡ (path, fun)
unfolding de_mangle_fun mangle_fun
de_mangle_fun-mangle_fun path fun h k l =
    rw (split-two hash (mangle path) fun (mangle-HasNo path k) l, de_mangle-mangle path h) refl

-- The parts of a text with the separator in it: the last one is what stands behind the last one.
split-last :
    (sep : ℕ) (a b : Text)
    → HasNo sep b
    → (w : Text) × (v : Text) × (vs : List Text) × (split sep (a ++ sep ∷ b) ≡ w ∷ v ∷ vs)
      × (last_part v vs ≡ b)
unfolding split
split-last sep [] b h = ([], b, [], split-two sep [] b tt h, refl)
split-last sep (c ∷ a) b h =
    let r = split-last sep a b h in
    elim (Bool-cases (c == sep)) [
      | inl e ↦ ([], r.0, r.1 ∷ r.2, rw (e, r.3) refl, r.4)
      | inr e ↦ (c ∷ r.0, r.1, r.2, rw (e, r.3) refl, r.4)
    ]

-- `ShortName` of a mangled name is what stands behind its last `$`, and the whole of a name
-- without one.
pub short_name_lem :
    (dir name : Text)
    → HasNo dollar name
    → (short_name name ≡ name) × (short_name (dir ++ dollar ∷ name) ≡ name)
unfolding short_name
short_name_lem dir name h =
    let r = split-last dollar dir name h in (rw (split-whole dollar name h) refl, rw r.3 r.4)
