-- ===== src/Examples/Runs.antt =====
-- The codec, the scanner and the tables, at concrete inputs.
use jkvlang.Prelude.{
  ℕ, ◌≡◌, ◌≤◌, ◌⊎◌, refl, inl, true, false, List, [], ◌∷◌, ◌++◌, codes, some, length, take, drop,
  ltb, if◌then◌else◌, arith, ◌<◌,
}
use jkvlang.Prelude.Outcomes.{ok, Ends, Returns}
use jkvlang.Prelude.Int.{pos}
use jkvlang.Utf8.Codec.{encode, decode}
use jkvlang.Utf8.RoundTrip.{decode-encode, encode_replacement}
use jkvlang.Utf8.Sound.{IsScalar, decode-IsScalar}
use jkvlang.Token.Kind.{tok_eof}
use jkvlang.Token.Scanner.{State}
use jkvlang.Token.Next.{next}
use jkvlang.Token.Termination.Chars.{left}
use jkvlang.Token.Termination.Cases.{next-Ends}
use jkvlang.Code.Lines.{raw}
use jkvlang.Code.Asm.{Asm, undef, write, cons_arg_code, output_cleanup_code, concat, backwards}
use jkvlang.Code.Asm.Laws.{
  emitted, emitted-write, cons_arg_code-emitted, output_cleanup_code-Returns,
}
use jkvlang.TypeDefs.Defs.{i32_type}
use jkvlang.Functions.Defs.{
  ParDef, FuncDef, Marks, find_func, add_func, new_func, added, uppercase, starts_with_uppercase,
}
use jkvlang.Functions.Lookup.{IsFirstFit, find_func-IsFirstFit, Adds, add_func_lem}
use jkvlang.Functions.Labels.{AllApart, Reachable, start, then_add, Reachable-AllApart}
use jkvlang.Packages.Names.{
  mangle, de_mangle, mangle_fun, de_mangle_fun, short_name, de_mangle-mangle,
  de_mangle_fun-mangle_fun, short_name_lem,
}
use jkvlang.Examples.Go.{ascii_go, ascii_go-DecodesRunes, ascii_go-WritesDecimals, int_floats}

-- The euro sign, written behind one byte.
decode-encode_example :
    (q : List ℕ) × (j : ℕ) × (encode (1 ∷ 0 ∷ 0 ∷ 0 ∷ 0 ∷ 7 ∷ []) 1 0x20AC ≡ some (q, j))
    × (decode q 1 ≡ some (0x20AC, j))
    × (length q ≡ 6)
    × (take 1 q ≡ 1 ∷ [])
    × (drop j q ≡ drop j (1 ∷ 0 ∷ 0 ∷ 0 ∷ 0 ∷ 7 ∷ []))
decode-encode_example =
    decode-encode (1 ∷ 0 ∷ 0 ∷ 0 ∷ 0 ∷ 7 ∷ []) 1 0x20AC (inl (omega arith)) (omega arith)

encode_replacement_example : encode (0 ∷ 0 ∷ 0 ∷ []) 0 0xD800 ≡ encode (0 ∷ 0 ∷ 0 ∷ []) 0 0xFFFD
encode_replacement_example =
    encode_replacement (0 ∷ 0 ∷ 0 ∷ []) 0 0xD800 (inl (omega arith, omega arith))

decode-IsScalar_example : IsScalar 0x20AC × (0 < 3) × (3 ≤ 3)
unfolding decode jkvlang.Utf8.Codec.decode_loop jkvlang.Utf8.Codec.transition
    jkvlang.Utf8.Tables.utf8d jkvlang.Utf8.Tables.next_state jkvlang.Utf8.Codec.collect
decode-IsScalar_example =
    decode-IsScalar (0xE2 ∷ 0x82 ∷ 0xAC ∷ []) 0 (ground arith) (omega arith) refl

abbrev small_text : State
small_text = record {
  ch1 = 97;
  ch2 = 32;
  text = codes "a <= 5";
  p = 2;
  current_line = [];
  token = tok_eof;
  token_string = [];
  comment_level = 0;
  line_num = 1;
  next_line_num = 1;
}

next-Ends_example :
    Ends
      (λ t. (t.p ≤ length t.text) × (t.text ≡ small_text.text) × (left t ≤ left small_text))
      (next ascii_go small_text)
next-Ends_example = next-Ends ascii_go ascii_go-DecodesRunes small_text (omega arith)

abbrev one_par : List ParDef
one_par = record { name = codes "x"; typ = i32_type } ∷ []

abbrev plain : Marks
plain = record { is_builtin = false; has_var_arg = false; is_extern = false }

abbrev first_func : FuncDef
first_func = new_func ascii_go int_floats (codes "f") one_par [] plain []

find_func-IsFirstFit_example :
    Returns
      (IsFirstFit int_floats true (codes "f") one_par (first_func ∷ []))
      (find_func int_floats (codes "f") one_par true (first_func ∷ []))
find_func-IsFirstFit_example =
    find_func-IsFirstFit int_floats true (codes "f") one_par (first_func ∷ [])

add_func_lem_example :
    ((starts_with_uppercase ascii_go int_floats (codes "f") ≡ true)
      × (add_func ascii_go int_floats (codes "f") one_par [] plain (first_func ∷ [])
          ≡ ok (uppercase, first_func ∷ [])))
    ⊎ ((starts_with_uppercase ascii_go int_floats (codes "f") ≡ false)
        × Adds ascii_go int_floats (codes "f") one_par [] plain (first_func ∷ []))
add_func_lem_example =
    add_func_lem ascii_go int_floats (codes "f") one_par [] plain (first_func ∷ [])

first_func-Reachable : Reachable ascii_go int_floats (first_func ∷ [])
unfolding add_func
first_func-Reachable =
    then_add (codes "f") one_par [] plain [] (first_func ∷ []) (added first_func) start refl

Reachable-AllApart_example : AllApart ascii_go int_floats ascii_go-WritesDecimals (first_func ∷ [])
Reachable-AllApart_example =
    Reachable-AllApart ascii_go int_floats ascii_go-WritesDecimals (first_func ∷ [])
      first_func-Reachable

de_mangle-mangle_example : de_mangle (mangle (codes "a/b.c")) ≡ codes "a/b.c"
de_mangle-mangle_example = de_mangle-mangle (codes "a/b.c") (ground arith)

de_mangle_fun-mangle_fun_example :
    de_mangle_fun (mangle_fun (codes "a/b.c") (codes "f")) ≡ (codes "a/b.c", codes "f")
de_mangle_fun-mangle_fun_example =
    de_mangle_fun-mangle_fun (codes "a/b.c") (codes "f") (ground arith) (ground arith)
      (ground arith)

short_name_lem_example :
    (short_name (codes "lib") ≡ codes "lib") × (short_name (codes "a$b$lib") ≡ codes "lib")
short_name_lem_example = short_name_lem (codes "a$b") (codes "lib") (ground arith)

abbrev pub two_args : Asm
two_args = record {
  state = undef;
  label_no = 0;
  local_sp = pos 0;
  next_line_num = 1;
  line_num = 1;
  output = raw (codes "out") ∷ [];
  arg_code = (raw (codes "x") ∷ []) ∷ (raw (codes "y") ∷ []) ∷ [];
  cleanup_code = (raw (codes "free") ∷ []) ∷ [];
  no_code = 0;
}

emitted-write_example : emitted (write (raw (codes "z") ∷ []) two_args) ≡ (
    if ltb 0 two_args.no_code then emitted two_args else emitted two_args ++ raw (codes "z") ∷ [])
emitted-write_example = emitted-write (raw (codes "z") ∷ []) two_args

cons_arg_code-emitted_example :
    (emitted (cons_arg_code 2 false two_args) ≡ emitted two_args)
    × (length (cons_arg_code 2 false two_args).arg_code ≤ 1)
cons_arg_code-emitted_example = cons_arg_code-emitted 1 two_args

output_cleanup_code-Returns_example :
    Returns
      (λ b.
        (emitted b ≡ emitted two_args ++ concat (take 1 (backwards two_args.cleanup_code)))
        × (b.cleanup_code ≡ two_args.cleanup_code))
      (output_cleanup_code 1 two_args)
output_cleanup_code-Returns_example =
    output_cleanup_code-Returns 1 two_args (omega arith) (omega arith)
