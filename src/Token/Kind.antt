-- ===== src/Token/Kind.antt =====
-- token.go: the tokens, their names and their classes.
use jkvlang.Prelude.{ℕ, Bool, ◌&&◌, ◌||◌, Text, codes, leb, ◌==◌}

pub data Token : Type 0 where
  tok_undef tok_plus tok_plus_plus tok_plus_assign tok_minus tok_minus_minus tok_minus_asgn : Token
  tok_mult tok_div tok_mod tok_num tok_string tok_id tok_eof tok_lbrace tok_rbrace tok_lpar : Token
  tok_rpar tok_lbrack tok_rbrack tok_comma tok_assign tok_ge tok_gt tok_le tok_lt tok_eq : Token
  tok_ne tok_or tok_or_asgn tok_log_or tok_and tok_and_asgn tok_log_and tok_var tok_func : Token
  tok_const tok_if tok_else tok_for tok_return tok_div_asgn tok_mult_asgn tok_semicolon : Token
  tok_colon tok_struct tok_qmark tok_dot tok_at tok_max tok_min tok_abs tok_type tok_true : Token
  tok_false tok_invalid tok_inv_minus tok_inv_div tok_inv_mod tok_new tok_not tok_loop : Token
  tok_break tok_continue tok_fail tok_xor tok_shl tok_shr tok_and_not tok_char tok_append : Token
  tok_inv_shl tok_inv_shr tok_syscall tok_hash tok_import tok_package tok_as tok_size : Token

-- The `iota` of each constant.
unfoldable pub token_index : Token → ℕ
token_index tok_undef = 0
token_index tok_plus = 1
token_index tok_plus_plus = 2
token_index tok_plus_assign = 3
token_index tok_minus = 4
token_index tok_minus_minus = 5
token_index tok_minus_asgn = 6
token_index tok_mult = 7
token_index tok_div = 8
token_index tok_mod = 9
token_index tok_num = 10
token_index tok_string = 11
token_index tok_id = 12
token_index tok_eof = 13
token_index tok_lbrace = 14
token_index tok_rbrace = 15
token_index tok_lpar = 16
token_index tok_rpar = 17
token_index tok_lbrack = 18
token_index tok_rbrack = 19
token_index tok_comma = 20
token_index tok_assign = 21
token_index tok_ge = 22
token_index tok_gt = 23
token_index tok_le = 24
token_index tok_lt = 25
token_index tok_eq = 26
token_index tok_ne = 27
token_index tok_or = 28
token_index tok_or_asgn = 29
token_index tok_log_or = 30
token_index tok_and = 31
token_index tok_and_asgn = 32
token_index tok_log_and = 33
token_index tok_var = 34
token_index tok_func = 35
token_index tok_const = 36
token_index tok_if = 37
token_index tok_else = 38
token_index tok_for = 39
token_index tok_return = 40
token_index tok_div_asgn = 41
token_index tok_mult_asgn = 42
token_index tok_semicolon = 43
token_index tok_colon = 44
token_index tok_struct = 45
token_index tok_qmark = 46
token_index tok_dot = 47
token_index tok_at = 48
token_index tok_max = 49
token_index tok_min = 50
token_index tok_abs = 51
token_index tok_type = 52
token_index tok_true = 53
token_index tok_false = 54
token_index tok_invalid = 55
token_index tok_inv_minus = 56
token_index tok_inv_div = 57
token_index tok_inv_mod = 58
token_index tok_new = 59
token_index tok_not = 60
token_index tok_loop = 61
token_index tok_break = 62
token_index tok_continue = 63
token_index tok_fail = 64
token_index tok_xor = 65
token_index tok_shl = 66
token_index tok_shr = 67
token_index tok_and_not = 68
token_index tok_char = 69
token_index tok_append = 70
token_index tok_inv_shl = 71
token_index tok_inv_shr = 72
token_index tok_syscall = 73
token_index tok_hash = 74
token_index tok_import = 75
token_index tok_package = 76
token_index tok_as = 77
token_index tok_size = 78

-- `==` on tokens.
unfoldable pub token_eq : Token → Token → Bool
unfolding token_index
token_eq a b = token_index a == token_index b

-- `TokenNames`, and `Name` which indexes it.
unfoldable pub token_name : Token → Text
token_name tok_undef = codes "UNDEF"
token_name tok_plus = codes "+"
token_name tok_plus_plus = codes "++"
token_name tok_plus_assign = codes "+="
token_name tok_minus = codes "-"
token_name tok_minus_minus = codes "--"
token_name tok_minus_asgn = codes "-="
token_name tok_mult = codes "*"
token_name tok_div = codes "/"
token_name tok_mod = codes "%"
token_name tok_num = codes "int"
token_name tok_string = codes "string"
token_name tok_id = codes "ID"
token_name tok_eof = codes "EOF"
token_name tok_lbrace = codes "{"
token_name tok_rbrace = codes "}"
token_name tok_lpar = codes "("
token_name tok_rpar = codes ")"
token_name tok_lbrack = codes "["
token_name tok_rbrack = codes "]"
token_name tok_comma = codes ","
token_name tok_assign = codes "="
token_name tok_ge = codes ">="
token_name tok_gt = codes ">"
token_name tok_le = codes "<="
token_name tok_lt = codes "<"
token_name tok_eq = codes "=="
token_name tok_ne = codes "!="
token_name tok_or = codes "|"
token_name tok_or_asgn = codes "|="
token_name tok_log_or = codes "||"
token_name tok_and = codes "&"
token_name tok_and_asgn = codes "&="
token_name tok_log_and = codes "&&"
token_name tok_var = codes "VAR"
token_name tok_func = codes "FUNC"
token_name tok_const = codes "CONST"
token_name tok_if = codes "if"
token_name tok_else = codes "else"
token_name tok_for = codes "for"
token_name tok_return = codes "return"
token_name tok_div_asgn = codes "/="
token_name tok_mult_asgn = codes "*="
token_name tok_semicolon = codes ";"
token_name tok_colon = codes ":"
token_name tok_struct = codes "struct"
token_name tok_qmark = codes "?"
token_name tok_dot = codes "."
token_name tok_at = codes "@"
token_name tok_max = codes "max"
token_name tok_min = codes "min"
token_name tok_abs = codes "abs"
token_name tok_type = codes "type"
token_name tok_true = codes "true"
token_name tok_false = codes "false"
token_name tok_invalid = codes "INVALID"
token_name tok_inv_minus = codes "INV_MINUS"
token_name tok_inv_div = codes "INV_DIV"
token_name tok_inv_mod = codes "INV_MOD"
token_name tok_new = codes "NEW"
token_name tok_not = codes "NOT"
token_name tok_loop = codes "LOOP"
token_name tok_break = codes "BREAK"
token_name tok_continue = codes "CONTINUE"
token_name tok_fail = codes "FAIL"
token_name tok_xor = codes "XOR"
token_name tok_shl = codes "SHL"
token_name tok_shr = codes "SHR"
token_name tok_and_not = codes "AND_NOT"
token_name tok_char = codes "CHAR"
token_name tok_append = codes "APPEND"
token_name tok_inv_shl = codes "INV_SHL"
token_name tok_inv_shr = codes "INV_SHR"
token_name tok_syscall = codes "SYSCALL"
token_name tok_hash = codes "HASH"
token_name tok_import = codes "IMPORT"
token_name tok_package = codes "PACKAGE"
token_name tok_as = codes "AS"
token_name tok_size = codes "SIZE"

unfoldable pub is_num : ℕ → Bool
is_num ch = leb b'0' ch && leb ch b'9'

unfoldable pub is_hex : ℕ → Bool
is_hex ch = (leb b'a' ch && leb ch b'f') || (leb b'A' ch && leb ch b'F')

unfoldable pub is_alfa : ℕ → Bool
is_alfa ch =
    (leb b'A' ch && leb ch b'Z')
    || (leb b'a' ch && leb ch b'z')
    || ch == b'@'
    || ch == b'$'
    || ch == b'~'
    || ch == b'#'

unfoldable pub is_alfa_num : ℕ → Bool
unfolding is_num is_alfa
is_alfa_num ch = is_num ch || is_alfa ch

unfoldable pub is_compare : Token → Bool
unfolding token_eq
is_compare t =
    token_eq t tok_eq
    || token_eq t tok_ne
    || token_eq t tok_gt
    || token_eq t tok_le
    || token_eq t tok_lt
    || token_eq t tok_ge

unfoldable pub is_arithmetic : Token → Bool
unfolding token_eq
is_arithmetic t =
    token_eq t tok_plus
    || token_eq t tok_minus
    || token_eq t tok_div
    || token_eq t tok_mult
    || token_eq t tok_inv_div
    || token_eq t tok_inv_minus
    || token_eq t tok_mod
    || token_eq t tok_inv_mod
    || token_eq t tok_and
    || token_eq t tok_or
    || token_eq t tok_xor
    || token_eq t tok_shl
    || token_eq t tok_shr
    || token_eq t tok_and_not
    || token_eq t tok_inv_shl
    || token_eq t tok_inv_shr

unfoldable pub is_logic : Token → Bool
unfolding token_eq
is_logic t = token_eq t tok_and || token_eq t tok_or || token_eq t tok_and_not
