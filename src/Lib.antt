-- ===== src/Lib.antt =====
-- The jkv compiler: scanner, codec of UTF-8, tables, operators and assembly writer.
--
-- The compiler reads a text with the scanner (token.go), keeps tables of types, functions, literals
-- and packages while it parses, and writes assembly through the package code. One file of this
-- library or one folder models each part:
--   Prelude    shared names; the outcome of Go code (Outcomes), integers (Int, Int64), the standard
--              library (Golib) and the floats with their arithmetic (Floats) as parameters
--   Utf8       utf8.go: `decode` and `Encode`; Tables, Codec, Transitions, Sound,
--              Sequences, RoundTrip
--   Token      token.go: the tokens (Kind), the reader of characters (Scanner), `next` and what is
--              built on it (Next), and the proof that it ends (Termination)
--   Code       code/code.go: primary types (Types), lines of assembly (Lines), the writer (Asm)
--   TypeDefs   types.go: the types and their table (Defs), `CanAssign` (Assign)
--   Values     values.go: values (Defs) and the tables of literals (Literals)
--   Functions  functions.go: the table of functions (Defs), `FindFuncDefFromParList` and `AddFunc`
--              (Lookup), labels (Labels)
--   Packages   compile.go, state.go: mangled names (Names), the map of the packages (Imports); what
--              is known of its entries (Ready), and lookups after an import (Lookup)
--   Emit       emit_nasm.go. `emit` and what stands on it (Instr), integer operations and
--              comparisons (Ops), floats (Floats), strings (Strings, Concat), slices and structs
--              (Append, Objects, Elements), values on the stack (Values), assignments (AssignInts,
--              AssignFloats, AssignObjects). A machine as the specification of the code (Machine),
--              what is written (Writes), that it computes what is meant (Correct, Compare, Consts),
--              the words on the stack (Balance), the variables of a frame (Frame, Stores)
--   Operators  ops.go, and `TypeFromConstValue` and `UpdateType` of expression.go: constant folding
--              (Folding), `GenerateOp` (Generate); theorems on the folded integers (Integers), their
--              types (Types), the code of operands (Refines) and of constants (Constants)
--   Variables  variables.go and the assignments of expression.go: the table of variables (Defs), what
--              is freed at the end of a block (Free), assignments of expressions (Expressions) and
--              `GenerateAssignment` (Assign); theorems on the offsets (Table), on
--              blocks (Blocks) and on assignments (Checked)
--   Loops      state.go: the stack of loops, and their labels (Nesting)
--   Structs    variables.go: the layout of structs in `ParseStructType` (Layout), which has every field
--              (Fields)
--   Compare    compare.go: `FilesAreEqual` over two contents (Correct)
--   Examples   a concrete library (Go) and runs at concrete inputs (Runs, Emitted, Operations,
--              Assignments, Imports)
--
-- Names are those of the source in another spelling: `AddFunc` is `add_func`, `nextChar` is
-- `next_char`. Global variables and the compiler's `State` are records that functions take and
-- return. Code that may panic returns an `Outcome`; a loop without an obvious bound runs on fuel,
-- and `out_of_fuel` is an outcome of its own. The fuel of the scanner is twice the length of the
-- text and three more: every turn of a loop consumes a byte or the character read ahead.
--
-- Bytes and code points are natural numbers; `Encode` takes the 32 bits of its `int32` as a number
-- below 2 ^ 32. Floats are a parameter with the order, the arithmetic, the parsers and the printer
-- that the code calls. Go's `utf8.DecodeRune`, `strconv.Itoa` and `unicode.IsUpper` are parameters,
-- with the documented behaviour that a theorem relies on as a record of laws; the laws of the floats
-- leave out a negative zero. Two more parameters are `path.Join` and which paths are on the disk; the
-- disk does not change. The source compares pointers to types: the equality of types is a parameter
-- of `GenerateOp` and of the assignments. Go strings are lists of code points, and `len` counts their
-- bytes. The tables of variables and of packages are lists, and a range over the map visits them in
-- the list's order.
--
-- Not modelled: reading and writing files, processes and the command line (main.go, most of
-- compile.go); the comments, directives and the data of literals in the assembly; the code that
-- parses as it reads tokens (the rest of expression.go, statements.go, iterator.go, `ParseType`).
pub mod Prelude
pub mod Utf8
pub mod Code
pub mod Token
pub mod TypeDefs
pub mod Values
pub mod Functions
pub mod Packages
pub mod Examples
pub mod Emit
pub mod Loops
pub mod Compare
pub mod Structs
pub mod Operators
pub mod Variables
