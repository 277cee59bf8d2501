-- ===== src/Lib.antt =====
-- A verification library of GopherLua, a Lua 5.1 compiler and virtual machine in Go.
--
-- The program reads a chunk (parse/lexer.go, parse/parser.go) into a syntax tree (ast/), compiles
-- it to 32-bit instructions (compile.go, opcode.go) and runs them (vm.go) on a thread (state.go)
-- that holds a register file, a stack of call frames and the open upvalues; tables (table.go) hold
-- the data. This library models the scanner, the compiler and the parts below the virtual
-- machine: the instruction encoding that the compiler writes and the machine reads, the tables,
-- the comparison of strings, and of a thread the register file, the call frames
-- and the upvalues. A call reserves registers and a frame; a closure finds its upvalues by
-- register, and they are closed when the frame of their registers ends.
--
-- Prelude: shared names; Prelude/Int: Go's `int` as a signed integer; `pred_int` and
--   `succ_int` wrap at its bounds, for positions that a program passes and for `int2Fb`;
--   Prelude/Bits: masks as remainders; Prelude/Lists: slices; Prelude/Result: a value or a panic
--   of Go.
-- Opcode: opcode.go, the opcodes and `opProps`. Opcode/Word: the instruction word as a number
--   below 2 ^ 32, with the setters, getters and constructors; its children prove what they do to
--   the fields.
-- Value: value.go, `LValue`, `LVIsFalse`, `LVAsBool`, and utils.go, `isInteger`, `isArrayKey`.
--   Go's `float64` is a parameter, the record `Float`, with the documented behaviour of its
--   operations on whole numbers as the hypothesis `FloatLaws`; Value/Halves is an instance for
--   which it holds. Pointers are numbers, and equality on them is equality of the numbers.
-- Table: table.go, `LTable` with `Len`, `Append`, `Insert`, `MaxN`, `Remove`, `RawSet`,
--   `RawSetInt`, `RawSetH`, `RawGet`, `RawGetInt`, `RawGetH`; Go's maps are association lists.
--   Table/Next: `Next`. Go ranges over a map in an order of its own, so the order is an argument
--   of each call. A loop in Lua over `Next` is `walk`, which runs on fuel, one unit for each call
--   of `Next`: one for each element and pair and one for the end.
-- Registry: state.go, `registry`. The indices are numbers from 0; an access past the array panics
--   as in Go.
-- Frames: state.go, `callFrame` and `callFrameStack`. The array of frames has its fixed length,
--   and a pointer to a frame is the number of its slot.
-- Upvalues: function.go, `Upvalue`, and state.go, `findUpvalue` and `closeUpvalues`, over a
--   store of cells under addresses, since closures share upvalues. The loops run on a budget of
--   upvalues to visit; the number of open ones is enough, since each round passes one.
-- Utils: utils.go, `strCmp`, whose loop runs on a number of rounds; one more than the first
--   string has bytes is enough, since the loop ends behind the shorter string.
-- Lexer: parse/lexer.go, `Scanner`. Lexer/Chars: single characters (`Next`, `Peek`, `Newline`),
--   where none stands for -1; Lexer/Parts: `skipWhiteSpace` to `scanMultilineString`;
--   Lexer/Tokens: `Scan`. The reader is the list of the bytes that are left, and reports no
--   error but `io.EOF`. Each loop gets two units of fuel more than there are bytes, since a
--   round reads one.
-- Utils/FloatByte: utils.go, `int2Fb`, whose loop runs on rounds; one more than the size is
--   enough.
-- Ast: ast/, the syntax tree as data types.
-- Vm: vm.go and state.go, `OP_MOVE`, `OP_LOADK` and `rkValue`; Vm/Arith: `luaModulo` and
--   `numberArith` over the operations of `float64`, a parameter; Vm/Whole: whole numbers to run
--   them with.
-- Compile: compile.go. Compile/Code: `codeStore`; Compile/Names: `varNamePool`; Compile/Fold:
--   `constFold`; Compile/Context: `funcContext`, with its blocks in the list `Blocks` and
--   pointers to them as places in it; Compile/Patch: `patchCode`; Compile/Refs: `expcontext`,
--   `getIdentRefType`, `getExprName` and `loadRk`; Compile/Operand: the propagations of operands
--   against Vm. The search of a variable runs on a budget, and two more than the place of the
--   current block is enough, since a parent stands before its block. Its integers, which count
--   what is in the chunk, are unbounded. A panic of `raiseCompileError` is the outcome
--   `compile_error`.
-- Compile/Monad: a step of the compiler, over the context at work, the contexts around it, which
--   `Parent` leads to, and the prototypes of nested functions, which are numbered.
--   Compile/Handlers: the record of the functions that call each other, which each handler
--   takes; Compile/Expressions: `compileExpr` with a child for each kind of expression;
--   Compile/Statements: `compileStmt`; Compile/Program: `Compile`, which ties the knot on a
--   budget of nested calls, for which twice the size of the syntax tree is enough. Go changes
--   the operand of a unary minus and the missing step of a loop in the syntax tree; here they
--   are new, so a call in `return`, which is compiled twice, is compiled from the same tree both
--   times. Compile/Emits: what a step leaves that only emits. Compile/Keeps: one lemma for each
--   handler, over a rule for each way to build a step.
-- Not modelled: the parser that goyacc generates, the virtual machine but for moves, constants and
-- arithmetic, and the Lua libraries; `LTable.ForEach` and the comparator of `Sort`, which call
-- back into the program; `opToString`
-- and other printing; capacities of slices, which the program cannot observe.
pub mod Prelude
pub mod Opcode
pub mod Value
pub mod Table
pub mod Registry
pub mod Frames
pub mod Upvalues
pub mod Utils
pub mod Lexer
pub mod Ast
pub mod Vm
pub mod Compile
