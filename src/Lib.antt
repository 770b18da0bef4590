-- ===== src/Lib.antt =====
-- The cielo compiler, in crates/: a front end, a core language with effects, a staging phase that
-- evaluates at compile time what it can, and lowerings down to C. This library models its shared
-- vocabulary, its core language, its lexer, its compile-time evaluator, its control-flow graph, and of
-- the later phases the placement of regions, and the liveness, the managed values and the verifier of
-- reference counting.
--
-- How the parts interact: the lexer (Frontend) reads a source and interns its names; the core program
-- (Ir) is a set of arenas whose nodes name one another by ids; each function declares a row of
-- effects, whose levels decide what may be delayed; the evaluator (Staging) fills a dense map from
-- expression ids to literals by passes over the expression arena, and from it the branch decisions.
-- The control-flow graph (Ir/Cfg) is again a set of arenas: blocks name instructions, expressions and
-- one another. Its validation is read by the verifier of reference counts (Memory), whose plan rests
-- on liveness and on the managed values, and the placement of regions (Runtime) writes where the slots
-- of each region live. Dense maps, ids, spans, diagnostics, the interner and fixed points (Base) stand
-- below all of them.
--
-- Files and code:
--   Base/DenseMap      crates/cielo-base/src/densemap.rs: `DenseMap`, slots with a count; `get_mut` is
--                      a write of a function of the value
--   Base/Ids           crates/cielo-base/src/ids.rs: an id is its index, `new` fails at 2^32
--   Base/Span          crates/cielo-base/src/span.rs
--   Base/Diagnostics   crates/cielo-base/src/diagnostics.rs: `DiagnosticBag`
--   Base/Interner      crates/cielo-base/src/symbols.rs: `Interner`
--   Base/Fixpoint      crates/cielo-base/src/fixpoint.rs: `fixpoint`
--   Ir/Effect          crates/cielo-ir/src/effect.rs: levels and flags (Capability), rows (Row), the
--                      level of a row and `is_thunkable` (Thunk)
--   Ir/Ownership, Ir/Target, Ir/Builtins
--                      crates/cielo-ir/src/ownership.rs, target.rs and builtins.rs
--   Ir/Core            crates/cielo-ir/src/core.rs: `Literal`, operators, `CoreTypeRef`, expressions,
--                      statements, `CoreProgram`
--   Ir/Region, Ir/Cfg  crates/cielo-ir/src/region.rs and cfg.rs: the nodes (Expr, Instruction,
--                      Terminator), `CfgProgram` (Program), and of `validate` the checks of
--                      assignments and of blocks (Validate; proofs in Sound and Assigned)
--   Ir/Walk            crates/cielo-ir/src/walk.rs: `walk_exprs` and `any_expr` over an arena
--   Ir/FunctionGraph   crates/cielo-ir/src/function_graph.rs: the dense remapping, and
--                      `prune_unreachable_functions` as `prune_to`, given the functions reachable; the
--                      places of the dense ids (Dense), and what pruning renames (Renamed)
--   Frontend/Lexer     crates/cielo-frontend/src/lexer.rs: tokens and the lexer's state (Token), the
--                      loops (Scan), strings, characters, numbers and names (Literals), the main loop
--                      (Run); proofs in Moves, Words, Numbers,
--                      Rounds and Total
--   Staging/Ints, Staging/Eval, Staging/CtCache
--                      crates/cielo-staging/src/passes/ct_common.rs: integers of the target word,
--                      `eval_unary` and `eval_binary`, `compute_ct_cache` and
--                      `rebuild_branch_decisions`
--   Staging/ConstantTable
--                      crates/cielo-ir/src/constants.rs and
--                      crates/cielo-staging/src/passes/constant_table.rs: the keys of constants and
--                      `finalize_constant_table`
--   Runtime/Region     crates/cielo-runtime/src/region.rs: the extent of a region, `escapes`, `place`;
--                      proofs in Confined, Escape and Placed
--   Memory/Verify      crates/cielo-memory/src/refcount/verify.rs: `verify`; proofs in Clean, Sites
--                      and Unique
--   Memory/Liveness    crates/cielo-memory/src/refcount/analysis/cfg_liveness.rs: the loop over the
--                      equations, what blocks use and define (Analyze), the scan for last uses
--                      (LastUses); proofs in Sets, Grow, Solve, Least, Analyze/Correct and
--                      LastUses/Agree
--   Memory/Managed     crates/cielo-memory/src/refcount/analysis/managed.rs: a round of `classify` as
--                      a list of moves, each a value's flag with the expression that it follows
--   Prelude/Explore    the loop over a stack with a visited set that walk.rs and region.rs both write
--   Prelude            shared names, lists, sorted lists, integers, the standard `HashMap`
--   Tests              runs at concrete inputs
--
-- How code becomes definitions: a method on `&mut self` takes the state and returns the next one; an
-- `Option` of it has `none` for a failed assertion. Ids, offsets and symbols are native numbers. A
-- text is the list of its UTF-8 bytes. A `HashSet` or `BTreeSet` of ids is a list of numbers, where
-- only membership is read. An error or a report of the graph's checks is a constructor with the ids
-- that its message shows. An `i64` is an integer, and each operation says where the result is checked
-- or wrapped. Floats are a parameter: a record of the operations that the code uses (FloatOps), with what IEEE 754 says of comparison as the hypothesis IsIeee where a theorem needs
-- it, and the lexer takes the parsing of a float as an argument. `sort_unstable`, `dedup` and
-- `binary_search` on increasing lists are written out. A debug assertion counts as an assertion.
--
-- Bounds and fuel: the lexer's loop runs on fuel, one more than the bytes of the source, which is
-- enough, since each round takes a byte. The evaluator's passes are bounded by the code itself, by
-- one more than the number of expressions; each pass but the last adds a value. `fixpoint` has the
-- limit that its caller gives. The loop over a stack runs on one more round than the neighbours of all
-- nodes: each round takes a node off the stack, and a node's neighbours are pushed once. The loop of
-- the liveness analysis runs on one more round than twice the product of the blocks and the values
-- used, since each round but the last adds a value to a set, and that of `classify` on one more than
-- the values, since each round but the last sets a flag. Reads of a block's own sets by its id
-- stand for reads by its place, and theorems ask that the blocks are numbered by their places.
--
-- Not modelled: the rendering of diagnostics, the parser, lowering to core, semantic analysis, the
-- other passes of staging, the linear representation, of the memory strategies the uniqueness analysis
-- and the insertion of reference counts, the C backend, and the query database, the driver and the
-- facade around them; of core.rs `fold_stmts` and `hash_own`; of cfg.rs `check_value_definitions` and
-- the keys of constructor literals, so that the verifier takes the errors of the graph's validation as
-- an argument; of function_graph.rs the walk that collects the reachable functions; of walk.rs
-- `walk_operands` and the fingerprints, and visitors that change what they see; of ct_common.rs the
-- assertion before staging and the key of the cache on disk; of constant_table.rs the counting over an
-- arena.
pub mod Prelude
pub mod Base
pub mod Ir
pub mod Frontend
pub mod Runtime
pub mod Staging
pub mod Memory
pub mod Tests
