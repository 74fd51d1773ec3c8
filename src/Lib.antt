-- ===== src/Lib.antt =====
-- Verification of two Rust programs of one repository: saturn (src/), an optimiser of arithmetic
-- expressions by equality saturation, and hookline (hookline/src/), a sender of webhooks.
--
-- The parts and how they interact.
--  * saturn keeps an expression as a flat DAG (src/lang.rs). The interpreter (src/eval.rs) says what it
--    computes; the compiler folds what is constant and emits code for a register machine that uses slots
--    again once their values are dead (src/vm.rs). The optimiser between them keeps its e-classes in a
--    union-find (src/unionfind.rs), on which the e-graph, the rewrite runner and the extractor stand.
--  * hookline stores messages and fans each out to one delivery per endpoint. Workers claim deliveries that
--    are due under a lease (hookline/src/queue.rs), have the destination checked
--    (hookline/src/guard.rs), send the request, and settle the outcome, which records an attempt and
--    consults the circuit breaker (hookline/src/breaker.rs). The API changes the same rows meanwhile
--    (hookline/src/store.rs).
--
-- Which file models what.
--  * Prelude: the library names in use, Boolean tests, lists, signed integers with 64-bit words, results.
--  * Saturn/UnionFind: src/unionfind.rs. A union-find is the two lists parents and sizes; an operation that
--    indexes out of bounds, where the source panics, returns none. make_set, find, find_immutable, union,
--    compress_all and set_count are the methods of the same names; ids (Saturn/Id) and sizes wrap around as
--    u32s. A valid state has fewer than 2 ^ 32 ids and the sizes of its roots add up to their number
--    (UnionFind/Sizes), so that no size wraps. The loops of
--    find and find_immutable run on fuel, which is one more than the sum of the sizes: along each link the
--    recorded size grows, so the fuel is never used up on a valid structure. Roots, Sizes, Find, Link, Union,
--    Same, MakeSet, Sets and Compress hold the proofs.
--  * Saturn/Scheduler: BackoffScheduler of src/runner.rs: search with its bans, and can_stop.
--  * Saturn/Float: f64, a parameter: a type with the operations that src/lang.rs calls. Nothing is assumed of
--    them but that the bits of a value determine it, NaNs being one value; Lang/MinMax takes what IEEE-754 says
--    of comparisons as a hypothesis. Saturn/Float/Sample has instances for concrete runs, one with a NaN
--    and a negative zero.
--  * Saturn/Lang: src/lang.rs: the operators, min and max and eval (Op::eval is eval_op); Lang/Node: ENode
--    with normalize and equality; Lang/Expr: RecExpr with add, root and reachable. The loop of reachable runs
--    on fuel, one more than the number of edges, which Lang/Reach shows to be enough; Lang/Topo has the order
--    of its ids, Lang/Equal the equality of nodes, Lang/Normal their normal form, Lang/Add the table of
--    RecExpr, Lang/MinMax min and max.
--  * Saturn/Eval: src/eval.rs. A map is a function to optional values. A panic is the error panicked, an
--    unbound variable and a derivative are the source's errors. Eval/Meaning defines values independently,
--    Eval/Interpreter compares.
--  * Saturn/Vm: the machine of src/vm.rs: eval_with, eval, eval_env, eval_batch. Vm/Compiler: fold, the two
--    passes of Compiler::run, emit, intern_const and alloc; a slot, a literal or a parameter is an index below
--    2 ^ 16, and the unchecked cast of a parameter's position wraps. Vm/Constants, Needed, Uses, Slots,
--    Operands, Readied, Emit, Live, Step, Pass, Inputs and Built hold the lemmas on folding, on what is
--    emitted, on last uses, on free slots and on the code; Vm/Correct and Vm/Batch compare with the
--    interpreter. Vm/Size, Progress, Total and Outcomes show when the compiler succeeds.
--  * Hookline/Breaker: hookline/src/breaker.rs. A Duration is its number of nanoseconds, an instant an i64
--    of milliseconds; the casts and the saturating arithmetic are written out.
--  * Hookline/Guard: hookline/src/guard.rs. Address has the address types and the tests on ranges, Text
--    the operations on strings of bytes, Text/Brackets what is left of a host between brackets, Check the
--    policy and check_url, check_addrs, resolve and the resolver. The URL parser, the IP parser and the name service are parameters.
--  * Hookline/Models: the rows of hookline/src/models.rs. Hookline/Tables: SQL statements as functions on
--    lists of rows. Hookline/Store: get, disable, enable, resume, replay, cancel and record of
--    hookline/src/store.rs, with the health of an endpoint. Hookline/Queue: claim of
--    hookline/src/queue.rs with its two passes; Hookline/Queue/Settle: settle, superseded, apply and
--    release; Settle/Races and Settle/Requeue set these against what the API does meanwhile.
--
-- What is simplified. Ids and texts that no modelled code looks into are numbers. The ids that ids::new_at
-- makes are arguments. A transaction that fails returns an error and no tables. Times are exact integers:
-- the sums of milliseconds that the code makes do not reach the ends of an i64. Logging is left out.
--
-- What is not modelled. hookline: ids, signatures, the retry schedule, the HTTP API and the sender, the
-- database pool, configuration. saturn: the names, sizes, compaction and printing of expressions, the listing
-- of programs, the e-graph, patterns, rewriting but for the scheduler, extraction, the parser, intervals and
-- the rule tables, which work on IEEE-754 numbers.
pub mod Prelude
pub mod Saturn
pub mod Hookline
