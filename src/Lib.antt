-- ===== src/Lib.antt =====
-- A model of the core of zerochain, which runs workflows whose stages are directories, and the
-- theorems that make it correct.
--
-- The parts and how they interact. A workflow is a list of stages, each a directory such as
-- `02a_review`. `StageId::parse` reads such a name, `StageGraphBuilder::from_stages` makes a graph of
-- the stages, in which each group of stages with one number depends on the group before it, and
-- `ExecutionPlan::from_stages` makes a plan from the graph and from the marker files of the stages.
-- The engine asks the plan for the next stage (`next_stage`), runs it, and marks it (`mark_complete`,
-- `mark_error`) until `is_complete`. A graph can hold loops, whose iterations the plan counts.
--
-- Which file models which part:
--   Stage        crates/zerochain-core/src/stage.rs: StageId and Stage, the parser and the order of names,
--                and how a stage is read from its directory (Stage/FromDir)
--   Errors       crates/zerochain-core/src/error.rs: the errors of the modelled functions
--   Graph        crates/zerochain-core/src/graph.rs: ControlOutcome (Graph/Control), Node,
--                WorkflowGraph with its operations, and the builder (Graph/Builder)
--   Plan         crates/zerochain-core/src/plan.rs: the data of a plan (Plan/Types), `from_graph`
--                (Plan/FromGraph), the queries (Plan/State) and the updates (Plan/Update)
--   Memory       crates/zerochain-memory/src/record.rs (Memory/Record) and graph_index.rs
--                (Memory/Index): the contributions that agents share, and the index over them.
--                The store of their files (Memory/Store) is graph_store.rs
--   Context      crates/zerochain-core/src/context.rs, and the head of a Markdown file in okf.rs
--   Engine       crates/zerochain-engine/src/state.rs: the snapshots of stages
--                (Engine/Snapshots), how they are marked when they end (Engine/Marks), and the
--                outcome that they have written (Engine/Outcome)
--   Task         crates/zerochain-core/src/task.rs: a task and how it is read
--   Workflow     crates/zerochain-core/src/workflow.rs: loading (Workflow), changing (Workflow/Change)
--                and creating (Workflow/Init) the directory of a workflow
--   Atomic       crates/zerochain-fs/src/atomic.rs: marker files (Atomic), the lock file by one caller at
--                a time (Atomic/Lock), and by several processes at once (Atomic/Race)
--   Frontmatter  crates/zerochain-core/src/frontmatter.rs: the settings of a stage and their merge
--   Chunk        crates/zerochain-memory/src/chunk.rs: `chunk_text`
--   Cid          crates/zerochain-cas/src/cid.rs: the texts of content identifiers
--   Broker       crates/zerochain-broker/src/memory.rs: `subject_matches`
--   Auth         crates/zerochain-server/src/auth.rs: `constant_time_eq` and `require_api_key`
--   Disk, Effect what is used of the file system, and calls that change a state and may fail
--   Prelude, Text, OrdMap, HashMap   what the components share: texts as lists of UTF-8 bytes,
--                BTreeMap as a list that is sorted by its keys, HashMap and HashSet as lists
-- The files below a component hold its proofs, named for what they prove; the files called Tests hold
-- runs at concrete inputs. A method that changes its receiver is a function that returns the new
-- value, a function that can fail returns a Result, and a function that may panic returns what the
-- comment at it says.
--
-- Bounds and fuel. `visit`, the inner function of the topological order, takes fuel: two rounds more
-- than there are nodes, which is enough for every graph (Graph/Order/Fuel). The state of a node
-- takes one round more than its handle, which is enough where a loop is younger than its body
-- (Plan/Next). Handles and counters are numbers without bound: they are raised by one for each node
-- or each run of a stage, and do not reach 2 ^ 64. The number of a stage is one of `u32`, and a
-- larger one is refused as in the source. The loop of `chunk_text` takes a round for each character,
-- which is enough since each round goes at least one character on (Chunk/Cover).
--
-- Not modelled: the rest of the engine, copy-on-write, the handlers of the servers, the clients of
-- models and brokers, hashing, YAML and JSON, and the Lua interpreter.
-- Floating-point numbers are a parameter, an instant is a number.
pub mod Prelude
pub mod OrdMap
pub mod HashMap
pub mod Text
pub mod Errors
pub mod Stage
pub mod Graph
pub mod Plan
pub mod Memory
pub mod Frontmatter
pub mod Chunk
pub mod Cid
pub mod Broker
pub mod Auth
pub mod Context
pub mod Engine
pub mod Task
pub mod Workflow
pub mod Disk
pub mod Effect
pub mod Atomic
