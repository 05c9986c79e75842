-- ===== src/Lib.antt =====
-- A model of cloudcc, a compiler that reads an application and writes the cloud resources that it needs.
--
-- The parts and their files:
--
-- Base: what the other modules share. A Go string is a list of code points (Base/Strings), a map is an association
-- list with different keys where its order of keys is used (Base/Dict), `int` is the type of Base/Int where it may be
-- negative.
--
-- Graph: internal/graph/graph.go, the directed graph that orders plugins and resources. `Directed` is the record of the
-- three maps; `Add`, `Connect` and the readers are functions on it, and `Connect` answers none where the source panics.
-- `TopoSort` is a state of the loop (Kahn), a round, and the loop on fuel; the number of nodes is fuel enough,
-- since every round takes a node that no other round takes. Graph/Defs has the definitions, Graph/Shape the invariant,
-- Graph/Adjacency the sorted lists, Graph/Release, Graph/Kahn and Graph/Final the loop, Graph/Topo the results.
--
-- Compiler: internal/compiler/compiler.go. A plugin is a name, its dependencies and a transformation of the context that
-- may report an error; the context is a parameter. `Schedule` registers the plugins, links them in the graph, sorts the
-- graph and picks the plugins; each panic, nil plugin and exhausted loop of these steps is an error value of its own.
-- `Compile` keeps a trace of the plugins that it ran. Compiler/Register, Compiler/Link and Compiler/Schedule
-- follow the steps, Compiler/Run the execution.
--
-- Config: internal/config/config.go and load.go. Config/Value has the untyped values of a YAML document and `DeepMerge`,
-- Config/Resource the settings of a resource and `Merge`, Config/App the configuration with `Lookup` and `Record`,
-- Config/Check the checks, Config/Load the layering of a file over the defaults. Config/Merged, Config/Accepted, Config/Paths, Config/Maps, Config/Overlay, Config/Copies, Config/Layers and Config/Recorded say what they guarantee. The
-- decoder of YAML is a parameter of `Load`; the encoder is left out.
--
-- Sanitize: internal/sanitize/sanitize.go, the rules that make names for the services. The digest and the
-- lower-casing of a character are parameters; of the digest the theorems use that it has 64 characters, all of
-- them hexadecimal. The loop of `collapse` runs on fuel; the length of the text is enough, since a pass shortens it.
-- Sanitize/Env has the names of environment variables of internal/provider/aws/names.go.
--
-- Topic: internal/provider/aws/pubsub_select.go, which service backs a topic. Messages are left out of errors; the
-- values in them are kept. Topic/Meetable says which requirements get a service, Topic/Serves what it gives.
--
-- Args: internal/provider/aws/lambdaargs.go and containerargs.go, what a unit that is a function or a container may set.
-- Args/Schema has the schemas and the checks, Args/Translate the walk of a block along a schema, Args/Tables the sizes of
-- Fargate, Args/Units the arguments of the two kinds of unit; Args/Gathered, Args/Conforms, Args/Accepted, Args/Sizes, Args/Sized and Args/Placed
-- what they guarantee. The loop that fills a row of the table runs on fuel, the number of its rounds. The decoder of YAML and
-- the lower-casing of texts are parameters.
--
-- Support: internal/provider/aws/support.go, the types that a capability can be configured with (Support/Table), with what the
-- lists of types say (Support/Levels).
--
-- Diag: internal/diag/diag.go, the sink that collects diagnostics without repetition, fifty at most.
--
-- Ir: internal/ir/ir.go, the program of intents, resources and edges. Intents and resources are types with a function for
-- the key. Ir/Defs has the operations, Ir/Links and Ir/Order what `ResourceOrder` guarantees, on top of the graph's theorems.
-- Ir/Expr has the values of properties of internal/ir/expr.go and `linkReferences` of internal/provider/aws/resolve.go, Ir/Refs
-- and Ir/Occurs which references are found in them, Ir/Linked the edges that they become. The properties of a resource and its outputs are parameters.
--
-- Pulumi: internal/iac/pulumi_ts/expr.go and render.go, the names of the constants of a generated program (Pulumi/Names). The
-- search for a free name runs on fuel, the number of names that are taken, which is enough since the candidates differ
-- (Pulumi/Unique); of the printing of numbers it is assumed that different numbers have different texts.
--
-- Topology: internal/topology/topology.go, the diagrams of a program (Topology/Draw), and how their lines fit together
-- (Topology/Drawn). The quoting of a text is a parameter.
--
-- Deploy: internal/deploy/preflight.go, the checks before a deployment (Deploy/Preflight), and when they pass (Deploy/Ready).
-- What the machine answers is a record.
--
-- Trace: internal/cli/trace.go, the comparison of two traces (Trace/Diff), and when it finds no difference (Trace/Same). What is
-- printed is a list of values.
--
-- Loadtest: internal/loadtest/strategy.go and report.go, the strategies of a load test (Loadtest/Strategy, with its bounds in
-- Loadtest/Peak) and the comparison of two reports (Loadtest/Report, Loadtest/Compared). Floats are parameters.
-- internal/loadtest/plan.go is Loadtest/Reach, the units that load can reach, Loadtest/Checklist, the edges to observe, and
-- Loadtest/Plan, the plan that is derived from a dumped program. The loop of `reachableUnits` runs on fuel: one round for every end of an edge and one for the entry is
-- enough, since each unit enters the queue once (Loadtest/Edges, Loadtest/Reached). Loadtest/Derived has the lemmas on the sorted steps and the
-- checklist, Loadtest/Answered and Loadtest/Covered what a plan guarantees.
--
-- Not modelled: the front ends, which work on syntax trees of a parser library, the rendering of Pulumi programs,
-- the injected Python files, the generation of load, the rest of the command line, and the resource arguments of the provider.
pub mod Args
pub mod Base
pub mod Graph
pub mod Compiler
pub mod Config
pub mod Sanitize
pub mod Topic
pub mod Diag
pub mod Ir
pub mod Pulumi
pub mod Trace
pub mod Deploy
pub mod Topology
pub mod Loadtest
pub mod Support
