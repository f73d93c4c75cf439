-- ===== src/Lib.antt =====
-- Verification library of hyperspot, a modular Rust server. It models the parts of the repository
-- that carry its own logic, as functions that follow the code branch by branch.
--
-- The parts and their files:
--   Manager    libs/modkit/src/runtime/module_manager.rs: the directory of module instances. The two
--              DashMaps are association lists, whose order stands for the iteration order; time is a
--              number; a method that changes the directory returns the new one. Manager/Instances
--              has the lemmas on vectors of instances, Manager/Invariant the well-formedness,
--              Manager/Eviction the sweep, Manager/Rotation the round robin, Manager/Services that
--              of services, Manager/Refinement the abstract map from module and id to instance.
--   Lifecycle  libs/modkit/src/lifecycle.rs: a state with the atomics, the task, the caller of stop and the
--              ready signals, and the steps that each of them takes. Lifecycle/Invariant is preserved by
--              every step, Lifecycle/Safety and Lifecycle/Progress follow from it.
--   Security   libs/modkit-security/src: access scopes, subjects and security contexts; Security/Codec is
--              bin_codec.rs, their binary form.
--   Sql        the interface to sea_orm: conditions with SQL's three truth values, selects and
--              statements, with the laws that the code relies on; Sql/Toy is an implementation.
--   Secure     libs/modkit-db/src/secure: the scope conditions and the scoped statements of
--              SecureConn. Every statement takes its scope from the Security context of the request.
--   Odata      libs/modkit-odata/src/lib.rs: sort orders, their signed tokens and cursors. A str is
--              the list of its code points.
--   Paging     libs/modkit-db/src/odata/core.rs: the field map, the cursor of a row, the predicate
--              that a cursor becomes over the Sql interface, the limit and the page.
--   Filter     libs/modkit-db/src/odata: filters as conditions. Filter/Compile is expr_to_condition of
--              core.rs with the coercion of literals in Filter/Coerce and the patterns in Filter/Like; Filter/Typed is
--              filter.rs and Filter/Columns sea_orm_filter.rs. Filter/Meaning and Filter/TypedMeaning say what a
--              filter means, Filter/Patterns what a pattern matches; Filter/Compiled, Filter/Conditions, Filter/Nodes
--              and Filter/Conversion are about the compilers, Filter/Agreement about both together.
--              Filter/Hash is pagination.rs of libs/modkit-odata, the hash of a filter, and Filter/Spelling about it.
--   Pagination paginate_with_odata of core.rs, which puts Odata, Paging, Filter and Sql together.
--              Pagination/Select is the interface to ORDER BY and LIMIT, Pagination/Steps the steps before the
--              statement, Pagination/Shown the trimming, Pagination/Answer the page,
--              Pagination/Continued and Pagination/Next two pages in a row.
--   Request    libs/modkit/src/api/odata.rs: extract_odata_query, the query of a request, with parse_orderby.
--              Request/Accepted is about the queries that it accepts.
--   Retry      libs/modkit-transport-grpc/src/rpc_retry.rs: the retry loop of gRPC calls.
--   Auth       libs/modkit-auth/src (validation.rs, authorizer.rs, scope_builder.rs, axum_ext.rs) and
--              modules/api_ingress/src/auth.rs: what becomes of a request before its handler. Its context is
--              a Security context, with the scope of the claims' tenants.
--   Builder    libs/modkit/src/registry.rs: what the registrators feed, the checks of build_topo_sorted,
--              and the entries of the final registry.
--   Registry   the topological sort of the same file, on the adjacency lists by index. Registry/Degrees
--              counts edges, Registry/Kahn has the loop's invariant, Registry/Start its start. Registry/Graph is
--              build_dependency_graph, Registry/Edges and Registry/Links have its two loops, Registry/Names
--              the order by the modules' names.
--   Cycles     detect_cycle_with_path of the same file: Cycles/Colors the vectors, Cycles/Search the loop
--              over neighbours, Cycles/Descent the recursion, Cycles/Acyclic the verdict.
--   Assembly   build_topo_sorted, the steps from the builder to the registry: Assembly/Graph and
--              Assembly/Loop read edges and cycles as dependencies, Assembly/Order the order as one of
--              names, Assembly/Outcome puts the steps together.
--   Nodes      modules/nodes_registry/src/domain: the store of nodes (node_storage.rs) and its service
--              (service.rs). Nodes/Storage has the reported capabilities, Nodes/Caching the kept system
--              information, Nodes/Refresh the expiry. What the collector answers is an argument.
--   Common     names, lists, association lists, equality and text that the parts share.
--
-- Numbers are natural numbers; a u32 or u64 that the code counts up has its wrap-around written out.
-- The number of rows to fetch is cut to a u64. The round-robin counters are below the number of candidates, so they do not wrap. The retry loop
-- recurs on fuel: max_retries + 1 is enough, since each turn counts the attempt up.
-- The loop of the topological sort takes one node per turn, so that fuel beyond the number of nodes is
-- enough; the search for cycles descends once for each white node, so that the number of modules is.
--
-- The atomics of a lifecycle are read and written one step at a time, in the order of the code; its calls
-- run one after another and to their end.
--
-- Parameters: sea_orm is the interface Sql; serde_json, base64, bincode, SHA-256, the parser odata_params,
-- parsing and printing of column values, lower-casing, and the conversions of bigdecimal are functions,
-- with the stated laws where a theorem needs them. Tracing and metrics have no effect on the results and
-- are left out, as are the network, the database itself and the generated code.
--
-- Not modelled: the inserting and single-row statements of SecureConn, the typed paginate_odata, overlapping
-- calls of a lifecycle and its drop, the start-up of the process with its configuration, the building of
-- routers and servers, database pools, document parsers, hardware probes, macros and lints, which
-- mostly call other libraries.
mod Common
pub mod Sql
pub mod Security
pub mod Secure
pub mod Retry
pub mod Odata
pub mod Paging
pub mod Auth
pub mod Nodes
pub mod Builder
pub mod Registry
pub mod Cycles
pub mod Assembly
pub mod Filter
pub mod Pagination
pub mod Request
pub mod Lifecycle
pub mod Manager
