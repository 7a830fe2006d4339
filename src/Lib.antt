-- ===== src/Lib.antt =====
-- A verification library for the shared foundation of the EvoNN research lab: the package
-- EvoNN-Shared/src/evonn_shared, on which the engines (EvoNN-Prism, EvoNN-Topograph,
-- EvoNN-Stratograph, EvoNN-Primordia), the baselines (EvoNN-Contenders) and the comparison
-- (EvoNN-Compare) rest.
--
-- The parts and how they interact. A pack of the catalog names benchmarks; a run turns it into a
-- budget declaration and spends evaluations, which its accounting counts. Every result is appended
-- to the run's store, whose rows are chained by digests of canonical encodings. At the end the run
-- publishes documents that repeat budget, accounting and telemetry, and are checked against each
-- other. Between evaluations an engine keeps trained weights in a bounded cache, and its state in
-- checkpoints, which a journal of changes keeps small.
--
-- Which file models what:
--   * Contract: the text rules of budgets.py (_human_text, _canonical_id, _run_id, _finite,
--     _utf8_sorted_unique), and the rule by which a Pydantic model reports its violations. A
--     function `*_errors` lists what the construction of a model reports, in the order of the
--     fields; the model's own validator runs only if every field is valid. Each message of the
--     source is one constructor of Violation.
--   * Budgets: the declarations and the accounting of budgets.py, and execution_budget of
--     runtime_budget.py.
--   * Telemetry: the enumerations and models of telemetry.py; Telemetry/Measures has the
--     measurements, results and summaries.
--   * Catalog: the benchmark, registry and pack models of catalog.py.
--   * Exports: the results document of exports.py, with _validate_document_echoes and
--     _validate_results_records.
--   * Canonical: canonical.py, from _encode to canonical_sha256: the domain-separated JSON text of a
--     value, its bytes and its digest. Canonical/Keys has the rules of fields and schema versions,
--     Canonical/Dumps the JSON text and UTF-8.
--   * RunStore: run_store.py. RunStore/Rows has the rows and their digests, RunStore/Database the
--     statements, _transaction and what a crash leaves, RunStore/Store the methods of RunStore,
--     RunStore/Lock the writer lock as calls of the operating system by sessions, and
--     RunStore/Opening _open_locked_store.
--   * WeightCache: weight_cache.py: __init__, _trim and put; WeightCache/Inheriting has inherit,
--     WeightCache/Contents and WeightCache/Outcomes describe what it may do.
--   * Topograph: the genome of EvoNN-Topograph/src/topograph/genome.py, valid_graph with its pass over
--     the sorted layers; Topograph/Innovations has Innovations.obtain, Topograph/Seed active_layers
--     and seed_genome.
--   * Checkpoints: checkpoints.py, the models, the manifest, loading, CheckpointPublication and
--     discard_orphaned_staging; Checkpoints/Records has the models, Checkpoints/Storage the
--     directory, the effects and what a process that dies during them leaves.
--   * Journal: the changes between states of runtime_journal.py, same and delta; Journal/Applying has
--     apply_delta, Journal/Transitions compact, transition and restore.
--   * Streams: rng.py, derive_stream; Streams/Bytes has the lemmas on bytes.
--   * Prelude: texts, integers, floats, results and lists as the program uses them.
--   * Examples: inputs, tests by evaluation, and the theorems applied to them.
--
-- Conventions. A str is a list of code points, lone surrogates included. A Python int is an
-- unbounded integer. A float is a sign, a mantissa and an exponent, an infinity or a NaN; sign and
-- finiteness are read, and `float(n)` of an integer is rounded to 53 bits. Fallible code returns `ok` or `raise` with the error as a value. Strict
-- type tests (`type(value) is float`) are the types of the fields. A dictionary is the list of its
-- items in insertion order.
--
-- Bounds. The root of a layer's width is searched from 16 down, since a width is at most 256.
-- Integers of the canonical encoding lie between -2^63 and 2^63 - 1, as in the source. The
-- decimal digits of a number n are read with n + 1 units of fuel, more than it has digits. The
-- weight cache counts 32 MiB of JSON text. An integer below 2^1024 is halved 971 times at most until
-- it has 53 bits. A seed lies below 2^256. A delta goes as deep as lists
-- and objects stand inside each other in the new value, apply_delta 101 levels, as in the source.
-- Every other loop is structural recursion on the list that the source goes through.
--
-- Parameters. Unicode normalisation, float.hex, base64 and SHA-256 are fields of
-- Canonical.Primitives; what is assumed of them is a hypothesis of the theorem that needs it: NFC
-- keeps ASCII text, a digest has 64 hexadecimal digits. SHA-256 is nowhere assumed to be free of
-- collisions. DuckDB is modelled by its documented transactions; which statements it refuses for
-- reasons of its own, beyond BIGINT and the constraints, is a parameter. A directory is modelled by
-- its files and the atomic renames of the operating system. What Pydantic reads of a checkpoint
-- manifest is a parameter of Checkpoints, the digest of SHA-256 one of Streams. NumPy arrays, and
-- the length of the JSON text of a cache entry, are parameters of the weight cache.
--
-- Not modelled: artifacts and metadata of a store; RunTiming; the manifest and the summary
-- with their cross-file checks; the YAML loader; the exclusive publication of exports; the chain of
-- journal records and the invocation clock; descriptors and the errors of the operating system; the
-- engines' training and search, which compute with NumPy and MLX.
pub mod Prelude
pub mod Contract
pub mod Budgets
pub mod Canonical
pub mod RunStore
pub mod WeightCache
pub mod Telemetry
pub mod Catalog
pub mod Exports
pub mod Topograph
pub mod Checkpoints
pub mod Journal
pub mod Streams
pub mod Examples
