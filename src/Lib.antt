-- ===== src/Lib.antt =====
-- Product Feed Protocol: a library about the Python program that turns a stream of product records
-- into an artifact (CSV or JSON Lines) and publishes it.
--
-- The parts and how they interact. `PipelineRunner.run` asks a connector for a stream of records,
-- gives it to an artifact producer, and publishes the first artifact. The producer runs each
-- record through the validation executor, whose items a strictness policy judges, and through the
-- mapping executor, and yields what a writer serialises. Log records of all parts pass the flood
-- control filter.
--
-- Which file models what, from the repository's root:
--   Prelude, Dict, Sorting, Text   Python's comparisons, `dict`, `sorted` and `str`
--   Value                          src/pfp_core/ext/ext_types.py: `MISSING`, `Emission`, and the objects of records
--   Diagnostics                    src/pfp_utils/diagnostics: `DiagnosticSeverity`, `Diagnostic`; Usage: feed_usage.py
--   Strictness                     src/pfp_core/policies/domain/strictness.py: `StrictnessPolicy.apply`
--   Validation                     src/pfp_core/engine/validation: the loop of `run_one`, with `_normalize_module_result`
--     Executor                     src/pfp_core/engine/validation_executor.py: the sort, the policy and the decision
--     Verdicts, Conclusion         proofs about the decision and the items
--   Mapping                        src/pfp_core/engine/mapping/runtime_values.py: source paths and transforms
--     Fields                       runtime_presence.py and `MappingExecutor._execute_field`
--     Executor                     mapping_executor.py `run_one` and runtime_tombstone.py
--     Emissions, Outputs, Rows     proofs about fields, about outputs and about CSV rows with tombstones
--     Operations                   src/pfp_core/ext/mapping: the built-in operations on texts, Booleans, whole numbers and paths
--     TaxCodes                     module_mapping_map_tax_code.py; Prefixes: proofs about the longest prefix
--   Validation/Modules             src/pfp_core/ext/validation: the built-in modules but `range`
--   Catalog                        the registries of both, mapping_contract.py and validation_contract.py
--     Typing, Registry, Fields,    proofs about the types of values and about what a rule requires
--     Requirements
--   Compiler                       src/pfp_core/engine: shared helpers of the compiler, its catalogs and lists of names
--     Presence, Fields, Outputs,   mapping/compile_presence.py, mapping/field_compiler.py, mapping/output.py and
--     Section                      mapping_compiler.py
--     Profiles, Rules              validation/semantics.py, compiler_checks.py, validation_compiler.py,
--                                  validation/rule_order.py and validation/linking.py
--     Schema                       compiler.py and writer_compiler.py
--     Clean, Sets, and the         proofs: types of transforms (Chains), links (Links), the output order (Orders), requirements
--     modules below each           by profile (Requirements), whole schemas (Coherence, Validity) and the order of
--                                  their diagnostics (Reports)
--   Connectors                     src/pfp_runtime/connectors
--     Mapper                       connector_mapping: connector_mapping_validator.py and connector_mapper.py
--     Records                      producers/product_producer.py
--     Required, Streams, Paths     proofs about the records that pass, and about dotted paths
--   Producer                       src/pfp_core/artifact_production/artifact_producer.py: `_records` and its helpers
--     Streams, Decisions           proofs about the loop
--   ChunkBuffer                    src/pfp_runtime/publishing/support/chunk_buffer.py
--     Phases, Contents             a specification with four phases, and what the buffer holds
--   Transport                      src/pfp_runtime/publishing/support/transport_policy.py
--     Http                         http_transport.py: the status checks and `_execute`
--     HttpClient                   src/pfp_runtime/publishing/clients/http_client.py: `HttpDeliveryClient`
--     Deliveries                   proofs about a delivery by that client
--     Retries, Categories,         proofs about the retries, the categories of errors and the
--     Statuses                     statuses
--   Archivers/S3                   src/pfp_runtime/publishing/archivers/s3_archiver.py: `S3Archiver`
--     Uploads, Chunks,             proofs about the requests of an archive
--     Completion, Archives
--   Publisher                      src/pfp_runtime/publishing/contracts/publisher_contract.py: `publish`
--     Delivery                     what each instrument sees
--   Writers                        src/pfp_core/writers/impl: csv_writer.py (Csv) and jsonl_writer.py (Jsonl)
--     Csv/Markers, Jsonl/Fields    when all records are written, and what is kept of them
--   Pipeline                       src/pfp_runtime/pipeline: the guards and their reason codes
--     Steps                        `PipelineRunner.run`, `report_step` and `RunReport.fail`
--     Reports, Runs, Endings,      proofs about the report of a run and about what it says of a failure
--     Causes
--   Feed                           the producer, its executors and the CSV writer put together, and the rows that result (Rows)
--   Flood                          src/pfp_utils/logging/filters/flood_control_filter: keys, context, configuration
--     RateLimit, Deduplicate,      the strategies, each with its state as a record, and proofs in the
--     Summary, Eviction, Filter    modules below them
--   Tests, below each part         runs on small inputs
--
-- How state is modelled. A method that changes its object takes the state and returns it: the
-- caches of the flood filter, which a lock makes one step, are association lists in insertion
-- order. A call that may raise returns an option or a result. The issues and diagnostics that a
-- function appends to a list are returned by it, in the order in which it appends them. A
-- generator that is read to its end is the list of what it yields, with how it ended. The clock of
-- the filter is a natural number, in ticks.
--
-- Fuel. The retry loop of `execute_with_retry` runs on fuel: one for the first call and one for
-- each retry, which is enough for every operation. `str` of a number runs on fuel, one more than
-- the number, which is more than it has digits. All other loops are structural.
--
-- What is a parameter. The catalogs of mapping operations and validation modules, which the
-- built-in ones of Catalog fill, the connector and the producer of the runner, the archiver and the
-- client of the publisher, the HTTP server, the S3 store and its part size, `csv` and `json` with
-- the encodings, which may raise, `str` and `repr` of an object, and the two sanitizers of the report.
--
-- What is not modelled. The operations on dates, money, shipping and decimals,
-- `regex_extract` and `strip_html`, and the module `range`. The other archivers and the other
-- clients, the adapters of the connectors, the checks of the configuration and the redaction of
-- logs. Letters outside ASCII have no case, and digits
-- outside ASCII are not read as a number. Threads are not modelled: the lock of each strategy
-- makes its calls a sequence. Times are left out of the report of a run. A logger of a process and
-- a telemetry handler are taken to return.
pub mod Prelude
pub mod Dict
pub mod Sorting
pub mod Text
pub mod Diagnostics
pub mod Strictness
pub mod Value
pub mod Validation
pub mod Mapping
pub mod Producer
pub mod Archivers
pub mod ChunkBuffer
pub mod Catalog
pub mod Compiler
pub mod Connectors
pub mod Transport
pub mod Pipeline
pub mod Publisher
pub mod Writers
pub mod Feed
pub mod Flood
