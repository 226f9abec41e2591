-- ===== src/Lib.antt =====
-- LearnArken, a question-answering service over technical publications (S1000D packages): a verification
-- library for the parts of src/learnarken and of deploy that decide what is let in, what is
-- shown, what is written and what is spent.
--
-- A package of data modules, publication modules and lists (src/learnarken/models.py:
-- Package.Model) is validated file by file and as a whole (src/learnarken/validation/: Validation),
-- serially or over shards in a pool of processes (src/learnarken/perf/shard.py: Perf.Shard). What
-- is admitted is cut into chunks (src/learnarken/chunking/: Package.Chunk). A question is answered
-- from the chunks that the caller is cleared to see (src/learnarken/clearance.py: Clearance), by a
-- model whose reply passes gates (src/learnarken/answer/: Answer) and whose sources get a status by
-- the registry (src/learnarken/citation_status.py: Answer.Status). Findings of the validator can be
-- repaired: an agent proposes patches, a human approves, and the approved edits are verified and
-- swapped in (src/learnarken/repair/: Repair). A module that the corpus declares and does not have
-- is a gap (src/learnarken/gaps.py: Gaps), and a refusal names an owner only by a gap
-- (src/learnarken/refusal.py: Gaps.Refusal). The public demo is fenced by counters
-- (src/learnarken/api/demo_guard.py: Api.DemoGuard) and by a watchdog that powers the machine off
-- (deploy/vm/idle_watchdog.py: Deploy.Watchdog); who may power it on is decided by
-- deploy/trigger/logic.py (Deploy.Trigger) and deploy/trigger/main.py (Deploy.Gate). The model is called
-- by src/learnarken/llm/minimax.py (Llm). A search over a package asks the lexical, the dense and the
-- graph route for chunks (src/learnarken/retrieval/: Retrieval).
--
-- State and operations:
--   Prelude          shared names, tests on native numbers, lists, texts, results, dictionaries, sorting
--   Clearance        normalise, admissible_classifications, _verdict, partition, redact_graph_facts, the
--                    guards; Levels, Partition, Leaks and Graph prove what they let through
--   Validation       Report, Issue (_issue_key), Identity (_resolve_dm_identities), CrossFile
--                    (_crossfile_findings), File (_process_file), Engine (list_package_files,
--                    _merge_file_results, analyze_package, analyze_package_sharded with _validate_shard), Cycles
--                    (_find_cycles)
--   Perf.Shard       make_shards and run_sharded over a pool
--   Answer           Models, Json and Contract (generate_well_shaped and its one retry), Engine (the
--                    tests of a citation), Engine.Gates (answer_question), Status (statuses_for), Stream
--                    (the extractor of the answer from a streamed reply)
--   Repair           Models (risk_tier_for, reports), Journal (the names in the journal,
--                    _safe_basename), Apply (_atomic_swap, recover_interrupted_apply), Commit
--                    (verify_and_apply), Gate (run_repair, _run_apply_gate)
--   Gaps             collect_gaps; Declared says what a package has and names, Missing proves what is
--                    reported; Refusal (route)
--   Api.DemoGuard    the constructor's reading of the environment, the slots, the key
--   Deploy.Trigger   the token, the rate limit and the lock of a start
--   Deploy.Gate      demo_gate with its three routes, one request at a time
--   Llm              Json (what json.loads gives), Contract (the think block, the reason to finish), Chat
--                    (chat_json) and Stream (chat_json_stream)
--   Retrieval        Tokens (tokenize), Applies (applies_to), Bm25 (the index and its retriever), Routes
--                    (_mode_retriever), Search (search_package), Corpus (_dedupe_chunks), Index
--                    (index_package, verify_corpus)
--   Deploy.Watchdog  decide, the strikes, one run of the timer and a sequence of runs
--
-- Exceptions are values of Result; an f-string is a value with what it interpolates. A dictionary
-- is an association list in insertion order. A directory is a dictionary from names to entries, files
-- or symbolic links, which reads and writes follow within the directory. The operating system's
-- failures come from two arguments: Disk names, for each file, the call of the loop that fails and
-- what a cut-short write leaves, and Late the calls before and after the loop. What escapes from the
-- check of a file as an exception is an argument, which a shard's worker wraps. Requests under the guard's lock are steps of a
-- relation, and a run is a sequence of steps. Numbers are natural numbers and integers without a
-- bound, as Python's are; the clock readings of the watchdog are rounded down, which decides its
-- comparisons. Loops are recursion on a list, but for the loop over the streamed string, whose
-- fuel is one more than the length of the text: a round takes a character at least, and the
-- search for cycles, whose fuel is one more than twice the nodes of the graph: a node is entered
-- and left once at most. The three attempts of a call are counted down.
--
-- Parameters stand for the XML library with the loader and the BREX rules (Reader), the process
-- pool, rank-bm25's scores, what the routes of a search return, the store that is indexed into,
-- the retriever, the reranker, the graph and the language model (Services), the repairing agent,
-- the human who approves, lxml's edits, a package's map of owners, and the upper case and the
-- pattern that find the modules a question names, and Python's float of a text and str of an
-- integer for the label of the lock, json.loads of a text, and int(s, 16) of the digits of an
-- escape. Not modelled are the traces and log lines, the events of the streaming path, the fix
-- hints of findings, the graph route of the retrieval, the metrics, the map of owners, the
-- command line, the HTTP routes, requests to the page that race for the lock, and failing calls of
-- the recovery after an interrupted repair.
mod Prelude
pub mod Package
pub mod Clearance
pub mod Perf
pub mod Validation
pub mod Api
pub mod Repair
pub mod Retrieval
pub mod Answer
pub mod Deploy
pub mod Llm
pub mod Gaps
