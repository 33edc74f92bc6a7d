-- ===== src/Lib.antt =====
-- Models of the Python code around the zpq engine, and what is proved of them. The query engine itself is
-- written in Zig and is not modelled; the Python parts call it, drive it on several hosts, check its files and
-- score it.
--
-- The parts and where they are modelled:
-- - Thrift: tools/datagen/parquet.py, the compact-protocol codec. Thrift/Value has the values, Thrift/Cursor and
--   Thrift/Reader the class Reader (byte, varint, zigzag, value), Thrift/Writer write_value, Thrift/Footer
--   rewrite_footer. A reader is a position with what is unread. The nesting of values is bounded by fuel: one
--   more than the number of bytes for the reader, since each level takes a byte, and the depth of the value for
--   the writer; Thrift/Total shows that the reader's never runs out.
-- - Walker: tools/check/readback.py, class _Thrift, the second reader of footers, which skips what it does not
--   look for. It stands on the cursor of Thrift/Cursor, so that the two can be compared byte for byte.
--   Walker/Footer has footer_stats and Walker/Footer/Bloom footer_filters, from the footer's first byte on: a loop
--   over fields takes the body of the loop, and the fuel bounds the nesting as in the reader. Walker/Footer/Meaning
--   says what the loops make of a footer that the reader has read; where a footer begins, which the last eight
--   bytes of a file say, is left open there. Walker/Header has parse_header and load, of the bytes of a file.
-- - Fanout: tools/serverless/fanout.py, the coordinator of a query over several workers. Fanout/Split has split,
--   Fanout/Merge add, fold, finish and merge, Fanout/Order order, Fanout/Plan what is sent and answered, and
--   Fanout/Run negotiate, prepare, scatter and run. The workers are a parameter: a function from the requests
--   sent before and a request to its outcome. Fanout/Commas has split_top, which bench/suites.py has with another
--   separator. The JSON scalars are the record Scalars of Fanout/Merge, a parameter too, since decimal arithmetic
--   is the standard library's.
-- - Binding: python/zpq.py, class Zpq. Binding/Context has run_raw and close as steps of any number of threads
--   over the fields they share; a block under the condition's lock is one step. What the library does inside a
--   call is not modelled, only that the call is under way. Binding/Rows has the rows of query with their decimal
--   columns (_as_decimal, _exact_columns); json.loads is a parameter there. Binding/Calls has load_library,
--   _run, _failure and run.
-- - Bench: bench/stalls.py (Bench/Stalls) and bench/score.py (Bench/Score), which read a lane's journal: the
--   disturbed repetitions, the cases to run again, the quarantine, the cells, the ship bar and the verdict; and
--   bench/lane.py (Bench/Lane), which writes the journal: note, judge_answer, finish, fresh, run_round and run.
--   The host, the engines and the comparer are a parameter there. The rounds are bounded by max_rounds, as in
--   the code.
-- - Bench/Export: bench/export.py. Bench/Export/Attempts has accepted and engine_summary, Bench/Export the check and
--   the writes of export's package: the destination is a function from names to what stands there, the paths are
--   resolved, and nothing else writes meanwhile.
-- - Bench/Requests: bench/requests.py. Bench/Requests has validate over the JSON values of Values, Inputs has
--   input_plan and write_packet.
-- - Bench/Quick: bench/quick.py, the paired check of two builds. Bench/Quick has one attempt (expected, execute,
--   identity, pair_check), Worker the loops of worker, Report cells_for, selected and the verdict of result, Inputs
--   the class InputHashes and verify_inputs, Manifest load and manifest_cases, Validators parquet_validation, Rivals
--   rivals, and Recovery recover and how supervise ends. What the host does in an attempt is a function of the
--   journal and the attempt; what comes before the hash pass (lock, idle host, checksums) is in the worker one
--   exception or none. The four kinds of exception are those that worker tells apart. A budget,
--   repetitions and the noise are thousandths; a ratio is compared exactly, where the code divides floats.
-- - PageIndex/Compact: tools/check/page_index.py, class Compact, the third reader of the compact protocol. The fuel
--   bounds the nesting as in the first.
-- - PageIndex: the same file, check_file, of one column chunk up to its column index: the walk over its pages and the
--   check of its offset index. A header and an offset index are what Compact.struct reads at their position (struct_at),
--   and positions, sizes and counts are Python's integers. A position before the file's first byte, where Python counts
--   from the end, is left open: what is read there is a parameter. A chunk's own members are a record. The fuel of the
--   walk is the number of its rounds: a header may have a negative size, so that no number of rounds is enough for every
--   file, but where none has, each round takes a byte at least. PageIndex/Fuel and PageIndex/Compact/Total are about this.
-- - Service: python/zpq_service.py, do_GET and do_POST of the handler, with the library's answer a parameter.
-- - Common: lists, results and Python's integers over native numbers. Checks: concrete runs, and the results
--   below at inputs that meet their hypotheses.
--
-- How they interact: the walker reads footers that the codec writes, and finds in them what the codec's reader
-- finds. The score takes its quarantine and its pending cases from the stalls. The coordinator's run goes from the requests of Fanout/Plan over the pieces of
-- Fanout/Split to the answers of Fanout/Merge and Fanout/Order.
--
-- Not modelled: the engine and its C interface, PyArrow and boto3, HTTP, the benchmark processes and their
-- cgroups, the text of messages, floating-point means, and the tables of test data. A JSON object that the code
-- reads by key is a record of the members it reads.
pub mod Bench
pub mod Binding
pub mod Checks
pub mod Common
pub mod Fanout
pub mod PageIndex
pub mod Service
pub mod Thrift
pub mod Walker
