-- ===== src/Lib.antt =====
-- The write path of icelake, a library that lands records in Iceberg tables: how a record is checked
-- and encoded, how a table's shape is recorded and recognised, how records move to a newer shape, and
-- how a batch gets its name.
--
-- A record enters through Insert, which binds it to a row of Go values. `checkPoison` refuses
-- values that their columns cannot represent, `canon.Encode` gives the row's bytes, and the staging
-- store keeps them under the fingerprint of the shape they were written under. A table's worker
-- takes one batch after the other: it hashes the payloads into the batch's key, seals the rows
-- under it, writes and uploads the file that the key names, commits it to the catalog, and only
-- then deletes the rows. Opening a writer scans the staged rows and claims those of its table,
-- sealed batches first. A later process decodes staged payloads by their recorded shape and moves
-- them onto the current one by permanent field id. Where a cache directory is configured, every
-- uploaded file also lies on the local disk, with a row that says whether it has been committed,
-- and a sweep evicts committed files that are too old or too many.
--
-- Files, and the code each models:
--   Prelude        numbers, integers, lists and big-endian words (Go's int, slices, encoding/binary)
--   Errdef         internal/errdef/errdef.go: the typed errors, and Go's (value, error) as Result
--   Canon/Shape    internal/canon/descriptor.go: Kind, Field, Descriptor, the format constants
--   Canon/Cursor   internal/canon/descriptor.go: the bounded reader; Reads has its lemmas
--   Canon/Iceberg  internal/canon/descriptor.go: describeField and IcebergFields
--   Canon/Columns  internal/canon/descriptor.go: the validation in newDescriptor, encodeDescriptor,
--                  decodeDescriptor; Layout, Reading and Strict have the theorems
--   Canon/Descriptor  internal/canon/descriptor.go: FromFields, ParseDescriptor, newDescriptor
--   Canon/Record   internal/canon/record.go: Encode, Decode; Layout is the documented byte form
--   Canon/Remap    internal/canon/remap.go: CompatibleShapes, Remap, Transcode
--   Canon/Batch    internal/canon/batch.go: BatchHash
--   Canon/Hash     crypto/sha256, of which only collisions are spoken of
--   Poison         poison.go: checkPoison; Utf8 is the automaton behind utf8.ValidString
--   Schemamap/Name internal/schemamap/name.go: ValidateName
--   Flush/Retry    internal/flush/retry.go: the attempt budget and the backoff ceilings
--   Flush/Worker   internal/flush/worker.go: Enqueue, Sequence, head, finish, and the answer of Wait; Queue
--                  says which states these reach, Waiting what a waiter is told
--   Flush/Cycle    internal/flush/worker.go: cycle and quarantine, over any attempt; Budget counts attempts
--   Flush/Prepare  internal/flush/flush.go: prepare and the cache of shapes; Sealing says what it may do to
--                  the store
--   Flush/Process  internal/flush/flush.go: process, prune and classify, over any destination; Durable says
--                  when the staged rows may go, Gone what an attempt does whose rows have gone
--   Staging/Store  internal/staging/store.go, with the statements it runs: Append, AppendBatch, Rows;
--                  Sealing has Seal, Leaving has Delete, Quarantine, Schema, PruneSchemas and Counters;
--                  Sealed, Quarantined and Whole say what these do to the rows, Counted and Gathered why
--                  the check of whole batches is enough, Sound what holds in the reached states
--   Staging/Index  internal/staging/index.go: Scan, Tables, pendingBatches and Claim; Grouped, Claimed
--                  and Covered compare them with the rows, Whole and Startup say when a scan refuses
--   Staging/Spool  internal/staging/spool.go, with the statements it runs: the rows about cached files;
--                  Rows has the ordered queries, Recording says what a record does to the rows,
--                  Consistent what holds in the states that the operations reach
--   Spool          internal/spool/spool.go: Write, MarkCommitted and evict, with Writing on Write
--   Spool/Sweep    internal/spool/spool.go: Sweep; Retention says what a sweep cannot touch, Counting,
--                  Bounds and Expiry what it leaves
--   Chmirror       internal/chmirror: Ddl has ddl.go and quoteIdent of chmirror.go, Table the expiry and
--                  Ensure of table.go over a server that is a parameter; Naming is on the table names,
--                  Columns on the types and the expiry, Opening has NewTable,
--                  Reconcile says what Ensure leaves
--   Writer         writer.go, status.go and the ceiling of store.go: the state of one table's writer,
--                  replay, the seal, the trigger and the windows of Status; Accepting has Insert,
--                  InsertBatch, Flush and close, Draining what the end of a cycle does; Rows and
--                  Appended count the live rows, Whole, Inserted, Opened, Leaves and Drained follow
--                  them through each operation, Reached has the steps and the reached states, Bounded
--                  the ceiling, One compares Insert with InsertBatch
--   Writer/Registry  store.go and drain.go: the slots of the tables, and those that work on a table;
--                  Exclusive is on how many there are
-- Modules called Tests hold runs at concrete inputs.
--
-- How the code is rendered. A byte slice or string is a list of numbers, and the theorems that need it
-- say that each is below 256. Go's int, int32 and int64 are the integers of Prelude/Int; a conversion
-- to an unsigned word and back wraps around as Go's does. A `(value, error)` is a Result, whose error
-- keeps the fields that a caller can branch on and not the message. A pointer to a cursor is the
-- cursor returned with each read. The hash of SHA-256 in hexadecimal is a parameter, of which nothing
-- is assumed: the theorems on identity say that two different inputs with one digest are at hand
-- where they would fail. A database that refuses a statement, and a file that cannot be removed, are
-- flags that the operations take; a refused statement or transaction changes nothing. The ids of staged
-- rows are numbers without an upper bound, since SQLite refuses an insert past the last one. The loop
-- of a cycle runs on fuel, for which its budget of attempts is enough; all other loops are structural
-- recursion over the columns, cells, payloads, rows or rounds. The worker's steps are those that its
-- mutex makes atomic, in any order; the channels that wake its goroutine and its waiters are left out.
-- The encoder, the cache directory, the object store, the catalog, the clock and the context of a
-- worker are parameters, and IsDurable in Flush/Process/Durable names what is relied on of them.
-- So is the ClickHouse server, with Documented in Chmirror/Reconcile.
--
-- A writer is modelled over a staging store and a ceiling of its own, as where one table is open. Its
-- steps are those that its mutex makes atomic; the worker's steps of one batch are the end of a cycle
-- each. Its counters and the ceiling's are numbers, whose subtraction stops at 0 as that of the ceiling
-- does in the code; they have no upper bound, as each counts rows or bytes on the disk. The codec's Bind, the mirror's callback and the readings of the clock are parameters.
--
-- Not modelled: the text of messages, capacity hints, the jittered delay of the backoff (floating
-- point), the callbacks of the worker, the opening of the database and the work of opening a
-- writer, the use of one ceiling by several writers, the mirror's insert, and the process around
-- the writers. A path in the cache is its three segments under the cache directory. The sizes of
-- files are numbers without an upper bound, since no disk holds 2^63 bytes.
pub mod Prelude
pub mod Errdef
pub mod Canon
pub mod Schemamap
pub mod Poison
pub mod Flush
pub mod Staging
pub mod Spool
pub mod Chmirror
pub mod Writer
