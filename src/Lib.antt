-- ===== src/Lib.antt =====
-- Nebula Storage keeps the partitions of a graph as key-value pairs, replicates each partition with
-- a Raft variant, and writes what it replicates to a write-ahead log of its own. This library
-- models the parts that all of this rests on: the layout of the keys, the encoding of logs, the log
-- on disk and in memory, the handlers of a replica, the threads of a leader, what a partition
-- commits, the rows that are the values of these pairs, and beside these the locks on keys and the
-- balancer of the meta server, from its plan to the move of each part.
--
-- A write enters at the leader as a log (src/kvstore/LogEncoder.cpp). The log goes to the leader's
-- write-ahead log (src/kvstore/wal/FileBasedWal.cpp), which keeps the newest records in a buffer in
-- memory (src/kvstore/wal/AtomicLogBuffer.h), and to the other replicas, whose
-- RaftPart::processAppendLogRequest (src/kvstore/raftex/RaftPart.cpp) writes it to theirs. What is
-- committed goes to Part::commitLogs (src/kvstore/Part.cpp), which decodes it into calls of the
-- engine under keys of src/utils/NebulaKeyUtils.cpp. A replica that is too far behind gets a
-- snapshot, the scan of the prefixes that NebulaKeyUtils::snapshotPrefix names.
--
-- The files:
-- + Prelude: shared names, Boolean tests, lemmas on lists and options.
-- + Bytes: strings of bytes (lists of numbers below 256), the little-endian words that the code
--   copies out of memory, and their order. A read past the end is `none`.
-- + Keys and its children: src/utils/Types.h, NebulaKeyUtils, OperationKeyUtils, and the int64 code
--   of IndexKeyUtils.h. vertexKey is `vertex_key`, edgeKey `edge_key`, and so on; an aborting CHECK
--   is `none`. Integers are their bit patterns: an int32_t below 2 ^ 32, an int64_t below 2 ^ 64.
-- + LogEncoder and its children: src/kvstore/LogEncoder.cpp. The clock is an argument.
-- + LogBuffer: src/kvstore/wal/AtomicLogBuffer.h as its single writer sees it.
-- + Wal and its children: src/kvstore/wal/FileBasedWal.cpp. A file is the list of its records;
--   appendLogs is `append_logs`, rollbackToLog `rollback_to_log`. The preprocessor is a parameter
--   that acts on a state of its owner.
-- + Raft and its children: src/kvstore/raftex/RaftPart.h and .cpp. Peers is the membership, Vote
--   and Election the votes from both sides, OneVote a row of requests, Append and Handle the
--   handler of append and snapshot requests, Entries, Follow, Accept and Committed what it does.
--   The virtual functions preProcessLog, commitLogs and commitSnapshot are parameters; Raft.Part is
--   preProcessLog of src/kvstore/Part.cpp. A handler that runs under raftLock_ is one step. Batches
--   and BatchLaws are the class AppendLogsIterator; Leader is appendLogAsync (`enqueue`,
--   `begin_append`), appendLogsInternal, replicateLogs and processAppendLogResponses; Flights and
--   Stuck let the critical sections of all threads follow each other in any order, and Acks and
--   LeaderLaws are the commit. Sender is class Host of src/kvstore/raftex/Host.cpp (appendLogs is
--   `host_append_logs`, the continuation of its call `receive_reply`), Replies and Stale what its
--   callers are told.
-- + Part and its children: src/kvstore/Part.cpp. Commands are the calls of clients as logs;
--   commitLogs is `commit_logs` and commitSnapshot `commit_snapshot`, which give the batch for the
--   engine.
-- + MemoryLock: src/utils/MemoryLockCore.h and MemoryLockWrapper.h. std::sort with std::unique, by
--   which a guard drops duplicates, is the parameter `unique`.
-- + Balancer and its children: genTasks of src/meta/processors/admin/Balancer.cpp and all that it
--   calls for spaces without a group. Measure, Sorted, Moves, Difference, Update and Plan are about
--   balanceParts, Transfer and Tasks about the parts of lost hosts, Flow, Rounds, Sends and Carried
--   about the tasks.
-- + BalancePlan and its children: BalanceTask.cpp and BalancePlan.cpp beside it. Task is one call
--   of BalanceTask::invoke and the continuation of its request, Order and Ends all calls of one
--   task (`play`); Plan is dispatchTasks, invoke and the two callbacks, Runs, Over and Invoked let
--   the callbacks of all buckets and stop follow each other in any order. Hosts and store answer at
--   will.
-- + Codec and its children: src/codec/RowWriterV2.h and .cpp and RowReaderV2.cpp, for a schema as
--   src/codec/test/SchemaWriter.cpp lays it out. Cells has the bytes of a value in a column, Writer
--   and Finish the class RowWriterV2 (setValue is `set_value`, finish `finish`, the constructor
--   from an encoded row `reopen`), Reader the class RowReaderV2. The other files are about what a
--   column holds (`held`) from a write to the finished row. Doubles are bit patterns, and what C++
--   does with them, toTimestamp and the values of default expressions are parameters.
--
-- Most loops of the code are over a list or a count, and the model recurs on these. Three have
-- fuel: `drain` and `batches`, which are given as many rounds as there are logs, and
-- `balance_loop`, which is given more rounds than the squares of the hosts' sizes sum up to; a
-- result below shows for the last two that this is enough. The move of a part is played for as many
-- replies as are given, and ten are enough. Log ids, terms and times are natural numbers, since the
-- code's are never negative and stay below 2 ^ 63.
--
-- Not modelled: the promises that answer the clients of a leader, the engine's answers to a batch,
-- zones and the balance of leaders in the balancer, the bytes of a log file and the scan after a
-- crash, cleaning of old files, readers of the log buffer that run beside its writer, RocksDB, the
-- services above them, the rest of the meta server with the recovery of a plan, the index keys, and
-- of the row format the first version, write(float) and the constructor from a reader. Failures of
-- the file system abort the process and are left out.
pub mod Prelude
pub mod Bytes
pub mod Codec
pub mod Keys
pub mod LogEncoder
pub mod LogBuffer
pub mod Wal
pub mod Raft
pub mod MemoryLock
pub mod Part
pub mod BalancePlan
pub mod Balancer
