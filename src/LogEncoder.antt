-- ===== src/LogEncoder.antt =====
-- kvstore/LogEncoder.cpp and .h: the logs that a part writes to its write-ahead log, as strings.
-- The wall clock is a parameter, `now`, the time in milliseconds at the call. Lengths are written
-- as uint32_t, so a string of 2 ^ 32 bytes or more loses the high bits of its length.
pub mod Single
pub mod Multi
pub mod Batch
mod Tests
use nebula_storage.Prelude.{ℕ, ◌+◌, ◌%◌, ◌^◌, List, ◌++◌, length, take}
use nebula_storage.Bytes.Words.{le_bytes}

-- enum LogType : char.
pub data LogType : Type 0 where
  op_put op_multi_put op_remove op_multi_remove op_remove_range op_add_learner op_trans_leader
        op_add_peer op_remove_peer op_batch_write :
      LogType

abbrev pub log_code : LogType → ℕ
log_code op_put = 0x1
log_code op_multi_put = 0x2
log_code op_remove = 0x3
log_code op_multi_remove = 0x4
log_code op_remove_range = 0x6
log_code op_add_learner = 0x07
log_code op_trans_leader = 0x08
log_code op_add_peer = 0x09
log_code op_remove_peer = 0x10
log_code op_batch_write = 0x11

-- kHeadLen: the timestamp, the type and the length or the count.
abbrev pub head_len : ℕ
head_len = 8 + 1 + 4

-- What every encoder writes first: the timestamp, the type, a uint32_t.
unfoldable pub log_head : ℕ → LogType → ℕ → List ℕ
log_head now type n = le_bytes 8 now ++ (le_bytes 1 (log_code type) ++ le_bytes 4 n)

-- `uint32_t len = v.size()`, written before the first `len` bytes of the string.
unfoldable pub sized : List ℕ → List ℕ
sized v = le_bytes 4 (length v % 2 ^ 32) ++ take (length v % 2 ^ 32) v
