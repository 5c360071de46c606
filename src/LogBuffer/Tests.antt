-- ===== src/LogBuffer/Tests.antt =====
-- A buffer of two records, and what the theorems say of it.
use nebula_storage.Prelude.{◌≡◌, refl, false, [], ◌∷◌, arith}
use nebula_storage.LogBuffer.{
  Record, Node, LogBuffer, instance_of, push, last_log_id, iterator_seek, found, empty_slot,
}
use nebula_storage.LogBuffer.Laws.{push-iterator_seek, iterator_seek-end}

abbrev log_record : Record
log_record = record { cluster_id = 1; term_id = 2; msg = 65 ∷ [] }

abbrev two_logs : LogBuffer
unfolding push
two_logs = push (push (instance_of 1024) 5 log_record) 6 log_record

push-iterator_seek_example : iterator_seek (push two_logs 7 log_record) 7 ≡ found log_record
unfolding two_logs
push-iterator_seek_example =
    push-iterator_seek two_logs 7 log_record (λ live. (omega arith, omega arith))

abbrev node_of_two : Node
node_of_two = record {
  first_log_id = 5;
  size = 34;
  records = log_record ∷ log_record ∷ [];
  mark_deleted = false;
}

iterator_seek-end_example : iterator_seek two_logs (last_log_id two_logs) ≡ empty_slot
unfolding two_logs
iterator_seek-end_example = iterator_seek-end two_logs node_of_two [] refl refl
