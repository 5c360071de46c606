-- ===== src/Raft/ReplyTests.antt =====
-- A peer of a leader, and what the theorems say of it.
use nebula_storage.Prelude.{ℕ, ◌≡◌, refl, true, false, List, [], ◌∷◌, some, arith}
use nebula_storage.Raft.{ErrorCode}
use nebula_storage.Raft.Sender.{Sender, no_pending, accepted, Reply, receive_reply}
use nebula_storage.Raft.Replies.{Served, receive_reply-Served}
use nebula_storage.Raft.Stale.{two_calls, two_calls-told}
use nebula_storage.Raft.Tests.{empty_wal}

abbrev sender : List ℕ → List ℕ → Sender
sender ws cs = record {
  paused = false;
  stopped = false;
  request_on_going = true;
  promise = ws;
  caching_promise = cs;
  pending = record { term = 2; log_id = 9; committed = 3 };
  log_id_to_send = 5;
  log_term_to_send = 2;
  last_log_id_sent = 4;
  last_log_term_sent = 2;
  committed_log_id = 3;
  sending_snapshot = false;
  follower_committed_log_id = 3;
}

abbrev quiet : Sender
quiet = record (sender [] []) { request_on_going = false; pending = no_pending }

abbrev reply : ErrorCode → ℕ → Reply
reply code id = record { code = code; last_log_id = id; last_log_term = 2; committed_log_id = 4 }

receive_reply-Served_example :
    Served (sender (5 ∷ []) (7 ∷ 9 ∷ [])) (
      receive_reply 8 empty_wal (some (reply ErrorCode.succeeded 5)) (sender (5 ∷ []) (7 ∷ 9 ∷ [])))
receive_reply-Served_example =
    receive_reply-Served 8 empty_wal (some (reply ErrorCode.succeeded 5))
      (sender (5 ∷ []) (7 ∷ 9 ∷ [])) (record { idle = λ e. absurd (cc); kept = λ e. absurd (cc) })
      refl

two_calls-told_example :
    (two_calls 8 4 empty_wal 2 5 9 3 2 4 (reply ErrorCode.e_log_stale 7) quiet).told
    ≡ (5, accepted) ∷ (9, accepted) ∷ []
two_calls-told_example =
    two_calls-told 8 4 empty_wal 2 5 9 3 2 4 (reply ErrorCode.e_log_stale 7) quiet
      (record { active = (refl, refl); free = refl; nobody = (refl, refl) }) (omega arith)
      (omega arith) (omega arith) (omega arith) refl
