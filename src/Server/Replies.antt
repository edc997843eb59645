-- ===== src/Server/Replies.antt =====
-- Every message that the serve loop takes is answered once. The replies that are written and those
-- that are still owed (to a message in the queue, by the handler that waits, by the goroutine of a
-- turn or replay) are counted together, for each id.
pub mod Write
pub mod Handlers
pub mod Steps
pub mod Loops
pub mod Waits
pub mod Run
use kimi_wire_go.Prelude.{total, ℕ, ◌+◌, String, Bool, true, false, ◌==◌, if◌then◌else◌, ◌≡◌}
use kimi_wire_go.Protocol.Jsonrpc.{RawWireMessage}
use kimi_wire_go.Server.{
  Outgoing, response, error_response, parse_failure, notification, request, Phase, turn_running,
  turn_ending, turn_closing, turn_clearing, turn_replying, replay_running, replay_replying,
  replay_panicked, replay_clearing, replay_closing, finished, Operation, Loop, ready, stopped,
  marking, awaiting_done, steering, awaiting_end, Server, turn_answering,
}

abbrev pub hit : String → String → ℕ
hit id j = if j == id then 1 else 0

abbrev pub reply_weight : {Raw : Type 0} → String → Outgoing Raw → ℕ
reply_weight id (response j a) = hit id j
reply_weight id (error_response j c m) = hit id j
reply_weight id (parse_failure m) = 0
reply_weight id (notification from e) = 0
reply_weight id (request j r) = 0

-- Whether a goroutine at this phase has its reply still to write.
abbrev pub owes : Phase → Bool
owes turn_running = true
owes (turn_ending r) = true
owes (turn_closing r) = true
owes (turn_clearing r) = true
owes (turn_replying r) = true
owes (turn_answering r x) = true
owes replay_running = true
owes (replay_replying r) = true
owes replay_panicked = true
owes replay_clearing = false
owes replay_closing = false
owes finished = false

abbrev pub op_weight : String → Operation → ℕ
op_weight id op = if owes op.phase then hit id op.id else 0

abbrev pub loop_weight : {Raw : Type 0} → String → Loop Raw → ℕ
loop_weight id ready = 0
loop_weight id stopped = 0
loop_weight id (marking j i t) = hit id j
loop_weight id (awaiting_done j i) = hit id j
loop_weight id (steering j t input f) = hit id j
loop_weight id (awaiting_end i) = 0

abbrev pub message_weight : {Raw : Type 0} → String → RawWireMessage Raw → ℕ
message_weight id raw = hit id raw.id

module _ {Raw : Type 0} where
  -- The replies with this id that were handed to the transport.
  abbrev pub replies : String → Server Raw → ℕ
  replies id s = total (reply_weight id) s.written

  -- The replies with this id that are still to come.
  abbrev pub owed : String → Server Raw → ℕ
  owed id s = total (message_weight id) s.queue + loop_weight id s.loop + total (op_weight id) s.ops

  abbrev pub balance : String → Server Raw → ℕ
  balance id s = replies id s + owed id s

  -- The balance is the same.
  abbrev pub Same : String → Server Raw → Server Raw → Type 0
  Same id s t = balance id t ≡ balance id s
