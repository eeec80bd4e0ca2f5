-- ===== src/Message.antt =====
-- The message queue of src/task_backend_custom.cpp, behind src/message.cpp. The functions act on the queue
-- of a vm that is not null; `current` is the scheduler's current task.
pub mod Window
pub mod Fifo
pub mod Stale
use v4_engine.Base.{
  ℕ, zero, suc, ◌+◌, ◌-◌, ◌%◌, Bool, Option, none, some, leb, ◌==◌, ◌&&◌, ◌||◌, not, if◌then◌else◌,
  update,
}
use v4_engine.Err.{Err, v4_err}
use v4_engine.Vm.{Message, MsgQueue, max_tasks, msg_queue_size, broadcast}

-- A slot's index counted from the read index.
abbrev pub slot : ℕ → ℕ → ℕ
slot read_idx i = (read_idx + i) % msg_queue_size

-- v4_backend_task_send: the code and the queue afterwards.
unfoldable pub send : ℕ → ℕ → ℕ → ℕ → MsgQueue → ℕ × MsgQueue
send current dst_task msg_type value q =
    let msg : Message = record {
      src_task = current;
      dst_task = dst_task;
      msg_type = msg_type;
      flags = 0;
      payload = value;
    } in
    if leb max_tasks dst_task && not (dst_task == broadcast)
    then (v4_err Err.invalid_arg, q)
    else if leb msg_queue_size q.count
    then (v4_err Err.msg_queue_full, q)
    else (
      v4_err Err.no_error,
      record q {
        queue = update q.queue q.write_idx msg;
        write_idx = (q.write_idx + 1) % msg_queue_size;
        count = q.count + 1;
      },
    )

-- Addressed to this task or to all, and of the type asked for (0 asks for any).
unfoldable pub matches : ℕ → ℕ → Message → Bool
matches current msg_type m =
    (m.dst_task == current || m.dst_task == broadcast) && (msg_type == 0 || m.msg_type == msg_type)

-- The search loop at offset `i`, with `n` messages left: the offset of the first match.
unfoldable pub find_match : ℕ → ℕ → (ℕ → Message) → ℕ → ℕ → ℕ → Option ℕ
find_match current msg_type queue read_idx zero i = none
find_match current msg_type queue read_idx (suc n) i =
    let rest = find_match current msg_type queue read_idx n (i + 1) in
    if matches current msg_type (queue (slot read_idx i)) then some i else rest

-- The shifting loop at offset `j`, with `n` rounds left.
unfoldable pub shift_down : ℕ → ℕ → ℕ → (ℕ → Message) → ℕ → Message
shift_down read_idx zero j queue = queue
shift_down read_idx (suc n) j queue =
    shift_down read_idx n (j + 1) (update queue (slot read_idx j) (queue (slot read_idx (j + 1))))

-- What the loop does at the match: the message copied out, and the queue with its slot closed.
unfoldable pub take_at : Option ℕ → MsgQueue → Option Message × MsgQueue
unfolding shift_down
take_at none q = (none, q)
take_at (some i) q = (
  some (q.queue (slot q.read_idx i)),
  record q { queue = shift_down q.read_idx (q.count - 1 - i) i q.queue; count = q.count - 1 },
)

-- v4_backend_task_receive: the message (`none` is the result 0) and the queue afterwards.
unfoldable pub receive : ℕ → ℕ → MsgQueue → Option Message × MsgQueue
unfolding find_match take_at matches
receive current msg_type q = take_at (find_match current msg_type q.queue q.read_idx q.count 0) q

-- memset(&vm->msg_queue, 0, sizeof(v4_msg_queue_t))
abbrev pub zero_message : Message
zero_message = record { src_task = 0; dst_task = 0; msg_type = 0; flags = 0; payload = 0 }

abbrev pub empty_queue : MsgQueue
empty_queue = record { queue = λ _. zero_message; read_idx = 0; write_idx = 0; count = 0 }
