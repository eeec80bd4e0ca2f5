-- ===== src/Tests/Queue.antt =====
-- The theorems on the message queue at a queue with two waiting messages.
use v4_engine.Base.{◌+◌, ◌≡◌, refl, arith}
use v4_engine.Err.{Err, v4_err}
use v4_engine.Message.{send, receive, matches, take_at, find_match}
use v4_engine.Message.Fifo.{
  InStep, seen, sent, send_spec, take_first, send-messages, receive-messages,
}
use v4_engine.Message.Stale.{send-receive_stale}
use v4_engine.Message.Window.{messages, append_one}
use v4_engine.Vm.{MsgQueue}

-- Two messages for task 1, of types 5 and 6, sent by task 0.
abbrev two_waiting : MsgQueue
two_waiting = record { queue = λ i. sent 0 1 (5 + i) 100; read_idx = 0; write_idx = 2; count = 2 }

two_waiting-InStep : InStep two_waiting
two_waiting-InStep = record { count_in = omega arith; write_at = refl }

send-messages_example :
    seen (send 0 1 7 300 two_waiting) ≡ send_spec 0 1 7 300 (messages two_waiting)
send-messages_example = send-messages 0 1 7 300 two_waiting two_waiting-InStep

receive-messages_example :
    seen (receive 1 6 two_waiting) ≡ take_first (matches 1 6) (messages two_waiting)
receive-messages_example = receive-messages 1 6 two_waiting (omega arith)

send-receive_stale_example :
    seen (send 0 1 7 300 (receive 1 5 two_waiting).1)
    ≡ (v4_err Err.no_error, append_one (messages (receive 1 5 two_waiting).1) (sent 0 1 6 100))
unfolding receive take_at find_match matches
send-receive_stale_example =
    send-receive_stale 1 5 0 1 7 300 two_waiting (sent 0 1 5 100) two_waiting-InStep (omega arith)
      refl refl
