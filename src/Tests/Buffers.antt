-- ===== src/Tests/Buffers.antt =====
-- The theorems on the buffers at concrete inputs.
use mcan.Base.{
  Bool, Option, leb, ℕ, ◌≡◌, refl, true, false, ◌||◌, arith, none, [], ◌∷◌, if◌then◌else◌,
}
use mcan.Bits.{test_bit, ◌<<<◌}
use mcan.Config.{classic}
use mcan.Message.Raw.{RawMessage, fd_format, bit_rate_switching}
use mcan.Nb.{ok, would_block}
use mcan.Reg.Block.{Register, txbar, txbcr, ndat1, reset_value}
use mcan.Reg.Effects.{effects}
use mcan.Reg.Io.{Hardware, Trace, Event, done, panic}
use mcan.TxBufferSet.{TxBufferSet}
use mcan.TxBuffers.{
  Tx, validate_message, transmit_dedicated, transmit_queued, cancel_multi, is_fd, allows_switching,
}
use mcan.TxBuffers.Send.{
  in_use, expected, committed, sent, put_index, is_queue_full, after_read, transmit_dedicated_lem,
  transmit_dedicated-past_the_end, transmit_queued_lem,
}
use mcan.TxBuffers.Cancel.{are_canceled, requested, cancel_multi_lem}
use mcan.RxFifo.{RxFifo, fifo0}
use mcan.RxDedicatedBuffers
use mcan.RxDedicatedBuffers.{RxDedicatedBuffer, out_of_bounds}
use mcan.RxDedicatedBuffers.Receive.{receive-first_word, receive-panics}
use mcan.RxDedicatedBuffers.Receive.{new_data_bit}
use mcan.RxDedicatedBuffers.Least.{IsLeast, received, cleared, receive_any_lem}
use mcan.TxEventFifo.{TxEventFifo}
use mcan.Tests.Fixtures.{hertz, ram, fixed, no_message}

abbrev start : Trace RawMessage
start = []

abbrev hw : Hardware RawMessage
hw = ram no_message

-- Four buffers, of which two are dedicated.
abbrev four : Tx hertz
four = record { tx_buffers = 4; dedicated_tx_buffers = 2; mode = classic }

transmit_dedicated_lem_example :
    ((transmit_dedicated hw four 1 no_message start).0
      ≡ done (expected (in_use hw 1 start) (validate_message four no_message) true))
    × (effects (transmit_dedicated hw four 1 no_message start).1
        ≡ committed
            (expected (in_use hw 1 start) (validate_message four no_message) true)
            1
            no_message
            [])
transmit_dedicated_lem_example =
    transmit_dedicated_lem hw four 1 no_message start (omega arith) (omega arith) (omega arith)

no_message-allowed : validate_message four no_message ≡ none
unfolding validate_message fd_format bit_rate_switching is_fd allows_switching
no_message-allowed = refl

buffer_2-free : in_use hw 2 start ≡ false
unfolding reset_value
buffer_2-free = refl

transmit_dedicated-past_the_end_example :
    ((transmit_dedicated hw four 2 no_message start).0 ≡ done (ok tt))
    × (effects (transmit_dedicated hw four 2 no_message start).1
        ≡ Event.write txbar (1 <<< 2) ∷ Event.store 2 no_message ∷ [])
transmit_dedicated-past_the_end_example =
    transmit_dedicated-past_the_end hw four no_message start (omega arith) (omega arith)
      buffer_2-free no_message-allowed

transmit_queued_lem_example :
    ((transmit_queued hw four no_message start).0
      ≡ done (
          if is_queue_full hw start
          then would_block
          else sent hw four (put_index hw start) no_message (after_read hw Register.txfqs start)))
    × (effects (transmit_queued hw four no_message start).1
        ≡ committed
            (if is_queue_full hw start
              then would_block
              else sent hw four
                  (put_index hw start)
                  no_message
                  (after_read hw Register.txfqs start))
            (put_index hw start)
            no_message
            [])
transmit_queued_lem_example = transmit_queued_lem hw four no_message start

abbrev two_buffers : TxBufferSet
two_buffers = record { bits = 5 }

cancel_multi_lem_example :
    ((cancel_multi hw two_buffers start).0
      ≡ done (
          if are_canceled hw two_buffers start
            || are_canceled hw two_buffers (requested hw two_buffers start)
          then ok tt
          else would_block))
    × (effects (cancel_multi hw two_buffers start).1
        ≡ (if are_canceled hw two_buffers start then [] else Event.write txbcr 5 ∷ []))
cancel_multi_lem_example = cancel_multi_lem hw two_buffers start (omega arith)

-- One message at the get index 3 of four cells.
abbrev one_message : Hardware ℕ
one_message = fixed 7 (λ r. 0x301)

abbrev empty_trace : Trace ℕ
empty_trace = []

abbrev fifo : RxFifo
fifo = record { fifo = fifo0; capacity = 4 }

abbrev events : TxEventFifo
events = record { capacity = 4 }

abbrev buffers : RxDedicatedBuffer
buffers = record { capacity = 64 }

receive-first_word_example :
    ((RxDedicatedBuffers.receive one_message buffers 8 empty_trace).0 ≡ done (ok 7))
    × (effects (RxDedicatedBuffers.receive one_message buffers 8 empty_trace).1
        ≡ Event.write ndat1 (1 <<< 8) ∷ [])
receive-first_word_example = receive-first_word one_message buffers 8 empty_trace (omega arith)

receive-panics_example :
    ((RxDedicatedBuffers.receive one_message buffers 40 empty_trace).0 ≡ panic)
    × (effects (RxDedicatedBuffers.receive one_message buffers 40 empty_trace).1 ≡ [])
receive-panics_example =
    receive-panics one_message buffers 40 empty_trace (omega arith) (omega arith) (omega arith) refl

-- Buffers 0, 8 and 9 have new data.
abbrev new_data : ℕ → Bool
new_data i = test_bit 0x301 (new_data_bit i)

le_total : (x y : ℕ) → (leb x y || leb y x) ≡ true
le_total x y = ground arith

le_transitive : (x y z : ℕ) → leb x y ≡ true → leb y z ≡ true → leb x z ≡ true
le_transitive x y z p q = ground arith

abbrev twelve : RxDedicatedBuffer
twelve = record { capacity = 12 }

receive_any_lem_example :
    (found : Option (ℕ × ℕ)) × IsLeast leb new_data (λ _. 7) 9 12 found
    × ((RxDedicatedBuffers.receive_any one_message leb twelve empty_trace).0
        ≡ done (received found))
    × (effects (RxDedicatedBuffers.receive_any one_message leb twelve empty_trace).1
        ≡ cleared found [])
receive_any_lem_example =
    receive_any_lem one_message leb new_data (λ _. 7) le_total le_transitive empty_trace
      (λ t i e. refl) (λ t i e. refl) twelve 9 (omega arith)
