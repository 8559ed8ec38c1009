-- ===== src/Filter/Numbers.antt =====
-- The numbers of actions and of message types (mcan/src/filter.rs), and back.
use mcan.Base.{ℕ, ◌+◌, ◌*◌, ◌/◌, ◌%◌, ◌^◌, ◌≤◌, ◌<◌, ◌≡◌, refl, arith, ◌==◌, if◌then◌else◌}
use mcan.Filter.{
  Action, store_fifo0, store_fifo1, reject, priority, priority_fifo0, priority_fifo1, action_u32,
  SbMsgType, rx_buffer, debug_a, debug_b, debug_c, msg_type_u32,
}

pub action-bounds : (a : Action) → (1 ≤ action_u32 a) × (action_u32 a ≤ 6)
unfolding action_u32
action-bounds store_fifo0 = omega arith
action-bounds store_fifo1 = omega arith
action-bounds reject = omega arith
action-bounds priority = omega arith
action-bounds priority_fifo0 = omega arith
action-bounds priority_fifo1 = omega arith

pub msg_type-le : (m : SbMsgType) → msg_type_u32 m ≤ 3
unfolding msg_type_u32
msg_type-le rx_buffer = omega arith
msg_type-le debug_a = omega arith
msg_type-le debug_b = omega arith
msg_type-le debug_c = omega arith

-- The actions and the message types by their numbers.
abbrev pub action_of : ℕ → Action
action_of n =
    if n == 1
    then store_fifo0
    else if n == 2
    then store_fifo1
    else if n == 3
    then reject
    else if n == 4
    then priority
    else if n == 5
    then priority_fifo0
    else priority_fifo1

abbrev pub msg_type_of : ℕ → SbMsgType
msg_type_of n =
    if n == 0 then rx_buffer else if n == 1 then debug_a else if n == 2 then debug_b else debug_c

pub action_of-action_u32 : (a : Action) → action_of (action_u32 a) ≡ a
unfolding action_u32
action_of-action_u32 store_fifo0 = refl
action_of-action_u32 store_fifo1 = refl
action_of-action_u32 reject = refl
action_of-action_u32 priority = refl
action_of-action_u32 priority_fifo0 = refl
action_of-action_u32 priority_fifo1 = refl

pub msg_type_of-msg_type_u32 : (m : SbMsgType) → msg_type_of (msg_type_u32 m) ≡ m
unfolding msg_type_u32
msg_type_of-msg_type_u32 rx_buffer = refl
msg_type_of-msg_type_u32 debug_a = refl
msg_type_of-msg_type_u32 debug_b = refl
msg_type_of-msg_type_u32 debug_c = refl

-- The message type, the offset and the event pins of a filter that stores into a buffer.
pub buffer_fields :
    (m offset : ℕ)
    → m ≤ 3
    → offset < 256
    → ((offset + m * 2 ^ 9) / 2 ^ 9 % 2 ^ 2 ≡ m)
      × ((offset + m * 2 ^ 9) % 2 ^ 6 ≡ offset % 2 ^ 6)
      × ((offset + m * 2 ^ 9) / 2 ^ 6 % 2 ^ 3 ≡ offset / 2 ^ 6)
buffer_fields m offset h fits = (omega arith, omega arith, omega arith)
