-- ===== src/Filter.antt =====
-- Acceptance filters (mcan/src/filter.rs).
pub mod Numbers
pub mod Standard
pub mod Extended
pub mod Memory
use mcan.Base.{ℕ, bit_or}
use mcan.Bits.{◌<<<◌}
use mcan.Message.Ids.{EmbeddedCan}

pub data Action : Type 0 where
  store_fifo0 store_fifo1 reject priority priority_fifo0 priority_fifo1 : Action

-- `From<Action> for u32`
unfoldable pub action_u32 : Action → ℕ
action_u32 store_fifo0 = 0x1
action_u32 store_fifo1 = 0x2
action_u32 reject = 0x3
action_u32 priority = 0x4
action_u32 priority_fifo0 = 0x5
action_u32 priority_fifo1 = 0x6

pub data SbMsgType : Type 0 where
  rx_buffer debug_a debug_b debug_c : SbMsgType

-- `msg_type as u32`
unfoldable pub msg_type_u32 : SbMsgType → ℕ
msg_type_u32 rx_buffer = 0
msg_type_u32 debug_a = 1
msg_type_u32 debug_b = 2
msg_type_u32 debug_c = 3

module _ (c : EmbeddedCan) where
  -- `range action low high`, `dual action id1 id2`, `classic action filter mask`,
  -- `store_buffer id msg_type offset`
  pub data Filter : Type 0 where
    disabled : Filter
    range : Action → c.StandardId → c.StandardId → Filter
    dual : Action → c.StandardId → c.StandardId → Filter
    classic : Action → c.StandardId → c.StandardId → Filter
    store_buffer : c.StandardId → SbMsgType → ℕ → Filter

  pub data ExtFilter : Type 0 where
    disabled : ExtFilter
    masked_range : Action → c.ExtendedId → c.ExtendedId → ExtFilter
    dual : Action → c.ExtendedId → c.ExtendedId → ExtFilter
    classic : Action → c.ExtendedId → c.ExtendedId → ExtFilter
    range : Action → c.ExtendedId → c.ExtendedId → ExtFilter
    store_buffer : c.ExtendedId → SbMsgType → ℕ → ExtFilter

-- The two words of `FilterExtendedId`.
pub record FilterExtendedId : Type 0 where
  pub v1 : ℕ
  pub v2 : ℕ

module _ {c : EmbeddedCan} where
  -- `From<Filter> for FilterStandardId`
  unfoldable pub filter_standard_id : Filter c → ℕ
  unfolding action_u32 msg_type_u32
  filter_standard_id Filter.disabled = 0
  filter_standard_id (Filter.range action low high) =
      bit_or (bit_or (c.standard_raw high) (c.standard_raw low <<< 16)) (action_u32 action <<< 27)
  filter_standard_id (Filter.dual action id1 id2) =
      bit_or
        (bit_or (bit_or (c.standard_raw id2) (c.standard_raw id1 <<< 16))
          (action_u32 action <<< 27))
        (1 <<< 30)
  filter_standard_id (Filter.classic action filter mask) =
      bit_or
        (bit_or (bit_or (c.standard_raw mask) (c.standard_raw filter <<< 16))
          (action_u32 action <<< 27))
        (2 <<< 30)
  filter_standard_id (Filter.store_buffer id msg_type offset) =
      bit_or (bit_or (bit_or (c.standard_raw id <<< 16) (msg_type_u32 msg_type <<< 9)) offset)
        (0x7 <<< 27)

  -- `From<ExtFilter> for FilterExtendedId`
  unfoldable pub filter_extended_id : ExtFilter c → FilterExtendedId
  unfolding action_u32 msg_type_u32
  filter_extended_id ExtFilter.disabled = record { v1 = 0; v2 = 0 }
  filter_extended_id (ExtFilter.masked_range action low high) = record {
    v1 = bit_or (action_u32 action <<< 29) (c.extended_raw low);
    v2 = c.extended_raw high;
  }
  filter_extended_id (ExtFilter.dual action id1 id2) = record {
    v1 = bit_or (action_u32 action <<< 29) (c.extended_raw id1);
    v2 = bit_or (1 <<< 30) (c.extended_raw id2);
  }
  filter_extended_id (ExtFilter.classic action filter mask) = record {
    v1 = bit_or (action_u32 action <<< 29) (c.extended_raw filter);
    v2 = bit_or (2 <<< 30) (c.extended_raw mask);
  }
  filter_extended_id (ExtFilter.range action low high) = record {
    v1 = bit_or (action_u32 action <<< 29) (c.extended_raw low);
    v2 = bit_or (3 <<< 30) (c.extended_raw high);
  }
  filter_extended_id (ExtFilter.store_buffer id msg_type offset) = record {
    v1 = bit_or (0x7 <<< 29) (c.extended_raw id);
    v2 = bit_or (msg_type_u32 msg_type <<< 9) offset;
  }
