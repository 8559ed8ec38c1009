-- ===== src/Tests/Setup.antt =====
-- A bus for the tests: its configuration, its message RAM and a peripheral.
use mcan.Base.{◌≡◌, refl, true, [], arith}
use mcan.Bus.{CanConfig, TimeStampSelect, TxQueueMode, RxFifoMode}
use mcan.Bus.Registers.{Keeps}
use mcan.Bus.Run.{data_phase}
use mcan.Config.{
  BitTiming, classic, fd, ok, check, contains, prescaler, nominal_bit_timing_ranges,
  time_quanta_per_bit, checked_rem, in_range, divide,
}
use mcan.Message.Raw.{RawMessage}
use mcan.MessageRam.{Capacities, IsLimited, n8, n64}
use mcan.Reg.Block.{reset_value}
use mcan.Reg.Io.{Hardware, Trace}
use mcan.TxBuffers.{Tx}
use mcan.Tests.Fixtures.{ram, no_message, hertz}

-- 500 kbit/s with 16 time quanta per bit, and 2 Mbit/s with 20, from 40 MHz.
abbrev pub nominal : BitTiming hertz
nominal = record { sjw = 4; phase_seg_1 = 11; phase_seg_2 = 4; bitrate = 500_000 }

abbrev pub fast : BitTiming hertz
fast = record { sjw = 5; phase_seg_1 = 14; phase_seg_2 = 5; bitrate = 2_000_000 }

abbrev pub fd_config : CanConfig hertz
fd_config = record {
  mode = fd true fast;
  loopback = true;
  nominal_timing = nominal;
  timestamp = record { select = TimeStampSelect.inc; prescaler = 16 };
  rx_fifo_0 = record { mode = RxFifoMode.overwrite; watermark = 64 };
  rx_fifo_1 = record { mode = RxFifoMode.blocking; watermark = 65 };
  tx = record { tx_event_fifo_watermark = 32; tx_queue_submode = TxQueueMode.priority };
}

abbrev pub buffers : Tx hertz
buffers = record { tx_buffers = 4; dedicated_tx_buffers = 1; mode = classic }

abbrev pub memory : Hardware RawMessage
memory = ram no_message

abbrev pub start : Trace RawMessage
start = []

pub memory-Keeps : Keeps memory reset_value
memory-Keeps = record {
  cccr_held = λ t. refl;
  test_held = λ t. refl;
  rxf0_held = λ t. refl;
  rxf1_held = λ t. refl;
  txbc_held = λ t. refl;
  txefc_held = λ t. refl;
}

pub nominal-prescaler : prescaler nominal 40_000_000 nominal_bit_timing_ranges ≡ ok 5
unfolding prescaler check contains time_quanta_per_bit divide checked_rem in_range
nominal-prescaler = refl

pub fast-prescaler : data_phase memory 40_000_000 fd_config.mode ≡ ok 1
unfolding prescaler check contains time_quanta_per_bit divide checked_rem in_range
fast-prescaler = refl

abbrev pub capacities : Capacities
capacities = record {
  standard_filters = 2;
  extended_filters = 1;
  rx_buffer_message = n8;
  dedicated_rx_buffers = 3;
  rx_fifo_0_message = n64;
  rx_fifo_0 = 4;
  rx_fifo_1_message = n8;
  rx_fifo_1 = 5;
  tx_message = n64;
  tx_buffers = 4;
  dedicated_tx_buffers = 1;
  tx_event_fifo = 6;
}

pub limits : IsLimited capacities
limits = record {
  standard_filters_le = omega arith;
  extended_filters_le = omega arith;
  dedicated_rx_buffers_le = omega arith;
  rx_fifo_0_le = omega arith;
  rx_fifo_1_le = omega arith;
  tx_buffers_le = omega arith;
  dedicated_tx_buffers_le = omega arith;
  tx_event_fifo_le = omega arith;
}
