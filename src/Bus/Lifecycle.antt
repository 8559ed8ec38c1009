-- ===== src/Bus/Lifecycle.antt =====
-- The life of a bus: `CanConfigurable::{new, finalize, finalize_initialized}`, `Can::configure` and the readers of
-- `Aux` (mcan/src/bus.rs).
pub mod Finalize
pub mod Agreement
pub mod New
pub mod Addresses
use mcan.Base.{ℕ, Bool, false, not, if◌then◌else◌, List, [], replicate}
use mcan.Bits.{u16}
use mcan.Bus.{
  CanConfig, RxFifoConfig, RxFifoMode, blocking, TxQueueMode, fifo, TxConfig, TimeStampSelect,
  Timestamp, ConfigurationError, Applied, applied, failed, apply_configuration,
}
use mcan.Bus.Ram.{apply_ram_config}
use mcan.Can as Modes
use mcan.Can.{configuration_mode, initialization_mode, operational_mode}
use mcan.Config.{Fugit, Mode, classic, BitTiming}
use mcan.Config as Config
use mcan.Filter.{FilterExtendedId}
use mcan.Filter.Memory.{Filters}
use mcan.Filter.Memory as Memory
use mcan.Interrupt.Configuration as InterruptConfiguration
use mcan.Interrupt.Owned.{State, OwnedInterruptSet}
use mcan.Message.Raw.{RawMessage}
use mcan.MessageRam.{Capacities, is_addressable, size_of}
use mcan.Reg.Block.{Register, ecr, psr, tscv}
use mcan.Reg.Field.{field_reader}
use mcan.Reg.Io.{Hardware, Io, ◌>>=◌, ◌>>◌, return, read_reg}
use mcan.RxDedicatedBuffers.{RxDedicatedBuffer}
use mcan.RxFifo.{RxFifo, fifo0, fifo1}
use mcan.TxBuffers.{Tx}
use mcan.TxEventFifo.{TxEventFifo}

-- `Can` with the fields of its `Aux`; the registers and the dependencies are no state of the program.
pub record Can (g : Fugit) : Type 0 where
  pub interrupts : OwnedInterruptSet State.disabled
  pub rx_fifo_0 : RxFifo
  pub rx_fifo_1 : RxFifo
  pub rx_dedicated_buffers : RxDedicatedBuffer
  pub tx : Tx g
  pub tx_event_fifo : TxEventFifo
  pub config : CanConfig g
  pub filters_standard : Filters ℕ
  pub filters_extended : Filters FilterExtendedId

-- `Default` of the configuration structs.
abbrev pub default_rx_fifo_config : RxFifoConfig
default_rx_fifo_config = record { mode = blocking; watermark = 0 }

abbrev pub default_tx_config : TxConfig
default_tx_config = record { tx_event_fifo_watermark = 0; tx_queue_submode = fifo }

abbrev pub default_timestamp : Timestamp
default_timestamp = record { select = TimeStampSelect.zero; prescaler = 1 }

-- `CanConfig::new`
unfoldable pub new_config : {g : Fugit} → g.HertzU32 → CanConfig g
unfolding Config.new
new_config bitrate = record {
  mode = classic;
  loopback = false;
  nominal_timing = Config.new bitrate;
  timestamp = default_timestamp;
  rx_fifo_0 = default_rx_fifo_config;
  rx_fifo_1 = default_rx_fifo_config;
  tx = default_tx_config;
}

-- The result of `CanConfigurable::new`.
pub data Created (g : Fugit) : Type 0 where
  created : Can g → Created g
  memory_not_addressable : Created g

-- The result of `finalize` and `finalize_initialized`.
pub data Finalized (g : Fugit) : Type 0 where
  finalized : Can g → Finalized g
  refused : ConfigurationError g → Finalized g

module _ {g : Fugit} where
  -- The components over the memory that `SharedMemory::init` fills with zeroes.
  unfoldable pub new_can : Capacities → g.HertzU32 → OwnedInterruptSet State.disabled → Can g
  unfolding new_config Memory.new
  new_can c bitrate interrupts = record {
    interrupts = interrupts;
    rx_fifo_0 = record { fifo = fifo0; capacity = c.rx_fifo_0 };
    rx_fifo_1 = record { fifo = fifo1; capacity = c.rx_fifo_1 };
    rx_dedicated_buffers = record { capacity = c.dedicated_rx_buffers };
    tx = record {
      tx_buffers = c.tx_buffers;
      dedicated_tx_buffers = c.dedicated_tx_buffers;
      mode = (new_config bitrate).mode;
    };
    tx_event_fifo = record { capacity = c.tx_event_fifo };
    config = new_config bitrate;
    filters_standard = Memory.new (replicate c.standard_filters 0);
    filters_extended = Memory.new (replicate c.extended_filters (record { v1 = 0; v2 = 0 }));
  }

module _ {g : Fugit} (hw : Hardware RawMessage) (fuel : ℕ) where
  -- `CanConfigurable::new` with a memory at `start` and the dependencies' `eligible_message_ram_start`.
  unfoldable pub new :
      Capacities → (start eligible_message_ram_start : ℕ) → g.HertzU32 → Io RawMessage (Created g)
  unfolding InterruptConfiguration.new new_can
  new c start eligible_message_ram_start bitrate =
      configuration_mode hw fuel
      >> (if not (is_addressable (size_of c) start eligible_message_ram_start)
          then return memory_not_addressable
          else (apply_ram_config c start
              >> (InterruptConfiguration.new >>= λ interrupts.
                  return (created (new_can c bitrate interrupts)))))

  -- `self.apply_configuration()?`, and then the change of the mode.
  unfoldable pub finalize_by :
      Io RawMessage (Unit {0}) → g.HertzU32 → Can g → Io RawMessage (Finalized g)
  unfolding apply_configuration
  finalize_by change can_clock self =
      apply_configuration hw can_clock self.config self.tx >>= λ (result, tx). elim result [
        | applied ↦ change >> return (finalized (record self { tx = tx }))
        | failed e ↦ return (refused e)
      ]

  unfoldable pub finalize_initialized : g.HertzU32 → Can g → Io RawMessage (Finalized g)
  unfolding finalize_by initialization_mode
  finalize_initialized = finalize_by (initialization_mode hw fuel)

  unfoldable pub finalize : g.HertzU32 → Can g → Io RawMessage (Finalized g)
  unfolding finalize_by operational_mode
  finalize = finalize_by (operational_mode hw fuel)

  -- `Can::configure`, which gives the `CanConfigurable` back.
  unfoldable pub configure : Can g → Io RawMessage (Can g)
  unfolding configuration_mode
  configure self = configuration_mode hw fuel >> return self

  -- `Can::release`, without the dependencies that it gives back.
  unfoldable pub release : Can g → Io RawMessage (Unit {0})
  unfolding configure
  release self = configure self >>= λ _. return tt

module _ {M : Type 0} (hw : Hardware M) where
  -- `error_counters` and `protocol_status` wrap the word that they read.
  unfoldable pub error_counters : Io M ℕ
  unfolding read_reg
  error_counters = read_reg hw ecr

  unfoldable pub protocol_status : Io M ℕ
  unfolding read_reg
  protocol_status = read_reg hw psr

  unfoldable pub timestamp : Io M ℕ
  unfolding read_reg field_reader
  timestamp = read_reg hw tscv >>= λ bits. return (u16 (field_reader 0 0xffff bits))
