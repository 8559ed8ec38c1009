-- ===== src/Tests/Lifecycle.antt =====
-- The theorems on the message RAM and on the life of the bus at concrete inputs.
use mcan.Base.{ℕ, ◌+◌, ◌*◌, ◌%◌, ◌/◌, ◌<◌, ◌≡◌, refl, true, false, if◌then◌else◌, ◌∷◌, arith}
use mcan.Bits.{test_bit, bit_not}
use mcan.Bus.Lifecycle.{Can, created, memory_not_addressable, finalized, new, new_can, finalize}
use mcan.Bus.Lifecycle.Finalize.{ready, finalize_lem}
use mcan.Bus.Lifecycle.Addresses.{new-finalize-addresses}
use mcan.Can.{configuration_mode}
use mcan.Reg.Block.{rxf1_c}
use mcan.Reg.Stored.{stored}
use mcan.Bus.Lifecycle.Agreement.{final_cccr, finalize-mode}
use mcan.Bus.Lifecycle.{finalize_by}
use mcan.Bus.{apply_configuration}
use mcan.Config.{prescaler, check, contains, time_quanta_per_bit, divide, checked_rem, in_range}
use mcan.Bus.Lifecycle.New.{new_lem}
use mcan.Bus.Ram.{apply_ram_config}
use mcan.Bus.Ram.Sections as Sections
use mcan.Bus.Ram.Sections.{
  Selects, start_register, apply_ram_config-addresses, apply_ram_config-sizes,
}
use mcan.Can.{operational_mode}
use mcan.Can.Modes.{Follows}
use mcan.Config.{fd}
use mcan.Message.Raw.{RawMessage}
use mcan.Base.{◌≢◌, ◌≤◌, ◌⊎◌}
use mcan.MessageRam.{rx_fifo_0}
use mcan.Bus.Ram.Regions.{region_start, region_end, apply_ram_config-regions}
use mcan.MessageRam.{
  n8, n64, rx_fifo_1, is_addressable, size_of, section_bytes, offset, count, element_bytes,
  message_bytes, data_len,
}
use mcan.Reg.Block.{
  Register, Register-discrete, cccr, rxf0_c, rxf1_c, rxesc, txbc, txesc, txefc, sidfc, xidfc, ils,
  reset_value,
}
use mcan.Reg.Field.{mask, field_reader, bit_reader}
use mcan.Reg.Io.{Hardware, Trace, Event, done}
use mcan.Reg.Stored.{stored}
use mcan.Interrupt.Owned.{OwnedInterruptSet, State}
use mcan.TxBuffers.{is_fd, allows_switching}
use mcan.Tests.Fixtures.{no_message, hertz}
use mcan.Tests.Setup.{
  fast, fd_config, memory, start, memory-Keeps, nominal-prescaler, fast-prescaler, capacities,
  limits,
}

addressable : is_addressable (size_of capacities) 0x2000_0100 0x2000_0000 ≡ true
unfolding is_addressable size_of section_bytes count element_bytes message_bytes data_len
addressable = refl

fifo_bytes : 0 < section_bytes capacities rx_fifo_1
unfolding section_bytes count element_bytes message_bytes data_len
fifo_bytes = omega arith

abbrev ram_configured : Register → ℕ
ram_configured r = Sections.after capacities limits 0x2000_0100 start reset_value r

fifos_differ : rx_fifo_0 ≢ rx_fifo_1
fifos_differ e = absurd cc

fifo_0_bytes : 0 < section_bytes capacities rx_fifo_0
unfolding section_bytes count element_bytes message_bytes data_len
fifo_0_bytes = omega arith

apply_ram_config-regions_example :
    (0x2000_0100 ≤ region_start capacities 0x2000_0000 ram_configured rx_fifo_0)
    × (region_end capacities 0x2000_0000 ram_configured rx_fifo_0
        ≤ 0x2000_0100 + size_of capacities)
    × ((region_end capacities 0x2000_0000 ram_configured rx_fifo_0
          ≤ region_start capacities 0x2000_0000 ram_configured rx_fifo_1)
        ⊎ (region_end capacities 0x2000_0000 ram_configured rx_fifo_1
            ≤ region_start capacities 0x2000_0000 ram_configured rx_fifo_0))
apply_ram_config-regions_example =
    apply_ram_config-regions capacities limits 0x2000_0100 start reset_value 0x2000_0000 rx_fifo_0
      rx_fifo_1 fifos_differ addressable (omega arith) fifo_0_bytes fifo_bytes

apply_ram_config-sizes_example :
    (field_reader 16 (mask 8) (ram_configured sidfc) ≡ 2)
    × (field_reader 16 (mask 7) (ram_configured xidfc) ≡ 1)
    × (field_reader 16 (mask 7) (ram_configured rxf0_c) ≡ 4)
    × (field_reader 16 (mask 7) (ram_configured rxf1_c) ≡ 5)
    × (field_reader 16 (mask 6) (ram_configured txefc) ≡ 6)
    × (field_reader 16 (mask 6) (ram_configured txbc) ≡ 1)
    × (field_reader 24 (mask 6) (ram_configured txbc) + 1 ≡ 4)
    × Selects (field_reader 0 (mask 3) (ram_configured rxesc)) n64
    × Selects (field_reader 4 (mask 3) (ram_configured rxesc)) n8
    × Selects (field_reader 8 (mask 3) (ram_configured rxesc)) n8
    × Selects (field_reader 0 (mask 3) (ram_configured txesc)) n64
apply_ram_config-sizes_example =
    apply_ram_config-sizes capacities limits 0x2000_0100 start reset_value

memory-init : Follows memory 0 0 0
unfolding Register-discrete
memory-init t w = ground arith

memory-cce : Follows memory 0 1 1
unfolding Register-discrete
memory-cce t w = ground arith

abbrev all_interrupts : OwnedInterruptSet State.disabled
all_interrupts = record { interrupts = 0x3fff_ffff }

new_lem_example :
    (v : ℕ) × (u : Trace RawMessage) × (test_bit v 1 ≡ true)
    × (new {g = hertz} memory 1 capacities 0x2000_0100 0x2000_0000 500_000 start ≡ (
        if is_addressable (size_of capacities) 0x2000_0100 0x2000_0000
        then (
          done (created (new_can capacities 500_000 all_interrupts)),
          Event.write ils 0 ∷ (apply_ram_config capacities 0x2000_0100 (Event.read cccr v ∷ u)).1,
        )
        else (done memory_not_addressable, Event.read cccr v ∷ u)))
new_lem_example =
    new_lem memory 1 capacities limits 0x2000_0100 0x2000_0000 500_000 start 0 (omega arith)
      memory-init memory-cce

-- The bus after `new` with a configuration for CAN FD.
abbrev bus : Can hertz
bus = record (new_can {g = hertz} capacities 500_000 all_interrupts) { config = fd_config }

-- INIT reads back what was written, and CSA the CSR that was written, at once.
abbrev mirror : Hardware RawMessage
mirror = record {
  register = λ t r. (let w = stored r 1 t in w % 2 + w / 16 % 2 * 8);
  cell = λ t i. no_message;
}

mirror-init : Follows mirror 0 0 0
unfolding Register-discrete
mirror-init t w = ground arith

mirror-csa : Follows mirror 0 4 3
unfolding Register-discrete
mirror-csa t w = ground arith

finalize_lem_example :
    (v : ℕ) × (u : Trace RawMessage) × (finalize mirror 1 40_000_000 bus start
      ≡ (done (finalized (ready mirror 1 40_000_000 bus)), Event.read cccr v ∷ u))
    × (test_bit v 0 ≡ false)
finalize_lem_example =
    finalize_lem mirror 1 40_000_000 bus start 5 1 0 (omega arith) (omega arith) nominal-prescaler
      fast-prescaler (omega arith) mirror-init mirror-csa

abbrev cccr_word : ℕ
cccr_word = final_cccr memory 1 40_000_000 bus reset_value memory-Keeps start

bus-finalized :
    (finalize memory 1 40_000_000 bus start).0 ≡ done (finalized (ready memory 1 40_000_000 bus))
unfolding finalize finalize_by apply_configuration prescaler check contains time_quanta_per_bit
    divide checked_rem in_range operational_mode Register-discrete bit_not
bus-finalized = refl

finalize-mode_example :
    (bit_reader 8 cccr_word ≡ is_fd (fd true fast))
    × (bit_reader 9 cccr_word
        ≡ (if is_fd (fd true fast) then allows_switching (fd true fast) else bit_reader 9 1))
unfolding reset_value
finalize-mode_example =
    finalize-mode memory 1 40_000_000 bus reset_value memory-Keeps start
      (ready memory 1 40_000_000 bus) bus-finalized

abbrev made : Can hertz
made = new_can {g = hertz} capacities 500_000 all_interrupts

made-created :
    (new {g = hertz} memory 1 capacities 0x2000_0100 0x2000_0000 500_000 start).0
    ≡ done (created made)
unfolding new configuration_mode Register-discrete bit_not is_addressable size_of apply_ram_config
made-created = refl

abbrev after_new : Trace RawMessage
after_new = (new {g = hertz} memory 1 capacities 0x2000_0100 0x2000_0000 500_000 start).1

made-finalized :
    (finalize memory 1 40_000_000 (record made { config = fd_config }) after_new).0
    ≡ done (finalized (ready memory 1 40_000_000 bus))
unfolding finalize finalize_by apply_configuration prescaler check contains time_quanta_per_bit
    divide checked_rem in_range operational_mode Register-discrete bit_not new configuration_mode
    is_addressable size_of apply_ram_config
made-finalized = refl

new-finalize-addresses_example :
    0x2000_0000
      + field_reader 0 (mask 16) (
          stored rxf1_c
            (reset_value rxf1_c)
            (finalize memory 1 40_000_000 (record made { config = fd_config }) after_new).1)
    ≡ 0x2000_0100 + offset capacities rx_fifo_1
new-finalize-addresses_example =
    new-finalize-addresses memory 1 capacities limits 0x2000_0100 0x2000_0000 500_000 40_000_000
      reset_value memory-Keeps start fd_config made (ready memory 1 40_000_000 bus) rx_fifo_1
      made-created made-finalized (omega arith) fifo_bytes
