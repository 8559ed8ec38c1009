-- ===== src/Bus/Ram/Sections.antt =====
-- What the peripheral takes from the registers after `apply_ram_config` (mcan/src/bus.rs).
use mcan.Base.{
  ℕ, ◌+◌, ◌-◌, ◌%◌, ◌^◌, ◌<◌, ◌≡◌, refl, ◌∷◌, [], List, arith, ◌∙◌, ap, sym, subst, true, some,
}
use mcan.Bits.{u8}
use mcan.Bus.Ram.{apply_ram_config, address, len_u8, list_bits, rxesc_bits, txbc_bits, checked_sub}
use mcan.MessageRam.{
  Capacities, IsLimited, Section, filters_standard, filters_extended, rx_fifo_0, rx_fifo_1,
  rx_dedicated_buffers, tx_event_fifo, tx_buffers, offset, size_of, reg_value, data_len,
  section_bytes, is_addressable, MessageSize, n8, n12, n16, n20, n24, n32, n48, n64,
}
use mcan.MessageRam.Placement.{u16-address}
use mcan.Reg.Block.{
  Register, Register-discrete, sidfc, xidfc, rxbc, rxesc, rxf0_c, rxf1_c, txbc, txesc, txefc,
  reset_value,
}
use mcan.Reg.DataField.{
  DataFieldSize, variant, data_bytes, data8, data12, data16, data20, data24, data32, data48, data64,
}
use mcan.Reg.Field.{
  mask, field_bits, field_reader, FieldWrite, write_fields, last_value, is_clear,
  field_reader-write_fields, write_fields-lt,
}
use mcan.Reg.Io.{Event, Trace, Outcome, done}
use mcan.Reg.Stored.{stored}

-- The register with the start address of a section: FLSSA, FLESA, FSA, RBSA, EFSA and TBSA are all its low half.
abbrev pub start_register : Section → Register
start_register filters_standard = sidfc
start_register filters_extended = xidfc
start_register rx_fifo_0 = rxf0_c
start_register rx_fifo_1 = rxf1_c
start_register rx_dedicated_buffers = rxbc
start_register tx_event_fifo = txefc
start_register tx_buffers = txbc

-- The data field size that a code of three bits selects has the length of the message's data.
abbrev pub Selects : ℕ → MessageSize → Type 0
Selects code n = (d : DataFieldSize) × (variant code ≡ some d) × (data_bytes d ≡ data_len n)

reg_value-Selects : (n : MessageSize) → Selects (reg_value n % 2 ^ 3) n
unfolding reg_value variant data_len
reg_value-Selects n8 = (data8, refl, refl)
reg_value-Selects n12 = (data12, refl, refl)
reg_value-Selects n16 = (data16, refl, refl)
reg_value-Selects n20 = (data20, refl, refl)
reg_value-Selects n24 = (data24, refl, refl)
reg_value-Selects n32 = (data32, refl, refl)
reg_value-Selects n48 = (data48, refl, refl)
reg_value-Selects n64 = (data64, refl, refl)

module _ {M : Type 0} (c : Capacities) (limits : IsLimited c) (start : ℕ) (t : Trace M)
    (old : Register → ℕ) where
  -- What a register holds after the call.
  abbrev pub after : Register → ℕ
  after r = stored r (old r) (apply_ram_config c start t).1

  no_underflow :
      checked_sub (u8 c.tx_buffers) (u8 c.dedicated_tx_buffers)
      ≡ some (c.tx_buffers - c.dedicated_tx_buffers)
  unfolding checked_sub
  no_underflow = let l = limits in ground arith

  -- The accesses.
  abbrev final : Trace M
  final =
      Event.write txefc (list_bits c start 6 tx_event_fifo 0)
      ∷ Event.write txesc (field_bits 3 0 (reg_value c.tx_message) 0)
      ∷ Event.write txbc (txbc_bits c start (c.tx_buffers - c.dedicated_tx_buffers) 0)
      ∷ Event.write rxf1_c (list_bits c start 7 rx_fifo_1 0)
      ∷ Event.write rxf0_c (list_bits c start 7 rx_fifo_0 0)
      ∷ Event.write rxesc (rxesc_bits c start 0)
      ∷ Event.write rxbc (field_bits 16 0 (address c start rx_dedicated_buffers) 0)
      ∷ Event.write xidfc (list_bits c start 7 filters_extended 0)
      ∷ Event.write sidfc (list_bits c start 8 filters_standard 0)
      ∷ t

  run : apply_ram_config c start t ≡ (done tt, final)
  unfolding apply_ram_config reset_value
  run = rw no_underflow refl

  pub apply_ram_config-done : apply_ram_config c start t ≡ (done tt, (apply_ram_config c start t).1)
  apply_ram_config-done =
      ap (λ (e : Outcome (Unit {0}) × Trace M). (e.0, (apply_ram_config c start t).1)) run

  after_lem : (r : Register) → after r ≡ stored r (old r) final
  after_lem r = ap (λ (e : Outcome (Unit {0}) × Trace M). stored r (old r) e.1) run

  abbrev list_writes : ℕ → Section → List FieldWrite
  list_writes wi s = (wi, 16, len_u8 c start s) ∷ (16, 0, address c start s) ∷ []

  abbrev txbc_writes : List FieldWrite
  txbc_writes =
      (16, 0, address c start tx_buffers)
      ∷ (6, 16, u8 c.dedicated_tx_buffers)
      ∷ (6, 24, c.tx_buffers - c.dedicated_tx_buffers)
      ∷ []

  abbrev rxesc_writes : List FieldWrite
  rxesc_writes =
      (3, 4, reg_value c.rx_fifo_1_message)
      ∷ (3, 0, reg_value c.rx_fifo_0_message)
      ∷ (3, 8, reg_value c.rx_buffer_message)
      ∷ []

  -- A field of a register that is written as a list of fields, from 0 on.
  field :
      (wi of : ℕ) (r : Register) (ws : List FieldWrite)
      → is_clear wi of ws ≡ true
      → stored r (old r) final ≡ write_fields ws 0
      → field_reader of (mask wi) (after r) ≡ last_value wi of ws 0
  field wi of r ws clear e =
      ap (field_reader of (mask wi)) (after_lem r ∙ e)
      ∙ field_reader-write_fields wi of ws 0 (omega arith) clear

  start_field :
      (s : Section)
      → field_reader 0 (mask 16) (after (start_register s)) ≡ address c start s % 2 ^ 16
  unfolding Register-discrete list_bits txbc_bits
  start_field filters_standard = field 16 0 sidfc (list_writes 8 filters_standard) refl refl
  start_field filters_extended = field 16 0 xidfc (list_writes 7 filters_extended) refl refl
  start_field rx_fifo_0 = field 16 0 rxf0_c (list_writes 7 rx_fifo_0) refl refl
  start_field rx_fifo_1 = field 16 0 rxf1_c (list_writes 7 rx_fifo_1) refl refl
  start_field rx_dedicated_buffers =
      field 16 0 rxbc ((16, 0, address c start rx_dedicated_buffers) ∷ []) refl refl
  start_field tx_event_fifo = field 16 0 txefc (list_writes 6 tx_event_fifo) refl refl
  start_field tx_buffers = field 16 0 txbc txbc_writes refl refl

  -- The words are `u32`s.
  pub start_register-lt : (s : Section) → after (start_register s) < 2 ^ 32
  unfolding Register-discrete list_bits txbc_bits
  start_register-lt filters_standard =
      rw (after_lem sidfc) (write_fields-lt (list_writes 8 filters_standard) 0 (omega arith))
  start_register-lt filters_extended =
      rw (after_lem xidfc) (write_fields-lt (list_writes 7 filters_extended) 0 (omega arith))
  start_register-lt rx_fifo_0 =
      rw (after_lem rxf0_c) (write_fields-lt (list_writes 7 rx_fifo_0) 0 (omega arith))
  start_register-lt rx_fifo_1 =
      rw (after_lem rxf1_c) (write_fields-lt (list_writes 7 rx_fifo_1) 0 (omega arith))
  start_register-lt rx_dedicated_buffers =
      rw (after_lem rxbc)
        (write_fields-lt ((16, 0, address c start rx_dedicated_buffers) ∷ []) 0 (omega arith))
  start_register-lt tx_event_fifo =
      rw (after_lem txefc) (write_fields-lt (list_writes 6 tx_event_fifo) 0 (omega arith))
  start_register-lt tx_buffers = rw (after_lem txbc) (write_fields-lt txbc_writes 0 (omega arith))

  -- With capacities within their limits, and a memory that is addressable from a start that is aligned to 64 KiB,
  -- `apply_ram_config` does not panic, and the start address in the register of each section that is not empty
  -- is, from there, exactly where this section lies in the memory.
  pub apply_ram_config-addresses :
      (eligible : ℕ) (s : Section)
      → is_addressable (size_of c) start eligible ≡ true
      → eligible % 2 ^ 16 ≡ 0
      → 0 < section_bytes c s
      → ((apply_ram_config c start t).0 ≡ done tt)
        × (eligible + field_reader 0 (mask 16) (after (start_register s)) ≡ start + offset c s)
  unfolding address
  apply_ram_config-addresses eligible s fits aligned full = (
    ap (λ (e : Outcome (Unit {0}) × Trace M). e.0) run,
    omega (arith, start_field s, u16-address c s start eligible fits aligned full),
  )

  -- After `apply_ram_config`, the numbers of elements in the registers are those of the capacities, with the
  -- transmit buffers split into the dedicated ones and the queue, and the data field sizes that the codes in
  -- RXESC and TXESC select are those of the messages, if the capacities are within their limits.
  pub apply_ram_config-sizes :
      (field_reader 16 (mask 8) (after sidfc) ≡ c.standard_filters)
      × (field_reader 16 (mask 7) (after xidfc) ≡ c.extended_filters)
      × (field_reader 16 (mask 7) (after rxf0_c) ≡ c.rx_fifo_0)
      × (field_reader 16 (mask 7) (after rxf1_c) ≡ c.rx_fifo_1)
      × (field_reader 16 (mask 6) (after txefc) ≡ c.tx_event_fifo)
      × (field_reader 16 (mask 6) (after txbc) ≡ c.dedicated_tx_buffers)
      × (field_reader 24 (mask 6) (after txbc) + c.dedicated_tx_buffers ≡ c.tx_buffers)
      × Selects (field_reader 0 (mask 3) (after rxesc)) c.rx_fifo_0_message
      × Selects (field_reader 4 (mask 3) (after rxesc)) c.rx_fifo_1_message
      × Selects (field_reader 8 (mask 3) (after rxesc)) c.rx_buffer_message
      × Selects (field_reader 0 (mask 3) (after txesc)) c.tx_message
  unfolding Register-discrete list_bits txbc_bits rxesc_bits len_u8
  apply_ram_config-sizes =
      let l = limits in
      let selects : (of : ℕ) (r : Register) (ws : List FieldWrite) (n : MessageSize)
          → is_clear 3 of ws ≡ true
          → stored r (old r) final ≡ write_fields ws 0
          → last_value 3 of ws 0 ≡ reg_value n % 2 ^ 3
          → Selects (field_reader of (mask 3) (after r)) n =
        λ of r ws n clear e v.
          subst (λ (x : ℕ). Selects x n) (sym (field 3 of r ws clear e ∙ v))
            (reg_value-Selects n) in
      (
        omega (arith, field 8 16 sidfc (list_writes 8 filters_standard) refl refl),
        omega (arith, field 7 16 xidfc (list_writes 7 filters_extended) refl refl),
        omega (arith, field 7 16 rxf0_c (list_writes 7 rx_fifo_0) refl refl),
        omega (arith, field 7 16 rxf1_c (list_writes 7 rx_fifo_1) refl refl),
        omega (arith, field 6 16 txefc (list_writes 6 tx_event_fifo) refl refl),
        omega (arith, field 6 16 txbc txbc_writes refl refl),
        omega (arith, field 6 24 txbc txbc_writes refl refl),
        selects 0 rxesc rxesc_writes c.rx_fifo_0_message refl refl refl,
        selects 4 rxesc rxesc_writes c.rx_fifo_1_message refl refl refl,
        selects 8 rxesc rxesc_writes c.rx_buffer_message refl refl refl,
        selects 0 txesc ((3, 0, reg_value c.tx_message) ∷ []) c.tx_message refl refl refl,
      )
