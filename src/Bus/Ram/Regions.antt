-- ===== src/Bus/Ram/Regions.antt =====
-- The regions of the message RAM that the peripheral takes from the registers, after `apply_ram_config`
-- (mcan/src/bus.rs), against the memory (mcan/src/messageram.rs).
use mcan.Base.{
  ℕ, ◌+◌, ◌*◌, ◌%◌, ◌^◌, ◌≤◌, ◌<◌, ◌≡◌, ◌≢◌, ◌⊎◌, inl, inr, refl, arith, ◌∙◌, ap, none, some, true,
}
use mcan.Bus.Ram.Sections.{
  Selects, start_register, after, apply_ram_config-addresses, apply_ram_config-sizes,
}
use mcan.MessageRam.{
  Capacities, IsLimited, Section, filters_standard, filters_extended, rx_fifo_0, rx_fifo_1,
  rx_dedicated_buffers, tx_event_fifo, tx_buffers, size_of, section_bytes, count, element_bytes,
  message_bytes, is_addressable, MessageSize,
}
use mcan.MessageRam.Placement.{offset-AreApart}
use mcan.Reg.Block.{Register, sidfc, xidfc, rxesc, rxf0_c, rxf1_c, txbc, txesc, txefc}
use mcan.Reg.DataField.{variant, data_bytes}
use mcan.Reg.Field.{mask, field_reader}
use mcan.Reg.Io.{Trace}

-- The bytes of a message by the code of its data field: a header of two words, and the data.
unfoldable pub coded_bytes : ℕ → ℕ
unfolding variant
coded_bytes code = elim (variant code) [ none ↦ 0 | some d ↦ 8 + data_bytes d ]

-- What the data sheet makes of the words in the registers. No register has the number of the dedicated receive
-- buffers: it is taken from the capacities.
module _ (c : Capacities) (eligible : ℕ) (words : Register → ℕ) where
  abbrev pub elements : Section → ℕ
  elements filters_standard = field_reader 16 (mask 8) (words sidfc)
  elements filters_extended = field_reader 16 (mask 7) (words xidfc)
  elements rx_fifo_0 = field_reader 16 (mask 7) (words rxf0_c)
  elements rx_fifo_1 = field_reader 16 (mask 7) (words rxf1_c)
  elements rx_dedicated_buffers = c.dedicated_rx_buffers
  elements tx_event_fifo = field_reader 16 (mask 6) (words txefc)
  elements tx_buffers =
      field_reader 16 (mask 6) (words txbc) + field_reader 24 (mask 6) (words txbc)

  abbrev pub bytes_each : Section → ℕ
  bytes_each filters_standard = 4
  bytes_each filters_extended = 8
  bytes_each rx_fifo_0 = coded_bytes (field_reader 0 (mask 3) (words rxesc))
  bytes_each rx_fifo_1 = coded_bytes (field_reader 4 (mask 3) (words rxesc))
  bytes_each rx_dedicated_buffers = coded_bytes (field_reader 8 (mask 3) (words rxesc))
  bytes_each tx_event_fifo = 8
  bytes_each tx_buffers = coded_bytes (field_reader 0 (mask 3) (words txesc))

  abbrev pub region_start : Section → ℕ
  region_start s = eligible + field_reader 0 (mask 16) (words (start_register s))

  abbrev pub region_end : Section → ℕ
  region_end s = region_start s + elements s * bytes_each s

Selects-coded_bytes :
    (code : ℕ) (n : MessageSize) → Selects code n → coded_bytes code ≡ message_bytes n
unfolding coded_bytes message_bytes
Selects-coded_bytes code n (d, selected, e) = rw (selected, coded_bytes) (ap (λ (x : ℕ). 8 + x) e)

product : {a b x y : ℕ} → a ≡ b → x ≡ y → a * x ≡ b * y
product {a} {b} {x} {y} p q = ap (λ (n : ℕ). n * x) p ∙ ap (λ (n : ℕ). b * n) q

module _ {M : Type 0} (c : Capacities) (limits : IsLimited c) (start : ℕ) (t : Trace M)
    (old : Register → ℕ) (eligible : ℕ) where
  abbrev words : Register → ℕ
  words r = after c limits start t old r

  -- The peripheral gives each section as many bytes as it has in the memory.
  region-section_bytes :
      (s : Section)
      → elements c eligible words s * bytes_each c eligible words s ≡ section_bytes c s
  unfolding section_bytes count element_bytes
  region-section_bytes filters_standard =
      product (apply_ram_config-sizes c limits start t old).0 refl
  region-section_bytes filters_extended =
      product (apply_ram_config-sizes c limits start t old).1 refl
  region-section_bytes rx_fifo_0 =
      let k = apply_ram_config-sizes c limits start t old in
      product k.2 (Selects-coded_bytes _ c.rx_fifo_0_message k.7)
  region-section_bytes rx_fifo_1 =
      let k = apply_ram_config-sizes c limits start t old in
      product k.3 (Selects-coded_bytes _ c.rx_fifo_1_message k.8)
  region-section_bytes rx_dedicated_buffers =
      let k = apply_ram_config-sizes c limits start t old in
      product refl (Selects-coded_bytes _ c.rx_buffer_message k.9)
  region-section_bytes tx_event_fifo = product (apply_ram_config-sizes c limits start t old).4 refl
  region-section_bytes tx_buffers =
      let k = apply_ram_config-sizes c limits start t old in
      product (omega (arith, k.5, k.6)) (Selects-coded_bytes _ c.tx_message k.10)

  -- After `apply_ram_config`, with capacities within their limits and a memory that is addressable from a start that
  -- is aligned to 64 KiB, the regions that the registers give to two different sections that are not empty, each
  -- from its start address for its number of elements of their size, lie inside the memory and share no byte.
  -- The number of dedicated receive buffers, which no register has, is that of the capacities.
  pub apply_ram_config-regions :
      (s q : Section)
      → s ≢ q
      → is_addressable (size_of c) start eligible ≡ true
      → eligible % 2 ^ 16 ≡ 0
      → 0 < section_bytes c s
      → 0 < section_bytes c q
      → (start ≤ region_start c eligible words s)
        × (region_end c eligible words s ≤ start + size_of c)
        × ((region_end c eligible words s ≤ region_start c eligible words q)
            ⊎ (region_end c eligible words q ≤ region_start c eligible words s))
  apply_ram_config-regions s q ne fits aligned s_full q_full =
      let at = apply_ram_config-addresses c limits start t old eligible s fits aligned s_full in
      let at' = apply_ram_config-addresses c limits start t old eligible q fits aligned q_full in
      let size = region-section_bytes s in
      let size' = region-section_bytes q in
      let placed = offset-AreApart c s q ne in
      (
        omega (arith, at.1),
        omega (arith, at.1, size, placed.0),
        elim placed.1 [
          | inl before ↦ inl (omega (arith, at.1, at'.1, size, before))
          | inr before ↦ inr (omega (arith, at.1, at'.1, size', before))
        ],
      )
