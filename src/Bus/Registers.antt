-- ===== src/Bus/Registers.antt =====
-- What the registers hold after `apply_configuration` (mcan/src/bus.rs).
use mcan.Base.{ℕ, ◌<◌, ◌^◌, ◌≡◌, refl, ◌∷◌, [], List, arith, if◌then◌else◌, ◌∙◌, ap}
use mcan.Bits.{u32}
use mcan.Bus.{CanConfig, sanitized, rx_fifo_bits, fifo_mode_bit, queue_mode_bit, RxFifoConfig}
use mcan.Bus.Run.{modified, timing_trace, switch_trace, mode_trace, rest_trace, gfc_trace}
use mcan.Config.{Fugit, Mode, classic, fd}
use mcan.Message.Raw.{RawMessage}
use mcan.Reg.Block.{Register, Register-discrete, cccr, test, rxf0_c, rxf1_c, txbc, txefc}
use mcan.Reg.Field.{
  mask, field_bits, field_reader, bit, set_bit, clear_bit, bit_reader, FieldWrite, write_fields,
  field_reader-write_fields, bit_reader-write_fields, flag, flag_lem, set_bit-field_bits,
  clear_bit-field_bits, field_bits-lt, write_fields-lt,
}
use mcan.Reg.Io.{Hardware, Trace, answer}
use mcan.Reg.Stored.{stored, Holds}
use mcan.TxBuffers.{is_fd, allows_switching}

-- The registers that `apply_configuration` modifies read back what was written to them. The driver calls it in
-- configuration mode, where the protected bits are writable; outside of that mode CCCR does this only in part.
pub record Keeps (hw : Hardware RawMessage) (start : Register → ℕ) : Type 0 where
  pub cccr_held : Holds hw cccr (start cccr)
  pub test_held : Holds hw test (start test)
  pub rxf0_held : Holds hw rxf0_c (start rxf0_c)
  pub rxf1_held : Holds hw rxf1_c (start rxf1_c)
  pub txbc_held : Holds hw txbc (start txbc)
  pub txefc_held : Holds hw txefc (start txefc)

-- What the registers hold after a history, if they held `start` before it.
abbrev pub contents : (Register → ℕ) → Trace RawMessage → Register → ℕ
contents start t r = stored r (start r) t

-- What such a register reads after `T`, if it holds the word `w`.
read_back :
    (hw : Hardware RawMessage) (r : Register) (start w : ℕ) (T : Trace RawMessage)
    → Holds hw r start
    → stored r start T ≡ w
    → w < 2 ^ 32
    → answer hw T r ≡ w
read_back hw r start w T held e fits = ap u32 (held T ∙ e) ∙ omega arith

-- The word `c` of RXF0C or RXF1C has the watermark and the mode, and the start and the size of `w`.
abbrev pub IsRxFifoConfigured : RxFifoConfig → ℕ → ℕ → Type 0
IsRxFifoConfigured fifo w c =
    (field_reader 24 (mask 7) c ≡ sanitized 64 fifo.watermark)
    × (bit_reader 31 c ≡ fifo_mode_bit fifo.mode)
    × (field_reader 0 (mask 16) c ≡ field_reader 0 (mask 16) w)
    × (field_reader 16 (mask 7) c ≡ field_reader 16 (mask 7) w)

pub fifo_fields :
    (fifo : RxFifoConfig) (w : ℕ) → w < 2 ^ 32 → IsRxFifoConfigured fifo w (rx_fifo_bits fifo w)
unfolding rx_fifo_bits bit field_bits mask sanitized
fifo_fields fifo w fits =
    let ws : List FieldWrite =
      (7, 24, sanitized 64 fifo.watermark) ∷ (1, 31, flag (fifo_mode_bit fifo.mode)) ∷ [] in
    (
      field_reader-write_fields 7 24 ws w fits refl ∙ ground arith,
      bit_reader-write_fields 31 ws w fits refl ∙ flag_lem (fifo_mode_bit fifo.mode),
      field_reader-write_fields 16 0 ws w fits refl,
      field_reader-write_fields 7 16 ws w fits refl,
    )

module _ {g : Fugit} (hw : Hardware RawMessage) (f_can : g.HertzU32) (config : CanConfig g)
    (start : Register → ℕ) (held : Keeps hw start) where
  -- The writes to the fields of CCCR, the last one first.
  abbrev pub cccr_writes : Mode g → List FieldWrite
  cccr_writes classic = (1, 7, flag config.loopback) ∷ (1, 8, 0) ∷ []
  cccr_writes (fd allow timing) = (1, 7, flag config.loopback) ∷ (1, 9, flag allow) ∷ (1, 8, 1) ∷ []

  pub cccr_word :
      (m : Mode g) (d p : ℕ) (t : Trace RawMessage)
      → stored cccr (start cccr) (
          rest_trace hw f_can config
            (mode_trace hw f_can config d m (timing_trace hw f_can config p t)))
        ≡ write_fields (cccr_writes m) (u32 (stored cccr (start cccr) t))
  unfolding Register-discrete bit field_bits mask
  cccr_word classic d p t =
      let T0 = timing_trace hw f_can config p t in
      let w0 : ℕ = answer hw T0 cccr in
      let e0 : w0 ≡ u32 (stored cccr (start cccr) t) = ap u32 (held.cccr_held T0) in
      let e1 : clear_bit 8 w0 ≡ field_bits 1 8 0 (u32 (stored cccr (start cccr) t)) =
        clear_bit-field_bits 8 w0 (omega arith) (omega arith) ∙ ap (field_bits 1 8 0) e0 in
      ap (bit 7 config.loopback) (
        read_back hw cccr (start cccr) _
          (gfc_trace hw f_can config (switch_trace hw f_can config classic T0)) held.cccr_held e1
          (field_bits-lt 1 8 0 _ (omega arith)))
  cccr_word (fd allow timing) d p t =
      let T0 = timing_trace hw f_can config p t in
      let w0 : ℕ = answer hw T0 cccr in
      let e0 : w0 ≡ u32 (stored cccr (start cccr) t) = ap u32 (held.cccr_held T0) in
      let e1 : set_bit 8 w0 ≡ field_bits 1 8 1 (u32 (stored cccr (start cccr) t)) =
        set_bit-field_bits 8 w0 (omega arith) (omega arith) ∙ ap (field_bits 1 8 1) e0 in
      ap (bit 7 config.loopback) (
        read_back hw cccr (start cccr) _
          (gfc_trace hw f_can config (mode_trace hw f_can config d (fd allow timing) T0))
          held.cccr_held (ap (bit 9 allow) e1)
          (write_fields-lt ((1, 9, flag allow) ∷ (1, 8, 1) ∷ []) _ (omega arith)))

  -- A register that is modified once.
  once :
      (r : Register) (f : ℕ → ℕ) (T t : Trace RawMessage)
      → Holds hw r (start r)
      → stored r (start r) T ≡ stored r (start r) t
      → f (answer hw T r) ≡ f (u32 (stored r (start r) t))
  once r f T t h e = ap f (ap u32 (h T ∙ e))

  -- The words of the other registers, if `F` is what they hold in the end and `W` what they held.
  abbrev pub IsRest : (Register → ℕ) → (Register → ℕ) → Type 0
  IsRest F W =
      (F test ≡ bit 4 config.loopback (u32 (W test)))
      × (F rxf0_c ≡ rx_fifo_bits config.rx_fifo_0 (u32 (W rxf0_c)))
      × (F rxf1_c ≡ rx_fifo_bits config.rx_fifo_1 (u32 (W rxf1_c)))
      × (F txbc ≡ bit 30 (queue_mode_bit config.tx.tx_queue_submode) (u32 (W txbc)))
      × (F txefc ≡ field_bits 6 24 (sanitized 32 config.tx.tx_event_fifo_watermark) (u32 (W txefc)))

  IsRest-from :
      (T t : Trace RawMessage)
      → contents start T test ≡ contents start t test
      → contents start T rxf0_c ≡ contents start t rxf0_c
      → contents start T rxf1_c ≡ contents start t rxf1_c
      → contents start T txbc ≡ contents start t txbc
      → contents start T txefc ≡ contents start t txefc
      → IsRest (contents start (rest_trace hw f_can config T)) (contents start t)
  unfolding Register-discrete
  IsRest-from T t e0 e1 e2 e3 e4 =
      let T1 : Trace RawMessage =
        modified hw cccr (bit 7 config.loopback) (gfc_trace hw f_can config T) in
      let T2 : Trace RawMessage = modified hw test (bit 4 config.loopback) T1 in
      let T3 : Trace RawMessage = modified hw rxf0_c (rx_fifo_bits config.rx_fifo_0) T2 in
      let T4 : Trace RawMessage = modified hw rxf1_c (rx_fifo_bits config.rx_fifo_1) T3 in
      let T5 : Trace RawMessage =
        modified hw txbc (bit 30 (queue_mode_bit config.tx.tx_queue_submode)) T4 in
      (
        once test (bit 4 config.loopback) T1 t held.test_held e0,
        once rxf0_c (rx_fifo_bits config.rx_fifo_0) T2 t held.rxf0_held e1,
        once rxf1_c (rx_fifo_bits config.rx_fifo_1) T3 t held.rxf1_held e2,
        once txbc (bit 30 (queue_mode_bit config.tx.tx_queue_submode)) T4 t held.txbc_held e3,
        once txefc (field_bits 6 24 (sanitized 32 config.tx.tx_event_fifo_watermark)) T5 t
            held.txefc_held e4,
      )

  pub IsRest-words :
      (m : Mode g) (d p : ℕ) (t : Trace RawMessage)
      → IsRest
          (contents start (
            rest_trace hw f_can config
              (mode_trace hw f_can config d m (timing_trace hw f_can config p t))))
          (contents start t)
  unfolding Register-discrete
  IsRest-words classic d p t = IsRest-from _ t refl refl refl refl refl
  IsRest-words (fd allow timing) d p t = IsRest-from _ t refl refl refl refl refl

  pub cccr_bits :
      (m : Mode g) (w : ℕ)
      → w < 2 ^ 32
      → (bit_reader 7 (write_fields (cccr_writes m) w) ≡ config.loopback)
        × (bit_reader 8 (write_fields (cccr_writes m) w) ≡ is_fd m)
        × (bit_reader 9 (write_fields (cccr_writes m) w)
            ≡ (if is_fd m then allows_switching m else bit_reader 9 w))
        × (bit_reader 0 (write_fields (cccr_writes m) w) ≡ bit_reader 0 w)
        × (bit_reader 1 (write_fields (cccr_writes m) w) ≡ bit_reader 1 w)
  unfolding is_fd allows_switching bit_reader field_reader mask
  cccr_bits classic w fits = (
    bit_reader-write_fields 7 (cccr_writes classic) w fits refl ∙ flag_lem config.loopback,
    bit_reader-write_fields 8 (cccr_writes classic) w fits refl,
    bit_reader-write_fields 9 (cccr_writes classic) w fits refl,
    bit_reader-write_fields 0 (cccr_writes classic) w fits refl,
    bit_reader-write_fields 1 (cccr_writes classic) w fits refl,
  )
  cccr_bits (fd allow timing) w fits = (
    bit_reader-write_fields 7 (cccr_writes (fd allow timing)) w fits refl
        ∙ flag_lem config.loopback,
    bit_reader-write_fields 8 (cccr_writes (fd allow timing)) w fits refl,
    bit_reader-write_fields 9 (cccr_writes (fd allow timing)) w fits refl ∙ flag_lem allow,
    bit_reader-write_fields 0 (cccr_writes (fd allow timing)) w fits refl,
    bit_reader-write_fields 1 (cccr_writes (fd allow timing)) w fits refl,
  )
