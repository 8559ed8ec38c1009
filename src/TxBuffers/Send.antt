-- ===== src/TxBuffers/Send.antt =====
-- Sending: which calls succeed, and what they write (mcan/src/tx_buffers.rs).
use mcan.Base.{
  ℕ, ◌/◌, ◌%◌, ◌^◌, ◌≤◌, ◌<◌, ◌≡◌, refl, Bool, true, false, ◌||◌, ◌&&◌, not, Option, none, some,
  ◌∷◌, bit_or, if◌then◌else◌, arith, ltb, ◌∙◌, ap, lt→ltb, Bool-cases, Option-cases, inl, inr, ◌↔◌,
}
use mcan.Bits.{test_bit, has_flag, has_flag_lem, test_bit-bit_or, ◌<<<◌}
use mcan.Config.{Fugit}
use mcan.Message.Raw.{RawMessage, fd_format, bit_rate_switching}
use mcan.Nb.{NbResult, ok, would_block, other}
use mcan.Reg.Block.{Register, txfqs, txbrp, txbar}
use mcan.Reg.Field.{field_reader_lem, bit_reader_lem}
use mcan.Reg.Io.{Event, Trace, Hardware, done, answer}
use mcan.TxBufferSet.{checked_one_shl}
use mcan.TxBuffers.{
  Error, out_of_bounds, Tx, validate_message, is_buffer_in_use, put, transmit, transmit_dedicated,
  transmit_queued, find_put_index, is_fd, allows_switching,
}
use mcan.Reg.Effects.{effects}

ltb-le : (a b : ℕ) → b ≤ a → ltb a b ≡ false
ltb-le a b h = ground arith

module _ (hw : Hardware RawMessage) where
  -- The history after a read of `r`.
  abbrev pub after_read : Register → Trace RawMessage → Trace RawMessage
  after_read r t = Event.read r (answer hw t r) ∷ t

  -- A request of the buffer is added or pending, by TXBAR and then TXBRP.
  abbrev pub in_use : ℕ → Trace RawMessage → Bool
  in_use index t =
      test_bit (answer hw t txbar) index || test_bit (answer hw (after_read txbar t) txbrp) index

  in_use_word : (a p i : ℕ) → i < 32 → has_flag (bit_or a p) i ≡ (test_bit a i || test_bit p i)
  in_use_word a p i low = has_flag_lem (bit_or a p) i low ∙ test_bit-bit_or i a p

  is_buffer_in_use_lem :
      (index : ℕ) (t : Trace RawMessage)
      → index < 32
      → is_buffer_in_use hw index t ≡ (done (in_use index t), after_read txbrp (after_read txbar t))
  unfolding is_buffer_in_use checked_one_shl has_flag
  is_buffer_in_use_lem index t low = rw (lt→ltb index 32 low) (
      ap (λ (b : Bool). (done b, after_read txbrp (after_read txbar t)))
        (in_use_word (answer hw t txbar) (answer hw (after_read txbar t) txbrp) index low))

  -- The field TFQPI of the word that TXFQS reads.
  abbrev pub put_index : Trace RawMessage → ℕ
  put_index t = answer hw t txfqs / 2 ^ 16 % 32

  abbrev pub is_queue_full : Trace RawMessage → Bool
  is_queue_full t = test_bit (answer hw t txfqs) 21

  find_put_index_lem :
      (t : Trace RawMessage)
      → find_put_index hw t
        ≡ (done (if is_queue_full t then none else some (put_index t)), after_read txfqs t)
  unfolding find_put_index
  find_put_index_lem t = rw (
    bit_reader_lem 21 (answer hw t txfqs) (omega arith),
    field_reader_lem 16 5 (answer hw t txfqs) (omega arith) (omega arith),
  )

-- What a call returns that finds the buffer in use or not, refuses the message or not, and has an index
-- inside the memory or not.
abbrev pub expected : Bool → Option Error → Bool → NbResult Error (Unit {0})
expected true refused inside = would_block
expected false (some e) inside = other e
expected false none true = ok tt
expected false none false = other out_of_bounds

-- What it writes: the message, and after it the request, if it succeeds, and otherwise nothing.
abbrev pub committed :
    NbResult Error (Unit {0}) → ℕ → RawMessage → Trace RawMessage → Trace RawMessage
committed (ok u) index m t = Event.write txbar (1 <<< index) ∷ (Event.store index m ∷ t)
committed would_block index m t = t
committed (other e) index m t = t

module _ {g : Fugit} (hw : Hardware RawMessage) where
  abbrev pub sent : Tx g → ℕ → RawMessage → Trace RawMessage → NbResult Error (Unit {0})
  sent self index m t =
      expected (in_use hw index t) (validate_message self m) (ltb index self.tx_buffers)

  put_lem :
      (self : Tx g) (index : ℕ) (m : RawMessage) (t : Trace RawMessage)
      → index < 32
      → ((put hw self index m t).0
          ≡ done (expected false (validate_message self m) (ltb index self.tx_buffers)))
        × (effects (put hw self index m t).1
            ≡ committed
                (expected false (validate_message self m) (ltb index self.tx_buffers))
                index
                m
                (effects t))
  unfolding put checked_one_shl
  put_lem self index m t low = elim (Option-cases (validate_message self m)) [
    | inl e ↦ elim (Bool-cases (ltb index self.tx_buffers)) [
      | inl inside ↦ ground (arith, e, inside)
      | inr outside ↦ ground (arith, e, outside)
    ]
    | inr r ↦ ground (arith, r.1)
  ]

  -- `transmit` of an index below 32 reports a buffer in use, then a message that the mode does not allow,
  -- then an index outside the memory; it stores the message and then adds the request if it returns
  -- `Ok`, and otherwise writes nothing.
  pub transmit_lem :
      (self : Tx g) (index : ℕ) (m : RawMessage) (t : Trace RawMessage)
      → index < 32
      → ((transmit hw self index m t).0 ≡ done (sent self index m t))
        × (effects (transmit hw self index m t).1
            ≡ committed (sent self index m t) index m (effects t))
  unfolding transmit
  transmit_lem self index m t low = elim (Bool-cases (in_use hw index t)) [
    | inl used ↦ ground (arith, is_buffer_in_use_lem hw index t low, used)
    | inr free ↦ ground (
      arith,
      is_buffer_in_use_lem hw index t low,
      free,
      put_lem self index m (after_read hw txbrp (after_read hw txbar t)) low,
    )
  ]

  -- Every dedicated buffer may be sent from: with the dedicated buffers inside a memory of at most 32
  -- cells, `transmit_dedicated` of one returns `WouldBlock` if it is in use, the error of a message that
  -- the mode does not allow, and otherwise `Ok`. It then stores the message before it requests the
  -- transmission of this buffer alone, and in each error case it writes nothing.
  pub transmit_dedicated_lem :
      (self : Tx g) (index : ℕ) (m : RawMessage) (t : Trace RawMessage)
      → index < self.dedicated_tx_buffers
      → self.dedicated_tx_buffers ≤ self.tx_buffers
      → self.tx_buffers ≤ 32
      → ((transmit_dedicated hw self index m t).0
          ≡ done (expected (in_use hw index t) (validate_message self m) true))
        × (effects (transmit_dedicated hw self index m t).1
            ≡ committed
                (expected (in_use hw index t) (validate_message self m) true)
                index
                m
                (effects t))
  unfolding transmit_dedicated
  transmit_dedicated_lem self index m t dedicated inside small =
      let r = transmit_lem self index m t (omega arith) in
      rw
        (
          ltb-le self.dedicated_tx_buffers index (omega arith),
          r.0,
          r.1,
          lt→ltb index self.tx_buffers (omega arith),
        )
        (refl, refl)

  -- The index that is one past the dedicated buffers is not refused: with room for a queue behind these,
  -- the first buffer of the queue being free and the message allowed, `transmit_dedicated` overwrites
  -- this buffer of the queue and requests its transmission.
  pub transmit_dedicated-past_the_end :
      (self : Tx g) (m : RawMessage) (t : Trace RawMessage)
      → self.dedicated_tx_buffers < self.tx_buffers
      → self.tx_buffers ≤ 32
      → in_use hw self.dedicated_tx_buffers t ≡ false
      → validate_message self m ≡ none
      → ((transmit_dedicated hw self self.dedicated_tx_buffers m t).0 ≡ done (ok tt))
        × (effects (transmit_dedicated hw self self.dedicated_tx_buffers m t).1
            ≡ Event.write txbar (1 <<< self.dedicated_tx_buffers)
              ∷ (Event.store self.dedicated_tx_buffers m ∷ effects t))
  unfolding transmit_dedicated
  transmit_dedicated-past_the_end self m t queue small free allowed =
      let r = transmit_lem self self.dedicated_tx_buffers m t (omega arith) in
      rw
        (
          ltb-le self.dedicated_tx_buffers self.dedicated_tx_buffers (omega arith),
          r.0,
          r.1,
          free,
          allowed,
          lt→ltb self.dedicated_tx_buffers self.tx_buffers queue,
        )
        (refl, refl)

  -- `transmit_queued` never panics. It returns `WouldBlock` and writes nothing if TXFQS reports a full
  -- queue, and otherwise sends from the buffer of the put index.
  pub transmit_queued_lem :
      (self : Tx g) (m : RawMessage) (t : Trace RawMessage)
      → ((transmit_queued hw self m t).0
          ≡ done (
              if is_queue_full hw t
              then would_block
              else sent self (put_index hw t) m (after_read hw txfqs t)))
        × (effects (transmit_queued hw self m t).1
            ≡ committed
                (if is_queue_full hw t
                  then would_block
                  else sent self (put_index hw t) m (after_read hw txfqs t))
                (put_index hw t)
                m
                (effects t))
  unfolding transmit_queued
  transmit_queued_lem self m t = elim (Bool-cases (is_queue_full hw t)) [
    | inl full ↦ ground (arith, find_put_index_lem hw t, full)
    | inr free ↦ ground (
      arith,
      find_put_index_lem hw t,
      free,
      transmit_lem self (put_index hw t) m (after_read hw txfqs t) (omega arith),
    )
  ]

module _ {g : Fugit} where
  -- The mode allows a message exactly if it has the FD format in an FD mode only, and bit rate switching
  -- only where the mode allows that.
  pub validate_message-none :
      (self : Tx g) (m : RawMessage)
      → (validate_message self m ≡ none) ↔ (
          (((not (fd_format m)) || is_fd self.mode)
            && ((not (bit_rate_switching m)) || allows_switching self.mode))
          ≡ true)
  unfolding validate_message
  validate_message-none self m = elim (Bool-cases (fd_format m)) [
    | inl f ↦ ground (arith, f)
    | inr f ↦ ground (arith, f)
  ]
