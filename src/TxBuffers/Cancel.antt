-- ===== src/TxBuffers/Cancel.antt =====
-- Cancelling transmissions (mcan/src/tx_buffers.rs).
use mcan.Base.{
  ℕ, zero, suc, ◌^◌, ◌<◌, ◌≡◌, refl, Bool, true, ◌||◌, ◌&&◌, not, ◌∷◌, bit_and, if◌then◌else◌,
  arith, ap, Bool-cases, inl, inr, ◌==◌, ℕ_discrete,
}
use mcan.Bits.{test_bit, test_bit-bit_and, bits_ext, bit_and-lt}
use mcan.Message.Raw.{RawMessage}
use mcan.Nb.{ok, would_block}
use mcan.Reg.Block.{txbcf, txbcr}
use mcan.Reg.Io.{Event, Trace, Hardware, done, answer}
use mcan.TxBufferSet.{TxBufferSet}
use mcan.TxBuffers.{poll_canceled, cancel_multi}
use mcan.Reg.Effects.{effects}

-- Every one of the `n` lowest bits of `set` is a bit of `flags`.
abbrev pub is_subset : ℕ → ℕ → ℕ → Bool
is_subset zero flags set = true
is_subset (suc n) flags set = (not (test_bit set n) || test_bit flags n) && is_subset n flags set

is_subset-at :
    (n flags set i : ℕ)
    → is_subset n flags set ≡ true
    → i < n
    → (not (test_bit set i) || test_bit flags i) ≡ true
is_subset-at zero flags set i h low = absurd (omega arith)
is_subset-at (suc n) flags set i h low = elim (ℕ_discrete i n) [
  | yes e ↦ ground (arith, e, h)
  | no ne ↦ is_subset-at n flags set i (ground (arith, h)) (omega arith)
]

is_subset-of_and : (n flags set : ℕ) → bit_and flags set ≡ set → is_subset n flags set ≡ true
is_subset-of_and zero flags set e = refl
is_subset-of_and (suc n) flags set e = ground (
  arith,
  test_bit-bit_and n flags set,
  ap (λ (x : ℕ). test_bit x n) e,
  is_subset-of_and n flags set e,
)

and_of-is_subset :
    (flags set : ℕ)
    → flags < 2 ^ 32
    → set < 2 ^ 32
    → is_subset 32 flags set ≡ true
    → bit_and flags set ≡ set
and_of-is_subset flags set f s h =
    bits_ext 32 _ _ (bit_and-lt 32 flags set f) s
      λ i low. ground (arith, test_bit-bit_and i flags set, is_subset-at 32 flags set i h low)

is_subset_lem :
    (flags set : ℕ)
    → flags < 2 ^ 32
    → set < 2 ^ 32
    → (bit_and flags set == set) ≡ is_subset 32 flags set
is_subset_lem flags set f s = elim (ℕ_discrete (bit_and flags set) set) [
  | yes e ↦ ground (arith, e, is_subset-of_and 32 flags set e)
  | no ne ↦ elim (Bool-cases (is_subset 32 flags set)) [
    | inl h ↦ absurd (ne (and_of-is_subset flags set f s h))
    | inr h ↦ ground (arith, h)
  ]
]

module _ (hw : Hardware RawMessage) where
  -- The buffers of the set are all cancelled, as TXBCF reads after the history.
  abbrev pub are_canceled : TxBufferSet → Trace RawMessage → Bool
  are_canceled set t = is_subset 32 (answer hw t txbcf) set.bits

  -- The history after the first poll, and after the request that follows it.
  abbrev pub polled : Trace RawMessage → Trace RawMessage
  polled t = Event.read txbcf (answer hw t txbcf) ∷ t

  abbrev pub requested : TxBufferSet → Trace RawMessage → Trace RawMessage
  requested set t = Event.write txbcr set.bits ∷ polled t

  poll_canceled_lem :
      (set : TxBufferSet) (t : Trace RawMessage)
      → set.bits < 2 ^ 32
      → poll_canceled hw set t
        ≡ (done (if are_canceled set t then ok tt else would_block), polled t)
  unfolding poll_canceled
  poll_canceled_lem set t fits = rw (is_subset_lem (answer hw t txbcf) set.bits (omega arith) fits)

  -- `cancel_multi` returns `Ok` exactly if all the buffers of the set are cancelled, at once or after the
  -- request, and `WouldBlock` otherwise. It writes the set to TXBCR once if they are not cancelled at
  -- once, and nothing else.
  pub cancel_multi_lem :
      (set : TxBufferSet) (t : Trace RawMessage)
      → set.bits < 2 ^ 32
      → ((cancel_multi hw set t).0
          ≡ done (
              if are_canceled set t || are_canceled set (requested set t)
              then ok tt
              else would_block))
        × (effects (cancel_multi hw set t).1
            ≡ (if are_canceled set t then effects t else Event.write txbcr set.bits ∷ effects t))
  unfolding cancel_multi
  cancel_multi_lem set t fits = elim (Bool-cases (are_canceled set t)) [
    | inl at_once ↦ ground (arith, poll_canceled_lem set t fits, at_once)
    | inr pending ↦
        ground (
          arith,
          poll_canceled_lem set t fits,
          poll_canceled_lem set (requested set t) fits,
          pending,
        )
  ]
