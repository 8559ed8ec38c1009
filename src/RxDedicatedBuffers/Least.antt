-- ===== src/RxDedicatedBuffers/Least.antt =====
-- `receive_any` receives a message with the least identifier (mcan/src/rx_dedicated_buffers.rs).
use mcan.Base.{
  ℕ, zero, suc, ◌+◌, ◌≤◌, ◌<◌, ◌≡◌, refl, Bool, true, false, ◌&&◌, ◌||◌, not, ◌∷◌, arith, ltb, ◌==◌,
  ◌∙◌, ap, subst, Bool-cases, inl, inr, Option, none, some, ℕ_discrete, dec_lt,
}
use mcan.Bits.{◌<<<◌}
use mcan.Nb.{NbResult, ok, would_block, Infallible}
use mcan.Reg.Block.{ndat1}
use mcan.Reg.Effects.{effects}
use mcan.Reg.Io.{Event, Trace, Hardware, done}
use mcan.RxDedicatedBuffers.{
  RxDedicatedBuffer, least, scan, has_new_data, mark_buffer_read, mark_least, receive_any,
}
use mcan.RxDedicatedBuffers.Receive.{is_new, after_check, has_new_data_lem}
use mcan.TxBufferSet.{checked_one_shl}

module _ {M : Type 0} (le : M → M → Bool) (new : ℕ → Bool) (message : ℕ → M) where
  -- `best` is right for the cells below `k`, as far as cell `j` tells: it is new data with a message that is at
  -- most that of cell `j`, or there is none, and `j` is no new data either.
  abbrev pub IsLeast : ℕ → ℕ → Option (ℕ × M) → Type 0
  IsLeast j k none = (ltb j k && new j) ≡ false
  IsLeast j k (some best) =
      ((ltb best.0 k && new best.0) ≡ true)
      × (best.1 ≡ message best.0)
      × ((not (ltb j k && new j) || le best.1 (message j)) ≡ true)

  below_suc : (j i : ℕ) → (ltb j (suc i) && new j) ≡ ((ltb j i && new j) || ((j == i) && new i))
  below_suc j i = elim (ℕ_discrete j i) [ yes e ↦ ground (arith, e) | no ne ↦ ground arith ]

  -- A cell without new data changes nothing.
  skip_lem :
      (j i : ℕ) (best : Option (ℕ × M)) → new i ≡ false → IsLeast j i best → IsLeast j (suc i) best
  skip_lem j i none flag right = ground (arith, below_suc j i, right, flag)
  skip_lem j i (some best) flag right = (
    ground (arith, below_suc best.0 i, right.0, flag),
    right.1,
    ground (arith, below_suc j i, right.2, flag),
  )

  at_most_self : ((x y : M) → (le x y || le y x) ≡ true) → (x : M) → le x x ≡ true
  at_most_self total x = ground (arith, total x x)

  -- A cell with new data is compared.
  least_lem :
      (j i : ℕ) (best : Option (ℕ × M))
      → ((x y : M) → (le x y || le y x) ≡ true)
      → ((x y z : M) → le x y ≡ true → le y z ≡ true → le x z ≡ true)
      → new i ≡ true
      → IsLeast j i best
      → IsLeast j (suc i) (least le best i (message i))
  unfolding least
  least_lem j i none total transitive flag right = (
    ground (arith, flag),
    refl,
    elim (ℕ_discrete j i) [
      | yes e ↦ ground (arith, e, at_most_self total (message i))
      | no ne ↦ ground (arith, below_suc j i, right)
    ],
  )
  least_lem j i (some best) total transitive flag right =
      elim (Bool-cases (le best.1 (message i))) [
        | inl keeps ↦ rw keeps (
          ground (arith, below_suc best.0 i, right.0),
          right.1,
          elim (ℕ_discrete j i) [
            | yes e ↦ ground (arith, e, keeps)
            | no ne ↦ ground (arith, below_suc j i, right.2)
          ],
        )
        | inr takes ↦
            let lower : le (message i) best.1 ≡ true =
              ground (arith, takes, total best.1 (message i)) in
            rw takes (
              ground (arith, flag),
              refl,
              elim (Bool-cases (le best.1 (message j))) [
                | inl at_most ↦
                    ground (arith, transitive (message i) best.1 (message j) lower at_most)
                | inr above ↦ elim (ℕ_discrete j i) [
                  | yes e ↦ ground (arith, e, at_most_self total (message i))
                  | no ne ↦ ground (arith, below_suc j i, right.2, above)
                ]
              ],
            )
      ]

-- What is returned and what is written for the best message.
abbrev pub received : {M : Type 0} → Option (ℕ × M) → NbResult Infallible M
received none = would_block
received (some best) = ok best.1

abbrev pub cleared : {M : Type 0} → Option (ℕ × M) → Trace M → Trace M
cleared none t = t
cleared (some best) t = Event.write ndat1 (1 <<< best.0) ∷ t

module _ {M : Type 0} (hw : Hardware M) (le : M → M → Bool) (new : ℕ → Bool) (message : ℕ → M)
    (total : (x y : M) → (le x y || le y x) ≡ true)
    (transitive : (x y z : M) → le x y ≡ true → le y z ≡ true → le x z ≡ true) (start : Trace M)
    (steady_flags : (t : Trace M) (i : ℕ) → effects t ≡ effects start → is_new hw i t ≡ new i)
    (steady_cells : (t : Trace M) (i : ℕ)
      → effects t ≡ effects start
      → hw.cell t i ≡ message i) where
  checked :
      (i : ℕ) (t : Trace M)
      → i < 64
      → effects t ≡ effects start
      → has_new_data hw i t ≡ (done (new i), after_check hw i t)
  checked i t low same =
      has_new_data_lem hw i t low
      ∙ ap (λ (b : Bool). (done b, after_check hw i t)) (steady_flags t i same)

  -- The search ends, writes nothing, and finds a message that is right for all the cells it visits.
  scan_lem :
      (n i j : ℕ) (best : Option (ℕ × M)) (t : Trace M)
      → i + n ≤ 64
      → effects t ≡ effects start
      → IsLeast le new message j i best
      → (found : Option (ℕ × M)) × (u : Trace M) × (scan hw le n i best t ≡ (done found, u))
        × (effects u ≡ effects start)
        × IsLeast le new message j (i + n) found
  unfolding scan
  scan_lem zero i j best t small same right =
      (best, t, refl, same, subst (λ (k : ℕ). IsLeast le new message j k best) (omega arith) right)
  scan_lem (suc n) i j best t small same right =
      let t' = after_check hw i t in
      let next : suc i + n ≡ i + suc n = omega arith in
      elim (Bool-cases (new i)) [
        | inl new_data ↦
            let m = steady_cells t' i same in
            let r =
              scan_lem n (suc i) j (least le best i (message i)) (Event.load i (hw.cell t' i) ∷ t')
                (omega arith) same
                (least_lem le new message j i best total transitive new_data right) in
            (
              r.0,
              r.1,
              rw (checked i t (omega arith) same ∙ ap (λ (b : Bool). (done b, t')) new_data) (
                  ap
                    (λ (x : M).
                      scan hw le n (suc i) (least le best i x) (Event.load i (hw.cell t' i) ∷ t'))
                    m
                  ∙ r.2),
              r.3,
              subst (λ (k : ℕ). IsLeast le new message j k r.0) next r.4,
            )
        | inr old ↦
            let r =
              scan_lem n (suc i) j best t' (omega arith) same
                (skip_lem le new message j i best old right) in
            (
              r.0,
              r.1,
              rw (checked i t (omega arith) same ∙ ap (λ (b : Bool). (done b, t')) old) r.2,
              r.3,
              subst (λ (k : ℕ). IsLeast le new message j k r.0) next r.4,
            )
      ]

  mark_least_lem :
      (j k : ℕ) (found : Option (ℕ × M)) (t : Trace M)
      → k ≤ 32
      → IsLeast le new message j k found
      → ((mark_least found t).0 ≡ done (received found))
        × (effects (mark_least found t).1 ≡ cleared found (effects t))
  unfolding mark_least mark_buffer_read checked_one_shl
  mark_least_lem j k none t small right = (refl, refl)
  mark_least_lem j k (some best) t small right = elim (dec_lt best.0 32) [
    | yes low ↦ ground (arith, low)
    | no high ↦ absurd (ground (arith, right.0))
  ]

  -- With at most 32 buffers, `receive_any` never panics. As long as nothing is written, let NDAT1 and the cells
  -- stay as they are, and let the order on identifiers be total and transitive. Then it returns the message
  -- of a buffer with new data, whose identifier is at most that of any buffer `j` with new data, and clears
  -- the bit of this buffer in NDAT1 and nothing else. If no buffer has new data, it returns
  -- `WouldBlock` and writes nothing.
  pub receive_any_lem :
      (self : RxDedicatedBuffer) (j : ℕ)
      → self.capacity ≤ 32
      → (found : Option (ℕ × M)) × IsLeast le new message j self.capacity found
        × ((receive_any hw le self start).0 ≡ done (received found))
        × (effects (receive_any hw le self start).1 ≡ cleared found (effects start))
  unfolding receive_any
  receive_any_lem self j small =
      let r = scan_lem self.capacity 0 j none start (omega arith) refl (ground arith) in
      let right = subst (λ (k : ℕ). IsLeast le new message j k r.0) (omega arith) r.4 in
      let m = mark_least_lem j self.capacity r.0 r.1 small right in
      (r.0, right, rw r.2 m.0, rw r.2 (m.1 ∙ ap (λ (t : Trace M). cleared r.0 t) r.3))
