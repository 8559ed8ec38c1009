-- ===== src/Reg/Fields/Variants/Laws.antt =====
-- The variants of a field against what its reader reads and its writer writes (mcan/src/reg/*.rs).
use Prim.Native.String.{String}
use text.Mathlib.Text.{◌==◌ as str_eq}
use text.Mathlib.TextEquality.{eq_iff}
use native.Mathlib.Nat.{mod-eq_of_lt}
use mcan.Base.{
  ℕ, ◌%◌, ◌^◌, ◌<◌, ◌≡◌, ◌≢◌, refl, Bool, true, false, ◌&&◌, not, if◌then◌else◌, ltb, Option, none,
  some, arith, ◌∙◌, ap, subst,
}
use mcan.Bits.{bit_and-le_right, ◌>>>◌}
use mcan.Reg.Block.{
  Register, crel, endn, cust, dbtp, test, rwd, cccr, nbtp, tscc, tscv, tocc, tocv, ecr, psr, tdcr,
  ir, ie, ils, ile, gfc, sidfc, xidfc, xidam, hpms, ndat1, ndat2, rxf0_c, rxf0_s, rxf0_a, rxbc,
  rxf1_c, rxf1_s, rxf1_a, rxesc, txbc, txfqs, txesc, txbrp, txbar, txbcr, txbto, txbcf, txbtie,
  txbcie, txefc, txefs, txefa,
}
use mcan.Reg.Fields.Agree.{read-written}
use mcan.Reg.Fields.Defs.{Reader, Writer, read_flag, read_field, read, write, width, lookup}
use mcan.Reg.Fields.Table.{readers, writers}
use mcan.Reg.Fields.Variants.Defs.{
  Variant, found, no_variant, unreachable, Enumeration, variant_of, write_variant, is_variant,
  named_discriminant,
}
use mcan.Reg.Fields.Variants.Tables.{enumerations}
use mcan.Reg.Field.{field_reader}
use mcan.Reg.Fields.Variants.Check.{
  and_left, and_right, every-lookup, all_to_lem, is_reached, is_named, check_reader, check_writer,
  check, check_test, check_number, check_function,
}

-- The tables of every register pass the check.
checked : (r : Register) → check r ≡ true
unfolding variant_of is_variant
checked crel = refl
checked endn = refl
checked cust = refl
checked dbtp = refl
checked test = refl
checked rwd = refl
checked cccr = refl
checked nbtp = refl
checked tscc = refl
checked tscv = refl
checked tocc = refl
checked tocv = refl
checked ecr = refl
checked psr = refl
checked tdcr = refl
checked ir = refl
checked ie = refl
checked ils = refl
checked ile = refl
checked gfc = refl
checked sidfc = refl
checked xidfc = refl
checked xidam = refl
checked hpms = refl
checked ndat1 = refl
checked ndat2 = refl
checked rxf0_c = refl
checked rxf0_s = refl
checked rxf0_a = refl
checked rxbc = refl
checked rxf1_c = refl
checked rxf1_s = refl
checked rxf1_a = refl
checked rxesc = refl
checked txbc = refl
checked txfqs = refl
checked txesc = refl
checked txbrp = refl
checked txbar = refl
checked txbcr = refl
checked txbto = refl
checked txbcf = refl
checked txbtie = refl
checked txbcie = refl
checked txefc = refl
checked txefs = refl
checked txefa = refl

check_reader-reached :
    (e : Enumeration) (rd : Reader) (bits : ℕ)
    → check_reader e (some rd) ≡ true
    → is_reached (variant_of e (read rd bits)) ≡ true
unfolding read field_reader
check_reader-reached e (read_flag of) bits h = absurd cc
check_reader-reached e (read_field of m) bits h =
    all_to_lem (λ n. is_reached (variant_of e n)) m _ (ground (arith, h))
      (bit_and-le_right 32 (bits >>> of) m (ground (arith, h)))

unreached : (v : Variant) → is_reached v ≡ true → v ≢ unreachable
unreached (found name) h bad = absurd cc
unreached no_variant h bad = absurd cc
unreached unreachable h bad = absurd cc

-- For every field with an enumeration, `variant` of what its reader reads never reaches `unreachable!`, whatever
-- word the register holds.
pub variant_of-reachable :
    (r : Register) (name : String) (e : Enumeration) (rd : Reader) (bits : ℕ)
    → lookup name (enumerations r) ≡ some e
    → lookup name (readers r) ≡ some rd
    → variant_of e (read rd bits) ≢ unreachable
variant_of-reachable r name e rd bits there here bad =
    let entry =
      every-lookup
        (λ name e.
          check_reader e (lookup name (readers r)) && check_writer e (lookup name (writers r)))
        name e (enumerations r) (checked r) there in
    let known : check_reader e (some rd) ≡ true =
      subst (λ (x : Option Reader). check_reader e x ≡ true) here (and_left _ _ entry) in
    let reached = check_reader-reached e rd bits known in
    absurd (unreached (variant_of e (read rd bits)) reached bad)

-- What a function of the writer wrote: the discriminant of its variant.
written :
    (e : Enumeration) (w : Writer) (function variant : String) (bits word : ℕ)
    → lookup function e.writer_functions ≡ some variant
    → write_variant e w function bits ≡ some word
    → (v : ℕ) × (lookup variant e.discriminants ≡ some v) × (word ≡ write w v bits)
unfolding write_variant
written e w function variant bits word names h =
    go (lookup variant e.discriminants) refl (rw (names, write_variant, named_discriminant) at h)
  where
    go :
        (o : Option ℕ)
        → lookup variant e.discriminants ≡ o
        → (elim o [ none ↦ none | some v ↦ some (write w v bits) ]) ≡ some word
        → (v : ℕ) × (lookup variant e.discriminants ≡ some v) × (word ≡ write w v bits)
    go none eq h = absurd cc
    go (some v) eq h = (v, eq, cc)

variant-named : (name : String) (v : Variant) → is_named name v ≡ true → v ≡ found name
variant-named name (found n) h = ap found ((eq_iff n name).0 h)
variant-named name no_variant h = absurd cc
variant-named name unreachable h = absurd cc

small_mod : (v n : ℕ) → ltb v n ≡ true → v % n ≡ v
small_mod v n h = let l : v < n = ground (arith, h) in mod-eq_of_lt l

check_test-is_variant :
    (e : Enumeration) (function query : String) (v : ℕ)
    → check_test e function v query ≡ true
    → is_variant e query v ≡ some (str_eq query function)
check_test-is_variant e function query v h = go (is_variant e query v) (str_eq query function) h
  where
    go :
        (o : Option Bool) (same : Bool)
        → (elim o [ none ↦ false | some b ↦ if same then b else not b ]) ≡ true
        → o ≡ some same
    go none same h = absurd cc
    go (some true) true h = refl
    go (some true) false h = absurd cc
    go (some false) true h = absurd cc
    go (some false) false h = refl

-- What a function of the writer writes for a variant, the reader reads as this variant: `variant` gives it, and of the
-- tests `is_…` the one that is named like the function holds and the others fail.
pub write_variant-variant_of :
    (r : Register) (name function variant query tested : String) (e : Enumeration) (w : Writer)
    (bits word : ℕ)
    → lookup name (enumerations r) ≡ some e
    → lookup name (writers r) ≡ some w
    → lookup function e.writer_functions ≡ some variant
    → lookup query e.tests ≡ some tested
    → write_variant e w function bits ≡ some word
    → bits < 2 ^ 32
    → (rd : Reader) × (lookup name (readers r) ≡ some rd)
      × (variant_of e (read rd word) ≡ found variant)
      × (is_variant e query (read rd word) ≡ some (str_eq query function))
write_variant-variant_of r name function variant query tested e w bits word there here names tests
      wrote fits =
    let entry =
      every-lookup
        (λ name e.
          check_reader e (lookup name (readers r)) && check_writer e (lookup name (writers r)))
        name e (enumerations r) (checked r) there in
    let known : check_writer e (some w) ≡ true =
      subst (λ (x : Option Writer). check_writer e x ≡ true) here (and_right _ _ entry) in
    let (v, at, word_e) = written e w function variant bits word names wrote in
    let own = every-lookup (check_function e w) function variant e.writer_functions known names in
    let number : check_number e w function variant v ≡ true = rw (at, check_function) at own in
    let small : ltb v (2 ^ width w) ≡ true = and_left _ _ number in
    let rest = and_right _ _ number in
    let tells =
      every-lookup (λ query variant. check_test e function v query) query tested e.tests
        (and_right _ _ rest) tests in
    let back = read-written r name w v bits here fits in
    let value : read back.0 word ≡ v =
      ap (read back.0) word_e ∙ (back.2 ∙ small_mod v (2 ^ width w) small) in
    (
      back.0,
      back.1,
      ap (variant_of e) value ∙ variant-named variant (variant_of e v) (and_left _ _ rest),
      ap (is_variant e query) value ∙ check_test-is_variant e function query v tells,
    )
