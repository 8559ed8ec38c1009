-- ===== src/Reg/Fields/Variants/Check.antt =====
-- The check that the enumerations of a register fit its readers and writers.
use Prim.Native.String.{String}
use text.Mathlib.Text.{◌==◌ as str_eq}
use text.Mathlib.TextEquality.{eq_iff}
use mcan.Base.{
  ℕ, zero, suc, ◌^◌, ◌≤◌, ◌≡◌, refl, Bool, true, false, ◌&&◌, not, if◌then◌else◌, leb, ltb, List,
  [], ◌∷◌, Option, none, some, arith, sym, subst, inl, inr, Bool-cases, ◌⊎◌,
}
use mcan.Reg.Block.{Register}
use mcan.Reg.Fields.Defs.{Reader, Writer, read_flag, read_field, width, lookup}
use mcan.Reg.Fields.Table.{readers, writers}
use mcan.Reg.Fields.Variants.Defs.{
  Variant, found, no_variant, unreachable, Enumeration, variant_of, is_variant,
}
use mcan.Reg.Fields.Variants.Tables.{enumerations}

pub and_left : (a b : Bool) → (a && b) ≡ true → a ≡ true
and_left true b h = refl
and_left false b h = h

pub and_right : (a b : Bool) → (a && b) ≡ true → b ≡ true
and_right true b h = h
and_right false b h = absurd cc

-- All entries of a table.
abbrev pub every {ℓ} : {A : Type ℓ} → (String → A → Bool) → List (String × A) → Bool
every p [] = true
every p ((n, a) ∷ rest) = p n a && every p rest

pub every-lookup {ℓ} :
    {A : Type ℓ} (p : String → A → Bool) (name : String) (a : A) (rest : List (String × A))
    → every p rest ≡ true
    → lookup name rest ≡ some a
    → p name a ≡ true
every-lookup p name a [] h here = absurd cc
every-lookup p name a ((n, b) ∷ rest) h here = elim (Bool-cases (str_eq n name)) [
  | inl own ↦
      let e : some b ≡ some a = rw own at here in
      let first : p n b ≡ true = ground (arith, h) in
      subst (λ (x : String). p x a ≡ true) ((eq_iff n name).0 own)
        (subst (λ x. p n x ≡ true) (cc e) first)
  | inr other ↦ every-lookup p name a rest (ground (arith, h)) (rw other at here)
]

-- All numbers up to one.
abbrev pub all_to : (ℕ → Bool) → ℕ → Bool
all_to p zero = p zero
all_to p (suc n) = p (suc n) && all_to p n

le_cases : (n i : ℕ) → i ≤ suc n → (i ≡ suc n) ⊎ (i ≤ n)
le_cases n i low = elim (Bool-cases (leb i n)) [
  | inl h ↦ inr (ground (arith, h))
  | inr h ↦ inl (ground (arith, h))
]

pub all_to_lem : (p : ℕ → Bool) (n i : ℕ) → all_to p n ≡ true → i ≤ n → p i ≡ true
all_to_lem p zero i h low = let e : i ≡ 0 = omega arith in rw e (ground (arith, h))
all_to_lem p (suc n) i h low = elim (le_cases n i low) [
  | inl e ↦ subst (λ (x : ℕ). p x ≡ true) (sym e) (ground (arith, h))
  | inr less ↦ all_to_lem p n i (ground (arith, h)) less
]

abbrev pub is_reached : Variant → Bool
is_reached (found name) = true
is_reached no_variant = true
is_reached unreachable = false

abbrev pub is_named : String → Variant → Bool
is_named name (found n) = str_eq n name
is_named name no_variant = false
is_named name unreachable = false

-- Every number that the reader can read has an arm of its own or a `None`.
abbrev pub check_reader : Enumeration → Option Reader → Bool
check_reader e none = false
check_reader e (some (read_flag of)) = false
check_reader e (some (read_field of m)) =
    ltb m (2 ^ 32) && all_to (λ n. is_reached (variant_of e n)) m

-- At the number `v`, the test of the name `function` holds and every other test fails.
abbrev pub check_test : Enumeration → String → ℕ → String → Bool
check_test e function v test = elim (is_variant e test v) [
  | none ↦ false
  | some b ↦ if str_eq test function then b else not b
]

abbrev pub check_tests : Enumeration → String → ℕ → Bool
check_tests e function v = every (λ test variant. check_test e function v test) e.tests

-- A number fits in the field, is read as the variant, and the tests tell it from the other variants.
abbrev pub check_number : Enumeration → Writer → String → String → ℕ → Bool
check_number e w function variant v =
    ltb v (2 ^ width w) && (is_named variant (variant_of e v) && check_tests e function v)

abbrev pub check_function : Enumeration → Writer → String → String → Bool
check_function e w function variant = elim (lookup variant e.discriminants) [
  | none ↦ false
  | some v ↦ check_number e w function variant v
]

-- What every function of the writer writes.
abbrev pub check_writer : Enumeration → Option Writer → Bool
check_writer e none = true
check_writer e (some w) = every (check_function e w) e.writer_functions

abbrev pub check : Register → Bool
check r =
    every
      (λ name e.
        check_reader e (lookup name (readers r)) && check_writer e (lookup name (writers r)))
      (enumerations r)
