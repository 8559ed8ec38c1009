-- ===== src/Reg/Fields/Variants/Defs.antt =====
-- What svd2rust makes of an enumeration of field values (mcan/src/reg/*.rs).
use Prim.Native.String.{String}
use mcan.Base.{ℕ, Bool, List, [], ◌∷◌, Option, none, some, ◌==◌, if◌then◌else◌}
use mcan.Reg.Fields.Defs.{Writer, write, lookup}

-- The result of the reader's `variant`: a variant by its name, `None`, or the panic of `unreachable!`.
pub data Variant : Type 0 where
  found : String → Variant
  no_variant unreachable : Variant

-- The type with what the reader and the writer of the field have for it: the variants with their discriminants
-- (`VARIANT = v`), the arms of `variant` (`v => E::VARIANT`) with what the last arm gives, the functions `is_…` of
-- the reader (`*self == E::VARIANT`), without the `is_`, and the functions of the writer
-- (`self.variant(E::VARIANT)`).
pub record Enumeration : Type 0 where
  pub discriminants : List (String × ℕ)
  pub arms : List (ℕ × String)
  pub last_arm : Variant
  pub tests : List (String × String)
  pub writer_functions : List (String × String)

abbrev pub variant_in : List (ℕ × String) → Variant → ℕ → Variant
variant_in [] last bits = last
variant_in ((v, name) ∷ rest) last bits =
    if bits == v then found name else variant_in rest last bits

-- `variant` of the reader
unfoldable pub variant_of : Enumeration → ℕ → Variant
variant_of e bits = variant_in e.arms e.last_arm bits

-- The discriminant of the variant that a function names.
abbrev pub named_discriminant : Enumeration → List (String × String) → String → Option ℕ
named_discriminant e functions function = elim (lookup function functions) [
  | none ↦ none
  | some variant ↦ lookup variant e.discriminants
]

-- The tests `is_…`, which compare the bits with the discriminant.
unfoldable pub is_variant : Enumeration → String → ℕ → Option Bool
is_variant e test bits = elim (named_discriminant e e.tests test) [
  | none ↦ none
  | some v ↦ some (bits == v)
]

-- The functions of the writer that write one variant, by its discriminant.
unfoldable pub write_variant : Enumeration → Writer → String → ℕ → Option ℕ
unfolding write
write_variant e w function bits = elim (named_discriminant e e.writer_functions function) [
  | none ↦ none
  | some v ↦ some (write w v bits)
]
