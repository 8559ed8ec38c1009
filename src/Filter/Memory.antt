-- ===== src/Filter/Memory.antt =====
-- `Filters` (mcan/src/filter.rs): the list of filter elements in message RAM.
use mcan.Base.{
  ℕ, zero, suc, ◌+◌, ◌≤◌, ◌<◌, ◌≡◌, refl, List, [], ◌∷◌, map, length, get_elem?, set, some, arith,
  ltb, if◌then◌else◌, length-set, ◌∙◌, lt→ltb, leb, ◌==◌, ◌-◌, ◌&&◌, ℕ_discrete,
}

-- `memory` and `len`; the elements are of the type `T`.
pub record Filters (T : Type 0) : Type 0 where
  pub memory : List T
  pub len : ℕ

-- `Result<A, F>`: the error gives the filter back.
pub data Result (A F : Type 0) : Type 0 where
  ok : A → Result A F
  err : F → Result A F

unfoldable pub new : {T : Type 0} → List T → Filters T
new memory = record { memory = memory; len = 0 }

get_elem?-set :
    {T : Type 0}
    → (xs : List T) (n i : ℕ) (v : T) → n < length xs
    → get_elem? (set xs n v) i ≡ (if i == n then some v else get_elem? xs i)
get_elem?-set [] n i v h = absurd (omega arith)
get_elem?-set (x ∷ xs) zero zero v h = refl
get_elem?-set (x ∷ xs) zero (suc i) v h = ground arith
get_elem?-set (x ∷ xs) (suc n) zero v h = ground arith
get_elem?-set (x ∷ xs) (suc n) (suc i) v h = ground (arith, get_elem?-set xs n i v (omega arith))

get_elem?-cons :
    {T : Type 0}
    → (x : T) (xs : List T) (n i : ℕ) → n ≤ i
    → get_elem? (x ∷ xs) (i - n) ≡ (if i == n then some x else get_elem? xs (i - (n + 1)))
get_elem?-cons x xs n i h = elim (ℕ_discrete i n) [
  | yes e ↦ let z : i - n ≡ 0 = omega arith in rw z (ground (arith, e))
  | no ne ↦ let z : i - n ≡ suc (i - (n + 1)) = omega arith in rw z (ground arith)
]

module _ {T F : Type 0} (into : F → T) where
  -- `set`: `get_mut` fails out of range.
  unfoldable pub set_at : Filters T → ℕ → F → Result (Unit {0}) F × Filters T
  set_at self index filter =
      if ltb index (length self.memory)
      then (ok tt, record self { memory = set self.memory index (into filter) })
      else (err filter, self)

  abbrev pushed : ℕ → Result (Unit {0}) F × Filters T → Result ℕ F × Filters T
  pushed index (ok u, self) = (ok index, record self { len = self.len + 1 })
  pushed index (err f, self) = (err f, self)

  unfoldable pub push : Filters T → F → Result ℕ F × Filters T
  unfolding set_at
  push self filter = let index = self.len in pushed index (set_at self index filter)

  -- One `push` after the other.
  abbrev pub push_all : Filters T → List F → Filters T
  push_all self [] = self
  push_all self (f ∷ fs) = push_all (push self f).1 fs

  -- Where there is room, `push` returns the index of the element it writes, which is `len`, every other
  -- element stays, and `len` goes up by one.
  pub push_lem :
      (self : Filters T) (filter : F) (i : ℕ)
      → self.len < length self.memory
      → ((push self filter).0 ≡ ok self.len)
        × (get_elem? (push self filter).1.memory i
            ≡ (if i == self.len then some (into filter) else get_elem? self.memory i))
        × (length (push self filter).1.memory ≡ length self.memory)
        × ((push self filter).1.len ≡ self.len + 1)
  unfolding push
  push_lem self filter i room = rw (lt→ltb self.len (length self.memory) room) (
    refl,
    get_elem?-set self.memory self.len i (into filter) room,
    length-set self.memory self.len (into filter),
    refl,
  )

  -- Where all the memory is taken, `push` gives the filter back and changes nothing.
  pub push-full :
      (self : Filters T) (filter : F)
      → length self.memory ≤ self.len
      → push self filter ≡ (err filter, self)
  unfolding push
  push-full self filter full = ground arith

  map_at :
      (f : F) (fs : List F) (n i : ℕ)
      → n ≤ i
      → get_elem? (map into (f ∷ fs)) (i - n)
        ≡ (if i == n then some (into f) else get_elem? (map into fs) (i - (n + 1)))
  map_at f fs n i h = get_elem?-cons (into f) (map into fs) n i h

  -- Pushing filters where there is room for all of them puts the elements of these, in their order, from
  -- `len` on, leaves every other element, and adds their number to `len`.
  pub push_all_lem :
      (self : Filters T) (fs : List F) (i : ℕ)
      → self.len + length fs ≤ length self.memory
      → ((push_all self fs).len ≡ self.len + length fs)
        × (length (push_all self fs).memory ≡ length self.memory)
        × (get_elem? (push_all self fs).memory i ≡ (
            if leb self.len i && ltb i (self.len + length fs)
            then get_elem? (map into fs) (i - self.len)
            else get_elem? self.memory i))
  push_all_lem self [] i room = ground arith
  push_all_lem self (f ∷ fs) i room =
      let p = push_lem self f i (omega arith) in
      let r = push_all_lem (push self f).1 fs i (omega (arith, p.2, p.3)) in
      (omega (arith, r.0, p.3), r.1 ∙ p.2, r.2 ∙ ground (arith, p.3, p.1, map_at f fs self.len i))
