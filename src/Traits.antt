-- ===== src/Traits.antt =====
-- The set of field traits of include/fix8/traits.hpp: `presorted_set` of `FieldTrait` with its hash
-- array. Of a trait, the set reads the number alone.
pub mod Laws
pub mod Fields
pub mod Bits
pub mod Flags
pub mod Missing
use fix.Base.{
  ℕ, zero, suc, ◌+◌, ◌*◌, ◌/◌, Bool, true, false, List, Option, none, some, [], ◌∷◌, ltb, leb, ◌==◌,
  ◌&&◌, if◌then◌else◌, length,
}

pub record FieldTrait : Type 0 where
  pub fnum : ℕ
  pub ftype : ℕ
  pub pos : ℕ
  pub bits : ℕ

-- The array of `FieldTrait_Hash_Array` at `key`: the fill with zeros and the loop over the elements,
-- from `offset` on.
unfoldable pub slot : ℕ → List FieldTrait → ℕ → ℕ → ℕ
slot key [] offset found = found
slot key (t ∷ ts) offset found = slot key ts (offset + 1) (if t.fnum == key then offset else found)

-- Its size: the last element's number and one.
unfoldable pub hash_size : List FieldTrait → ℕ
hash_size [] = 0
hash_size (t ∷ []) = t.fnum + 1
hash_size (t ∷ u ∷ ts) = hash_size (u ∷ ts)

-- `(_arr + i)->_fnum == key`; an index beyond the elements is not read.
unfoldable pub is_at : ℕ → ℕ → List FieldTrait → Bool
is_at i key [] = false
is_at zero key (t ∷ ts) = t.fnum == key
is_at (suc i) key (t ∷ ts) = is_at i key ts

-- `find` with the hash array: the offset of the element, or `end()`.
unfoldable pub find_hashed : ℕ → List FieldTrait → Option ℕ
unfolding slot hash_size is_at
find_hashed key ts =
    let i = slot key ts 0 0 in if ltb key (hash_size ts) && is_at i key ts then some i else none

-- `calc_reserve`.
unfoldable pub calc_reserve : ℕ → ℕ → ℕ
calc_reserve sz res =
    if sz == 0 then res else (let val = sz * res / 100 in if val == 0 then 1 else val)

-- The set without a hash array: its elements, and what `_rsz` and `_reserve` hold.
pub record Presence : Type 0 where
  pub elements : List FieldTrait
  pub rsz : ℕ
  pub reserve : ℕ

-- The two moves of memory around the place that `equal_range` finds.
unfoldable pub insert_sorted : FieldTrait → List FieldTrait → List FieldTrait
insert_sorted what [] = what ∷ []
insert_sorted what (t ∷ ts) =
    let rest = insert_sorted what ts in if ltb what.fnum t.fnum then what ∷ t ∷ ts else t ∷ rest

unfoldable pub contains : ℕ → List FieldTrait → Bool
contains key [] = false
contains key (t ∷ ts) = let rest = contains key ts in if t.fnum == key then true else rest

-- `insert`: whether it was inserted.
unfoldable pub insert : FieldTrait → Presence → Presence × Bool
unfolding insert_sorted contains calc_reserve
insert what p =
    let sz = length p.elements in
    if sz == 0
    then (record p { elements = what ∷ [] }, true)
    else if contains what.fnum p.elements
    then (p, false)
    else (
      record p {
        elements = insert_sorted what p.elements;
        rsz = (if ltb sz p.rsz then p.rsz else sz + calc_reserve sz p.reserve);
      },
      true,
    )
