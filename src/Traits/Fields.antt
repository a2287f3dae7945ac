-- ===== src/Traits/Fields.antt =====
-- `FieldTraits` of include/fix8/traits.hpp: the traits of the fields of a message, with the bits of
-- `FieldTrait::TraitTypes` as an `ebitset` (include/fix8/f8utils.hpp) of a number.
use fix.Base.{
  ℕ, zero, suc, ◌+◌, ◌-◌, ◌/◌, ◌%◌, ◌^◌, Bool, false, not, List, Option, none, some, [], ◌∷◌, ◌==◌,
  ◌&&◌, if◌then◌else◌, get_elem?, map, is_some,
}
use fix.Traits.{FieldTrait, find_hashed}

abbrev pub trait_mandatory : ℕ
trait_mandatory = 0

abbrev pub trait_present : ℕ
trait_present = 1

abbrev pub trait_position : ℕ
trait_position = 2

abbrev pub trait_group : ℕ
trait_group = 3

abbrev pub trait_suppress : ℕ
trait_suppress = 5

abbrev pub trait_automatic : ℕ
trait_automatic = 6

-- `ebitset::has`.
unfoldable pub has_bit : ℕ → ℕ → Bool
has_bit sbit a = a / 2 ^ sbit % 2 == 1

-- `ebitset::set` and `clear`.
unfoldable pub set_bit : ℕ → ℕ → ℕ
unfolding has_bit
set_bit sbit a = if has_bit sbit a then a else a + 2 ^ sbit

unfoldable pub clear_bit : ℕ → ℕ → ℕ
unfolding has_bit
clear_bit sbit a = if has_bit sbit a then a - 2 ^ sbit else a

-- `_field_traits.has`.
unfoldable pub has_trait : ℕ → FieldTrait → Bool
unfolding has_bit
has_trait type t = has_bit type t.bits

-- `_presence.find`.
abbrev pub find_trait : ℕ → List FieldTrait → Option FieldTrait
find_trait fnum fp = elim (find_hashed fnum fp) [ none ↦ none | some i ↦ get_elem? fp i ]

-- `FieldTraits::has`.
abbrev pub has : ℕ → List FieldTrait → Bool
has fnum fp = is_some (find_trait fnum fp)

-- `FieldTraits::get`.
unfoldable pub get : ℕ → ℕ → List FieldTrait → Bool
unfolding has_trait
get fnum type fp = elim (find_trait fnum fp) [ none ↦ false | some t ↦ has_trait type t ]

-- `FieldTraits::getPos`.
unfoldable pub get_pos : ℕ → List FieldTrait → ℕ
unfolding has_trait
get_pos fnum fp = elim (find_trait fnum fp) [
  | none ↦ 0
  | some t ↦ if has_trait trait_position t then t.pos else 0
]

-- The element at an iterator, changed in place.
unfoldable pub change_at : (FieldTrait → FieldTrait) → ℕ → List FieldTrait → List FieldTrait
change_at change i [] = []
change_at change zero (t ∷ ts) = change t ∷ ts
change_at change (suc i) (t ∷ ts) = t ∷ change_at change i ts

abbrev pub with_bit : ℕ → FieldTrait → FieldTrait
with_bit type t = record t { bits = set_bit type t.bits }

abbrev pub without_bit : ℕ → FieldTrait → FieldTrait
without_bit type t = record t { bits = clear_bit type t.bits }

-- `FieldTraits::set` and `clear`.
unfoldable pub set : ℕ → ℕ → List FieldTrait → List FieldTrait
unfolding change_at set_bit
set fnum type fp = elim (find_hashed fnum fp) [
  | none ↦ fp
  | some i ↦ change_at (with_bit type) i fp
]

unfoldable pub clear : ℕ → ℕ → List FieldTrait → List FieldTrait
unfolding change_at clear_bit
clear fnum type fp = elim (find_hashed fnum fp) [
  | none ↦ fp
  | some i ↦ change_at (without_bit type) i fp
]

-- `FieldTraits::clear_flag`.
unfoldable pub clear_flag : ℕ → List FieldTrait → List FieldTrait
unfolding clear_bit
clear_flag type fp = map (without_bit type) fp

-- `FieldTraits::find_missing`.
unfoldable pub find_missing : ℕ → List FieldTrait → ℕ
unfolding has_trait
find_missing type [] = 0
find_missing type (t ∷ fp) =
    let rest = find_missing type fp in
    if has_trait type t && not (has_trait trait_present t) then t.fnum else rest
