-- ===== src/Message/Store.antt =====
-- The maps of a message, `_fields` and `_pos` of `MessageBase`, with the operations that change them:
-- `add_field`, `replace` and `remove` of include/fix8/message.hpp and runtime/message.cpp. A field is
-- its address, and the fields themselves stay as they are.
pub mod Counts
pub mod Laws
pub mod Refines
use fix.Base.{
  ℕ, Bool, true, false, List, Option, none, some, [], ◌∷◌, ltb, ◌==◌, ◌&&◌, if◌then◌else◌,
}
use fix.Base.SortedMap.{find, insert, assign}
use fix.Traits.{FieldTrait}
use fix.Traits.Fields.{trait_present, has, get, get_pos, set, clear}

pub record Store : Type 0 where
  pub fp : List FieldTrait
  pub fields : List (ℕ × ℕ)
  pub positions : List (ℕ × ℕ)

-- `_pos.insert`: behind the entries of the same position.
unfoldable pub add_position : ℕ → ℕ → List (ℕ × ℕ) → List (ℕ × ℕ)
add_position pos what [] = (pos, what) ∷ []
add_position pos what ((p, f) ∷ ps) =
    let rest = add_position pos what ps in
    if ltb pos p then (pos, what) ∷ (p, f) ∷ ps else (p, f) ∷ rest

-- The loop over `_pos`, which erases the first entry of a field; and the position that it reads there.
unfoldable pub erase_position : ℕ → List (ℕ × ℕ) → List (ℕ × ℕ)
erase_position old [] = []
erase_position old ((p, f) ∷ ps) =
    let rest = erase_position old ps in if f == old then ps else (p, f) ∷ rest

unfoldable pub position_of : ℕ → ℕ → List (ℕ × ℕ) → ℕ
position_of pos old [] = pos
position_of pos old ((p, f) ∷ ps) =
    let rest = position_of pos old ps in if f == old then p else rest

-- `_fields.erase`.
unfoldable pub erase_field : ℕ → List (ℕ × ℕ) → List (ℕ × ℕ)
erase_field fnum [] = []
erase_field fnum ((k, f) ∷ fs) =
    let rest = erase_field fnum fs in if k == fnum then fs else (k, f) ∷ rest

-- What the calls return besides the message: the field that was there, or none.
unfoldable pub replace : ℕ → ℕ → Store → Store × Option ℕ
unfolding add_position erase_position position_of get_pos set find assign
replace fnum what s = elim (find fnum s.fields) [
  | none ↦ (s, none)
  | some old ↦ (
    record {
      fp = set fnum trait_present s.fp;
      fields = assign fnum what s.fields;
      positions =
          add_position (position_of (get_pos fnum s.fp) old s.positions) what
            (erase_position old s.positions);
    },
    some old,
  )
]

unfoldable pub remove : ℕ → Store → Store × Option ℕ
unfolding erase_position erase_field clear find
remove fnum s = elim (find fnum s.fields) [
  | none ↦ (s, none)
  | some old ↦ (
    record {
      fp = clear fnum trait_present s.fp;
      fields = erase_field fnum s.fields;
      positions = erase_position old s.positions;
    },
    some old,
  )
]

-- `add_field` at a position. A field that it replaces is deleted.
unfoldable pub add_field_at : ℕ → ℕ → ℕ → Bool → Store → Store
unfolding replace get insert add_position set
add_field_at fnum pos what check s =
    if check && get fnum trait_present s.fp then (replace fnum what s).0 else record {
      fp = set fnum trait_present s.fp;
      fields = insert fnum what s.fields;
      positions = add_position pos what s.positions;
    }

-- `add_field` of a field alone: `none` is the exception `InvalidField`.
unfoldable pub add_what : ℕ → ℕ → Store → Option Store
unfolding add_field_at get_pos
add_what fnum what s =
    if has fnum s.fp then some (add_field_at fnum (get_pos fnum s.fp) what true s) else none

-- `have` and `get_field`.
unfoldable pub have : ℕ → Store → Bool
unfolding get
have fnum s = get fnum trait_present s.fp

unfoldable pub get_field : ℕ → Store → Option ℕ
unfolding find
get_field fnum s = find fnum s.fields
