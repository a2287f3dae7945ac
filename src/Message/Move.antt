-- ===== src/Message/Move.antt =====
-- `MessageBase::move_legal` of runtime/message.cpp, on the maps of a message and its repeating groups.
-- A field or a group that has been moved leaves a null pointer under its number.
pub mod Laws
use fix.Base.{
  ℕ, ◌+◌, Bool, true, false, List, Option, none, some, [], ◌∷◌, ltb, ◌==◌, if◌then◌else◌,
}
use fix.Traits.{FieldTrait}
use fix.Traits.Fields.{trait_group, has_trait}
use fix.Message.Store.{Store}
use fix.Message.Copy.{
  Body, body, Repeats, ungrouped, repeat_at, Elements, Copied, copied, undefined, ◌>>=◌,
  find_elements, with_elements, copy_field, is_copied,
}

-- The message that fields are moved to, the numbers whose pointers in the source are null since, and
-- the number of moves.
pub record Moving : Type 0 where
  pub target : Body
  pub null_fields : List ℕ
  pub null_groups : List ℕ
  pub moved : ℕ

-- `add_group`: the map keeps its order, and a group that it has already.
abbrev pub add_group : ℕ → Elements → Repeats → Repeats
add_group fnum es ungrouped = repeat_at fnum es ungrouped
add_group fnum es (repeat_at key there repeats) =
    let rest = add_group fnum es repeats in
    if ltb fnum key
    then repeat_at fnum es (repeat_at key there repeats)
    else if key == fnum
    then repeat_at key there repeats
    else repeat_at key there rest

-- The group of one field: `replace` where the target has one, `+=` where it has none. A group that
-- the source does not have is a dereferenced end of its map.
unfoldable pub move_repeats : Repeats → FieldTrait → Repeats → Copied Repeats
unfolding has_trait
move_repeats own t repeats = elim (has_trait trait_group t) [
  | false ↦ copied repeats
  | true ↦ elim (find_elements t.fnum own) [
    | none ↦ undefined
    | some es ↦ elim (find_elements t.fnum repeats) [
      | none ↦ copied (add_group t.fnum es repeats)
      | some old ↦ copied (with_elements t.fnum es repeats)
    ]
  ]
]

-- The loop over the presence set of the source. A set has each number once, so the loop meets no
-- pointer that it has made null.
unfoldable pub move_loop :
    Bool → Store → Repeats → List FieldTrait → Store → Repeats → List ℕ → List ℕ → ℕ → Copied Moving
unfolding is_copied move_repeats copy_field has_trait
move_loop force s own [] to repeats fields groups n =
    copied
      record { target = body to repeats; null_fields = fields; null_groups = groups; moved = n }
move_loop force s own (t ∷ ts) to repeats fields groups n = elim (is_copied force t to) [
  | false ↦ move_loop force s own ts to repeats fields groups n
  | true ↦ move_repeats own t repeats >>= λ others. copy_field (λ f. f) force s t.fnum to >>= λ q.
      move_loop force s own ts q others (t.fnum ∷ fields)
        (if has_trait trait_group t then t.fnum ∷ groups else groups) (n + 1)
]

-- The whole call, with the source's own maps after it: its positions are cleared, and the pointers under
-- `null_fields` and `null_groups` are null.
unfoldable pub move_legal : Bool → Body → Body → Copied (Moving × Store)
unfolding move_loop
move_legal force (body s own) (body to others) =
    move_loop force s own s.fp to others [] [] 0 >>= λ end.
    copied (end, record { fp = s.fp; fields = s.fields; positions = [] })
