-- ===== src/Message/Copy.antt =====
-- `MessageBase::copy_legal` of runtime/message.cpp, on the maps of a message and its repeating groups.
pub mod Laws
use fix.Base.{
  ℕ, ◌+◌, Bool, true, false, not, List, Option, none, some, [], ◌∷◌, ◌==◌, ◌&&◌, ◌||◌,
  if◌then◌else◌,
}
use fix.Traits.{FieldTrait}
use fix.Traits.Fields.{trait_present, trait_group, has_trait, has, get}
use fix.Message.Store.{Store, replace, add_what, get_field}

-- A message with its groups, and a group with its messages.
mutual
  pub data Body : Type 0 where
    body : Store → Repeats → Body

  pub data Repeats : Type 0 where
    ungrouped : Repeats
    repeat_at : ℕ → Elements → Repeats → Repeats

  pub data Elements : Type 0 where
    no_elements : Elements
    element_then : Body → Elements → Elements

-- `undefined` is a call through a null pointer.
pub data Copied {ℓ} (A : Type ℓ) : Type ℓ where
  copied : A → Copied A
  invalid_field : ℕ → Copied A
  undefined : Copied A

infixl 5 ◌>>=◌
abbrev pub ◌>>=◌ {ℓ κ} : {A : Type ℓ} {B : Type κ} → Copied A → (A → Copied B) → Copied B
copied a >>= next = next a
invalid_field fnum >>= next = invalid_field fnum
undefined >>= next = undefined

abbrev pub find_elements : ℕ → Repeats → Option Elements
find_elements fnum ungrouped = none
find_elements fnum (repeat_at key es repeats) =
    let rest = find_elements fnum repeats in if key == fnum then some es else rest

abbrev pub with_elements : ℕ → Elements → Repeats → Repeats
with_elements fnum new ungrouped = ungrouped
with_elements fnum new (repeat_at key es repeats) =
    let rest = with_elements fnum new repeats in
    if key == fnum then repeat_at key new repeats else repeat_at key es rest

abbrev pub append_element : Body → Elements → Elements
append_element b no_elements = element_then b no_elements
append_element b (element_then first es) = element_then first (append_element b es)

-- The elements of a group of the source go behind those of the target, by a function of the group of
-- the target: none where the target has no such group. The source's groups are given as these.
abbrev pub Copier : Type 0
Copier = Option Elements → Copied (Option Elements × ℕ)

abbrev pub find_copier : ℕ → List (ℕ × Copier) → Option Copier
find_copier fnum [] = none
find_copier fnum ((key, c) ∷ cs) =
    let rest = find_copier fnum cs in if key == fnum then some c else rest

-- The groups of one field.
unfoldable pub copy_repeats : List (ℕ × Copier) → FieldTrait → Repeats → Copied (Repeats × ℕ)
unfolding has_trait
copy_repeats cs t repeats = elim (has_trait trait_group t) [
  | false ↦ copied (repeats, 0)
  | true ↦ elim (find_copier t.fnum cs) [
    | none ↦ copied (repeats, 0)
    | some copier ↦ copier (find_elements t.fnum repeats) >>= λ end. elim end.0 [
      | none ↦ copied (repeats, end.1)
      | some es ↦ copied (with_elements t.fnum es repeats, end.1)
    ]
  ]
]

-- The field itself. `copy` is the address of the copy of a field.
unfoldable pub copy_field : (ℕ → ℕ) → Bool → Store → ℕ → Store → Copied Store
unfolding replace add_what get_field get
copy_field copy force s fnum to = elim (get_field fnum s) [
  | none ↦ undefined
  | some f ↦
      if force && get fnum trait_present to.fp
      then copied (replace fnum (copy f) to).0
      else elim (add_what fnum (copy f) to) [ none ↦ invalid_field fnum | some q ↦ copied q ]
]

-- The condition of the loop.
unfoldable pub is_copied : Bool → FieldTrait → Store → Bool
unfolding has_trait get
is_copied force t to =
    has_trait trait_present t
    && (force || (has t.fnum to.fp && not (get t.fnum trait_present to.fp)))

-- The loop over the presence set of the source, with the number of fields copied so far.
unfoldable pub copy_loop :
    (ℕ → ℕ)
    → Bool
    → Store
    → List (ℕ × Copier)
    → List FieldTrait
    → Store
    → Repeats
    → ℕ
    → Copied (Body × ℕ)
unfolding is_copied copy_repeats copy_field
copy_loop copy force s cs [] to repeats n = copied (body to repeats, n)
copy_loop copy force s cs (t ∷ ts) to repeats n = elim (is_copied force t to) [
  | false ↦ copy_loop copy force s cs ts to repeats n
  | true ↦ copy_repeats cs t repeats >>= λ end. copy_field copy force s t.fnum to >>= λ q.
      copy_loop copy force s cs ts q end.0 (n + end.1 + 1)
]

unfoldable mutual
  unfolding copy_loop

  -- `fresh` is the element that `create_group(true)` makes for the group of a field.
  pub copy_legal : (ℕ → ℕ) → (ℕ → Body) → Bool → Body → Body → Copied (Body × ℕ)
  copy_legal copy fresh force (body s repeats) (body to others) =
      copy_loop copy force s (copiers copy fresh force repeats) s.fp to others 0

  pub copiers : (ℕ → ℕ) → (ℕ → Body) → Bool → Repeats → List (ℕ × Copier)
  copiers copy fresh force ungrouped = []
  copiers copy fresh force (repeat_at fnum es repeats) =
      (fnum, λ target. copy_elements copy fresh force fnum es target)
      ∷ copiers copy fresh force repeats

  -- The loop over the messages of a group.
  pub copy_elements :
      (ℕ → ℕ) → (ℕ → Body) → Bool → ℕ → Elements → Option Elements → Copied (Option Elements × ℕ)
  copy_elements copy fresh force fnum no_elements target = copied (target, 0)
  copy_elements copy fresh force fnum (element_then b es) target = elim target [
    | none ↦ undefined
    | some there ↦ copy_legal copy fresh force b (fresh fnum) >>= λ one.
        copy_elements copy fresh force fnum es (some (append_element one.0 there)) >>= λ end.
        copied (end.0, one.1 + end.1)
  ]
