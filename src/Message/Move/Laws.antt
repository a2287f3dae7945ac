-- ===== src/Message/Move/Laws.antt =====
-- `move_legal` and `copy_legal` of a message without repeating groups.
use fix.Base.{
  ℕ, ◌+◌, ◌⊎◌, ◌≡◌, refl, ap, ◌∙◌, Bool, List, [], ◌∷◌, arith, Bool-cases, inl, inr, All,
}
use fix.Traits.{FieldTrait}
use fix.Message.Store.{Store}
use fix.Message.Copy.{
  Body, body, Repeats, Copied, copied, invalid_field, undefined, ◌>>=◌, Copier, copy_field,
  is_copied, copy_loop, copy_legal, copiers,
}
use fix.Message.Copy.Laws.{NoGroup, copy_repeats-none}
use fix.Message.Move.{Moving, move_repeats, move_loop, move_legal}

-- What both calls give: the target and the number of fields.
abbrev forget : Copied Moving → Copied (Body × ℕ)
forget (copied end) = copied (end.target, end.moved)
forget (invalid_field fnum) = invalid_field fnum
forget undefined = undefined

abbrev forget_source : Copied (Moving × Store) → Copied (Body × ℕ)
forget_source (copied end) = copied (end.0.target, end.0.moved)
forget_source (invalid_field fnum) = invalid_field fnum
forget_source undefined = undefined

move_repeats-none :
    (own : Repeats) (t : FieldTrait) (repeats : Repeats)
    → NoGroup t
    → move_repeats own t repeats ≡ copied repeats
unfolding move_repeats
move_repeats-none own t repeats e = ground (arith, e)

Copied-cases {ℓ} :
    {A : Type ℓ} (x : Copied A)
    → ((a : A) × (x ≡ copied a)) ⊎ (((fnum : ℕ) × (x ≡ invalid_field fnum)) ⊎ (x ≡ undefined))
Copied-cases (copied a) = inl (a, refl)
Copied-cases (invalid_field fnum) = inr (inl (fnum, refl))
Copied-cases undefined = inr (inr refl)

forget-move_loop :
    (force : Bool) (s : Store) (own : Repeats) (cs : List (ℕ × Copier)) (ts : List FieldTrait)
    (to : Store) (repeats : Repeats) (fields groups : List ℕ) (n m : ℕ)
    → n ≡ m
    → All NoGroup ts
    → forget (move_loop force s own ts to repeats fields groups n)
      ≡ copy_loop (λ f. f) force s cs ts to repeats m
unfolding move_loop copy_loop
forget-move_loop force s own cs [] to repeats fields groups n m e plain =
    ap (λ k. copied (body to repeats, k)) e
forget-move_loop force s own cs (t ∷ ts) to repeats fields groups n m same plain =
    elim (Bool-cases (is_copied force t to)) [
      | inr c ↦
          rw (move_loop, copy_loop, c)
            (forget-move_loop force s own cs ts to repeats fields groups n m same plain.1)
      | inl c ↦
          let group_less = move_repeats-none own t repeats plain.0 in
          let none_copied = copy_repeats-none cs t repeats plain.0 in
          elim (Copied-cases (copy_field (λ f. f) force s t.fnum to)) [
            | inl (q, e) ↦
                rw (move_loop, copy_loop, c, group_less, none_copied, e, plain.0)
                  (forget-move_loop force s own cs ts q repeats (t.fnum ∷ fields) groups (n + 1)
                    (m + 0 + 1) (omega (arith, same)) plain.1)
            | inr (inl (fnum, e)) ↦ rw (move_loop, copy_loop, c, group_less, none_copied, e) refl
            | inr (inr e) ↦ rw (move_loop, copy_loop, c, group_less, none_copied, e) refl
          ]
    ]

forget_source-bind :
    (s : Store) (x : Copied Moving)
    → forget_source
        (x >>= λ end. copied (end, record { fp = s.fp; fields = s.fields; positions = [] }))
      ≡ forget x
forget_source-bind s (copied end) = refl
forget_source-bind s (invalid_field fnum) = refl
forget_source-bind s undefined = refl

-- Of a message without groups, `move_legal` puts the same fields into the target as `copy_legal` whose
-- copies are the fields themselves, counts as many, and ends in an exception or in a null pointer where
-- that does, forced or not.
move_legal-copy_legal :
    (fresh : ℕ → Body) (force : Bool) (s to : Store) (own others : Repeats)
    → All NoGroup s.fp
    → forget_source (move_legal force (body s own) (body to others))
      ≡ copy_legal (λ f. f) fresh force (body s own) (body to others)
unfolding move_legal copy_legal
move_legal-copy_legal fresh force s to own others plain =
    forget_source-bind s (move_loop force s own s.fp to others [] [] 0)
    ∙ forget-move_loop force s own (copiers (λ f. f) fresh force own) s.fp to others [] [] 0 0 refl
        plain
