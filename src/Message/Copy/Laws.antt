-- ===== src/Message/Copy/Laws.antt =====
-- What `copy_legal` copies of a message without repeating groups, where nothing is forced.
use mathlib.Core.Path.{subst}
use fix.Base.{
  ℕ, suc, ◌+◌, ◌<◌, ◌≡◌, refl, ap, sym, ◌∙◌, Bool, true, false, not, List, Option, none, some, [],
  ◌∷◌, ◌&&◌, if◌then◌else◌, arith, is_some, Bool-cases, Option-cases, inl, inr, All, ℕ_discrete,
}
use fix.Base.SortedMap.{find}
use fix.Traits.{FieldTrait}
use fix.Traits.Laws.{Rising}
use fix.Traits.Fields.{trait_present, trait_group, has_trait, has, get, get_pos}
use fix.Traits.Flags.{seek, reads, get-seek}
use fix.Message.Store.{Store, add_field_at, add_what, have, get_field}
use fix.Message.Store.Laws.{IsStore, add_field_at-IsStore}
use fix.Message.Store.Refines.{add_field_at-view}
use fix.Message.Copy.{
  Body, body, Repeats, copied, Copier, copy_repeats, copy_field, is_copied, copy_loop, copy_legal,
  copiers,
}

-- A number below those of the set is not in it.
seek-below : (j lo : ℕ) (ts : List FieldTrait) → Rising lo ts → j < lo → seek j ts ≡ none
seek-below j lo [] r h = refl
seek-below j lo (t ∷ ts) r h = ground (arith, seek-below j (suc t.fnum) ts r.1)

-- A field that a part of the source's traits marks as present is there.
abbrev Backed : Store → List FieldTrait → Type 0
Backed s ts = (j : ℕ) → reads trait_present (seek j ts) ≡ true → is_some (find j s.fields) ≡ true

Backed-tail :
    (s : Store) (lo : ℕ) (t : FieldTrait) (ts : List FieldTrait)
    → Rising lo (t ∷ ts)
    → Backed s (t ∷ ts)
    → Backed s ts
Backed-tail s lo t ts r backed j e = elim (ℕ_discrete t.fnum j) [
  | yes same ↦
      let none_here = seek-below j (suc t.fnum) ts r.1 (omega (arith, same)) in
      absurd (ground (arith, none_here, e))
  | no ne ↦ backed j (ground (arith, ne, e))
]

-- What a copy of the traits `ts` of `s` takes to `to`.
abbrev takes : List FieldTrait → Store → ℕ → Bool
takes ts to j = reads trait_present (seek j ts) && (has j to.fp && not (get j trait_present to.fp))

abbrev pub copy_of : (ℕ → ℕ) → Option ℕ → Option ℕ
copy_of copy none = none
copy_of copy (some f) = some (copy f)

record CopyEnd (copy : ℕ → ℕ) (s : Store) (ts : List FieldTrait) (to q : Store) : Type 0 where
  store : IsStore q
  view :
      (j : ℕ)
      → find j q.fields
        ≡ (if takes ts to j then copy_of copy (find j s.fields) else find j to.fields)

-- A field that is not taken.
CopyEnd-skip :
    (copy : ℕ → ℕ) (s : Store) (lo : ℕ) (t : FieldTrait) (ts : List FieldTrait) (to q : Store)
    → Rising lo (t ∷ ts)
    → is_copied false t to ≡ false
    → CopyEnd copy s ts to q
    → CopyEnd copy s (t ∷ ts) to q
unfolding is_copied
CopyEnd-skip copy s lo t ts to q r c rest = record {
  store = rest.store;
  view = λ j. elim (ℕ_discrete t.fnum j) [
    | yes same ↦
        let none_here = seek-below j (suc t.fnum) ts r.1 (omega (arith, same)) in
        let out : (has_trait trait_present t && (has j to.fp && not (get j trait_present to.fp)))
            ≡ false =
          subst
            (λ k.
              (has_trait trait_present t && (has k to.fp && not (get k trait_present to.fp)))
              ≡ false)
            same c in
        ground (arith, rest.view j, none_here, same, out)
    | no ne ↦ ground (arith, rest.view j, ne)
  ];
}

is_copied-has :
    (t : FieldTrait) (to : Store) → is_copied false t to ≡ true → has t.fnum to.fp ≡ true
unfolding is_copied
is_copied-has t to c = elim (Bool-cases (has t.fnum to.fp)) [
  | inl e ↦ e
  | inr e ↦ elim (Bool-cases (has_trait trait_present t)) [
    | inl d ↦ absurd (ground (arith, c, e, d))
    | inr d ↦ absurd (ground (arith, c, e, d))
  ]
]

-- One that is.
CopyEnd-take :
    (copy : ℕ → ℕ) (s : Store) (lo f : ℕ) (t : FieldTrait) (ts : List FieldTrait) (to q : Store)
    → Rising lo (t ∷ ts)
    → IsStore to
    → is_copied false t to ≡ true
    → find t.fnum s.fields ≡ some f
    → CopyEnd copy s ts (add_field_at t.fnum (get_pos t.fnum to.fp) (copy f) true to) q
    → CopyEnd copy s (t ∷ ts) to q
unfolding is_copied
CopyEnd-take copy s lo f t ts to q r h c source rest =
    let pos = get_pos t.fnum to.fp in
    let added = add_field_at t.fnum pos (copy f) true to in
    let allowed : has t.fnum to.fp ≡ true = is_copied-has t to c in
    let added_is = add_field_at-IsStore t.fnum pos (copy f) to allowed h in
    record {
      store = rest.store;
      view = λ j.
          let (seen, legal) = add_field_at-view t.fnum pos (copy f) to h j in
          elim (ℕ_discrete t.fnum j) [
            | yes same ↦
                let none_here = seek-below j (suc t.fnum) ts r.1 (omega (arith, same)) in
                let out : (has_trait trait_present t
                      && (has j to.fp && not (get j trait_present to.fp)))
                    ≡ true =
                  subst
                    (λ k.
                      (has_trait trait_present t
                        && (has k to.fp && not (get k trait_present to.fp)))
                      ≡ true)
                    same c in
                let found : find j s.fields ≡ some f =
                  ap (λ k. find k s.fields) (sym same) ∙ source in
                ground (arith, rest.view j, none_here, same, out, found, seen)
            | no ne ↦
                let other : find j added.fields ≡ find j to.fields = ground (arith, seen, ne) in
                let still : get j trait_present added.fp ≡ get j trait_present to.fp =
                  sym (added_is.present j) ∙ ap is_some other ∙ h.present j in
                ground (arith, rest.view j, ne, other, still, legal)
          ];
    }

-- No field of the source is a group.
abbrev pub NoGroup : FieldTrait → Type 0
NoGroup t = has_trait trait_group t ≡ false

copy_field-adds :
    (copy : ℕ → ℕ) (s : Store) (fnum f : ℕ) (to : Store)
    → find fnum s.fields ≡ some f
    → has fnum to.fp ≡ true
    → copy_field copy false s fnum to
      ≡ copied (add_field_at fnum (get_pos fnum to.fp) (copy f) true to)
unfolding copy_field get_field add_what
copy_field-adds copy s fnum f to e legal = ground (arith, e, legal)

pub copy_repeats-none :
    (cs : List (ℕ × Copier)) (t : FieldTrait) (repeats : Repeats)
    → NoGroup t
    → copy_repeats cs t repeats ≡ copied (repeats, 0)
unfolding copy_repeats
copy_repeats-none cs t repeats e = ground (arith, e)

Backed-head :
    (s : Store) (t : FieldTrait) (ts : List FieldTrait) (to : Store)
    → Backed s (t ∷ ts)
    → is_copied false t to ≡ true
    → (f : ℕ) × (find t.fnum s.fields ≡ some f)
unfolding is_copied
Backed-head s t ts to backed c =
    let marked : has_trait trait_present t ≡ true = elim (Bool-cases (has_trait trait_present t)) [
      | inl d ↦ d
      | inr d ↦ absurd (ground (arith, c, d))
    ] in
    let there = backed t.fnum (ground (arith, marked)) in
    elim (Option-cases (find t.fnum s.fields)) [
      | inl n ↦ absurd (ground (arith, n, there))
      | inr found ↦ found
    ]

copy_loop-takes :
    (copy : ℕ → ℕ) (s : Store) (cs : List (ℕ × Copier)) (ts : List FieldTrait) (lo : ℕ) (to : Store)
    (repeats : Repeats) (n : ℕ)
    → Rising lo ts
    → Backed s ts
    → All NoGroup ts
    → IsStore to
    → (q : Store) × (m : ℕ) × (copy_loop copy false s cs ts to repeats n
        ≡ copied (body q repeats, m))
      × CopyEnd copy s ts to q
unfolding copy_loop
copy_loop-takes copy s cs [] lo to repeats n r backed plain h =
    (to, n, refl, record { store = h; view = λ j. refl })
copy_loop-takes copy s cs (t ∷ ts) lo to repeats n r backed plain h =
    let backed_on = Backed-tail s lo t ts r backed in
    elim (Bool-cases (is_copied false t to)) [
      | inr c ↦
          let (q, m, is, end) =
            copy_loop-takes copy s cs ts (suc t.fnum) to repeats n r.1 backed_on plain.1 h in
          (q, m, rw (copy_loop, c) is, CopyEnd-skip copy s lo t ts to q r c end)
      | inl c ↦
          let allowed = is_copied-has t to c in
          let (f, source) = Backed-head s t ts to backed c in
          let pos = get_pos t.fnum to.fp in
          let added = add_field_at t.fnum pos (copy f) true to in
          let (q, m, is, end) =
            copy_loop-takes copy s cs ts (suc t.fnum) added repeats (n + 0 + 1) r.1 backed_on
              plain.1 (add_field_at-IsStore t.fnum pos (copy f) to allowed h) in
          (
            q,
            m,
            rw
                (
                  copy_loop,
                  c,
                  copy_repeats-none cs t repeats plain.0,
                  copy_field-adds copy s t.fnum f to source allowed,
                )
                is,
            CopyEnd-take copy s lo f t ts to q r h c source end,
          )
    ]

-- `copy_legal`, where nothing is forced, of a message without groups whose maps agree, to another whose
-- maps agree, is done without an exception. It leaves the groups of the target and an agreement of
-- its maps: the target gets a copy of every field that the source has, that is legal for it and that
-- it did not have, and keeps all others as they were.
pub copy_legal-flat :
    (copy : ℕ → ℕ) (fresh : ℕ → Body) (s to : Store) (sources targets : Repeats)
    → IsStore s
    → IsStore to
    → All NoGroup s.fp
    → (q : Store) × (n : ℕ) × (copy_legal copy fresh false (body s sources) (body to targets)
        ≡ copied (body q targets, n))
      × IsStore q
      × ((j : ℕ)
          → get_field j q ≡ (
              if have j s && (has j to.fp && not (have j to))
              then copy_of copy (get_field j s)
              else get_field j to))
unfolding copy_legal get_field have
copy_legal-flat copy fresh s to sources targets s_is to_is plain =
    let backed : Backed s s.fp =
      λ j e. s_is.present j ∙ get-seek j trait_present s.fp s_is.rising ∙ e in
    let (q, n, is, end) =
      copy_loop-takes copy s (copiers copy fresh false sources) s.fp 0 to targets 0 s_is.rising
        backed plain to_is in
    (
      q,
      n,
      is,
      end.store,
      λ j. ground (arith, end.view j, get-seek j trait_present s.fp s_is.rising),
    )
