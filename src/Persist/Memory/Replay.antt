-- ===== src/Persist/Memory/Replay.antt =====
-- The retrieval of a range from the memory persister against the list of the records in the range.
use fix.Base.{
  ℕ, zero, suc, ◌+◌, ◌-◌, ◌≤◌, ◌<◌, ◌≡◌, refl, sym, ap, ◌∙◌, Bytes, true, false, Option, some, [],
  ◌∷◌, ltb, ◌==◌, if◌then◌else◌, arith, inl, inr, Option-cases, Bool-cases, ℕ_discrete,
}
use fix.Base.SortedMap.{find, last_key, next_key, From, IsSorted}
use fix.Base.Suffix.{
  from_on, up_to, head_key, from_on-From, from_on-miss, from_on-hit, next_key-head, from_on-head,
  le-last_key,
}
use fix.Persist.Range.{
  SequencePair, RetransmissionContext, Called, Sent, send_records, get_range, end_mark, opening,
}
use fix.Persist.Memory.{
  Store, records, nearest_loop, find_nearest_highest_seqnum, get_last_seqnum, get_messages,
}

-- The key of the first entry, and 0 if there is none.
abbrev first_key : Store → ℕ
first_key [] = 0
first_key ((k, v) ∷ m) = k

abbrev Within : ℕ → Store → Type 0
Within bound [] = Unit
Within bound ((k, v) ∷ m) = k < bound

none-Within : (start : ℕ) (l : Store) → From start l → Within (start + 0) l → first_key l ≡ 0
none-Within start [] s w = refl
none-Within start ((k, v) ∷ l) s w = absurd (omega arith)

Within-suc : (start n : ℕ) (l : Store) → Within (start + suc n) l → Within (suc start + n) l
Within-suc start n [] w = tt
Within-suc start n ((k, v) ∷ l) w = omega arith

nearest_loop-first :
    (n start : ℕ) (m : Store)
    → IsSorted m
    → Within (start + n) (from_on start m)
    → nearest_loop n start m ≡ first_key (from_on start m)
unfolding nearest_loop
nearest_loop-first zero start m s w =
    sym (none-Within start (from_on start m) (from_on-From start 0 m s) w)
nearest_loop-first (suc n) start m s w = elim (Option-cases (find start m)) [
  | inl e ↦
      let step = from_on-miss start 0 m s e in
      let w' : Within (suc start + n) (from_on (suc start) m) =
        rw step at (Within-suc start n (from_on start m) w) in
      rw (e, nearest_loop)
        (let up : start + 1 ≡ suc start = omega arith in
          rw (up, step) (nearest_loop-first n (suc start) m s w'))
  | inr (v, e) ↦ rw (e, nearest_loop) (rw (from_on-hit start 0 v m s e))
]

Within-last :
    (from : ℕ) (m l : Store)
    → IsSorted m
    → from_on from m ≡ l
    → Within (from + (suc (last_key m) - from)) l
Within-last from m [] s e = tt
Within-last from m ((k, v) ∷ l) s e =
    let (_, _, lo) = from_on-head from 0 k v m l s e in
    omega (arith, lo, le-last_key from 0 k v m l s e)

none_above :
    (from : ℕ) (m l : Store)
    → IsSorted m
    → 0 < from
    → from_on from m ≡ l
    → last_key m ≡ 0
    → first_key l ≡ 0
none_above from m [] s pos e z = refl
none_above from m ((k, v) ∷ l) s pos e z =
    let (_, _, lo) = from_on-head from 0 k v m l s e in
    absurd (omega (arith, lo, le-last_key from 0 k v m l s e))

-- The nearest record is the first one from the requested number on, or 0 if there is none.
nearest-first :
    (from : ℕ) (m : Store)
    → IsSorted m
    → 0 < from
    → find_nearest_highest_seqnum from (get_last_seqnum m) m ≡ first_key (from_on from m)
unfolding find_nearest_highest_seqnum get_last_seqnum
nearest-first from m s pos = elim (ℕ_discrete (last_key m) 0) [
  | yes z ↦ rw (z, sym (none_above from m (from_on from m) s pos refl z)) refl
  | no nz ↦
      rw
        (sym (
          nearest_loop-first (suc (last_key m) - from) from m s
            (Within-last from m (from_on from m) s refl)))
        (ground arith)
]

module _ {S : Type 0} (callback : SequencePair → RetransmissionContext → S → Called S) where
  -- The callback on each record in turn, until it fails.
  pub replay : Store → ℕ → RetransmissionContext → S → Sent S
  replay [] n rctx s = record { recs = n; rctx = rctx; session = s }
  replay ((k, v) ∷ l) n rctx s =
      let r = callback (record { seq = k; text = v }) rctx s in
      elim r.success [
        | false ↦ record { recs = n + 1; rctx = r.rctx; session = r.session }
        | true ↦ replay l (n + 1) r.rctx r.session
      ]

module _ {S : Type 0} (store_of : S → Store)
    (callback : SequencePair → RetransmissionContext → S → Called S)
    (keep : (p : SequencePair) (c : RetransmissionContext) (s : S)
      → store_of (callback p c s).session ≡ store_of s)
    (m : Store) (sorted : IsSorted m) where
  abbrev after : ℕ → Bytes → RetransmissionContext → S → Called S
  after k v = callback (record { seq = k; text = v })

  behind :
      (k : ℕ) (v : Bytes) (post : Store) → from_on k m ≡ (k, v) ∷ post → from_on (suc k) m ≡ post
  behind k v post at =
      let (_, found, _) = from_on-head k 0 k v m post sorted at in
      cc (from_on-hit k 0 v m sorted found)

  found_now :
      (post : Store) (k : ℕ) (v : Bytes) (s : S)
      → store_of s ≡ m
      → from_on k m ≡ (k, v) ∷ post
      → find k (store_of s) ≡ some v
  found_now post k v s e at = ap (find k) e ∙ (from_on-head k 0 k v m post sorted at).1

  next_after :
      (post : Store) (k : ℕ) (v : Bytes) (rctx : RetransmissionContext) (s : S)
      → store_of s ≡ m
      → from_on k m ≡ (k, v) ∷ post
      → next_key k (store_of (after k v rctx s).session) ≡ head_key post
  next_after post k v rctx s e at =
      ap (next_key k) (keep (record { seq = k; text = v }) rctx s ∙ e)
      ∙ next_key-head k 0 m sorted
      ∙ ap head_key (behind k v post at)

  send_records-replay :
      (post : Store) (fuel finish k n : ℕ) (v : Bytes) (rctx : RetransmissionContext) (s : S)
      → store_of s ≡ m
      → from_on k m ≡ (k, v) ∷ post
      → 0 < k
      → suc finish < k + fuel
      → 0 < fuel
      → send_records records store_of callback fuel finish k n rctx s
        ≡ some (replay callback (up_to finish ((k, v) ∷ post)) n rctx s)
  unfolding send_records replay
  send_records-replay [] zero finish k n v rctx s e at pos room some_fuel = absurd (omega arith)
  send_records-replay (p ∷ post) zero finish k n v rctx s e at pos room some_fuel =
      absurd (omega arith)
  send_records-replay [] (suc fuel) finish k n v rctx s e at pos room some_fuel =
      ground (arith, found_now [] k v s e at, next_after [] k v rctx s e at)
  send_records-replay ((j, w) ∷ post) (suc fuel) finish k n v rctx s e at pos room some_fuel =
      let (at', _, lt) = from_on-head (suc k) 0 j w m post sorted (behind k v ((j, w) ∷ post) at) in
      let r = after k v rctx s in
      let still = keep (record { seq = k; text = v }) rctx s ∙ e in
      ground (
        arith,
        found_now ((j, w) ∷ post) k v s e at,
        next_after ((j, w) ∷ post) k v rctx s e at,
        lt,
        send_records-replay post fuel finish j (n + 1) w r.rctx r.session still at',
      )

  abbrev finished : Sent S → Option (ℕ × S)
  finished r = some (r.recs, end_mark records store_of callback r.rctx r.session)

  abbrev last_of_range : ℕ → ℕ
  last_of_range to = if to == 0 then last_key m else to

  up_to-beyond : (from finish : ℕ) (l : Store) → From from l → finish < from → up_to finish l ≡ []
  up_to-beyond from finish [] s h = refl
  up_to-beyond from finish ((k, v) ∷ l) s h = ground arith

  get_range-replay :
      (from to next_send : ℕ) (s : S) (l : Store)
      → store_of s ≡ m
      → 0 < from
      → from_on from m ≡ l
      → find_nearest_highest_seqnum from (get_last_seqnum m) m ≡ first_key l
      → get_range records store_of callback from to next_send s
        ≡ finished (replay callback (up_to (last_of_range to) l) 0 (opening from to next_send) s)
  unfolding get_range replay get_last_seqnum
  get_range-replay from to next_send s [] e pos at near = rw e (ground (arith, near))
  get_range-replay from to next_send s ((k, v) ∷ l) e pos at near =
      let (at', there, lo) = from_on-head from 0 k v m l sorted at in
      let nz : (k == 0) ≡ false = ground arith in
      elim (Bool-cases (ltb (last_of_range to) from)) [
        | inl hf ↦
            let lt : last_of_range to < from = ground arith in
            let none_left =
              up_to-beyond from (last_of_range to) ((k, v) ∷ l)
                (rw at at (from_on-From from 0 m sorted)) lt in
            rw (e, near, nz, hf, none_left) refl
        | inr hf ↦
            let le : from ≤ last_of_range to = ground arith in
            rw
              (
                e,
                near,
                nz,
                hf,
                there,
                send_records-replay l (suc (suc (last_of_range to) - k)) (last_of_range to) k 0 v
                    (opening from to next_send) s e at' (omega arith) (omega arith) (omega arith),
              )
              refl
      ]

-- A range from `from` on, to `to` or without an end for 0, gives the callback the records that the
-- store holds in the range, each once and in rising order, until the callback fails; then it gives
-- the end mark, and returns the count of records given. It always ends. The callback may do all
-- but change the store.
pub get_messages-replay :
    {S : Type 0} (store_of : S → Store)
    (callback : SequencePair → RetransmissionContext → S → Called S) (from to next_send : ℕ) (s : S)
    → IsSorted (store_of s)
    → ((p : SequencePair) (c : RetransmissionContext) (t : S)
        → store_of (callback p c t).session ≡ store_of t)
    → 0 < from
    → let r =
        replay callback
          (up_to (if to == 0 then last_key (store_of s) else to) (from_on from (store_of s)))
          0
          (opening from to next_send)
          s in
      get_messages store_of callback from to next_send s
      ≡ some (r.recs, end_mark records store_of callback r.rctx r.session)
unfolding get_messages
get_messages-replay store_of callback from to next_send s sorted keep pos =
    get_range-replay store_of callback keep (store_of s) sorted from to next_send s
      (from_on from (store_of s)) refl pos refl (nearest-first from (store_of s) sorted pos)
