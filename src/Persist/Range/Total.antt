-- ===== src/Persist/Range/Total.antt =====
-- The fuel of the loop over a range.
use fix.Base.{
  ℕ, zero, suc, ◌+◌, ◌-◌, ◌≤◌, ◌<◌, ◌≡◌, refl, true, some, ltb, ◌==◌, ◌||◌, arith, if◌then◌else◌,
  Bool-cases, Option-cases, inl, inr, is_some,
}
use fix.Persist.Range.{
  SequencePair, RetransmissionContext, Records, Called, send_records, get_range, opening,
}

module _ {T S : Type 0} (ops : Records T) (store_of : S → T)
    (callback : SequencePair → RetransmissionContext → S → Called S)
    (rises : (k j : ℕ) (t : T) → ops.next k t ≡ some j → k < j) where
  send_records-total :
      (fuel finish key recs : ℕ) (rctx : RetransmissionContext) (s : S)
      → suc finish < fuel + key
      → 0 < fuel
      → is_some (send_records ops store_of callback fuel finish key recs rctx s) ≡ true
  unfolding send_records
  send_records-total zero finish key recs rctx s h p = absurd (omega arith)
  send_records-total (suc fuel) finish key recs rctx s h p =
      elim (Bool-cases (key == 0 || ltb finish key)) [
        | inl e ↦ rw e refl
        | inr e ↦ elim (Option-cases (ops.read key (store_of s))) [
          | inl n ↦ rw (e, n) refl
          | inr (text, n) ↦
              let r = callback (record { seq = key; text = text }) rctx s in
              let below : key ≤ finish = ground arith in
              elim (Bool-cases r.success) [
                | inr t ↦ rw (e, n, t) refl
                | inl t ↦ elim (Option-cases (ops.next key (store_of r.session))) [
                  | inl m ↦ rw (e, n, t, m) refl
                  | inr (k, m) ↦
                      let up : key < k = rises key k (store_of r.session) m in
                      rw (e, n, t, m)
                        (send_records-total fuel finish k (recs + 1) r.rctx r.session (omega arith)
                          (omega arith))
                ]
              ]
        ]
      ]

  -- The retrieval of a range ends, whatever the callback does to the store, if the key that
  -- follows another is greater.
  pub get_range-total :
      (from to next_send : ℕ) (s : S)
      → is_some (get_range ops store_of callback from to next_send s) ≡ true
  unfolding get_range
  get_range-total from to next_send s =
      let last = ops.last_seqnum (store_of s) in
      let start = ops.nearest from last (store_of s) in
      let finish = if to == 0 then last else to in
      let rctx = opening from to next_send in
      elim (Bool-cases (start == 0 || ltb finish from)) [
        | inl e ↦ rw e refl
        | inr e ↦ elim (Bool-cases (ops.has start (store_of s))) [
          | inr h ↦ rw (e, h) refl
          | inl h ↦
              elim (Option-cases (
                send_records ops store_of callback (suc (suc finish - start)) finish start 0 rctx
                  s)) [
                    | inl n ↦ absurd (
                        ground (
                          arith,
                          n,
                          send_records-total (suc (suc finish - start)) finish start 0 rctx s
                              (omega arith) (omega arith),
                        ))
                    | inr (r, n) ↦ rw (e, h, n) refl
                  ]
        ]
      ]
