-- ===== src/Session/Check/Laws.antt =====
-- When a message is in sequence, and what `enforce` leaves alone.
use fix.Base.{
  ℕ, ◌<◌, ◌≡◌, refl, Bool, true, false, not, ◌&&◌, ◌||◌, ltb, ◌==◌, arith, Bool-cases, inl, inr,
  same_bytes,
}
use fix.Session.State.{
  Session, Message, Persister, Codec, have, get_flag, get_time, is_state, st_continuous,
  st_resend_request_sent, msg_sequence_too_low, is_established, same_sender_comp_id,
  same_target_comp_id, get_text, st_logon_received,
}
use fix.Session.Act.{Act, Outcome, done, thrown, stuck, ◌>>◌, ◌>>=◌, return}
use fix.Session.Send.{do_state_change, send_new}
use fix.Session.Check.{compid_check, enforce, sequence_check, ignores_logon_sequence}
use fix.Session.Send.Build.{
  generate_resend_request, tag_PossDupFlag, tag_SendingTime, tag_OrigSendingTime, tag_TargetCompID,
  tag_SenderCompID, msgtype_sequence_reset,
}

-- A message is acceptable where its number is the one expected, or is lower on a possible duplicate
-- that was not first sent later than it was sent, which is now where it does not say.
abbrev pub in_sequence : ℕ → ℕ → ℕ → Message → Bool
in_sequence now expected seqnum msg =
    seqnum == expected
    || (ltb seqnum expected
        && (get_flag tag_PossDupFlag msg.header
            && not (
                have tag_OrigSendingTime msg.header
                && ltb (get_time now tag_SendingTime msg.header)
                    (get_time now tag_OrigSendingTime msg.header))))

-- The outcome says that the message is in sequence.
abbrev pub accepted : {T : Type 0} → Outcome T Bool → Bool
accepted (done b _) = b
accepted _ = false

-- The identifiers are those of the session, or are not looked at.
abbrev pub known_ids : {T : Type 0} → Message → Session T → Bool
known_ids msg s =
    not s.login_parameters.enforce_compids
    || (same_sender_comp_id s.sid (get_text tag_TargetCompID msg.header)
        && same_target_comp_id s.sid (get_text tag_SenderCompID msg.header))

module _ {T : Type 0} (codec : Codec) (store : Persister T) where
  then_refused : (m : Act T (Unit {0})) (s : Session T) → accepted ((m >> return false) s) ≡ false
  then_refused m s = cases (m s)
    where
      cases :
          (o : Outcome T (Unit {0}))
          → accepted (elim o as (λ x. Outcome T Bool) [
            | done a s' ↦ done false s'
            | thrown e s' ↦ thrown e s'
            | stuck ↦ stuck
          ])
            ≡ false
      cases (done a s') = refl
      cases (thrown e s') = refl
      cases stuck = refl

  ahead :
      (seqnum : ℕ) (msg : Message) (s : Session T)
      → ltb s.next_receive_seq seqnum ≡ true
      → accepted (sequence_check codec store seqnum msg s) ≡ false
  unfolding sequence_check
  ahead seqnum msg s e =
      let gap : Act T (Unit {0}) =
        send_new codec store (generate_resend_request codec s.next_receive_seq 0)
        >> do_state_change st_resend_request_sent in
      elim (Bool-cases (is_state s.state st_continuous)) [
        | inl c ↦ rw (e, c) (then_refused gap s)
        | inr c ↦ elim (Bool-cases (ignores_logon_sequence s)) [
          | inl i ↦ rw (e, c, i) refl
          | inr i ↦ rw (e, c, i) refl
        ]
      ]

  behind :
      (seqnum : ℕ) (msg : Message) (s : Session T)
      → ltb s.next_receive_seq seqnum ≡ false
      → accepted (sequence_check codec store seqnum msg s)
        ≡ in_sequence s.now s.next_receive_seq seqnum msg
  unfolding sequence_check
  behind seqnum msg s e = ground (arith, e)

  -- The check accepts exactly the messages that are in sequence.
  pub sequence_check-accepted :
      (seqnum : ℕ) (msg : Message) (s : Session T)
      → accepted (sequence_check codec store seqnum msg s)
        ≡ in_sequence s.now s.next_receive_seq seqnum msg
  sequence_check-accepted seqnum msg s = elim (Bool-cases (ltb s.next_receive_seq seqnum)) [
    | inl e ↦ rw (ahead seqnum msg s e) (ground (arith, e))
    | inr e ↦ behind seqnum msg s e
  ]

  -- A message in sequence leaves the session as it is.
  pub sequence_check-in_order :
      (seqnum : ℕ) (msg : Message) (s : Session T)
      → in_sequence s.now s.next_receive_seq seqnum msg ≡ true
      → sequence_check codec store seqnum msg s ≡ done true s
  unfolding sequence_check
  sequence_check-in_order seqnum msg s h =
      let e : ltb s.next_receive_seq seqnum ≡ false = ground (arith, h) in ground (arith, h, e)

  -- What a lower number without the flag gives.
  pub sequence_check-too_low :
      (seqnum : ℕ) (msg : Message) (s : Session T)
      → seqnum < s.next_receive_seq
      → get_flag tag_PossDupFlag msg.header ≡ false
      → sequence_check codec store seqnum msg s
        ≡ thrown (msg_sequence_too_low seqnum s.next_receive_seq) s
  unfolding sequence_check
  sequence_check-too_low seqnum msg s h f =
      let e : ltb s.next_receive_seq seqnum ≡ false = ground arith in ground (arith, h, f, e)

  pub compid_check-known :
      (msg : Message) (s : Session T)
      → known_ids msg s ≡ true
      → compid_check msg s.sid s ≡ done tt s
  unfolding compid_check
  compid_check-known msg s h = ground (arith, h)

  -- What is left of `enforce` in an established session that knows the identifiers.
  pub enforce-sequence :
      (seqnum : ℕ) (msg : Message) (s : Session T)
      → is_established s.state ≡ true
      → known_ids msg s ≡ true
      → same_bytes msg.msgtype msgtype_sequence_reset ≡ false
      → (o : Outcome T Bool) → sequence_check codec store seqnum msg s ≡ o
      → enforce codec store seqnum msg s
        ≡ (elim o [ done b s' ↦ done (not b) s' | thrown e s' ↦ thrown e s' | stuck ↦ stuck ])
  unfolding enforce
  enforce-sequence seqnum msg s est ids kind o h =
      elim (Bool-cases (is_state s.state st_logon_received)) [
        | inl l ↦ rw (est, kind, l, ← h) refl
        | inr l ↦ rw (est, l, ◌>>=◌, compid_check-known msg s ids, kind, ← h) refl
      ]

  pub enforce-in_order :
      (seqnum : ℕ) (msg : Message) (s : Session T)
      → is_established s.state ≡ true
      → known_ids msg s ≡ true
      → same_bytes msg.msgtype msgtype_sequence_reset ≡ false
      → in_sequence s.now s.next_receive_seq seqnum msg ≡ true
      → enforce codec store seqnum msg s ≡ done false s
  enforce-in_order seqnum msg s est ids kind ok =
      enforce-sequence seqnum msg s est ids kind (done true s)
        (sequence_check-in_order seqnum msg s ok)

  pub enforce-too_low :
      (seqnum : ℕ) (msg : Message) (s : Session T)
      → is_established s.state ≡ true
      → known_ids msg s ≡ true
      → same_bytes msg.msgtype msgtype_sequence_reset ≡ false
      → seqnum < s.next_receive_seq
      → get_flag tag_PossDupFlag msg.header ≡ false
      → enforce codec store seqnum msg s ≡ thrown (msg_sequence_too_low seqnum s.next_receive_seq) s
  enforce-too_low seqnum msg s est ids kind low f =
      enforce-sequence seqnum msg s est ids kind
        (thrown (msg_sequence_too_low seqnum s.next_receive_seq) s)
        (sequence_check-too_low seqnum msg s low f)

  pub enforce-reset :
      (seqnum : ℕ) (msg : Message) (s : Session T)
      → is_established s.state ≡ true
      → known_ids msg s ≡ true
      → same_bytes msg.msgtype msgtype_sequence_reset ≡ true
      → enforce codec store seqnum msg s ≡ done true s
  unfolding enforce
  enforce-reset seqnum msg s est ids kind = elim (Bool-cases (is_state s.state st_logon_received)) [
    | inl l ↦ rw (est, kind, l) refl
    | inr l ↦ rw (est, l, ◌>>=◌, compid_check-known msg s ids, kind) refl
  ]
