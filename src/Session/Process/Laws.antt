-- ===== src/Session/Process/Laws.antt =====
-- What `process` makes of a message: the number expected next, and the end of a session whose peer
-- breaks the sequence.
use fix.Base.{
  ℕ, ◌+◌, ◌-◌, ◌%◌, ◌^◌, ◌<◌, ◌≡◌, refl, ap, ◌∙◌, Bytes, Bool, true, false, Option, some, ◌&&◌,
  if◌then◌else◌, arith, Bool-cases, ◌⊎◌, inl, inr, same_bytes,
}
use fix.Codec.Decimal.{u32, fast_atoi}
use fix.Codec.Element.{soh}
use fix.Session.State.{
  Session, Message, Exception, Persister, Codec, have, get_num, get_flag, is_state, is_established,
  st_continuous, st_resend_request_sent, st_test_request_sent, st_logon_received,
  msg_sequence_too_low, SessionState,
}
use fix.Session.Act.{done, thrown, catch, ◌>>=◌, return}
use fix.Session.Send.{next, stop, update_persist_seqnums}
use fix.Session.Send.Build.{tag_NewSeqNo, tag_PossDupFlag, msgtype_sequence_reset}
use fix.Session.Resend.{at_least, handle_resend_request}
use fix.Session.Check.{enforce}
use fix.Session.Check.Laws.{
  known_ids, in_sequence, enforce-in_order, enforce-too_low, enforce-reset,
}
use fix.Session.Logon.{handle_heartbeat, handle_sequence_reset, handle_logout, handle_test_request}
use fix.Session.Process.{
  Application, Kind, heartbeat, sequence_reset, logout, test_request, resend_request, kind_of,
  after_seqnum_tag, dispatch, handle, recover, process, is_logout,
}

-- The bytes carry the message and its number, and the class of the schema makes it of them.
pub record Arrives {T : Type 0} (codec : Codec) (from : Bytes) (seqnum : ℕ) (msg : Message)
    (s : Session T) : Type 0 where
  pub digits : Bytes
  pub tagged : after_seqnum_tag from ≡ some digits
  pub numbered : fast_atoi u32 soh digits ≡ some seqnum
  pub made :
      codec.factory from s.login_parameters.no_chksum_flag s.login_parameters.permissive_mode_flag
      ≡ inr msg

-- The session is established and the message is from its peer.
pub record IsPeer {T : Type 0} (msg : Message) (s : Session T) : Type 0 where
  pub established : is_established s.state ≡ true
  pub known : known_ids msg s ≡ true

module _ {T : Type 0} (codec : Codec) (store : Persister T) (app : Application T) where
  -- The derived class has nothing against the message.
  abbrev pub Allows : ℕ → Message → Session T → Type 0
  Allows seqnum msg s =
      (if codec.is_admin msg then app.handle_admin seqnum msg else return true) s ≡ done true s

  process-Arrives :
      (from : Bytes) (seqnum : ℕ) (msg : Message) (s : Session T)
      → Arrives codec from seqnum msg s
      → process codec store app from s
        ≡ catch (handle codec store app seqnum msg) (recover codec store app seqnum (some msg)) s
  unfolding process
  process-Arrives from seqnum msg s a = rw (process, a.tagged, a.numbered, a.made) refl

  -- What follows the handler, as `process` composes it.
  abbrev pub finished : Bool → Session T → Session T
  finished ends s =
      let t =
        update_persist_seqnums codec store
          (record s { next_receive_seq = next s.next_receive_seq }) in
      if ends then stop t else t

  handle-done :
      (seqnum : ℕ) (msg : Message) (kind : Kind) (s t : Session T) (b : Bool)
      → kind_of msg.msgtype ≡ kind
      → Allows seqnum msg s
      → dispatch codec store app kind seqnum msg s ≡ done b t
      → handle codec store app seqnum msg s ≡ done (b && true) (finished (is_logout kind) t)
  unfolding handle
  handle-done seqnum msg kind s t b k a d = elim (Bool-cases (is_logout kind)) [
    | inl l ↦ rw (◌>>=◌, a, k, d, ap is_logout k, l) refl
    | inr l ↦ rw (◌>>=◌, a, k, d, ap is_logout k, l) refl
  ]

  handle-thrown :
      (seqnum : ℕ) (msg : Message) (kind : Kind) (s t : Session T) (e : Exception)
      → kind_of msg.msgtype ≡ kind
      → Allows seqnum msg s
      → dispatch codec store app kind seqnum msg s ≡ thrown e t
      → handle codec store app seqnum msg s ≡ thrown e t
  unfolding handle
  handle-thrown seqnum msg kind s t e k a d = rw (◌>>=◌, a, k, d) refl

  -- The handlers that call `enforce` first stop where it throws.
  abbrev pub Enforced : Kind → Type 0
  Enforced kind =
      (kind ≡ heartbeat) ⊎ (kind ≡ test_request) ⊎ (kind ≡ resend_request) ⊎ (kind ≡ logout)

  dispatch-thrown :
      (seqnum : ℕ) (msg : Message) (kind : Kind) (s : Session T) (e : Exception)
      → Enforced kind
      → enforce codec store seqnum msg s ≡ thrown e s
      → dispatch codec store app kind seqnum msg s ≡ thrown e s
  unfolding dispatch handle_heartbeat handle_test_request handle_resend_request handle_logout
  dispatch-thrown seqnum msg kind s e (inl k) h = rw (k, ◌>>=◌, h) refl
  dispatch-thrown seqnum msg kind s e (inr (inl k)) h = rw (k, ◌>>=◌, h) refl
  dispatch-thrown seqnum msg kind s e (inr (inr (inl k))) h = rw (k, ◌>>=◌, h) refl
  dispatch-thrown seqnum msg kind s e (inr (inr (inr k))) h = rw (k, ◌>>=◌, h) refl

  recover-too_low :
      (seqnum a b : ℕ) (m : Option Message) (s : Session T)
      → is_state s.state st_logon_received ≡ false
      → recover codec store app seqnum m (msg_sequence_too_low a b) s ≡ (
          if s.login_parameters.reliable
          then thrown (msg_sequence_too_low a b) s
          else done false (stop s))
  unfolding recover
  recover-too_low seqnum a b m s l = ground (arith, l)

  -- A heartbeat, a test request, a resend request or a logout from the peer of an established
  -- session that is past the logon, whose number is lower than expected and which is no possible
  -- duplicate, ends the session: nothing is sent or counted, and the session is stopped, or, where it
  -- is to be reliable, the exception goes on to the caller.
  pub process-too_low :
      (from : Bytes) (seqnum : ℕ) (msg : Message) (kind : Kind) (s : Session T)
      → Arrives codec from seqnum msg s
      → IsPeer msg s
      → is_state s.state st_logon_received ≡ false
      → kind_of msg.msgtype ≡ kind
      → Enforced kind
      → same_bytes msg.msgtype msgtype_sequence_reset ≡ false
      → Allows seqnum msg s
      → seqnum < s.next_receive_seq
      → get_flag tag_PossDupFlag msg.header ≡ false
      → process codec store app from s ≡ (
          if s.login_parameters.reliable
          then thrown (msg_sequence_too_low seqnum s.next_receive_seq) s
          else done false (stop s))
  process-too_low from seqnum msg kind s a peer l k en ty allow low f =
      let e = msg_sequence_too_low seqnum s.next_receive_seq in
      let enforced =
        enforce-too_low codec store seqnum msg s peer.established peer.known ty low f in
      let h =
        handle-thrown seqnum msg kind s s e k allow
          (dispatch-thrown seqnum msg kind s e en enforced) in
      process-Arrives from seqnum msg s a
      ∙ rw (catch, h) (recover-too_low seqnum seqnum s.next_receive_seq (some msg) s l)

  abbrev pub resumed : SessionState → Session T → Session T
  resumed from s = if is_state s.state from then record s { state = st_continuous } else s

  resumed-next_receive_seq :
      (from : SessionState) (s : Session T) → (resumed from s).next_receive_seq ≡ s.next_receive_seq
  resumed-next_receive_seq from s = ground arith

  pub caught :
      (from : Bytes) (seqnum : ℕ) (msg : Message) (kind : Kind) (s t : Session T)
      → Arrives codec from seqnum msg s
      → kind_of msg.msgtype ≡ kind
      → Allows seqnum msg s
      → dispatch codec store app kind seqnum msg s ≡ done true t
      → process codec store app from s ≡ done true (finished (is_logout kind) t)
  caught from seqnum msg kind s t a k allow d =
      process-Arrives from seqnum msg s a
      ∙ rw (catch, handle-done seqnum msg kind s t true k allow d) refl

  dispatch-heartbeat :
      (seqnum : ℕ) (msg : Message) (s : Session T) (b : Bool)
      → enforce codec store seqnum msg s ≡ done b s
      → dispatch codec store app heartbeat seqnum msg s ≡ done true (resumed st_test_request_sent s)
  unfolding dispatch handle_heartbeat
  dispatch-heartbeat seqnum msg s b h = elim (Bool-cases (is_state s.state st_test_request_sent)) [
    | inl w ↦ rw (◌>>=◌, h, w) refl
    | inr w ↦ rw (◌>>=◌, h, w) refl
  ]

  -- A heartbeat from the peer, in sequence, is counted: the number expected rises by one, the two
  -- numbers are recorded, and a session that waits for an answer to its test request goes on.
  pub process-heartbeat :
      (from : Bytes) (seqnum : ℕ) (msg : Message) (s : Session T)
      → Arrives codec from seqnum msg s
      → IsPeer msg s
      → kind_of msg.msgtype ≡ heartbeat
      → same_bytes msg.msgtype msgtype_sequence_reset ≡ false
      → Allows seqnum msg s
      → in_sequence s.now s.next_receive_seq seqnum msg ≡ true
      → process codec store app from s
        ≡ done true (
            update_persist_seqnums codec store (record (resumed st_test_request_sent s) {
              next_receive_seq = next s.next_receive_seq;
            }))
  process-heartbeat from seqnum msg s a peer k ty allow ok =
      let enforced = enforce-in_order codec store seqnum msg s peer.established peer.known ty ok in
      let t = resumed st_test_request_sent s in
      caught from seqnum msg heartbeat s t a k allow
        (dispatch-heartbeat seqnum msg s false enforced)
      ∙ ap
          (λ n.
            done true (update_persist_seqnums codec store (record t { next_receive_seq = next n })))
          (resumed-next_receive_seq st_test_request_sent s)

  dispatch-sequence_reset :
      (seqnum n : ℕ) (msg : Message) (s : Session T) (b : Bool)
      → enforce codec store seqnum msg s ≡ done b s
      → have tag_NewSeqNo msg.body ≡ true
      → get_num tag_NewSeqNo msg.body ≡ n
      → at_least n s.next_receive_seq ≡ true
      → dispatch codec store app sequence_reset seqnum msg s
        ≡ done true
            (record (resumed st_resend_request_sent s) { next_receive_seq = (n + (u32 - 1)) % u32 })
  unfolding dispatch handle_sequence_reset
  dispatch-sequence_reset seqnum n msg s b h there is_n up =
      elim (Bool-cases (is_state s.state st_resend_request_sent)) [
        | inl w ↦ rw (◌>>=◌, h, there, is_n, up, w) refl
        | inr w ↦ rw (◌>>=◌, h, there, is_n, up, w) refl
      ]

  next_before : (n : ℕ) → n < u32 → next ((n + (u32 - 1)) % u32) ≡ n
  next_before n h = omega arith

  -- A sequence reset from the peer, whatever its own number, makes its new number the one expected, if
  -- that is not negative as an `int` and does not lower it; the numbers are recorded, and a session that waits for messages to be
  -- sent again goes on.
  pub process-sequence_reset :
      (from : Bytes) (seqnum n : ℕ) (msg : Message) (s : Session T)
      → Arrives codec from seqnum msg s
      → IsPeer msg s
      → kind_of msg.msgtype ≡ sequence_reset
      → same_bytes msg.msgtype msgtype_sequence_reset ≡ true
      → Allows seqnum msg s
      → have tag_NewSeqNo msg.body ≡ true
      → get_num tag_NewSeqNo msg.body ≡ n
      → at_least n s.next_receive_seq ≡ true
      → n < 2 ^ 31
      → process codec store app from s
        ≡ done true (
            update_persist_seqnums codec store
              (record (resumed st_resend_request_sent s) { next_receive_seq = n }))
  process-sequence_reset from seqnum n msg s a peer k ty allow there is_n up small =
      let enforced = enforce-reset codec store seqnum msg s peer.established peer.known ty in
      let t = record (resumed st_resend_request_sent s) {
        next_receive_seq = (n + (u32 - 1)) % u32;
      } in
      caught from seqnum msg sequence_reset s t a k allow
        (dispatch-sequence_reset seqnum n msg s true enforced there is_n up)
      ∙ ap (λ m. done true (update_persist_seqnums codec store (record t { next_receive_seq = m })))
          (next_before n (omega (arith, small)))
