-- ===== src/Session/Process/Gap.antt =====
-- What `process` makes of a message that is ahead of its turn.
use fix.Base.{ℕ, ◌<◌, ◌≡◌, refl, ap, ◌∙◌, Bytes, Bool, true, false, inr, ltb, arith, same_bytes}
use fix.Session.State.{
  Session, Message, Persister, Codec, is_state, st_continuous, st_resend_request_sent,
}
use fix.Session.Act.{done, ◌>>=◌}
use fix.Session.Send.{next, send, update_persist_seqnums}
use fix.Session.Send.Build.{generate_resend_request, msgtype_sequence_reset}
use fix.Session.Send.Laws.{send-frame}
use fix.Session.Check.{sequence_check, enforce}
use fix.Session.Check.Laws.{enforce-sequence}
use fix.Session.Logon.{handle_heartbeat}
use fix.Session.Process.{Application, heartbeat, kind_of, dispatch, process}
use fix.Session.Process.Laws.{Arrives, IsPeer, Allows, caught}

module _ {T : Type 0} (codec : Codec) (store : Persister T) where
  abbrev waiting : Session T → Session T
  waiting t = record t { state = st_resend_request_sent }

  sequence_check-gap :
      (seqnum : ℕ) (msg req : Message) (s t : Session T) (b : Bool)
      → s.next_receive_seq < seqnum
      → is_state s.state st_continuous ≡ true
      → generate_resend_request codec s.next_receive_seq 0 ≡ inr req
      → send codec store req 0 false s ≡ done b t
      → sequence_check codec store seqnum msg s ≡ done false (waiting t)
  unfolding sequence_check
  sequence_check-gap seqnum msg req s t b ahead c made sent =
      let e : ltb s.next_receive_seq seqnum ≡ true = ground (arith, ahead) in
      rw (sequence_check, e, c, made, ◌>>=◌, sent) refl

  module _ (app : Application T) where
    dispatch-gap :
        (seqnum : ℕ) (msg : Message) (s t : Session T)
        → enforce codec store seqnum msg s ≡ done true (waiting t)
        → dispatch codec store app heartbeat seqnum msg s ≡ done true (waiting t)
    unfolding dispatch handle_heartbeat
    dispatch-gap seqnum msg s t h = rw (◌>>=◌, h) refl

    -- A heartbeat from the peer that is ahead of its turn, in a session in normal operation, where the
    -- derived class has nothing against it and the schema has resend requests: one from the number
    -- expected on is sent, and the session waits for the messages to be sent again; but the number
    -- expected rises by one all the same, as if the message that was expected had come, and is recorded.
    pub process-gap :
        (from : Bytes) (seqnum : ℕ) (msg req : Message) (s : Session T)
        → Arrives codec from seqnum msg s
        → IsPeer msg s
        → kind_of msg.msgtype ≡ heartbeat
        → same_bytes msg.msgtype msgtype_sequence_reset ≡ false
        → Allows codec store app seqnum msg s
        → s.next_receive_seq < seqnum
        → is_state s.state st_continuous ≡ true
        → generate_resend_request codec s.next_receive_seq 0 ≡ inr req
        → (b : Bool) × (t : Session T) × (send codec store req 0 false s ≡ done b t)
          × (process codec store app from s
              ≡ done true (
                  update_persist_seqnums codec store (record t {
                    state = st_resend_request_sent;
                    next_receive_seq = next s.next_receive_seq;
                  })))
    process-gap from seqnum msg req s a peer k ty allow ahead c made =
        let (b, t, sent, same) = send-frame codec store req 0 false s in
        let checked = sequence_check-gap seqnum msg req s t b ahead c made sent in
        let enforced =
          enforce-sequence codec store seqnum msg s peer.established peer.known ty
            (done false (waiting t)) checked in
        (
          b,
          t,
          sent,
          caught codec store app from seqnum msg heartbeat s (waiting t) a k allow
                (dispatch-gap seqnum msg s t enforced)
              ∙ ap
                  (λ n. done true (
                    update_persist_seqnums codec store
                      (record (waiting t) { next_receive_seq = next n })))
                  same.1,
        )
