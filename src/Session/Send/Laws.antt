-- ===== src/Session/Send/Laws.antt =====
-- What sending does to the sequence numbers, the persister and the rest of a session.
use fix.Base.{
  ℕ, ◌≡◌, refl, sym, ap, ◌∙◌, Bytes, Bool, true, false, not, Option, none, some, [], ◌==◌, ◌&&◌,
  ◌||◌, if◌then◌else◌, arith, Option-cases, ◌⊎◌, inl, inr, same_bytes,
}
use fix.Session.State.{Session, Message, Exception, Persister, Codec, Connection}
use fix.Codec.Header.{c_str}
use fix.Session.Send.{next, stamped, deliver, transmit, send_process, send}
use fix.Session.Act.{Outcome, done}
use fix.Session.Send.Build.{msgtype_sequence_reset}

module _ {T : Type 0} (codec : Codec) (store : Persister T) where
  -- Whether a message takes the next number with it.
  abbrev pub takes_number : Message → Bool → Bool
  takes_number out dup =
      not dup
      && (out.custom_seqnum == 0
          && (not out.no_increment && not (same_bytes out.msgtype msgtype_sequence_reset)))

  -- The message as it is encoded.
  abbrev pub outbound : Session T → Message → Message
  outbound s msg = codec.modify_outbound (codec.modify_header (stamped s msg).0)

  -- The members that sending leaves alone.
  abbrev pub Untouched : Session T → Session T → Type 0
  Untouched s t =
      (t.state ≡ s.state)
      × (t.next_receive_seq ≡ s.next_receive_seq)
      × (t.sid ≡ s.sid)
      × (t.active ≡ s.active)
      × (t.shutdown ≡ s.shutdown)
      × (t.connection ≡ s.connection)
      × (t.login_parameters ≡ s.login_parameters)

  deliver-frame :
      (c : Connection) (msg : Message) (dup : Bool) (encoded : Bytes) (s : Session T)
      → Untouched s (deliver codec store c msg dup encoded s).1
  unfolding deliver transmit
  deliver-frame c msg dup encoded s = ground arith

  encode-cases :
      (m : Message)
      → ((e : Exception) × (codec.encode m ≡ inl e)) ⊎ ((b : Bytes) × (codec.encode m ≡ inr b))
  encode-cases m =
      elim (codec.encode m)
        as (λ x. ((e : Exception) × (x ≡ inl e)) ⊎ ((b : Bytes) × (x ≡ inr b))) [
          | inl e ↦ inl (e, refl)
          | inr b ↦ inr (b, refl)
        ]

  abbrev sent_as : Connection → Message → Session T → Exception ⊎ Bytes → Bool × Session T
  sent_as c msg s x = elim x [
    | inl _ ↦ (false, s)
    | inr encoded ↦ deliver codec store c (outbound s msg) (stamped s msg).1 encoded s
  ]

  send_process-sent_as :
      (c : Connection) (msg : Message) (s : Session T) (x : Exception ⊎ Bytes)
      → codec.encode (outbound s msg) ≡ x
      → send_process codec store c msg s ≡ sent_as c msg s x
  unfolding send_process
  send_process-sent_as c msg s x h = ap (sent_as c msg s) h

  -- Sending changes no part of the session but the next number to send, the persister, the batch
  -- buffer, the time of the last message and the wire.
  pub send_process-frame :
      (c : Connection) (msg : Message) (s : Session T)
      → Untouched s (send_process codec store c msg s).1
  send_process-frame c msg s = elim (encode-cases (outbound s msg)) [
    | inl (e, h) ↦
        rw (send_process-sent_as c msg s (inl e) h) (refl, refl, refl, refl, refl, refl, refl)
    | inr (b, h) ↦
        rw (send_process-sent_as c msg s (inr b) h)
          (deliver-frame c (outbound s msg) (stamped s msg).1 b s)
  ]

  deliver-numbers :
      (c : Connection) (msg : Message) (dup : Bool) (encoded : Bytes) (s : Session T)
      → let r = deliver codec store c msg dup encoded s in
        r.1.next_send_seq
        ≡ (if r.0 && takes_number msg dup then next s.next_send_seq else s.next_send_seq)
  unfolding deliver transmit
  deliver-numbers c msg dup encoded s = ground arith

  deliver-persist :
      (c : Connection) (msg : Message) (encoded : Bytes) (s : Session T) (p : T)
      → s.persist ≡ some p
      → msg.end_of_batch ≡ true
      → s.batchmsgs_buffer ≡ []
      → let r = deliver codec store c msg false encoded s in
        r.0 ≡ true
        → r.1.persist
          ≡ some (
              store.put_control
                (next s.next_send_seq)
                s.next_receive_seq
                (if codec.is_admin msg then p else store.put s.next_send_seq (c_str encoded) p))
  unfolding deliver transmit
  deliver-persist c msg encoded s p e b n h = ground arith

  -- The next number to send rises by one when a message goes out that is no duplicate, has no number
  -- of its own, is not kept from counting and is no sequence reset, all as its header and type are
  -- when it is encoded; it stays in every other case, failures included.
  pub send_process-numbers :
      (c : Connection) (msg : Message) (s : Session T)
      → let r = send_process codec store c msg s in
        r.1.next_send_seq ≡ (
          if r.0 && takes_number (outbound s msg) (stamped s msg).1
          then next s.next_send_seq
          else s.next_send_seq)
  send_process-numbers c msg s = elim (encode-cases (outbound s msg)) [
    | inl (e, h) ↦ rw (send_process-sent_as c msg s (inl e) h) refl
    | inr (b, h) ↦
        rw (send_process-sent_as c msg s (inr b) h)
          (deliver-numbers c (outbound s msg) (stamped s msg).1 b s)
  ]

  -- After a message has gone out outside a batch that is no duplicate, the persister has been told to
  -- keep its text up to the first zero, unless it is an admin message, under the next number to send,
  -- also where the message has a number of its own, and then to keep the number after that one and
  -- the next number to receive; the answers to the two calls change nothing.
  pub send_process-persist :
      (c : Connection) (msg : Message) (s : Session T) (p : T) (encoded : Bytes)
      → codec.encode (outbound s msg) ≡ inr encoded
      → (stamped s msg).1 ≡ false
      → s.persist ≡ some p
      → (outbound s msg).end_of_batch ≡ true
      → s.batchmsgs_buffer ≡ []
      → (send_process codec store c msg s).0 ≡ true
      → (send_process codec store c msg s).1.persist
        ≡ some (
            store.put_control (next s.next_send_seq) s.next_receive_seq (
              if codec.is_admin (outbound s msg)
              then p
              else store.put s.next_send_seq (c_str encoded) p))
  send_process-persist c msg s p encoded h d e b n sent =
      let r = send_process-sent_as c msg s (inr encoded) h in
      let r' : send_process codec store c msg s
          ≡ deliver codec store c (outbound s msg) false encoded s =
        r ∙ ap (λ x. deliver codec store c (outbound s msg) x encoded s) d in
      ap (λ x. x.1.persist) r'
      ∙ deliver-persist c (outbound s msg) encoded s p e b n (ap (λ x. x.0) (sym r') ∙ sent)

  -- The message as `send` marks it, and the outcome by the connection.
  abbrev marked : Message → ℕ → Bool → Message
  marked msg custom no_increment = record msg {
    custom_seqnum = (if custom == 0 then msg.custom_seqnum else custom);
    no_increment = no_increment || msg.no_increment;
  }

  abbrev sent_over : Message → Session T → Option Connection → Outcome T Bool
  sent_over m s o = elim o [
    | none ↦ done false s
    | some c ↦ (let (b, s1) = send_process codec store c m s in done b s1)
  ]

  send-sent_over :
      (msg : Message) (custom : ℕ) (no_increment : Bool) (s : Session T) (o : Option Connection)
      → s.connection ≡ o
      → send codec store msg custom no_increment s ≡ sent_over (marked msg custom no_increment) s o
  unfolding send
  send-sent_over msg custom no_increment s o h = ap (sent_over (marked msg custom no_increment) s) h

  -- `send` ends without an exception and leaves alone what `send_process` does.
  pub send-frame :
      (msg : Message) (custom : ℕ) (no_increment : Bool) (s : Session T)
      → (b : Bool) × (t : Session T) × (send codec store msg custom no_increment s ≡ done b t)
        × Untouched s t
  send-frame msg custom no_increment s = elim (Option-cases s.connection) [
    | inl n ↦ (
      false,
      s,
      send-sent_over msg custom no_increment s none n,
      (refl, refl, refl, refl, refl, refl, refl),
    )
    | inr (c, e) ↦
        let m = marked msg custom no_increment in
        let r = send_process codec store c m s in
        (r.0, r.1, send-sent_over msg custom no_increment s (some c) e, send_process-frame c m s)
  ]
