-- ===== src/Session/Send.antt =====
-- What a session sends: the admin messages, `send` with `FIXWriter::write` of
-- include/fix8/connection.hpp outside the pipelined model, `send_process`, and the sequence numbers
-- in the persister.
pub mod Build
pub mod Laws
use fix.Base.{
  ℕ, ◌+◌, ◌%◌, Bytes, Bool, true, false, not, List, Option, none, some, [], ◌∷◌, ◌++◌, ◌==◌, ◌&&◌,
  ◌||◌, ltb, if◌then◌else◌, is_some, same_bytes, length, zero, suc, ◌⊎◌, inl, inr,
}
use fix.Codec.Decimal.{u32}
use fix.Codec.Header.{c_str}
use fix.Session.State.{
  Session, Message, Fields, Exception, Persister, Codec, Connection, Wire, up, down, SessionState,
  Role, initiator, acceptor, num, flag, text, time, have, set, remove, get_time, is_state,
}
use fix.Session.Act.{Act, ◌>>=◌, ◌>>◌, return, modify, read, when, lift, done}
use fix.Session.Send.Build.{
  tag_MsgSeqNum, tag_PossDupFlag, tag_SenderCompID, tag_SendingTime, tag_TargetCompID,
  tag_OrigSendingTime, msgtype_sequence_reset,
}

-- `++` on an `unsigned`.
abbrev pub next : ℕ → ℕ
next n = (n + 1) % u32

abbrev pub do_state_change : {T : Type 0} → SessionState → Act T (Unit {0})
do_state_change new = modify (λ s. record s { state = new })

abbrev is_empty_batch : List Message → Bool
is_empty_batch [] = true
is_empty_batch (_ ∷ _) = false

-- The header that `send_process` makes, and whether the message counts as a duplicate.
module _ {T : Type 0} (session : Session T) where
  abbrev pub seqnum_of : Message → ℕ
  seqnum_of msg = if msg.custom_seqnum == 0 then session.next_send_seq else msg.custom_seqnum

  abbrev pub comp_ids : Fields → Fields
  comp_ids h =
      let h1 =
        if have tag_SenderCompID h
        then h
        else set tag_SenderCompID (text session.sid.sender_comp_id) h in
      if have tag_TargetCompID h1
      then h1
      else set tag_TargetCompID (text session.sid.target_comp_id) h1

  -- The branch for a message that has a sequence number already.
  unfoldable pub renumbered : Message → Bool → Fields → Fields × Bool
  unfolding set get_time remove
  renumbered msg is_dup h =
      let assign_seq = session.login_parameters.always_seqnum_assign in
      let h1 =
        if is_dup
        then (if assign_seq then remove tag_PossDupFlag h else h)
        else if assign_seq
        then h
        else set tag_PossDupFlag (flag true) h in
      let h2 = set tag_OrigSendingTime (time (get_time session.now tag_SendingTime h1)) h1 in
      (
        (if assign_seq then set tag_MsgSeqNum (num (seqnum_of msg)) h2 else h2),
        is_dup || not assign_seq,
      )

  unfoldable pub stamped : Message → Message × Bool
  stamped msg =
      let is_dup = have tag_PossDupFlag msg.header in
      let h = comp_ids msg.header in
      let (h1, dup) =
        if have tag_MsgSeqNum h
        then renumbered msg is_dup h
        else (set tag_MsgSeqNum (num (seqnum_of msg)) h, is_dup) in
      (record msg { header = set tag_SendingTime (time session.now) h1 }, dup)

-- The part of `send_process` that may throw: `none` is an exception, which the caller catches.
module _ {T : Type 0} (codec : Codec) (store : Persister T) where
  -- Recording what was sent; `persisted` is what `ptr` points at.
  abbrev record_sent : Message → Bytes → Session T → Session T
  record_sent msg persisted s =
      let kept : Option T = elim s.persist [
        | none ↦ none
        | some p ↦
            let p1 = if codec.is_admin msg then p else store.put s.next_send_seq persisted p in
            some (store.put_control (next s.next_send_seq) s.next_receive_seq p1)
      ] in
      let moves =
        msg.custom_seqnum == 0
        && (not msg.no_increment && not (same_bytes msg.msgtype msgtype_sequence_reset)) in
      record s {
        persist = kept;
        next_send_seq = (if moves then next s.next_send_seq else s.next_send_seq);
      }

  -- `send` of the connection answers how much it sent, and throws where the peer is gone.
  unfoldable pub transmit : Connection → Bytes → Session T → Option ℕ × Session T
  transmit c encoded s = elim c.wire [
    | up ↦ (some (length encoded), record s { wire_out = encoded ∷ s.wire_out })
    | down ↦ (none, s)
  ]

  -- The code reads `ptr` as a C string where it appends or persists it. At the end of a batch `ptr` is
  -- the buffer, which was cleared before it is persisted and begins with a zero.
  unfoldable pub deliver : Connection → Message → Bool → Bytes → Session T → Bool × Session T
  unfolding transmit c_str
  deliver c msg dup encoded s =
      let buffered = not (length s.batchmsgs_buffer == 0) in
      let text = c_str encoded in
      let whole = if buffered then s.batchmsgs_buffer ++ text else encoded in
      let finish : Bytes → Session T → Bool × Session T =
        λ persisted s'. (true, if dup then s' else record_sent msg persisted s') in
      if msg.end_of_batch
      then (let s0 = record s { batchmsgs_buffer = if buffered then whole else [] } in
          let (sent, s1) = transmit c whole s0 in
          elim sent [
            | none ↦ (false, s1)
            | some zero ↦ (false, record s1 { batchmsgs_buffer = [] })
            | some (suc _) ↦
                finish (if buffered then [] else text)
                  (record s1 { last_sent = s.now; batchmsgs_buffer = [] })
          ])
      else finish text (record s { batchmsgs_buffer = s.batchmsgs_buffer ++ text })

  unfoldable pub send_process : Connection → Message → Session T → Bool × Session T
  unfolding stamped deliver
  send_process c msg s =
      let (m, dup) = stamped s msg in
      let out = codec.modify_outbound (codec.modify_header m) in
      elim (codec.encode out) [ inl _ ↦ (false, s) | inr encoded ↦ deliver c out dup encoded s ]

  -- `send`, with `write` of the connection.
  unfoldable pub send : Message → ℕ → Bool → Act T Bool
  unfolding send_process
  send msg custom_seqnum no_increment s =
      let m = record msg {
        custom_seqnum = (if custom_seqnum == 0 then msg.custom_seqnum else custom_seqnum);
        no_increment = no_increment || msg.no_increment;
      } in
      elim s.connection [
        | none ↦ done false s
        | some c ↦ (let (b, s1) = send_process c m s in done b s1)
      ]

  -- `send(generate_…(…))` with its defaults, and with a number.
  abbrev pub send_new : Exception ⊎ Message → Act T Bool
  send_new made = do msg ← lift made; send msg 0 false

  abbrev pub send_as : Exception ⊎ Message → ℕ → Act T Bool
  send_as made custom = do msg ← lift made; send msg custom false

  -- `write_batch`: how many were sent.
  unfoldable pub batch_loop : Connection → List Message → Session T → ℕ × Session T
  unfolding send_process
  batch_loop c [] s = (0, s)
  batch_loop c (m ∷ ms) s =
      let (b, s1) = send_process c (record m { end_of_batch = is_empty_batch ms }) s in
      let (n, s2) = batch_loop c ms s1 in (if b then n + 1 else n, s2)

  unfoldable pub write_batch : Connection → List Message → Session T → ℕ × Session T
  unfolding batch_loop send_process
  write_batch c [] s = (0, s)
  write_batch c (m ∷ []) s = (let (b, s1) = send_process c m s in (if b then 1 else 0, s1))
  write_batch c (m ∷ n ∷ ms) s = batch_loop c (m ∷ n ∷ ms) s

  unfoldable pub update_persist_seqnums : Session T → Session T
  update_persist_seqnums s = elim s.persist [
    | none ↦ s
    | some p ↦ record s { persist = some (store.put_control s.next_send_seq s.next_receive_seq p) }
  ]

  unfoldable pub recover_seqnums : Session T → Session T
  recover_seqnums s = elim s.persist [
    | none ↦ s
    | some p ↦ elim (store.get_control p) [
      | none ↦ s
      | some (send_seqnum, receive_seqnum) ↦ record s {
        next_send_seq = send_seqnum;
        next_receive_seq = receive_seqnum;
      }
    ]
  ]

-- `stop` on another thread than the timer's. Stopping the persister and the timer's thread does not
-- concern the members kept here.
unfoldable pub stop : {T : Type 0} → Session T → Session T
stop s = if s.shutdown then s else record s {
  shutdown = true;
  heartbeat_timer = elim s.connection [
    | none ↦ s.heartbeat_timer
    | some c ↦ elim c.role [ initiator ↦ false | acceptor ↦ s.heartbeat_timer ]
  ];
  connection = elim s.connection [ none ↦ none | some c ↦ some (record c { stopped = true }) ];
}
