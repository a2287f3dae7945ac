-- ===== src/Session/Logon.antt =====
-- `handle_logon` and the other admin messages.
use fix.Base.{
  ℕ, ◌+◌, ◌-◌, ◌/◌, ◌%◌, Bytes, Bool, true, false, not, Option, none, some, List, [], ◌∷◌, ◌==◌,
  ◌&&◌, ◌||◌, if◌then◌else◌, is_some, codes, same_bytes,
}
use fix.Codec.Decimal.{u32}
use fix.Schedule.{is_valid, test}
use fix.Session.State.{
  Session, Message, Persister, Codec, Connection, initiator, acceptor, st_continuous, SessionId,
  st_logon_received, st_session_terminated, st_resend_request_sent, st_test_request_sent,
  msg_sequence_too_low, get_num, get_flag, get_text, have, is_state, unequal_ids,
}
use fix.Session.Act.{Act, ◌>>=◌, ◌>>◌, return, throw, modify, read, when}
use fix.Session.Send.{do_state_change, send_new, stop, recover_seqnums}
use fix.Session.Send.Build.{
  generate_reject, generate_logon, generate_heartbeat, tag_SenderCompID, tag_TargetCompID,
  tag_ResetSeqNumFlag, tag_HeartBtInt, tag_DefaultApplVerID, tag_NewSeqNo, tag_TestReqID,
}
use fix.Session.Check.{enforce}
use fix.Session.Resend.{at_least}

-- The client of that name in the list, by its address.
abbrev address_of : Bytes → List (Bytes × ℕ) → Option ℕ
address_of name [] = none
address_of name ((n, a) ∷ rest) = if same_bytes n name then some a else address_of name rest

-- Whether the remote is let in: the list of clients is empty, or it names the remote with no address
-- or with the peer's.
unfoldable pub is_authorised : Bytes → ℕ → List (Bytes × ℕ) → Bool
is_authorised name peer [] = true
is_authorised name peer (c ∷ cs) = elim (address_of name (c ∷ cs)) [
  | none ↦ false
  | some a ↦ a == 0 || a == peer
]

module _ {T : Type 0} where
  -- `stop(); do_state_change(States::st_session_terminated); return false;`
  abbrev pub refuse : Act T Bool
  refuse = modify stop >> do_state_change st_session_terminated >> return false

  abbrev set_hb_interval : ℕ → Session T → Session T
  set_hb_interval hb s = record s {
    connection = elim s.connection [
      | none ↦ none
      | some c ↦ some (record c { hb_interval = hb; hb_interval20pc = (hb + hb / 5) % u32 })
    ];
  }

  -- The persister that the configuration makes where there is none.
  unfoldable pub open_persister : SessionId → Bool → Session T → Session T
  open_persister id reset_given s = elim s.config [
    | none ↦ s
    | some c ↦
        if is_some s.persist then s else record s { persist = c.create_persister id reset_given }
  ]

  unfoldable pub logon_seqnums : Codec → Persister T → Bool → Session T → Session T
  unfolding recover_seqnums
  logon_seqnums codec store reset_given s =
      if reset_given
      then record s { next_send_seq = 1; next_receive_seq = 1 }
      else (let s1 = recover_seqnums codec store s in
          record s1 {
            next_send_seq =
                if s1.req_next_send_seq == 0 then s1.next_send_seq else s1.req_next_send_seq;
            next_receive_seq =
                if s1.req_next_receive_seq == 0
                then s1.next_receive_seq
                else s1.req_next_receive_seq;
          })

module _ {T : Type 0} (codec : Codec) (store : Persister T)
    (authenticate : SessionId → Message → Bool) where
  abbrev start_heartbeat : Act T Bool
  start_heartbeat = modify (λ s. record s { heartbeat_timer = true }) >> return true

  unfoldable pub logon_initiator : ℕ → Message → SessionId → Act T Bool
  unfolding enforce unequal_ids stop
  logon_initiator seqnum msg id s =
      (if unequal_ids id s.sid && s.login_parameters.enforce_compids
          then refuse
          else enforce codec store seqnum msg >> do_state_change st_continuous >> start_heartbeat)
        s

  -- From `authenticate` on.
  unfoldable pub accept : ℕ → Message → SessionId → Act T Bool
  unfolding enforce get_num get_text generate_logon stop is_valid test
  accept seqnum msg id =
      let hbi = get_num tag_HeartBtInt msg.body in
      let davi = get_text tag_DefaultApplVerID msg.body in
      if authenticate id msg
      then (modify (λ s. record s { sid = id })
          >> enforce codec store seqnum msg
          >> modify (set_hb_interval hbi)
          >> read (λ s. s.login_parameters.reset_sequence_numbers)
          >>= λ reset.
              send_new codec store (generate_logon codec hbi davi reset)
              >> do_state_change st_continuous
              >> read (λ s. is_valid s.login_schedule && not (test s.login_schedule s.now false))
              >>= λ unavailable. if unavailable then refuse else start_heartbeat)
      else refuse

  unfoldable pub logon_acceptor : ℕ → Message → SessionId → Bool → Connection → Act T Bool
  unfolding same_bytes is_authorised open_persister logon_seqnums accept stop
  logon_acceptor seqnum msg id reset_given c s =
      (if not (same_bytes s.sci id.sender_comp_id) && s.login_parameters.enforce_compids
          then refuse
          else if not (is_authorised id.target_comp_id c.peer s.login_parameters.clients)
          then refuse
          else modify (open_persister id reset_given)
            >> modify (logon_seqnums codec store reset_given)
            >> accept seqnum msg id)
        s

  -- A session that handles messages has a connection.
  unfoldable pub handle_logon : ℕ → Message → Act T Bool
  unfolding generate_reject have get_flag get_text logon_initiator logon_acceptor
  handle_logon seqnum msg s =
      let reset_given =
        have tag_ResetSeqNumFlag msg.body && get_flag tag_ResetSeqNumFlag msg.body in
      let id : SessionId = record {
        begin_string = codec.begin_str;
        sender_comp_id = get_text tag_TargetCompID msg.header;
        target_comp_id = get_text tag_SenderCompID msg.header;
      } in
      (if is_state s.state st_continuous
          then (send_new codec store
                (generate_reject codec seqnum (some (codes "Already logged on")) none)
              >> return true)
          else (do_state_change st_logon_received >> elim s.connection [
            | none ↦ return false
            | some c ↦ elim c.role [
              | initiator ↦ logon_initiator seqnum msg id
              | acceptor ↦ logon_acceptor seqnum msg id reset_given c
            ]
          ]))
        s

module _ {T : Type 0} (codec : Codec) (store : Persister T) where
  unfoldable pub handle_logout : ℕ → Message → Act T Bool
  unfolding enforce
  handle_logout seqnum msg = enforce codec store seqnum msg >> return true

  -- NewSeqNo is an `int`, here its 32 bits.
  unfoldable pub handle_sequence_reset : ℕ → Message → Act T Bool
  unfolding enforce have get_num
  handle_sequence_reset seqnum msg =
      let nsn = get_num tag_NewSeqNo msg.body in
      let reset : Act T (Unit {0}) = λ s.
        (if not (have tag_NewSeqNo msg.body)
            then return tt
            else if at_least nsn s.next_receive_seq
            then modify (λ t. record t { next_receive_seq = (nsn + (u32 - 1)) % u32 })
            else throw (msg_sequence_too_low nsn s.next_receive_seq))
          s in
      let resume : Act T (Unit {0}) =
        λ s. when (is_state s.state st_resend_request_sent) (do_state_change st_continuous) s in
      enforce codec store seqnum msg >> reset >> resume >> return true

  unfoldable pub handle_test_request : ℕ → Message → Act T Bool
  unfolding enforce get_text generate_heartbeat
  handle_test_request seqnum msg =
      enforce codec store seqnum msg
      >> send_new codec store (generate_heartbeat codec (get_text tag_TestReqID msg.body))
      >> return true

  unfoldable pub handle_heartbeat : ℕ → Message → Act T Bool
  unfolding enforce
  handle_heartbeat seqnum msg =
      let resume : Act T (Unit {0}) =
        λ s. when (is_state s.state st_test_request_sent) (do_state_change st_continuous) s in
      enforce codec store seqnum msg >> resume >> return true
