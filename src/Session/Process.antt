-- ===== src/Session/Process.antt =====
-- `process`, which takes a message from the wire, and `start`.
pub mod Laws
pub mod Gap
use fix.Base.{
  ℕ, zero, suc, ◌+◌, ◌%◌, Bytes, Bool, true, false, not, Option, none, some, [], ◌∷◌, List, ◌==◌,
  ◌&&◌, ◌||◌, if◌then◌else◌, is_some, codes, drop, length, ◌⊎◌, inl, inr,
}
use fix.Codec.Decimal.{u32, fast_atoi}
use fix.Codec.Element.{soh}
use fix.Session.State.{
  Session, Message, Exception, invalid_message, force_logoff, Persister, Codec, Connection, Role,
  initiator, acceptor, SessionState, st_logon_received, st_session_terminated, st_logoff_sent,
  st_wait_for_logon, st_not_logged_in, st_logon_sent, reported, SessionId, is_state,
}
use fix.Session.Act.{
  Act, Outcome, stuck, ◌>>=◌, ◌>>◌, return, throw, modify, read, when, catch, lift, done,
}
use fix.Session.Send.{
  next, do_state_change, send_new, send, stop, recover_seqnums, update_persist_seqnums,
}
use fix.Session.Send.Build.{generate_logon, generate_logout}
use fix.Session.Resend.{handle_resend_request, handle_outbound_reject}
use fix.Session.Logon.{
  handle_logon, handle_logout, handle_sequence_reset, handle_test_request, handle_heartbeat,
}

-- What a derived class does.
pub record Application (T : Type 0) : Type 0 where
  pub handle_application : ℕ → Message → Act T Bool
  pub handle_admin : ℕ → Message → Act T Bool
  pub handle_reject : ℕ → Message → Act T Bool
  pub authenticate : SessionId → Message → Bool

-- What follows the first occurrence of "34=".
unfoldable pub after_seqnum_tag : Bytes → Option Bytes
after_seqnum_tag (a ∷ b ∷ c ∷ s) =
    let rest = after_seqnum_tag (b ∷ c ∷ s) in
    if a == b'3' && (b == b'4' && c == b'=') then some s else rest
after_seqnum_tag _ = none

-- The branches of the switch.
pub data Kind : Type 0 where
  application : Kind
  heartbeat : Kind
  test_request : Kind
  resend_request : Kind
  reject : Kind
  sequence_reset : Kind
  logout : Kind
  logon : Kind

unfoldable pub kind_of : Bytes → Kind
kind_of (c ∷ []) =
    if c == b'0'
    then heartbeat
    else if c == b'1'
    then test_request
    else if c == b'2'
    then resend_request
    else if c == b'3'
    then reject
    else if c == b'4'
    then sequence_reset
    else if c == b'5'
    then logout
    else if c == b'A'
    then logon
    else application
kind_of _ = application

abbrev pub is_logout : Kind → Bool
is_logout logout = true
is_logout _ = false

module _ {T : Type 0} (codec : Codec) (store : Persister T) (app : Application T) where
  unfoldable pub dispatch : Kind → ℕ → Message → Act T Bool
  unfolding handle_heartbeat handle_test_request handle_resend_request handle_sequence_reset
      handle_logout handle_logon
  dispatch application seqnum msg = read (λ s. s.active) >>= λ active.
      if active then app.handle_application seqnum msg else return false
  dispatch heartbeat seqnum msg = handle_heartbeat codec store seqnum msg
  dispatch test_request seqnum msg = handle_test_request codec store seqnum msg
  dispatch resend_request seqnum msg = handle_resend_request codec store seqnum msg
  dispatch reject seqnum msg = app.handle_reject seqnum msg
  dispatch sequence_reset seqnum msg = handle_sequence_reset codec store seqnum msg
  dispatch logout seqnum msg = handle_logout codec store seqnum msg
  dispatch logon seqnum msg = handle_logon codec store app.authenticate seqnum msg

  abbrev advance : Act T (Unit {0})
  advance = modify (λ s. record s { next_receive_seq = next s.next_receive_seq })

  -- The body of the `try`, from the message on.
  unfoldable pub handle : ℕ → Message → Act T Bool
  unfolding kind_of dispatch update_persist_seqnums stop
  handle seqnum msg =
      (if codec.is_admin msg then app.handle_admin seqnum msg else return true) >>= λ admin_result.
      dispatch (kind_of msg.msgtype) seqnum msg >>= λ result.
      advance
      >> modify (update_persist_seqnums codec store)
      >> when (is_logout (kind_of msg.msgtype)) (modify stop)
      >> return (result && admin_result)

  abbrev is_reported : Exception → Bool
  is_reported reported = true
  is_reported _ = false

  -- The logout that follows an exception during logon.
  abbrev log_off : Exception → Act T (Unit {0})
  log_off e =
      do_state_change st_session_terminated
      >> lift (generate_logout codec (some (codec.what e)))
      >>= λ msg. send codec store msg 0 true >> do_state_change st_logoff_sent

  -- The `catch` clauses.
  unfoldable pub recover : ℕ → Option Message → Exception → Act T Bool
  unfolding generate_logout send handle_outbound_reject stop
  recover seqnum msg e s =
      (if is_reported e
          then return false
          else if force_logoff e
          then (when
                (is_state s.state st_logon_received && not s.login_parameters.silent_disconnect)
                (log_off e)
              >> (if s.login_parameters.reliable then throw e else modify stop >> return false))
          else handle_outbound_reject codec store seqnum msg (codec.what e)
            >> advance
            >> return true)
        s

  unfoldable pub process : Bytes → Act T Bool
  unfolding after_seqnum_tag fast_atoi handle recover
  process from s =
      let p = s.login_parameters in
      elim (after_seqnum_tag from) [
        | none ↦ recover 0 none invalid_message s
        | some digits ↦ elim (fast_atoi u32 soh digits) [
          | none ↦ stuck
          | some seqnum ↦ elim (codec.factory from p.no_chksum_flag p.permissive_mode_flag) [
            | inl e ↦ recover seqnum none e s
            | inr msg ↦ catch (handle seqnum msg) (recover seqnum (some msg)) s
          ]
        ]
      ]

  abbrev atomic_init : SessionState → Session T → Session T
  atomic_init st s = record s { state = st; next_send_seq = 1; next_receive_seq = 1; active = true }

  abbrev override : ℕ → ℕ → ℕ
  override given old = if given == 0 then old else given

  -- `start`, without waiting, on a connection that `connect` has been called on.
  unfoldable pub start : Connection → ℕ → ℕ → Bytes → Act T Bool
  unfolding recover_seqnums generate_logon
  start c send_seqnum recv_seqnum davi s =
      let s0 = record s { shutdown = false; connection = some c } in
      let scheduled : Session T → Session T =
        λ t. record t { schedule = elim t.config [ none ↦ none | some g ↦ g.session_schedule ] } in
      (if not c.connected
          then return false
          else (elim c.role [
            | acceptor ↦ modify (λ t. record (atomic_init st_wait_for_logon t) {
              req_next_send_seq = override send_seqnum t.req_next_send_seq;
              req_next_receive_seq = override recv_seqnum t.req_next_receive_seq;
            })
            | initiator ↦
                modify (λ t.
                  let u = atomic_init st_not_logged_in t in
                  let v = recover_seqnums codec store u in
                  if u.login_parameters.reset_sequence_numbers then u else record v {
                    next_send_seq = override send_seqnum v.next_send_seq;
                    next_receive_seq = override recv_seqnum v.next_receive_seq;
                  })
                >> send_new codec store (
                    generate_logon codec c.hb_interval davi
                      s.login_parameters.reset_sequence_numbers)
                >> do_state_change st_logon_sent
          ])
            >> modify scheduled
            >> return true)
        s0
