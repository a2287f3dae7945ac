-- ===== src/Session/Check.antt =====
-- `compid_check`, `sequence_check` and `enforce`.
pub mod Laws
use fix.Base.{
  ℕ, ◌+◌, Bytes, Bool, true, false, not, Option, none, some, ◌&&◌, ◌||◌, ltb, if◌then◌else◌,
  same_bytes,
}
use fix.Session.State.{
  Session, Message, Exception, invalid_msg_sequence, msg_sequence_too_low, bad_sending_time,
  bad_compid, Persister, Codec, SessionState, st_continuous, st_resend_request_sent,
  st_logon_received, SessionId, have, get_flag, get_text, get_time, is_state, is_established,
  same_sender_comp_id, same_target_comp_id,
}
use fix.Session.Act.{Act, ◌>>=◌, ◌>>◌, return, throw, modify, read, when}
use fix.Session.Send.{do_state_change, send_new}
use fix.Session.Send.Build.{
  generate_resend_request, tag_PossDupFlag, tag_SenderCompID, tag_TargetCompID, tag_SendingTime,
  tag_OrigSendingTime, msgtype_sequence_reset,
}

module _ {T : Type 0} where
  -- A header has the two identifiers: the codec refuses one that has not.
  unfoldable pub compid_check : Message → SessionId → Act T (Unit {0})
  unfolding same_sender_comp_id same_target_comp_id get_text
  compid_check msg id s =
      let sender = get_text tag_SenderCompID msg.header in
      let target = get_text tag_TargetCompID msg.header in
      (if not s.login_parameters.enforce_compids
          then return tt
          else if not (same_sender_comp_id id target)
          then throw (bad_compid target)
          else if not (same_target_comp_id id sender)
          then throw (bad_compid sender)
          else return tt)
        s

  abbrev ignores_logon_sequence : Session T → Bool
  ignores_logon_sequence s = elim s.config [ none ↦ false | some c ↦ c.ignore_logon_sequence_check ]

module _ {T : Type 0} (codec : Codec) (store : Persister T) where
  unfoldable pub sequence_check : ℕ → Message → Act T Bool
  unfolding generate_resend_request have get_flag get_time
  sequence_check seqnum msg s =
      let expected = s.next_receive_seq in
      (if ltb expected seqnum
          then (if is_state s.state st_continuous
              then send_new codec store (generate_resend_request codec expected 0)
                >> do_state_change st_resend_request_sent
                >> return false
              else if ignores_logon_sequence s
              then return false
              else throw (invalid_msg_sequence seqnum expected))
          else if ltb seqnum expected
          then (if not (get_flag tag_PossDupFlag msg.header)
              then throw (msg_sequence_too_low seqnum expected)
              else if have tag_OrigSendingTime msg.header
                  && ltb (get_time s.now tag_SendingTime msg.header)
                      (get_time s.now tag_OrigSendingTime msg.header)
              then throw (bad_sending_time (get_time s.now tag_OrigSendingTime msg.header))
              else return true)
          else return true)
        s

  unfoldable pub enforce : ℕ → Message → Act T Bool
  unfolding compid_check sequence_check is_established
  enforce seqnum msg s =
      let sequence : Act T Bool =
        if same_bytes msg.msgtype msgtype_sequence_reset
        then return true
        else (sequence_check seqnum msg >>= λ checked. return (not checked)) in
      (if is_established s.state
          then when (not (is_state s.state st_logon_received)) (compid_check msg s.sid) >> sequence
          else return true)
        s
