-- ===== src/Session/Send/Build.antt =====
-- The admin messages that a session makes, with the tags and the message types of
-- include/fix8/field.hpp. The schema permits the fields that are set here.
use fix.Base.{
  ℕ, Bytes, Bool, true, false, not, Option, none, some, [], ◌∷◌, ◌&&◌, if◌then◌else◌, ◌⊎◌, inl, inr,
  codes, ◌≡◌, refl,
}
use fix.Session.State.{
  Message, Fields, Exception, invalid_metadata, Codec, Value, num, flag, text, set,
}

abbrev pub tag_BeginSeqNo : ℕ
tag_BeginSeqNo = 7

abbrev pub tag_EndSeqNo : ℕ
tag_EndSeqNo = 16

abbrev pub tag_MsgSeqNum : ℕ
tag_MsgSeqNum = 34

abbrev pub tag_NewSeqNo : ℕ
tag_NewSeqNo = 36

abbrev pub tag_PossDupFlag : ℕ
tag_PossDupFlag = 43

abbrev pub tag_RefSeqNum : ℕ
tag_RefSeqNum = 45

abbrev pub tag_SenderCompID : ℕ
tag_SenderCompID = 49

abbrev pub tag_SendingTime : ℕ
tag_SendingTime = 52

abbrev pub tag_TargetCompID : ℕ
tag_TargetCompID = 56

abbrev pub tag_Text : ℕ
tag_Text = 58

abbrev pub tag_EncryptMethod : ℕ
tag_EncryptMethod = 98

abbrev pub tag_HeartBtInt : ℕ
tag_HeartBtInt = 108

abbrev pub tag_TestReqID : ℕ
tag_TestReqID = 112

abbrev pub tag_OrigSendingTime : ℕ
tag_OrigSendingTime = 122

abbrev pub tag_GapFillFlag : ℕ
tag_GapFillFlag = 123

abbrev pub tag_ResetSeqNumFlag : ℕ
tag_ResetSeqNumFlag = 141

abbrev pub tag_RefMsgType : ℕ
tag_RefMsgType = 372

abbrev pub tag_BusinessRejectReason : ℕ
tag_BusinessRejectReason = 380

abbrev pub tag_DefaultApplVerID : ℕ
tag_DefaultApplVerID = 1137

abbrev pub msgtype_heartbeat : Bytes
msgtype_heartbeat = codes "0"

abbrev pub msgtype_test_request : Bytes
msgtype_test_request = codes "1"

abbrev pub msgtype_resend_request : Bytes
msgtype_resend_request = codes "2"

abbrev pub msgtype_reject : Bytes
msgtype_reject = codes "3"

abbrev pub msgtype_sequence_reset : Bytes
msgtype_sequence_reset = codes "4"

abbrev pub msgtype_logout : Bytes
msgtype_logout = codes "5"

abbrev pub msgtype_logon : Bytes
msgtype_logon = codes "A"

abbrev pub msgtype_business_reject : Bytes
msgtype_business_reject = codes "j"

-- The constructor of `Message`, with its body.
abbrev pub blank : Bytes → Fields → Message
blank msgtype body = record {
  msgtype = msgtype;
  header = [];
  body = body;
  custom_seqnum = 0;
  no_increment = false;
  end_of_batch = true;
}

module _ (codec : Codec) where
  -- `create_msg`, with the body that its callers fill in: it throws before they do.
  unfoldable pub create_msg : Bytes → Fields → Exception ⊎ Message
  create_msg msgtype body =
      if codec.has_message msgtype then inr (blank msgtype body) else inl invalid_metadata

  -- `<<` under a test.
  abbrev pub set_if : Bool → ℕ → Value → Fields → Fields
  set_if b tag v m = if b then set tag v m else m

  abbrev pub set_some : Option Bytes → ℕ → Fields → Fields
  set_some none tag m = m
  set_some (some b) tag m = set tag (text b) m

  abbrev is_empty : Bytes → Bool
  is_empty [] = true
  is_empty (_ ∷ _) = false

  unfoldable pub generate_heartbeat : Bytes → Exception ⊎ Message
  unfolding create_msg set
  generate_heartbeat test_req_id =
      create_msg msgtype_heartbeat
        (set_if (not (is_empty test_req_id)) tag_TestReqID (text test_req_id) [])

  unfoldable pub generate_reject : ℕ → Option Bytes → Option Bytes → Exception ⊎ Message
  unfolding create_msg set
  generate_reject seqnum what msgtype =
      create_msg msgtype_reject (
        set_some msgtype tag_RefMsgType
          (set_some what tag_Text (set tag_RefSeqNum (num seqnum) [])))

  -- The exception is caught; `none` is a null pointer.
  unfoldable pub generate_business_reject : ℕ → Message → ℕ → Option Bytes → Option Message
  unfolding create_msg set
  generate_business_reject seqnum imsg reason what =
      let body = set_some what tag_Text (
        set tag_BusinessRejectReason (num reason)
          (set tag_RefMsgType (text imsg.msgtype) (set tag_RefSeqNum (num seqnum) []))) in
      elim (create_msg msgtype_business_reject body) [ inl _ ↦ none | inr msg ↦ some msg ]

  unfoldable pub generate_test_request : Bytes → Exception ⊎ Message
  unfolding create_msg set
  generate_test_request test_req_id =
      create_msg msgtype_test_request (set tag_TestReqID (text test_req_id) [])

  -- `reset` is `_loginParameters._reset_sequence_numbers`.
  unfoldable pub generate_logon : ℕ → Bytes → Bool → Exception ⊎ Message
  unfolding create_msg set
  generate_logon heartbtint davi reset = create_msg msgtype_logon (
      set_if reset tag_ResetSeqNumFlag (flag true) (
        set_if (not (is_empty davi) && codec.has_default_appl_ver_id) tag_DefaultApplVerID
          (text davi) (set tag_EncryptMethod (num 0) (set tag_HeartBtInt (num heartbtint) []))))

  unfoldable pub generate_logout : Option Bytes → Exception ⊎ Message
  unfolding create_msg set
  generate_logout msgstr = create_msg msgtype_logout (set_some msgstr tag_Text [])

  unfoldable pub generate_resend_request : ℕ → ℕ → Exception ⊎ Message
  unfolding create_msg set
  generate_resend_request begin end =
      create_msg msgtype_resend_request
        (set tag_EndSeqNo (num end) (set tag_BeginSeqNo (num begin) []))

  unfoldable pub generate_sequence_reset : ℕ → Bool → Exception ⊎ Message
  unfolding create_msg set
  generate_sequence_reset newseqnum gapfillflag =
      create_msg msgtype_sequence_reset
        (set_if gapfillflag tag_GapFillFlag (flag true) (set tag_NewSeqNo (num newseqnum) []))

  -- A message whose type the schema has is made.
  pub create_msg-known :
      (msgtype : Bytes) (body : Fields)
      → codec.has_message msgtype ≡ true
      → create_msg msgtype body ≡ inr (blank msgtype body)
  unfolding create_msg
  create_msg-known msgtype body h = rw h refl
