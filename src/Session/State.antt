-- ===== src/Session/State.antt =====
-- The data of a session: the states, the identity, the messages as far as a session reads them, the
-- exceptions, and the members of `Session` with those of its `Connection`. Times are nanoseconds.
use fix.Base.{
  ℕ, Bytes, Bool, true, false, not, List, Option, some, [], ◌∷◌, ◌==◌, ◌&&◌, if◌then◌else◌, is_some,
  same_bytes, ◌⊎◌,
}
use fix.Base.SortedMap.{find, insert, assign}
use fix.Persist.Range.{Records}
use fix.Schedule.{Schedule}

-- `States::SessionStates`.
pub data SessionState : Type 0 where
  st_none : SessionState
  st_continuous : SessionState
  st_session_terminated : SessionState
  st_wait_for_logon : SessionState
  st_not_logged_in : SessionState
  st_logon_sent : SessionState
  st_logon_received : SessionState
  st_logoff_sent : SessionState
  st_logoff_received : SessionState
  st_test_request_sent : SessionState
  st_sequence_reset_sent : SessionState
  st_sequence_reset_received : SessionState
  st_resend_request_sent : SessionState
  st_resend_request_received : SessionState

-- The numbers of the enumerators, by which C++ compares them.
abbrev pub state_number : SessionState → ℕ
state_number st_none = 0
state_number st_continuous = 1
state_number st_session_terminated = 2
state_number st_wait_for_logon = 3
state_number st_not_logged_in = 4
state_number st_logon_sent = 5
state_number st_logon_received = 6
state_number st_logoff_sent = 7
state_number st_logoff_received = 8
state_number st_test_request_sent = 9
state_number st_sequence_reset_sent = 10
state_number st_sequence_reset_received = 11
state_number st_resend_request_sent = 12
state_number st_resend_request_received = 13

abbrev pub is_state : SessionState → SessionState → Bool
is_state a b = state_number a == state_number b

unfoldable pub is_live : SessionState → Bool
is_live ss = not (is_state ss st_none) && not (is_state ss st_session_terminated)

unfoldable pub is_established : SessionState → Bool
unfolding is_live
is_established ss =
    not (is_state ss st_wait_for_logon)
    && (not (is_state ss st_not_logged_in) && (not (is_state ss st_logon_sent) && is_live ss))

-- `SessionID`; `_id` is computed from the others and only printed.
pub record SessionId : Type 0 where
  pub begin_string : Bytes
  pub sender_comp_id : Bytes
  pub target_comp_id : Bytes

unfoldable pub same_sender_comp_id : SessionId → Bytes → Bool
unfolding same_bytes
same_sender_comp_id id target = same_bytes target id.sender_comp_id

unfoldable pub same_target_comp_id : SessionId → Bytes → Bool
unfolding same_bytes
same_target_comp_id id sender = same_bytes sender id.target_comp_id

unfoldable pub make_reverse_id : SessionId → SessionId
make_reverse_id id = record id {
  sender_comp_id = id.target_comp_id;
  target_comp_id = id.sender_comp_id;
}

-- `operator==` and `operator!=`, for two objects: each has a test of its own.
unfoldable pub equal_ids : SessionId → SessionId → Bool
unfolding same_bytes
equal_ids a b =
    same_bytes b.sender_comp_id a.sender_comp_id && same_bytes b.target_comp_id a.target_comp_id

unfoldable pub unequal_ids : SessionId → SessionId → Bool
unfolding same_bytes
unequal_ids a b =
    not (same_bytes b.sender_comp_id a.sender_comp_id)
    && not (same_bytes b.target_comp_id a.target_comp_id)

-- The value of a field. Integers are the non-negative ones.
pub data Value : Type 0 where
  num : ℕ → Value
  flag : Bool → Value
  text : Bytes → Value
  time : ℕ → Value

-- The fields that are present, by their tags.
abbrev pub Fields : Type 0
Fields = List (ℕ × Value)

pub record Message : Type 0 where
  pub msgtype : Bytes
  pub header : Fields
  pub body : Fields
  pub custom_seqnum : ℕ
  pub no_increment : Bool
  pub end_of_batch : Bool

-- `have`.
unfoldable pub have : ℕ → Fields → Bool
unfolding find
have tag m = is_some (find tag m)

-- `<<` of a field the schema has: one that is present is replaced.
unfoldable pub set : ℕ → Value → Fields → Fields
unfolding have insert assign
set tag v m = if have tag m then assign tag v m else insert tag v m

-- `remove`.
unfoldable pub remove : ℕ → Fields → Fields
remove tag [] = []
remove tag ((k, v) ∷ m) = let rest = remove tag m in if k == tag then m else (k, v) ∷ rest

-- `get` into a field that was constructed empty: its value stays where the tag is missing.
unfoldable pub get_num : ℕ → Fields → ℕ
unfolding find
get_num tag m = elim (find tag m) [ some (num n) ↦ n | _ ↦ 0 ]

unfoldable pub get_flag : ℕ → Fields → Bool
unfolding find
get_flag tag m = elim (find tag m) [ some (flag b) ↦ b | _ ↦ false ]

unfoldable pub get_text : ℕ → Fields → Bytes
unfolding find
get_text tag m = elim (find tag m) [ some (text b) ↦ b | _ ↦ [] ]

-- A field of a time is constructed with the time of now.
unfoldable pub get_time : ℕ → ℕ → Fields → ℕ
unfolding find
get_time now tag m = elim (find tag m) [ some (time t) ↦ t | _ ↦ now ]

-- The exceptions that reach a session, `other` with the flag it was made with.
pub data Exception : Type 0 where
  invalid_message : Exception
  invalid_metadata : Exception
  invalid_msg_sequence : ℕ → ℕ → Exception
  msg_sequence_too_low : ℕ → ℕ → Exception
  bad_sending_time : ℕ → Exception
  bad_compid : Bytes → Exception
  other : Bool → Bytes → Exception
  -- `LogfileException`, network errors and the standard ones, which are only reported.
  reported : Exception

abbrev pub force_logoff : Exception → Bool
force_logoff (invalid_msg_sequence _ _) = true
force_logoff (msg_sequence_too_low _ _) = true
force_logoff (bad_sending_time _) = true
force_logoff (bad_compid _) = true
force_logoff (other b _) = b
force_logoff _ = false

pub data Role : Type 0 where
  initiator : Role
  acceptor : Role

-- Whether the socket takes what is sent.
pub data Wire : Type 0 where
  up : Wire
  -- `send` throws `PeerResetConnection` or a network error.
  down : Wire

pub record Connection : Type 0 where
  pub role : Role
  pub connected : Bool
  pub stopped : Bool
  pub peer : ℕ
  pub hb_interval : ℕ
  pub hb_interval20pc : ℕ
  pub wire : Wire

-- The login parameters that `session.cpp` reads; `clients` are names with addresses, and the address 0
-- is the empty `IPAddress`.
pub record LoginParameters : Type 0 where
  pub reset_sequence_numbers : Bool
  pub always_seqnum_assign : Bool
  pub silent_disconnect : Bool
  pub no_chksum_flag : Bool
  pub permissive_mode_flag : Bool
  pub reliable : Bool
  pub enforce_compids : Bool
  pub clients : List (Bytes × ℕ)

-- What a session asks of a persister. `get` is the overload for a range, which reads through
-- `records`; the results of `put` are not looked at.
pub record Persister (T : Type 0) : Type 0 where
  pub put : ℕ → Bytes → T → T
  pub put_control : ℕ → ℕ → T → T
  pub get_control : T → Option (ℕ × ℕ)
  pub records : Records T

-- `SessionConfig`: what `session.cpp` asks of it. `create_persister` is told whether to purge.
pub record SessionConfig (T : Type 0) : Type 0 where
  pub ignore_logon_sequence_check : Bool
  pub session_schedule : Option Schedule
  pub create_persister : SessionId → Bool → Option T

-- The members of `Session`, the bytes the socket took with the last first, and the clock.
pub record Session (T : Type 0) : Type 0 where
  pub shutdown : Bool
  pub state : SessionState
  pub active : Bool
  pub next_send_seq : ℕ
  pub next_receive_seq : ℕ
  pub req_next_send_seq : ℕ
  pub req_next_receive_seq : ℕ
  pub last_sent : ℕ
  pub last_received : ℕ
  pub sci : Bytes
  pub sid : SessionId
  pub connection : Option Connection
  pub config : Option (SessionConfig T)
  pub login_parameters : LoginParameters
  pub login_schedule : Schedule
  pub persist : Option T
  pub schedule : Option Schedule
  pub heartbeat_timer : Bool
  pub batchmsgs_buffer : Bytes
  pub wire_out : List Bytes
  pub now : ℕ

-- What a session asks of the classes that the compiler of the schema generates, and of the derived
-- class: `factory` is told not to look at the checksum, and whether to be permissive.
pub record Codec : Type 0 where
  pub begin_str : Bytes
  pub factory : Bytes → Bool → Bool → Exception ⊎ Message
  pub encode : Message → Exception ⊎ Bytes
  pub has_message : Bytes → Bool
  pub is_admin : Message → Bool
  pub has_default_appl_ver_id : Bool
  pub what : Exception → Bytes
  pub modify_header : Message → Message
  pub modify_outbound : Message → Message
