-- ===== src/Tests/Session.antt =====
-- The theorems of the session at concrete inputs: a session over the memory persister, and a schema
-- whose class makes one given message of all bytes.
use fix.Base.{
  ◌-◌, ◌*◌, ◌^◌, ◌≡◌, refl, Bool, Bytes, true, false, not, ◌&&◌, none, some, [], ◌∷◌, ◌==◌,
  if◌then◌else◌, codes, arith, length, same_bytes, ◌++◌, inl, inr,
}
use fix.Base.SortedMap.{find}
use fix.Codec.Decimal.{fast_atoi}
use fix.Persist.Memory
use fix.Persist.Memory.{Store}
use fix.Schedule.{Schedule, errorticks}
use fix.Session.State.{
  Session, Message, Persister, Codec, Connection, initiator, acceptor, up, st_continuous,
  st_test_request_sent, st_logoff_sent, st_resend_request_sent, is_state, get_text, get_flag,
  get_num, have, same_sender_comp_id, same_target_comp_id, num, text, time, Fields, is_established,
}
use fix.Session.Act.{done, return}
use fix.Session.Send.{next, send, send_process, stamped, stop, update_persist_seqnums}
use fix.Session.Send.Laws.{takes_number, outbound, send_process-numbers}
use fix.Session.Check.{sequence_check}
use fix.Session.Check.Laws.{accepted, in_sequence, sequence_check-accepted}
use fix.Session.Process.{Application, process, heartbeat, after_seqnum_tag, kind_of}
use fix.Session.Process.Laws.{
  Arrives, IsPeer, process-heartbeat, process-sequence_reset, process-too_low,
}
use fix.Session.Process.Gap.{process-gap}
use fix.Session.Send.Build.{generate_resend_request}
use fix.Session.Service.{heartbeat_service, is_shutdown}
use fix.Session.Service.Laws.{heartbeat_service-drops}

abbrev peer_header : Fields
peer_header = (49, text (codes "THEM")) ∷ (56, text (codes "US")) ∷ []

abbrev message_of : Bytes → Fields → Message
message_of msgtype body = record {
  msgtype = msgtype;
  header = peer_header;
  body = body;
  custom_seqnum = 0;
  no_increment = false;
  end_of_batch = true;
}

abbrev message_of_body : Bytes → Fields → Message
message_of_body msgtype body = record (message_of msgtype body) { header = [] }

-- An order is no admin message.
abbrev order : Message
order = record (message_of (codes "D") []) { header = [] }

abbrev schema : Message → Codec
schema msg = record {
  begin_str = codes "FIX.4.2";
  factory = λ from no_chksum permissive. inr msg;
  encode = λ m. inr (m.msgtype);
  has_message = λ t. true;
  is_admin = λ m. not (length m.msgtype == 0);
  has_default_appl_ver_id = false;
  what = λ e. [];
  modify_header = λ m. m;
  modify_outbound = λ m. m;
}

abbrev trading : Message → Codec
trading msg = record (schema msg) { is_admin = λ m. false }

abbrev memory : Persister Store
memory = record {
  put = λ k b m. (Memory.put k b m).0;
  put_control = λ a b m. (Memory.put_control a b m).0;
  get_control = λ m. Memory.get_control (λ b. (length b, 0)) m;
  records = Memory.records;
}

abbrev permissive_app : Application Store
permissive_app = record {
  handle_application = λ n m. return true;
  handle_admin = λ n m. return true;
  handle_reject = λ n m. return false;
  authenticate = λ id m. true;
}

abbrev link : Connection
link = record {
  role = initiator;
  connected = true;
  stopped = false;
  peer = 0;
  hb_interval = 30;
  hb_interval20pc = 36;
  wire = up;
}

abbrev no_schedule : Schedule
no_schedule = record {
  start = errorticks;
  end = errorticks;
  utc_offset = 0;
  start_day = 2 ^ 32 - 1;
  end_day = 2 ^ 32 - 1;
}

-- A session of `US` with `THEM`, that has sent 7 messages and received 4.
abbrev running : Session Store
running = record {
  shutdown = false;
  state = st_continuous;
  active = true;
  next_send_seq = 8;
  next_receive_seq = 5;
  req_next_send_seq = 0;
  req_next_receive_seq = 0;
  last_sent = 0;
  last_received = 0;
  sci = codes "US";
  sid = record {
    begin_string = codes "FIX.4.2";
    sender_comp_id = codes "US";
    target_comp_id = codes "THEM";
  };
  connection = some link;
  config = none;
  login_parameters = record {
    reset_sequence_numbers = false;
    always_seqnum_assign = false;
    silent_disconnect = false;
    no_chksum_flag = false;
    permissive_mode_flag = false;
    reliable = false;
    enforce_compids = true;
    clients = [];
  };
  login_schedule = no_schedule;
  persist = some [];
  schedule = none;
  heartbeat_timer = true;
  batchmsgs_buffer = [];
  wire_out = [];
  now = 100 * 10 ^ 9;
}

send_process-numbers_example :
    (send_process (trading order) memory link order running).1.next_send_seq ≡ (
      if (send_process (trading order) memory link order running).0
        && takes_number
            (trading order)
            memory
            (outbound (trading order) memory running order)
            (stamped running order).1
      then next 8
      else 8)
send_process-numbers_example = send_process-numbers (trading order) memory link order running

sequence_check-accepted_example :
    accepted (sequence_check (schema order) memory 7 order running)
    ≡ in_sequence running.now 5 7 order
sequence_check-accepted_example = sequence_check-accepted (schema order) memory 7 order running

abbrev alive : Message
alive = message_of (codes "0") []

abbrev gap_fill : Message
gap_fill = message_of (codes "4") ((36, num 9) ∷ [])

abbrev wire_of : Bytes → Bytes
wire_of seqnum = codes "34=" ++ seqnum ++ 1 ∷ []

on_time-Arrives : (msg : Message) → Arrives (schema msg) (wire_of (codes "5")) 5 msg running
unfolding after_seqnum_tag fast_atoi
on_time-Arrives msg = record {
  digits = codes "5" ++ 1 ∷ [];
  tagged = refl;
  numbered = refl;
  made = refl;
}

late-Arrives : (msg : Message) → Arrives (schema msg) (wire_of (codes "3")) 3 msg running
unfolding after_seqnum_tag fast_atoi
late-Arrives msg = record {
  digits = codes "3" ++ 1 ∷ [];
  tagged = refl;
  numbered = refl;
  made = refl;
}

peer : (msgtype : Bytes) (body : Fields) → IsPeer (message_of msgtype body) running
unfolding is_established same_sender_comp_id same_target_comp_id get_text
peer msgtype body = record { established = refl; known = refl }

process-heartbeat_example :
    process (schema alive) memory permissive_app (wire_of (codes "5")) running
    ≡ done true
        (update_persist_seqnums (schema alive) memory (record running { next_receive_seq = 6 }))
process-heartbeat_example =
    unfold kind_of same_bytes in
    process-heartbeat (schema alive) memory permissive_app (wire_of (codes "5")) 5 alive running
      (on_time-Arrives alive) (peer (codes "0") []) refl refl refl refl

process-sequence_reset_example :
    process (schema gap_fill) memory permissive_app (wire_of (codes "5")) running
    ≡ done true
        (update_persist_seqnums (schema gap_fill) memory (record running { next_receive_seq = 9 }))
process-sequence_reset_example =
    unfold kind_of same_bytes have find get_num in
    process-sequence_reset (schema gap_fill) memory permissive_app (wire_of (codes "5")) 5 9
      gap_fill running (on_time-Arrives gap_fill) (peer (codes "4") ((36, num 9) ∷ [])) refl refl
      refl refl refl refl (omega arith)

process-too_low_example :
    process (schema alive) memory permissive_app (wire_of (codes "3")) running
    ≡ done false (stop running)
process-too_low_example =
    unfold kind_of same_bytes get_flag in
    process-too_low (schema alive) memory permissive_app (wire_of (codes "3")) 3 alive heartbeat
      running (late-Arrives alive) (peer (codes "0") []) refl refl (inl refl) refl refl
      (omega arith) refl

abbrev waiting : Session Store
waiting = record running { state = st_test_request_sent }

abbrev answering : Connection
answering = record link { role = acceptor }

abbrev accepting : Session Store
accepting = record waiting { connection = some answering }

heartbeat_service-drops_example :
    (t : Session Store) × (heartbeat_service (schema alive) memory accepting ≡ done true t)
    × (t.shutdown ≡ true)
    × (is_state t.state st_logoff_sent ≡ true)
heartbeat_service-drops_example =
    unfold is_shutdown in
    heartbeat_service-drops (schema alive) memory answering accepting
      (record { running = refl; linked = refl; connected = refl; overdue = refl }) refl refl refl
      refl

-- An order that was sent before, as number 3, at time 7.
abbrev sent_before : Message
sent_before = record order { header = (34, num 3) ∷ (52, time 7) ∷ [] }

ahead-Arrives : (msg : Message) → Arrives (schema msg) (wire_of (codes "8")) 8 msg running
unfolding after_seqnum_tag fast_atoi
ahead-Arrives msg = record {
  digits = codes "8" ++ 1 ∷ [];
  tagged = refl;
  numbered = refl;
  made = refl;
}

abbrev resend : Message
resend = message_of_body (codes "2") ((7, num 5) ∷ (16, num 0) ∷ [])

resend_made : generate_resend_request (schema alive) 5 0 ≡ inr resend
unfolding generate_resend_request
resend_made = refl

process-gap_example :
    (b : Bool) × (t : Session Store) × (send (schema alive) memory resend 0 false running
      ≡ done b t)
    × (process (schema alive) memory permissive_app (wire_of (codes "8")) running
        ≡ done true (
            update_persist_seqnums
              (schema alive)
              memory
              (record t { state = st_resend_request_sent; next_receive_seq = 6 })))
process-gap_example =
    unfold kind_of same_bytes in
    process-gap (schema alive) memory permissive_app (wire_of (codes "8")) 8 alive resend running
      (ahead-Arrives alive) (peer (codes "0") []) refl refl refl (omega arith) refl resend_made
