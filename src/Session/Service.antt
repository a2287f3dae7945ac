-- ===== src/Session/Service.antt =====
-- The services that the session's timer calls every second.
pub mod Laws
use fix.Base.{
  ℕ, ◌+◌, ◌-◌, ◌/◌, ◌^◌, Bytes, Bool, true, false, not, Option, none, some, [], ltb, leb, ◌==◌,
  ◌&&◌, ◌||◌, if◌then◌else◌, codes,
}
use fix.Schedule.{test}
use fix.Session.State.{
  Session, Persister, Codec, Connection, st_test_request_sent, st_logoff_sent,
  st_session_terminated, is_state, Role, initiator, acceptor,
}
use fix.Session.Act.{Act, done, stuck, ◌>>=◌, ◌>>◌, return, modify, read, when, lift}
use fix.Session.Send.{do_state_change, send_new, send, stop}
use fix.Session.Send.Build.{generate_heartbeat, generate_logout, generate_test_request}

unfoldable pub is_shutdown : {T : Type 0} → Session T → Bool
is_shutdown s = s.shutdown || is_state s.state st_session_terminated

-- The seconds between two times, the later one first.
abbrev pub secs : ℕ → ℕ → ℕ
secs now then_ = (now - then_) / 10 ^ 9

-- A session whose schedule is not there has no such service.
unfoldable pub activation_service : {T : Type 0} → Act T Bool
unfolding is_shutdown test
activation_service s =
    let connected : Bool = elim s.connection [ none ↦ false | some c ↦ c.connected ] in
    let active : Bool = elim s.schedule [ none ↦ s.active | some sch ↦ test sch s.now s.active ] in
    (if is_shutdown s
        then return false
        else if connected
        then (modify (λ t. record t { active = active }) >> return true)
        else return true)
      s

abbrev pub ignored : Bytes
ignored = codes "Remote has ignored my test request. Aborting session..."

module _ {T : Type 0} (codec : Codec) (store : Persister T) where
  -- `stop` on the timer's thread, which holds the lock of the timer while it calls a service: the
  -- `clear` of an initiator waits for that lock without end.
  unfoldable pub stop_in_timer : Act T (Unit {0})
  unfolding stop
  stop_in_timer s =
      let waits : Bool = elim s.connection [
        | none ↦ false
        | some c ↦ elim c.role [ initiator ↦ true | acceptor ↦ false ]
      ] in
      if not s.shutdown && waits then stuck else done tt (stop s)

  abbrev give_up : Act T (Unit {0})
  give_up s =
      (lift (
            generate_logout codec
              (if s.login_parameters.silent_disconnect then none else some ignored))
          >>= λ msg. send codec store msg 0 true >> do_state_change st_logoff_sent >> stop_in_timer)
        s

  -- Nothing has come for longer than the interval and a fifth.
  unfoldable pub overdue : Act T (Unit {0})
  unfolding generate_logout send stop_in_timer generate_test_request
  overdue s =
      (if is_state s.state st_test_request_sent
          then give_up
          else if not (is_state s.state st_session_terminated)
          then (send_new codec store (generate_test_request codec (codes "TEST"))
              >> do_state_change st_test_request_sent)
          else return tt)
        s

  abbrev pub beat : Connection → Session T → Act T Bool
  beat c s =
      when (leb c.hb_interval (secs s.now s.last_sent))
        (send_new codec store (generate_heartbeat codec []) >> return tt)
      >> when (ltb c.hb_interval20pc (secs s.now s.last_received)) (overdue)
      >> return true

  -- By whether the session is being shut down, and its connection.
  abbrev pub serve : Bool → Option Connection → Act T Bool
  serve true _ s = done false s
  serve false none s = done true s
  serve false (some c) s = (if c.connected then beat c s else return true) s

  unfoldable pub heartbeat_service : Act T Bool
  unfolding is_shutdown generate_heartbeat overdue
  heartbeat_service s = serve (is_shutdown s) s.connection s
