-- ===== src/Session/Service/Laws.antt =====
-- What the heartbeat service does about a peer that has fallen silent.
use fix.Base.{
  ◌≡◌, refl, ap, ◌∙◌, Bool, true, false, none, some, [], ltb, leb, if◌then◌else◌, arith, Bool-cases,
  inl, inr,
}
use fix.Session.State.{
  Session, Persister, Codec, Connection, is_state, st_test_request_sent, st_logoff_sent, Role,
  initiator, acceptor,
}
use fix.Session.Act.{Outcome, done, thrown, stuck, ◌>>=◌, ◌>>◌, return, when}
use fix.Session.Send.{stop, send_new}
use fix.Session.Send.Laws.{send-frame}
use fix.Session.Send.Build.{
  msgtype_heartbeat, msgtype_logout, generate_heartbeat, generate_logout, blank, set_some,
  create_msg-known, tag_Text,
}
use fix.Session.Service.{
  is_shutdown, stop_in_timer, secs, overdue, heartbeat_service, serve, ignored,
}

stop-shutdown : {T : Type 0} (s : Session T) → (stop s).shutdown ≡ true
unfolding stop
stop-shutdown s = ground arith

stop-state : {T : Type 0} (s : Session T) → (stop s).state ≡ s.state
unfolding stop
stop-state s = ground arith

not_shutdown : {T : Type 0} (s : Session T) → is_shutdown s ≡ false → s.shutdown ≡ false
unfolding is_shutdown
not_shutdown s e = ground (arith, e)

module _ {T : Type 0} (codec : Codec) (store : Persister T) where
  -- The peer of a running session has been silent for too long.
  pub record IsSilent (c : Connection) (s : Session T) : Type 0 where
    pub running : is_shutdown s ≡ false
    pub linked : s.connection ≡ some c
    pub connected : c.connected ≡ true
    pub overdue : ltb c.hb_interval20pc (secs s.now s.last_received) ≡ true

  abbrev waits : Role → Bool
  waits initiator = true
  waits acceptor = false

  abbrev stopping : Bool → Session T → Outcome T (Unit {0})
  stopping b s = if b then stuck else done tt (stop s)

  stop_in_timer-role :
      (c : Connection) (s : Session T)
      → s.shutdown ≡ false
      → s.connection ≡ some c
      → stop_in_timer codec store s ≡ stopping (waits c.role) s
  unfolding stop_in_timer
  stop_in_timer-role c s e l = go c.role refl
    where
      go : (r : Role) → c.role ≡ r → stop_in_timer codec store s ≡ stopping (waits r) s
      go initiator h = ground (arith, e, l, h)
      go acceptor h = ground (arith, e, l, h)

  -- Where a test request has gone unanswered, the logout is the last thing sent.
  overdue_again :
      (c : Connection) (s : Session T)
      → is_state s.state st_test_request_sent ≡ true
      → codec.has_message msgtype_logout ≡ true
      → s.shutdown ≡ false
      → s.connection ≡ some c
      → (u : Session T) × (overdue codec store s ≡ stopping (waits c.role) u)
        × (is_state u.state st_logoff_sent ≡ true)
  unfolding overdue generate_logout
  overdue_again c s w h up link =
      let note = if s.login_parameters.silent_disconnect then none else some ignored in
      let m = blank msgtype_logout (set_some codec note tag_Text []) in
      let (b, t, e, same) = send-frame codec store m 0 true s in
      let u = record t { state = st_logoff_sent } in
      let role = stop_in_timer-role c u (same.4 ∙ up) (same.5 ∙ link) in
      (
        u,
        rw (w, ◌>>=◌, create_msg-known codec msgtype_logout (set_some codec note tag_Text []) h, e)
            role,
        refl,
      )

  ends :
      (b : Bool) (u : Session T)
      → (elim (stopping b u) as (λ x. Outcome T Bool) [
        | done a t ↦ done true t
        | thrown x t ↦ thrown x t
        | stuck ↦ stuck
      ])
        ≡ (if b then stuck else done true (stop u))
  ends true u = refl
  ends false u = refl

  served :
      (c : Connection) (s s1 u : Session T) (b : Bool)
      → c.connected ≡ true
      → when
          (leb c.hb_interval (secs s.now s.last_sent))
          (send_new codec store (generate_heartbeat codec []) >> return tt)
          s
        ≡ done tt s1
      → ltb c.hb_interval20pc (secs s.now s.last_received) ≡ true
      → overdue codec store s1 ≡ stopping b u
      → serve codec store false (some c) s ≡ (if b then stuck else done true (stop u))
  served c s s1 u b connected e1 late e = rw (connected, ◌>>=◌, e1, late, e) (ends b u)

  serve-overdue :
      (c : Connection) (s : Session T)
      → IsSilent c s
      → is_state s.state st_test_request_sent ≡ true
      → codec.has_message msgtype_logout ≡ true
      → codec.has_message msgtype_heartbeat ≡ true
      → (u : Session T) × (heartbeat_service codec store s
          ≡ (if waits c.role then stuck else done true (stop u)))
        × (is_state u.state st_logoff_sent ≡ true)
  unfolding heartbeat_service
  serve-overdue c s q w h k =
      let (s1, e1, w1) = beats c s in
      let (u, e, out) =
        overdue_again c s1 (ap (λ x. is_state x st_test_request_sent) w1.0 ∙ w) h
          (w1.1 ∙ not_shutdown s q.running) (w1.2 ∙ q.linked) in
      (
        u,
        ap (λ b. serve codec store b s.connection s) q.running
            ∙ ap (λ o. serve codec store false o s) q.linked
            ∙ served c s s1 u (waits c.role) q.connected e1 q.overdue e,
        out,
      )
    where
      -- The heartbeat, where one is due.
      beats :
          (c : Connection) (s : Session T)
          → (t : Session T) × (when
                (leb c.hb_interval (secs s.now s.last_sent))
                (send_new codec store (generate_heartbeat codec []) >> return tt)
                s
              ≡ done tt t)
            × ((t.state ≡ s.state) × (t.shutdown ≡ s.shutdown) × (t.connection ≡ s.connection))
      beats c s =
          let (b, t, e, same) = send-frame codec store (blank msgtype_heartbeat []) 0 false s in
          elim (Bool-cases (leb c.hb_interval (secs s.now s.last_sent))) [
            | inl d ↦ (
              t,
              rw (d, ◌>>=◌, generate_heartbeat, create_msg-known codec msgtype_heartbeat [] k, e)
                  refl,
              (same.0, same.4, same.5),
            )
            | inr d ↦ (s, rw d refl, (refl, refl, refl))
          ]

  -- A peer of an acceptor that has let a test request go unanswered, and from which nothing has come
  -- for longer than the heartbeat interval and a fifth, is dropped when the service next runs: it stops
  -- the session.
  pub heartbeat_service-drops :
      (c : Connection) (s : Session T)
      → IsSilent c s
      → c.role ≡ acceptor
      → is_state s.state st_test_request_sent ≡ true
      → codec.has_message msgtype_logout ≡ true
      → codec.has_message msgtype_heartbeat ≡ true
      → (t : Session T) × (heartbeat_service codec store s ≡ done true t)
        × (t.shutdown ≡ true)
        × (is_state t.state st_logoff_sent ≡ true)
  heartbeat_service-drops c s q role w h k =
      let (u, e, out) = serve-overdue c s q w h k in
      (
        stop u,
        e ∙ ap (λ r. if waits r then stuck else done true (stop u)) role,
        stop-shutdown u,
        ap (λ x. is_state x st_logoff_sent) (stop-state u) ∙ out,
      )
