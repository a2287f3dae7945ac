-- ===== src/Session/Resend.antt =====
-- The answer to a resend request: `handle_resend_request` and `retrans_callback`. A callback that
-- throws ends the persister's loop; its exception stands beside the session until the loop is left.
use fix.Base.{
  ℕ, ◌+◌, ◌%◌, Bytes, Bool, true, false, not, Option, none, some, ltb, leb, ◌==◌, ◌&&◌, ◌||◌,
  if◌then◌else◌, codes, length,
}
use fix.Codec.Decimal.{u32}
use fix.Persist.Range.{SequencePair, RetransmissionContext, Called, get_range}
use fix.Session.State.{
  Session, Message, Exception, Persister, Codec, st_continuous, st_resend_request_received, get_num,
  is_state,
}
use fix.Session.Act.{Act, done, thrown, stuck, ◌>>=◌, ◌>>◌, return, modify, read, when, lift}
use fix.Session.Send.{do_state_change, send_as, send_new, send}
use fix.Session.Send.Build.{generate_sequence_reset, generate_reject, tag_BeginSeqNo, tag_EndSeqNo}
use fix.Session.Check.{enforce}
use fix.Schedule.{int_ltb}

-- `n >= static_cast<int>(m)` for an `int` and an `unsigned`, each its 32 bits.
abbrev pub at_least : ℕ → ℕ → Bool
at_least n m = not (int_ltb n m)

module _ {T : Type 0} (codec : Codec) (store : Persister T) where
  -- Both closing scenarios: the number after the gap and what the next message will have.
  abbrev fill_gap : ℕ → ℕ → Act T (Unit {0})
  fill_gap first nseq =
      send_as codec store (generate_sequence_reset codec nseq true) first
      >> modify (λ s. record s { next_send_seq = nseq })

  abbrev past : ℕ → ℕ → ℕ
  past first interrupted = if leb interrupted first then (first + 1) % u32 else interrupted

  -- The gap before a record: scenarios 2 and 3.
  abbrev skip_gap : ℕ → RetransmissionContext → Act T (Unit {0})
  skip_gap first rctx s =
      (if not (rctx.last == 0)
          then when (ltb ((rctx.last + 1) % u32) first) (
              send_as codec store (generate_sequence_reset codec first true) s.next_send_seq
              >> return tt)
          else when (ltb rctx.begin first)
              (send_new codec store (generate_sequence_reset codec first true) >> return tt))
        s

  unfoldable pub retrans_callback :
      SequencePair → RetransmissionContext → Act T (Bool × RetransmissionContext)
  unfolding generate_sequence_reset send
  retrans_callback with_ rctx =
      if rctx.no_more_records
      then (let first = if rctx.last == 0 then rctx.begin else (rctx.last + 1) % u32 in
          fill_gap first (past first rctx.interrupted_seqnum)
          >> do_state_change st_continuous
          >> return (true, rctx))
      else (skip_gap with_.seq rctx >> lift (codec.factory with_.text false false) >>= λ msg.
          send codec store msg 0 false >>= λ sent. return (sent, record rctx { last = with_.seq }))

  -- The callback as the loop of the persister calls it.
  unfoldable pub guarded :
      SequencePair
      → RetransmissionContext
      → Session T × Option Exception
      → Called (Session T × Option Exception)
  unfolding retrans_callback
  guarded with_ rctx (s, some e) = record { success = false; rctx = rctx; session = (s, some e) }
  guarded with_ rctx (s, none) = elim (retrans_callback with_ rctx s) [
    | done (b, r) s' ↦ record { success = b; rctx = r; session = (s', none) }
    | thrown e s' ↦ record { success = false; rctx = rctx; session = (s', some e) }
    | stuck ↦ record { success = false; rctx = rctx; session = (s, none) }
  ]

  abbrev store_of : T → Session T × Option Exception → T
  store_of p (s, _) = elim s.persist [ none ↦ p | some q ↦ q ]

  unfoldable pub resend : T → ℕ → ℕ → Act T (Unit {0})
  unfolding get_range guarded
  resend p begin end s =
      elim (get_range store.records (store_of p) guarded begin end s.next_send_seq (s, none)) [
        | none ↦ stuck
        | some (_, (s', none)) ↦ done tt s'
        | some (_, (s', some e)) ↦ thrown e s'
      ]

  unfoldable pub handle_outbound_reject : ℕ → Option Message → Bytes → Act T Bool
  unfolding generate_reject
  handle_outbound_reject seqnum msg errstr =
      let msgtype : Option Bytes = elim msg [
        | none ↦ none
        | some m ↦ if length m.msgtype == 0 then none else some m.msgtype
      ] in
      send_new codec store (generate_reject codec seqnum (some errstr) msgtype)

  unfoldable pub handle_resend_request : ℕ → Message → Act T Bool
  unfolding enforce get_num resend handle_outbound_reject generate_sequence_reset
  handle_resend_request seqnum msg =
      let begin = get_num tag_BeginSeqNo msg.body in
      let end = get_num tag_EndSeqNo msg.body in
      enforce codec store seqnum msg >> read (λ s. s) >>= λ s.
      (if is_state s.state st_resend_request_received
        then return tt
        else if (ltb end begin && not (end == 0)) || begin == 0
        then (handle_outbound_reject seqnum (some msg)
              (codes "Invalid resend range: Begin > End or Begin = 0")
            >> return tt)
        else (elim s.persist [
          | none ↦
              fill_gap begin (if at_least begin s.next_send_seq then begin + 1 else s.next_send_seq)
          | some p ↦ do_state_change st_resend_request_received >> resend p begin end
        ]))
      >> return true
