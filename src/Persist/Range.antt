-- ===== src/Persist/Range.antt =====
-- The retrieval of a range of messages, which `MemoryPersister::get` and `FilePersister::get` spell
-- alike, over what it asks of the store. The session `S` is the callback's; it may change the store
-- while the range is read, as `send_process` does, so each round reads the store anew.
pub mod Total
use fix.Base.{
  ℕ, zero, suc, ◌+◌, ◌-◌, Bytes, Bool, true, false, Option, none, some, [], ltb, ◌==◌, ◌||◌, not,
  if◌then◌else◌, is_some,
}

-- `Session::SequencePair` and `Session::RetransmissionContext` of include/fix8/session.hpp.
pub record SequencePair : Type 0 where
  pub seq : ℕ
  pub text : Bytes

pub record RetransmissionContext : Type 0 where
  pub begin : ℕ
  pub end : ℕ
  pub interrupted_seqnum : ℕ
  pub last : ℕ
  pub no_more_records : Bool

-- What the loop reads of a store: `read` is `none` where a record cannot be read.
pub record Records (T : Type 0) : Type 0 where
  pub last_seqnum : T → ℕ
  pub nearest : ℕ → ℕ → T → ℕ
  pub has : ℕ → T → Bool
  pub read : ℕ → T → Option Bytes
  pub next : ℕ → T → Option ℕ

-- What a call of the callback gives.
pub record Called (S : Type 0) : Type 0 where
  pub success : Bool
  pub rctx : RetransmissionContext
  pub session : S

-- The state behind the loop.
pub record Sent (S : Type 0) : Type 0 where
  pub recs : ℕ
  pub rctx : RetransmissionContext
  pub session : S

-- `rctx(from, to, session.get_next_send_seq())`
abbrev pub opening : ℕ → ℕ → ℕ → RetransmissionContext
opening from to next_send = record {
  begin = from;
  end = to;
  interrupted_seqnum = next_send;
  last = 0;
  no_more_records = false;
}

module _ {T S : Type 0} (ops : Records T) (store_of : S → T)
    (callback : SequencePair → RetransmissionContext → S → Called S) where
  -- The `do … while` loop at `itr->first ≡ key`. The keys rise up to `finish`, so that
  -- suc finish - key rounds are enough; `none` is a model loop that ran out of them.
  unfoldable pub send_records : ℕ → ℕ → ℕ → ℕ → RetransmissionContext → S → Option (Sent S)
  send_records zero finish key recs rctx s = none
  send_records (suc fuel) finish key recs rctx s =
      let stop : Option (Sent S) = some (record { recs = recs; rctx = rctx; session = s }) in
      if key == 0 || ltb finish key then stop else (elim (ops.read key (store_of s)) [
        | none ↦ stop
        | some text ↦
            let r : Called S = callback (record { seq = key; text = text }) rctx s in
            let done : Option (Sent S) =
              some (record { recs = recs + 1; rctx = r.rctx; session = r.session }) in
            elim r.success [
              | false ↦ done
              | true ↦ elim (ops.next key (store_of r.session)) [
                | none ↦ done
                | some k ↦ send_records fuel finish k (recs + 1) r.rctx r.session
              ]
            ]
      ])

  abbrev pub end_mark : RetransmissionContext → S → S
  end_mark rctx s =
      (callback (record { seq = 0; text = [] }) (record rctx { no_more_records = true }) s).session

  -- `next_send` is `session.get_next_send_seq()`. The result is the count and the session.
  unfoldable pub get_range : ℕ → ℕ → ℕ → S → Option (ℕ × S)
  get_range from to next_send s =
      let last = ops.last_seqnum (store_of s) in
      let start = ops.nearest from last (store_of s) in
      let finish = if to == 0 then last else to in
      let rctx = opening from to next_send in
      if start == 0 || ltb finish from
      then some (0, end_mark rctx s)
      else if ops.has start (store_of s)
      then (elim (send_records (suc (suc finish - start)) finish start 0 rctx s) [
        | none ↦ none
        | some r ↦ some (r.recs, end_mark r.rctx r.session)
      ])
      else some (0, s)
