-- ===== src/Session/Fields.antt =====
-- The fields of a header as a map, and the header that `send_process` makes.
use fix.Base.{
  ℕ, ◌≡◌, ◌≢◌, refl, ◌∙◌, Bool, true, false, some, ◌==◌, if◌then◌else◌, arith, is_some, ap,
}
use fix.Base.SortedMap.{find, IsSorted, find-insert, find-assign, insert-From, assign-From}
use fix.Session.State.{Session, Message, Fields, Value, num, text, time, have, set}
use fix.Session.Send.{stamped, comp_ids, seqnum_of}
use fix.Session.Send.Build.{
  tag_MsgSeqNum, tag_PossDupFlag, tag_SenderCompID, tag_TargetCompID, tag_SendingTime,
}

find-set :
    (k j : ℕ) (v : Value) (m : Fields)
    → IsSorted m
    → find j (set k v m) ≡ (if k == j then some v else find j m)
unfolding set have
find-set k j v m s = ground (arith, find-insert k j v 0 m s, find-assign k j v m)

set-IsSorted : (k : ℕ) (v : Value) (m : Fields) → IsSorted m → IsSorted (set k v m)
unfolding set
set-IsSorted k v m s = ground (arith, insert-From k v 0 m, assign-From k v 0 m)

have-find : (j : ℕ) (m n : Fields) → find j m ≡ find j n → have j m ≡ have j n
unfolding have
have-find j m n e = ap is_some e

-- The header after a field was added, where the test holds.
abbrev set_when : Bool → ℕ → Value → Fields → Fields
set_when b k v m = if b then m else set k v m

find-set_when :
    (b : Bool) (k j : ℕ) (v : Value) (m : Fields)
    → IsSorted m
    → k ≢ j
    → (find j (set_when b k v m) ≡ find j m) × IsSorted (set_when b k v m)
find-set_when true k j v m s ne = (refl, s)
find-set_when false k j v m s ne = (ground (arith, find-set k j v m s), set-IsSorted k v m s)

comp_ids-find :
    {T : Type 0} (session : Session T) (j : ℕ) (h : Fields)
    → IsSorted h
    → tag_SenderCompID ≢ j
    → tag_TargetCompID ≢ j
    → (find j (comp_ids session h) ≡ find j h) × IsSorted (comp_ids session h)
comp_ids-find session j h s a b =
    let v = text session.sid.sender_comp_id in
    let w = text session.sid.target_comp_id in
    let (e1, s1) = find-set_when (have tag_SenderCompID h) tag_SenderCompID j v h s a in
    let h1 = set_when (have tag_SenderCompID h) tag_SenderCompID v h in
    let (e2, s2) = find-set_when (have tag_TargetCompID h1) tag_TargetCompID j w h1 s1 b in
    (e2 ∙ e1, s2)

-- A message without a sequence number gets the next one to send, or its own where it has been given
-- one, and the time; it counts as a duplicate only if it says so.
pub stamped-fresh :
    {T : Type 0} (session : Session T) (msg : Message)
    → IsSorted msg.header
    → have tag_MsgSeqNum msg.header ≡ false
    → let (m, dup) = stamped session msg in
      (find tag_MsgSeqNum m.header
        ≡ some (num (if msg.custom_seqnum == 0 then session.next_send_seq else msg.custom_seqnum)))
      × (find tag_SendingTime m.header ≡ some (time session.now))
      × (dup ≡ have tag_PossDupFlag msg.header)
unfolding stamped
stamped-fresh session msg s h =
    let (e, s1) = comp_ids-find session tag_MsgSeqNum msg.header s (omega arith) (omega arith) in
    let h1 = comp_ids session msg.header in
    let v = num (seqnum_of session msg) in
    let h2 = set tag_MsgSeqNum v h1 in
    let s2 = set-IsSorted tag_MsgSeqNum v h1 s1 in
    let absent : have tag_MsgSeqNum h1 ≡ false = have-find tag_MsgSeqNum h1 msg.header e ∙ h in
    rw absent (
      find-set tag_SendingTime tag_MsgSeqNum (time session.now) h2 s2
          ∙ find-set tag_MsgSeqNum tag_MsgSeqNum v h1 s1,
      find-set tag_SendingTime tag_SendingTime (time session.now) h2 s2,
      refl,
    )
