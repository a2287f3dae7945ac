-- ===== src/Tests/Persist.antt =====
-- The theorems of the persisters at concrete inputs.
use fix.Base.{
  ℕ, ◌≡◌, refl, true, false, not, ◌&&◌, none, some, [], ◌∷◌, List, ◌==◌, if◌then◌else◌, is_some,
  codes, arith, inl,
}
use fix.Base.SortedMap.{find, insert, last_key, IsSorted, next_key-above}
use fix.Base.Suffix.{from_on, up_to}
use fix.Persist.Range.{SequencePair, RetransmissionContext, Called, opening, end_mark, get_range}
use fix.Persist.Range.Total.{get_range-total}
use fix.Persist.Memory.{Store, get_messages, records}
use fix.Persist.Memory.Replay.{replay, get_messages-replay}
use fix.Persist.File
use fix.Persist.File.{got, FilePersister, IPrec, Prec, initialise}
use fix.Persist.File.Synced.{
  all_done, message, control, run, files, reloaded, IsReady, restart-run, put-put_control-loses,
}
use fix.Persist.File.Laws.{IsSound, is_got, stored}

abbrev two_messages : Store
two_messages = (2, codes "two") ∷ (5, codes "five") ∷ []

two_messages-IsSorted : IsSorted two_messages
two_messages-IsSorted = (omega arith, (omega arith, tt))

-- A session that keeps what it is given beside its store.
abbrev Kept : Type 0
Kept = Store × List ℕ

abbrev keeping : SequencePair → RetransmissionContext → Kept → Called Kept
keeping p c s = record { success = true; rctx = c; session = (s.0, p.seq ∷ s.1) }

get_messages-replay_example :
    let r =
      replay keeping (up_to 5 (from_on 1 two_messages)) 0 (opening 1 0 8) (two_messages, []) in
    get_messages (λ s. s.0) keeping 1 0 8 (two_messages, [])
    ≡ some (r.recs, end_mark records (λ s. s.0) keeping r.rctx r.session)
get_messages-replay_example =
    unfold last_key in
    get_messages-replay (λ s. s.0) keeping 1 0 8 (two_messages, []) two_messages-IsSorted
      (λ p c t. refl) (omega arith)

get_range-total_example :
    is_some (get_range records (λ s. s.0) keeping 1 0 8 (two_messages, [])) ≡ true
get_range-total_example =
    get_range-total records (λ s. s.0) keeping (λ k j t e. next_key-above k j t e) 1 0 8
      (two_messages, [])

-- A database that has just been made, and what its first control record makes of it.
abbrev fresh : FilePersister
fresh = record { opened = true; was_created = true; index = []; index_file = []; data_file = [] }

abbrev recorded : FilePersister
recorded = record fresh {
  index = (0, record { offset = 1; size = 1 }) ∷ [];
  index_file = record { seq = 0; prec = record { offset = 1; size = 1 } } ∷ [];
}

recorded-IsReady : IsReady recorded
unfolding File.load_index insert
recorded-IsReady = record {
  is_open = refl;
  has_records = λ e. cc e;
  synced = record { starts = refl; same = refl };
}

restart-run_example :
    let cs = message 1 (codes "one") ∷ control 2 1 ∷ message 2 (codes "two") ∷ [] in
    initialise true false true true none (files (run recorded cs))
    ≡ (record (run recorded cs) { was_created = false }, true)
restart-run_example =
    restart-run recorded (message 1 (codes "one") ∷ control 2 1 ∷ message 2 (codes "two") ∷ [])
      recorded-IsReady

put-put_control-loses_example :
    let q = run fresh (message 1 (codes "one") ∷ control 2 1 ∷ []) in
    (is_some (find 1 q.index) ≡ true) × (find 1 (reloaded q) ≡ none)
put-put_control-loses_example =
    put-put_control-loses 1 2 1 (codes "one") fresh refl refl refl (omega arith)

stored_example :
    ((File.put 1 (codes "one") all_done recorded).1
      ≡ (not (1 == 0) && not (is_got (File.get 8192 1 all_done recorded))))
    × (File.get 8192 1 all_done (File.put 1 (codes "one") all_done recorded).0 ≡ (
        if (File.put 1 (codes "one") all_done recorded).1 && 1 == 1
        then got (codes "one")
        else File.get 8192 1 all_done recorded))
    × IsSound 8192 (File.put 1 (codes "one") all_done recorded).0
stored_example =
    stored 8192 1 1 (codes "one") recorded (omega arith)
      (record { is_open = refl; sorted = (omega arith, tt); inside = (inl refl, tt) })
