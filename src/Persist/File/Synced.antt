-- ===== src/Persist/File/Synced.antt =====
-- The index in memory and the index file: what a restart finds again.
use mathlib.Core.List.{concat-ne-nil}
use fix.Base.{
  ℕ, zero, suc, ◌<◌, ◌≡◌, ◌≢◌, refl, ap, ◌∙◌, Bytes, true, false, none, [], ◌∷◌, ◌++◌, List, ◌==◌,
  if◌then◌else◌, is_some, arith, length, ==_refl,
}
use fix.Base.SortedMap.{find, insert, assign}
use fix.Persist.File.{
  Prec, IPrec, Index, overwrite_first, Io, FilePersister, iprec, load_index, initialise,
  put_control, put,
}

-- The index that a restart reads from the index file.
abbrev pub reloaded : FilePersister → Index
reloaded p = (load_index p.index_file none []).0

-- The first record of the file, if there is one, is the control record.
abbrev StartsWithControl : List IPrec → Type 0
StartsWithControl [] = Unit
StartsWithControl (r ∷ rs) = r.seq ≡ 0

pub record IsSynced (p : FilePersister) : Type 0 where
  pub starts : StartsWithControl p.index_file
  pub same : reloaded p ≡ p.index

load_index-append :
    (rs : List IPrec) (r : IPrec) (m : Index)
    → (load_index (rs ++ r ∷ []) none m).0 ≡ insert r.seq r.prec (load_index rs none m).0
unfolding load_index
load_index-append [] r m = refl
load_index-append (x ∷ rs) r m = load_index-append rs r (insert x.seq x.prec m)

-- What the records leave behind a control record.
behind : List IPrec → Index → Index
behind [] m = m
behind (r ∷ rs) m = behind rs (if r.seq == 0 then m else insert r.seq r.prec m)

insert-control :
    (k : ℕ) (v x : Prec) (m : Index)
    → insert k v ((0, x) ∷ m) ≡ (0, x) ∷ (if k == 0 then m else insert k v m)
unfolding insert
insert-control k v x m = ground arith

load_index-control :
    (rs : List IPrec) (x : Prec) (m : Index)
    → (load_index rs none ((0, x) ∷ m)).0 ≡ (0, x) ∷ behind rs m
unfolding load_index behind
load_index-control [] x m = refl
load_index-control (r ∷ rs) x m =
    ap (λ l. (load_index rs none l).0) (insert-control r.seq r.prec x m)
    ∙ load_index-control rs x (if r.seq == 0 then m else insert r.seq r.prec m)

starts_append :
    (rs : List IPrec) (r : IPrec)
    → rs ≢ []
    → StartsWithControl rs
    → StartsWithControl (rs ++ r ∷ [])
starts_append [] r ne h = absurd (ne refl)
starts_append (x ∷ rs) r ne h = h

-- Storing a message keeps the index file in step with the index, if its write does not fail and the
-- control record has been written before.
pub put-IsSynced :
    (seqnum : ℕ) (what : Bytes) (io : Io) (p : FilePersister)
    → io.write_data ≡ true
    → p.index_file ≢ []
    → IsSynced p
    → IsSynced (put seqnum what io p).0
unfolding put
put-IsSynced seqnum what io p w ne s =
    let r = iprec seqnum (length p.data_file) (length what) in
    ground (arith, load_index-append p.index_file r [], starts_append p.index_file r ne s.starts)

load_index-first :
    (x : IPrec) (rs : List IPrec)
    → x.seq ≡ 0
    → (load_index (x ∷ rs) none []).0 ≡ (0, x.prec) ∷ behind rs []
unfolding load_index insert
load_index-first x rs e = rw e (load_index-control rs x.prec [])

starts_overwrite :
    (v : Prec) (file : List IPrec)
    → StartsWithControl (overwrite_first (record { seq = 0; prec = v }) file)
starts_overwrite v [] = refl
starts_overwrite v (x ∷ rs) = refl

-- What a restart reads after `put_control`: its index.
control_index :
    (p : FilePersister) (v : Prec) (file : List IPrec)
    → StartsWithControl file
    → (load_index file none []).0 ≡ p.index
    → (load_index (overwrite_first (record { seq = 0; prec = v }) file) none []).0
      ≡ (if is_some (find 0 p.index) then assign 0 v p.index else insert 0 v p.index)
unfolding find assign insert load_index
control_index p v [] h s = rw (← s) refl
control_index p v (x ∷ rs) h s =
    load_index-first (record { seq = 0; prec = v }) rs refl ∙ rw (← s, load_index-first x rs h) refl

-- So does recording the sequence numbers, at any time, if no write fails; then the numbers are
-- those that a restart finds.
pub put_control-IsSynced :
    (sender target : ℕ) (io : Io) (p : FilePersister)
    → io.seek_index ≡ true
    → io.write_index ≡ true
    → IsSynced p
    → IsSynced (put_control sender target io p).0
unfolding put_control
put_control-IsSynced sender target io p a b s =
    let v = (iprec 0 sender target).prec in
    ground (arith, control_index p v p.index_file s.starts s.same, starts_overwrite v p.index_file)

abbrev pub all_done : Io
all_done = record {
  seek_index = true;
  write_index = true;
  seek_data = true;
  write_data = true;
  read_data = true;
  written = 0;
}

pub data Call : Type 0 where
  message : ℕ → Bytes → Call
  control : ℕ → ℕ → Call

unfoldable pub step : FilePersister → Call → FilePersister
step p (message k what) = (put k what all_done p).0
step p (control a b) = (put_control a b all_done p).0

unfoldable pub run : FilePersister → List Call → FilePersister
run p [] = p
run p (c ∷ cs) = run (step p c) cs

pub record IsReady (p : FilePersister) : Type 0 where
  pub is_open : p.opened ≡ true
  pub has_records : p.index_file ≢ []
  pub synced : IsSynced p

step-is_open : (p : FilePersister) (c : Call) → p.opened ≡ true → (step p c).opened ≡ true
unfolding step put put_control
step-is_open p (message k what) h = ground arith
step-is_open p (control a b) h = ground arith

overwrite-ne-nil : (r : IPrec) (file : List IPrec) → overwrite_first r file ≢ []
overwrite-ne-nil r [] = λ e. cc
overwrite-ne-nil r (x ∷ file) = λ e. cc

step-has_records : (p : FilePersister) (c : Call) → p.index_file ≢ [] → (step p c).index_file ≢ []
unfolding step put put_control
step-has_records p (message k what) h =
    ground (arith, concat-ne-nil (iprec k (length p.data_file) (length what)) p.index_file)
step-has_records p (control a b) h = ground (arith, overwrite-ne-nil (iprec 0 a b) p.index_file)

step-IsReady : (p : FilePersister) (c : Call) → IsReady p → IsReady (step p c)
step-IsReady p c r = record {
  is_open = step-is_open p c r.is_open;
  has_records = step-has_records p c r.has_records;
  synced = keeps c;
}
  where
    keeps : (d : Call) → IsSynced (step p d)
    keeps (message k what) =
        unfold step in put-IsSynced k what all_done p refl r.has_records r.synced
    keeps (control a b) = unfold step in put_control-IsSynced a b all_done p refl refl r.synced

run-IsReady : (cs : List Call) (p : FilePersister) → IsReady p → IsReady (run p cs)
unfolding run
run-IsReady [] p r = r
run-IsReady (c ∷ cs) p r = run-IsReady cs (step p c) (step-IsReady p c r)

load_index_complete : (rs : List IPrec) (m : Index) → (load_index rs none m).1 ≡ true
unfolding load_index
load_index_complete [] m = refl
load_index_complete (r ∷ rs) m = load_index_complete rs (insert r.seq r.prec m)

-- What is left of a process that ends: its files.
abbrev pub files : FilePersister → FilePersister
files p = record p { opened = false; was_created = false; index = [] }

-- A process that starts anew on the files, with no purge, has the index and the messages of the one
-- that ended, whatever messages and sequence numbers that one stored, if no call of the system
-- failed and the first thing stored was the sequence numbers.
pub restart-run :
    (p : FilePersister) (cs : List Call)
    → IsReady p
    → initialise true false true true none (files (run p cs))
      ≡ (record (run p cs) { was_created = false }, true)
unfolding initialise
restart-run p cs r =
    let q = run-IsReady cs p r in
    ground (arith, load_index_complete (run p cs).index_file [], q.is_open, q.synced.same)

-- Where a message is stored before any sequence numbers, recording these writes over its index
-- record: the running process still finds it, a restart does not.
pub put-put_control-loses :
    (k sender target : ℕ) (what : Bytes) (p : FilePersister)
    → p.opened ≡ true
    → p.index ≡ []
    → p.index_file ≡ []
    → 0 < k
    → let q = run p (message k what ∷ control sender target ∷ []) in
      (is_some (find k q.index) ≡ true) × (find k (reloaded q) ≡ none)
unfolding run step put put_control load_index find insert assign
put-put_control-loses zero sender target what p o e f pos = absurd (omega arith)
put-put_control-loses (suc k) sender target what p o e f pos =
    ground (arith, ==_refl (suc k), ==_refl k, o, e, f)
