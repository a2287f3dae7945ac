-- ===== src/Persist/File.antt =====
-- `FilePersister` of runtime/filepersist.cpp. The index file is the list of its records (`IPrec`,
-- 16 bytes each) and the message file its bytes; a write of one index record is done whole or not at
-- all. What the system calls answer is an argument (`Io`). Sizes and offsets do not wrap.
pub mod Synced
pub mod Laws
use fix.Base.{
  ℕ, zero, suc, ◌+◌, ◌-◌, Bytes, Bool, true, false, not, List, Option, none, some, [], ◌∷◌, ◌++◌,
  ◌==◌, ◌||◌, ◌&&◌, if◌then◌else◌, is_some, length, take, drop, ltb,
}
use fix.Base.SortedMap.{find, insert, assign, last_key}

pub record Prec : Type 0 where
  pub offset : ℕ
  pub size : ℕ

pub record IPrec : Type 0 where
  pub seq : ℕ
  pub prec : Prec

abbrev pub Index : Type 0
Index = List (ℕ × Prec)

-- `written` is how much of a message a write that fails has left in the file.
pub record Io : Type 0 where
  pub seek_index : Bool
  pub write_index : Bool
  pub seek_data : Bool
  pub write_data : Bool
  pub read_data : Bool
  pub written : ℕ

pub record FilePersister : Type 0 where
  pub opened : Bool
  pub was_created : Bool
  pub index : Index
  pub index_file : List IPrec
  pub data_file : Bytes

abbrev iprec : ℕ → ℕ → ℕ → IPrec
iprec seq offset size = record { seq = seq; prec = record { offset = offset; size = size } }

-- A write at offset 0.
abbrev overwrite_first : IPrec → List IPrec → List IPrec
overwrite_first r [] = r ∷ []
overwrite_first r (x ∷ xs) = r ∷ xs

-- The loop of `initialise` over an existing index; a read fails after that many records. A second
-- record with a number is ignored.
unfoldable pub load_index : List IPrec → Option ℕ → Index → Index × Bool
unfolding insert
load_index rs (some zero) m = (m, false)
load_index [] (some (suc n)) m = (m, true)
load_index [] none m = (m, true)
load_index (r ∷ rs) (some (suc n)) m = load_index rs (some n) (insert r.seq r.prec m)
load_index (r ∷ rs) none m = load_index rs none (insert r.seq r.prec m)

-- `exists` is whether the database file is there; the two `open` calls may fail. The rotation of
-- older files by a purge does not concern these two, and is left out.
unfoldable pub initialise :
    Bool → Bool → Bool → Bool → Option ℕ → FilePersister → FilePersister × Bool
unfolding load_index
initialise exists purge open_data open_index fails p =
    if p.opened
    then (p, true)
    else if not exists || purge
    then (if not open_data
        then (p, false)
        else if not open_index
        then (record p { data_file = [] }, false)
        else (
          record p { opened = true; was_created = true; index_file = []; data_file = [] },
          true,
        ))
    else if not (open_data && open_index)
    then (p, false)
    else (let (m, complete) = load_index p.index_file fails p.index in
        if complete
        then (record p { opened = true; index = m }, true)
        else (record p { index = m }, false))

unfoldable pub get_last_seqnum : FilePersister → ℕ
unfolding last_key
get_last_seqnum p = last_key p.index

-- `put` of the two sequence numbers.
unfoldable pub put_control : ℕ → ℕ → Io → FilePersister → FilePersister × Bool
unfolding find insert assign
put_control sender target io p =
    let r = iprec 0 sender target in
    let m = if is_some (find 0 p.index) then assign 0 r.prec p.index else insert 0 r.prec p.index in
    if not p.opened
    then (p, false)
    else if not io.seek_index || not io.write_index
    then (record p { index = m }, false)
    else (record p { index = m; index_file = overwrite_first r p.index_file }, true)

-- `put` of a message.
unfoldable pub put : ℕ → Bytes → Io → FilePersister → FilePersister × Bool
unfolding find insert
put seqnum what io p =
    let r = iprec seqnum (length p.data_file) (length what) in
    let indexed = p.index_file ++ r ∷ [] in
    if not p.opened || seqnum == 0
    then (p, false)
    else if is_some (find seqnum p.index)
    then (p, false)
    else if not io.seek_index || not io.seek_data || not io.write_index
    then (p, false)
    else if not io.write_data
    then (record p { index_file = indexed; data_file = p.data_file ++ take io.written what }, false)
    else (
      record p {
        index = insert seqnum r.prec p.index;
        index_file = indexed;
        data_file = p.data_file ++ what;
      },
      true,
    )

unfoldable pub get_control : FilePersister → Option (ℕ × ℕ)
unfolding find
get_control p =
    if not p.opened
    then none
    else (elim (find 0 p.index) [ none ↦ none | some r ↦ some (r.offset, r.size) ])

-- What a message is read as; `overflow` is a write past the buffer on the stack.
pub data Got : Type 0 where
  got : Bytes → Got
  missing : Got
  overflow : Got

-- `lseek` and `read`: less than the size is an error. `max_msg_len` is FIX8_MAX_MSG_LENGTH, the size of
-- the buffer that is read into.
unfoldable pub read_record : ℕ → Prec → Io → FilePersister → Got
read_record max_msg_len r io p =
    let text = take r.size (drop r.offset p.data_file) in
    if not io.seek_data || not io.read_data
    then missing
    else if ltb max_msg_len (length text)
    then overflow
    else if not (length text == r.size)
    then missing
    else got text

unfoldable pub get : ℕ → ℕ → Io → FilePersister → Got
unfolding find read_record
get max_msg_len seqnum io p =
    if not p.opened || seqnum == 0
    then missing
    else (elim (find seqnum p.index) [ none ↦ missing | some r ↦ read_record max_msg_len r io p ])

unfoldable pub nearest_loop : ℕ → ℕ → Index → ℕ
unfolding find
nearest_loop zero start m = 0
nearest_loop (suc n) start m = elim (find start m) [
  | some _ ↦ start
  | none ↦ nearest_loop n (start + 1) m
]

unfoldable pub find_nearest_highest_seqnum : ℕ → ℕ → FilePersister → ℕ
unfolding nearest_loop
find_nearest_highest_seqnum requested last p =
    if last == 0 then 0 else nearest_loop (suc last - requested) requested p.index
