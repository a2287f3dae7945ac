-- ===== src/Persist/Memory.antt =====
-- `MemoryPersister` of runtime/persist.cpp: a map from sequence number to message. Its `_store` is
-- the whole state.
pub mod Laws
pub mod Replay
use fix.Base.{
  ℕ, zero, suc, ◌+◌, ◌-◌, ◌/◌, ◌%◌, Bytes, Bool, true, false, not, List, Option, none, some, [],
  ◌∷◌, ◌++◌, ◌==◌, if◌then◌else◌, is_some,
}
use fix.Base.SortedMap.{find, insert, last_key, next_key}
use fix.Persist.Range.{SequencePair, RetransmissionContext, Records, Called, get_range}

abbrev pub Store : Type 0
Store = List (ℕ × Bytes)

-- The four bytes of an `unsigned` in memory.
abbrev little_endian : ℕ → Bytes
little_endian n = n % 256 ∷ n / 256 % 256 ∷ n / 65536 % 256 ∷ n / 16777216 % 256 ∷ []

unfoldable pub put : ℕ → Bytes → Store → Store × Bool
unfolding insert find
put seqnum what m =
    if seqnum == 0 then (m, false) else (insert seqnum what m, not (is_some (find seqnum m)))

unfoldable pub put_control : ℕ → ℕ → Store → Store × Bool
unfolding insert find
put_control sender target m =
    (insert 0 (little_endian sender ++ little_endian target) m, not (is_some (find 0 m)))

unfoldable pub get : ℕ → Store → Option Bytes
unfolding find
get seqnum m = if seqnum == 0 then none else find seqnum m

-- The call reads the string object of the record as two words, not the text that it holds. What
-- these words are is the standard library's: `object_words`, for the object at key 0.
unfoldable pub get_control : (Bytes → ℕ × ℕ) → Store → Option (ℕ × ℕ)
unfolding find
get_control object_words m = elim (find 0 m) [ none ↦ none | some s ↦ some (object_words s) ]

-- `for (startseqnum = requested; startseqnum <= last; ++startseqnum)`, with the rounds left.
unfoldable pub nearest_loop : ℕ → ℕ → Store → ℕ
unfolding find
nearest_loop zero start m = 0
nearest_loop (suc n) start m = elim (find start m) [
  | some _ ↦ start
  | none ↦ nearest_loop n (start + 1) m
]

unfoldable pub find_nearest_highest_seqnum : ℕ → ℕ → Store → ℕ
unfolding nearest_loop
find_nearest_highest_seqnum requested last m =
    if last == 0 then 0 else nearest_loop (suc last - requested) requested m

unfoldable pub get_last_seqnum : Store → ℕ
unfolding last_key
get_last_seqnum m = last_key m

abbrev pub records : Records Store
records = record {
  last_seqnum = get_last_seqnum;
  nearest = find_nearest_highest_seqnum;
  has = λ k m. is_some (find k m);
  read = find;
  next = next_key;
}

-- The overload of `get` for a range.
module _ {S : Type 0} (store_of : S → Store)
    (callback : SequencePair → RetransmissionContext → S → Called S) where
  unfoldable pub get_messages : ℕ → ℕ → ℕ → S → Option (ℕ × S)
  unfolding get_range
  get_messages = get_range records store_of callback
