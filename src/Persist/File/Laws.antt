-- ===== src/Persist/File/Laws.antt =====
-- What the file persister gives back.
use fix.Base.{
  ℕ, zero, suc, ◌+◌, ◌≤◌, ◌≡◌, ◌≢◌, refl, ap, Bool, Bytes, true, false, not, none, some, [], ◌∷◌,
  ◌++◌, ◌==◌, ◌&&◌, if◌then◌else◌, is_some, arith, length, take, drop, length-append, ltb,
  ℕ_discrete, Option-cases, drop-append, ◌⊎◌, inl, inr, Bool-cases, ==_refl,
}
use fix.Base.SortedMap.{find, insert, IsSorted, insert-From, find-insert}
use fix.Persist.File.{
  Prec, Index, Io, FilePersister, iprec, put, get, read_record, Got, got, missing, overflow,
}
use fix.Persist.File.Synced.{all_done}

-- Every message of the index lies within the data file and fits the buffer of `get`.
abbrev Inside : ℕ → ℕ → Index → Type 0
Inside mx n [] = Unit
Inside mx n ((k, r) ∷ m) = ((k ≡ 0) ⊎ ((r.offset + r.size ≤ n) × (r.size ≤ mx))) × Inside mx n m

abbrev pub is_got : Got → Bool
is_got (got text) = true
is_got missing = false
is_got overflow = false

pub record IsSound (mx : ℕ) (p : FilePersister) : Type 0 where
  pub is_open : p.opened ≡ true
  pub sorted : IsSorted p.index
  pub inside : Inside mx (length p.data_file) p.index

take-drop-append :
    (n o : ℕ) (xs ys : Bytes) → o + n ≤ length xs → take n (drop o (xs ++ ys)) ≡ take n (drop o xs)
take-drop-append zero o xs ys h = refl
take-drop-append (suc n) o [] ys h = absurd (omega arith)
take-drop-append (suc n) zero (x ∷ xs) ys h =
    ap (◌∷◌ x) (take-drop-append n zero xs ys (omega arith))
take-drop-append (suc n) (suc o) (x ∷ xs) ys h = take-drop-append (suc n) o xs ys (omega arith)

length-take-drop : (n o : ℕ) (xs : Bytes) → o + n ≤ length xs → length (take n (drop o xs)) ≡ n
length-take-drop zero o xs h = refl
length-take-drop (suc n) o [] h = absurd (omega arith)
length-take-drop (suc n) zero (x ∷ xs) h = ap suc (length-take-drop n zero xs (omega arith))
length-take-drop (suc n) (suc o) (x ∷ xs) h = length-take-drop (suc n) o xs (omega arith)

-- A record within the data file is read.
read-inside :
    (mx : ℕ) (r : Prec) (p : FilePersister)
    → (r.offset + r.size ≤ length p.data_file) × (r.size ≤ mx)
    → read_record mx r all_done p ≡ got (take r.size (drop r.offset p.data_file))
unfolding read_record
read-inside mx r p h = ground (arith, h.1, length-take-drop r.size r.offset p.data_file h.0)

take-all : (xs : Bytes) → take (length xs) xs ≡ xs
take-all [] = refl
take-all (x ∷ xs) = ap (◌∷◌ x) (take-all xs)

find-Inside :
    (mx k n : ℕ) (m : Index) (r : Prec)
    → Inside mx n m
    → find k m ≡ some r
    → k ≢ 0
    → (r.offset + r.size ≤ n) × (r.size ≤ mx)
unfolding find
find-Inside mx k n [] r i e ne = ground arith
find-Inside mx k n ((j, w) ∷ m) r i e ne = ground (arith, find-Inside mx k n m r i.1)

Inside-more : (mx n d : ℕ) (m : Index) → Inside mx n m → Inside mx (n + d) m
Inside-more mx n d [] i = tt
Inside-more mx n d ((k, r) ∷ m) (inl e, i) = (inl e, Inside-more mx n d m i)
Inside-more mx n d ((k, r) ∷ m) (inr h, i) = (inr (omega (arith, h.0), h.1), Inside-more mx n d m i)

insert-Inside :
    (mx k n : ℕ) (r : Prec) (m : Index)
    → (r.offset + r.size ≤ n) × (r.size ≤ mx)
    → Inside mx n m
    → Inside mx n (insert k r m)
unfolding insert
insert-Inside mx k n r [] h i = (inr h, tt)
insert-Inside mx k n r ((j, w) ∷ m) h i = elim (Bool-cases (j == k)) [
  | inl e ↦ rw e i
  | inr e ↦ elim (Bool-cases (ltb k j)) [
    | inl l ↦ rw (e, l) (inr h, i)
    | inr l ↦ rw (e, l) (i.0, insert-Inside mx k n r m h i.1)
  ]
]

-- What `get` reads of a sound persister, when no call of the system fails.
get-found :
    (mx k : ℕ) (p : FilePersister)
    → IsSound mx p
    → k ≢ 0
    → get mx k all_done p ≡ (elim (find k p.index) [
      | none ↦ missing
      | some r ↦ got (take r.size (drop r.offset p.data_file))
    ])
unfolding get
get-found mx k p s ne = elim (Option-cases (find k p.index)) [
  | inl e ↦ ground (arith, e, s.is_open)
  | inr (r, e) ↦ ground (
    arith,
    e,
    s.is_open,
    read-inside mx r p (find-Inside mx k (length p.data_file) p.index r s.inside e ne),
  )
]

-- What `put` does, when no call of the system fails.
put-refused :
    (k : ℕ) (what : Bytes) (p : FilePersister)
    → (k ≡ 0) ⊎ (is_some (find k p.index) ≡ true)
    → put k what all_done p ≡ (p, false)
unfolding put
put-refused k what p (inl e) = ground arith
put-refused k what p (inr e) = ground arith

abbrev extended : ℕ → Bytes → FilePersister → FilePersister
extended k what p =
    let r = iprec k (length p.data_file) (length what) in
    record p {
      index = insert k r.prec p.index;
      index_file = p.index_file ++ r ∷ [];
      data_file = p.data_file ++ what;
    }

put-done :
    (k : ℕ) (what : Bytes) (p : FilePersister)
    → p.opened ≡ true
    → k ≢ 0
    → is_some (find k p.index) ≡ false
    → put k what all_done p ≡ (extended k what p, true)
unfolding put
put-done k what p o ne e = ground arith

extended-IsSound :
    (mx k : ℕ) (what : Bytes) (p : FilePersister)
    → length what ≤ mx
    → IsSound mx p
    → IsSound mx (extended k what p)
extended-IsSound mx k what p short s =
    let n = length p.data_file in
    let r = (iprec k n (length what)).prec in
    let size : length (p.data_file ++ what) ≡ n + length what = length-append p.data_file what in
    record {
      is_open = s.is_open;
      sorted = insert-From k r 0 p.index (omega arith) s.sorted;
      inside = rw size (
          insert-Inside mx k (n + length what) r p.index (omega arith, short)
            (Inside-more mx n (length what) p.index s.inside));
    }

get-zero : (mx : ℕ) (io : Io) (p : FilePersister) → get mx 0 io p ≡ missing
unfolding get
get-zero mx io p = ground arith

-- What the extended persister gives back.
get-extended :
    (mx k j : ℕ) (what : Bytes) (p : FilePersister)
    → length what ≤ mx
    → IsSound mx p
    → k ≢ 0
    → find k p.index ≡ none
    → get mx j all_done (extended k what p) ≡ (if k == j then got what else get mx j all_done p)
get-extended mx k zero what p short s ne free =
    rw (get-zero mx all_done p, get-zero mx all_done (extended k what p)) (ground arith)
get-extended mx k (suc i) what p short s ne free =
    let j = suc i in
    let n = length p.data_file in
    let q = extended k what p in
    let r = (iprec k n (length what)).prec in
    let found = find-insert k j r 0 p.index s.sorted in
    let new = get-found mx j q (extended-IsSound mx k what p short s) (omega arith) in
    let old = get-found mx j p s (omega arith) in
    elim (ℕ_discrete k j) [
      | yes e ↦
          rw (new, found, free, e, ==_refl j, drop-append p.data_file what, take-all what) refl
      | no d ↦ elim (Option-cases (find j p.index)) [
        | inl none_j ↦ ground (arith, new, old, found, free, none_j)
        | inr (x, some_j) ↦
            let kept =
              take-drop-append x.size x.offset p.data_file what
                (find-Inside mx j n p.index x s.inside some_j (omega arith)).0 in
            ground (arith, new, old, found, free, some_j, kept)
      ]
    ]

-- Where the system does its calls and the messages fit the buffer of `get`, a message is kept under a non-zero number that is free, and then
-- the call returns true; any other call returns false. What was there stays, under every number, and
-- the persister stays sound.
pub stored :
    (mx k j : ℕ) (what : Bytes) (p : FilePersister)
    → length what ≤ mx
    → IsSound mx p
    → ((put k what all_done p).1 ≡ (not (k == 0) && not (is_got (get mx k all_done p))))
      × (get mx j all_done (put k what all_done p).0
          ≡ (if (put k what all_done p).1 && k == j then got what else get mx j all_done p))
      × IsSound mx (put k what all_done p).0
stored mx k j what p short s = elim (ℕ_discrete k 0) [
  | yes z ↦ rw (put-refused k what p (inl z)) (ground (arith, z), refl, s)
  | no ne ↦ elim (Option-cases (find k p.index)) [
    | inl free ↦
        let absent : get mx k all_done p ≡ missing = rw (get-found mx k p s ne, free) refl in
        rw (put-done k what p s.is_open ne (rw free refl)) (
          rw absent (ground arith),
          get-extended mx k j what p short s ne free,
          extended-IsSound mx k what p short s,
        )
    | inr (x, there) ↦
        let found = get-found mx k p s ne in
        rw (put-refused k what p (inr (rw there refl))) (rw (found, there) (ground arith), refl, s)
  ]
]
