-- ===== src/Persist/Memory/Laws.antt =====
-- What the memory persister keeps, and what it gives back.
use fix.Base.{
  ℕ, ◌≡◌, ◌≢◌, Bytes, true, false, not, some, ◌++◌, ◌==◌, ◌&&◌, if◌then◌else◌, is_some, arith,
}
use fix.Base.SortedMap.{find, insert, IsSorted, insert-From, find-insert}
use fix.Persist.Memory.{Store, little_endian, put, put_control, get, get_control}

-- A message is kept under a non-zero number that is free, and then the call returns true; any other
-- call returns false. What was there stays, under every number.
pub get-put :
    (k j : ℕ) (what : Bytes) (m : Store)
    → IsSorted m
    → ((put k what m).1 ≡ (not (k == 0) && not (is_some (get k m))))
      × (get j (put k what m).0 ≡ (if (put k what m).1 && k == j then some what else get j m))
      × IsSorted (put k what m).0
unfolding put get
get-put k j what m s = (
  ground arith,
  ground (arith, find-insert k j what 0 m s),
  ground (arith, insert-From k what 0 m),
)

insert_twice :
    (j : ℕ) (x y : Bytes) (m : Store)
    → IsSorted m
    → (find j (insert 0 y (insert 0 x m)) ≡ find j (insert 0 x m))
      × (is_some (find 0 (insert 0 x m)) ≡ true)
      × (j ≢ 0 → find j (insert 0 x m) ≡ find j m)
insert_twice j x y m s =
    let s' = insert-From 0 x 0 m (omega arith) s in
    let at_0 : is_some (find 0 (insert 0 x m)) ≡ true = ground (arith, find-insert 0 0 x 0 m s) in
    (
      ground (arith, find-insert 0 j y 0 (insert 0 x m) s'),
      at_0,
      λ ne. ground (arith, find-insert 0 j x 0 m s),
    )

-- The sequence numbers are recorded once: a later record is refused and the first one stays, and
-- no message changes under either call.
pub put_control_twice :
    (words : Bytes → ℕ × ℕ) (a b c d j : ℕ) (m : Store)
    → IsSorted m
    → let first = (put_control a b m).0 in
      ((put_control c d first).1 ≡ false)
      × (get_control words (put_control c d first).0 ≡ get_control words first)
      × (get j (put_control c d first).0 ≡ get j m)
unfolding put_control get_control get
put_control_twice words a b c d j m s =
    let x = little_endian a ++ little_endian b in
    let y = little_endian c ++ little_endian d in
    let (same_j, _, away) = insert_twice j x y m s in
    let (same_0, there, _) = insert_twice 0 x y m s in
    (rw there, rw (same_0, get_control), ground (arith, same_j, away))
