-- ===== src/Session/Ids.antt =====
-- The two comparisons of session identities.
use fix.Base.{◌≡◌, false, not, same_bytes, arith}
use fix.Session.State.{SessionId, equal_ids, unequal_ids}

-- Two identities with one sender and two targets, or the other way round, are neither equal nor
-- unequal: both operators answer false.
pub equal_ids-one_differs :
    (a b : SessionId)
    → not (same_bytes b.sender_comp_id a.sender_comp_id)
      ≡ same_bytes b.target_comp_id a.target_comp_id
    → (equal_ids a b ≡ false) × (unequal_ids a b ≡ false)
unfolding equal_ids unequal_ids
equal_ids-one_differs a b h = ground (arith, h)
