-- ===== src/Message/Store/Counts.antt =====
-- How often a field stands in the maps of a message, and what the operations do to that.
use fix.Base.{
  ℕ, suc, ◌+◌, ◌≤◌, ◌≡◌, refl, List, none, some, [], ◌∷◌, ◌==◌, if◌then◌else◌, arith, Bool-cases,
  inl, inr,
}
use fix.Base.SortedMap.{find, insert, assign, From, find_below}
use fix.Message.Store.{add_position, erase_position, erase_field}

abbrev pub one_if : ℕ → ℕ → ℕ
one_if a b = if a == b then 1 else 0

unfoldable pub count : ℕ → List (ℕ × ℕ) → ℕ
count x [] = 0
count x ((k, f) ∷ fs) = one_if f x + count x fs

pub count-add_position :
    (x pos what : ℕ) (ps : List (ℕ × ℕ))
    → count x (add_position pos what ps) ≡ one_if what x + count x ps
unfolding count add_position
count-add_position x pos what [] = refl
count-add_position x pos what ((p, f) ∷ ps) = ground (arith, count-add_position x pos what ps)

pub count-erase_position :
    (x old : ℕ) (ps : List (ℕ × ℕ))
    → 1 ≤ count old ps
    → one_if old x + count x (erase_position old ps) ≡ count x ps
unfolding count erase_position
count-erase_position x old [] h = absurd (omega (arith, h))
count-erase_position x old ((p, f) ∷ ps) h = ground (arith, count-erase_position x old ps)

pub count-insert :
    (x fnum what : ℕ) (fs : List (ℕ × ℕ))
    → find fnum fs ≡ none
    → count x (insert fnum what fs) ≡ one_if what x + count x fs
unfolding count insert find
count-insert x fnum what [] e = refl
count-insert x fnum what ((k, f) ∷ fs) e = ground (arith, count-insert x fnum what fs)

pub count-assign :
    (x fnum old what : ℕ) (fs : List (ℕ × ℕ))
    → find fnum fs ≡ some old
    → one_if old x + count x (assign fnum what fs) ≡ one_if what x + count x fs
unfolding count assign find
count-assign x fnum old what [] e = absurd (ground (arith, e))
count-assign x fnum old what ((k, f) ∷ fs) e = ground (arith, count-assign x fnum old what fs)

pub count-erase_field :
    (x fnum old : ℕ) (fs : List (ℕ × ℕ))
    → find fnum fs ≡ some old
    → one_if old x + count x (erase_field fnum fs) ≡ count x fs
unfolding count erase_field find
count-erase_field x fnum old [] e = absurd (ground (arith, e))
count-erase_field x fnum old ((k, f) ∷ fs) e = ground (arith, count-erase_field x fnum old fs)

pub count-find : (fnum old : ℕ) (fs : List (ℕ × ℕ)) → find fnum fs ≡ some old → 1 ≤ count old fs
unfolding count find
count-find fnum old [] e = absurd (ground (arith, e))
count-find fnum old ((k, f) ∷ fs) e = ground (arith, count-find fnum old fs)

From-weaken : (lo hi : ℕ) (fs : List (ℕ × ℕ)) → lo ≤ hi → From hi fs → From lo fs
From-weaken lo hi [] h s = tt
From-weaken lo hi ((k, f) ∷ fs) h s = (omega (arith, h, s.0), s.1)

pub erase_field-From :
    (fnum lo : ℕ) (fs : List (ℕ × ℕ)) → From lo fs → From lo (erase_field fnum fs)
unfolding erase_field
erase_field-From fnum lo [] s = tt
erase_field-From fnum lo ((k, f) ∷ fs) s = elim (Bool-cases (k == fnum)) [
  | inl c ↦ rw c (From-weaken lo (suc k) fs (omega (arith, s.0)) s.1)
  | inr c ↦ rw c (s.0, erase_field-From fnum (suc k) fs s.1)
]

pub find-erase_field :
    (j fnum lo : ℕ) (fs : List (ℕ × ℕ))
    → From lo fs
    → find j (erase_field fnum fs) ≡ (if j == fnum then none else find j fs)
unfolding find erase_field
find-erase_field j fnum lo [] s = ground arith
find-erase_field j fnum lo ((k, f) ∷ fs) s =
    ground (arith, find-erase_field j fnum (suc k) fs s.1, find_below j (suc k) fs s.1)
