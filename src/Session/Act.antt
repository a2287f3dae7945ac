-- ===== src/Session/Act.antt =====
-- Code that changes a session and may throw: what it changed before stays changed. `stuck` is a read
-- past a buffer, a wait that never ends, or a loop of the model that ran out of fuel.
use fix.Base.{Bool, ◌⊎◌, inl, inr, if◌then◌else◌}
use fix.Session.State.{Session, Exception}

pub data Outcome (T A : Type 0) : Type 0 where
  done : A → Session T → Outcome T A
  thrown : Exception → Session T → Outcome T A
  stuck : Outcome T A

abbrev pub Act : Type 0 → Type 0 → Type 0
Act T A = Session T → Outcome T A

infixl 5 ◌>>=◌ ◌>>◌
abbrev pub ◌>>=◌ : {T A B : Type 0} → Act T A → (A → Act T B) → Act T B
◌>>=◌ m f s = elim (m s) [ done a s' ↦ f a s' | thrown e s' ↦ thrown e s' | stuck ↦ stuck ]

abbrev pub ◌>>◌ : {T A B : Type 0} → Act T A → Act T B → Act T B
m >> k = m >>= λ _. k

abbrev pub return : {T A : Type 0} → A → Act T A
return a s = done a s

abbrev pub throw : {T A : Type 0} → Exception → Act T A
throw e s = thrown e s

abbrev pub modify : {T : Type 0} → (Session T → Session T) → Act T (Unit {0})
modify f s = done tt (f s)

abbrev pub read : {T A : Type 0} → (Session T → A) → Act T A
read f s = done (f s) s

-- `if (b) m;`
abbrev pub when : {T : Type 0} → Bool → Act T (Unit {0}) → Act T (Unit {0})
when b m = if b then m else return tt

abbrev pub catch : {T A : Type 0} → Act T A → (Exception → Act T A) → Act T A
catch m h s = elim (m s) [ done a s' ↦ done a s' | thrown e s' ↦ h e s' | stuck ↦ stuck ]

abbrev pub lift : {T A : Type 0} → Exception ⊎ A → Act T A
lift (inl e) = throw e
lift (inr a) = return a
