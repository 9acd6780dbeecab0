-- ===== src/Base/Exec.antt =====
-- Methods that change a store and may raise. What was written before a raise stays written, so
-- the state comes back beside the error too.
use islands_kernel.Base.{Result, ok, err, Bool, true, false, Option, none, some}

abbrev pub Exec : Type 0 → Type 0 → Type 0 → Type 0
Exec S E A = S → Result E A × S

module _ {S E A : Type 0} where
  abbrev pub pure : A → Exec S E A
  pure a s = (ok a, s)

  abbrev pub raise : E → Exec S E A
  raise e s = (err e, s)

  -- A pure function that may raise, as a step.
  abbrev pub lift : Result E A → Exec S E A
  lift r s = (r, s)

  -- A method that only reads.
  abbrev pub gets : (S → A) → Exec S E A
  gets f s = (ok (f s), s)

  -- A method that writes and also returns a value.
  abbrev pub call : (S → A × S) → Exec S E A
  call f s = let (a, s') = f s in (ok a, s')

  -- `if value is None: raise e`
  abbrev pub some_or : Option A → E → Exec S E A
  some_or none e = raise e
  some_or (some a) e = pure a

module _ {S E : Type 0} where
  -- A method that only writes.
  abbrev pub modify : (S → S) → Exec S E (Unit {0})
  modify f s = (ok tt, f s)

  -- `if not test: raise e`
  abbrev pub check : Bool → E → Exec S E (Unit {0})
  check true e = pure tt
  check false e = raise e

module _ {S E A B : Type 0} where
  abbrev pub continue : Result E A → (A → Exec S E B) → Exec S E B
  continue (ok a) f s = f a s
  continue (err e) f s = (err e, s)

  infixl 5 ◌>>=◌ ◌>>◌
  abbrev pub ◌>>=◌ : Exec S E A → (A → Exec S E B) → Exec S E B
  ◌>>=◌ m f s = let (r, s') = m s in continue r f s'

  abbrev pub ◌>>◌ : Exec S E A → Exec S E B → Exec S E B
  m >> n = m >>= λ _. n
