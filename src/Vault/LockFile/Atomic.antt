-- ===== src/Vault/LockFile/Atomic.antt =====
-- A call that nothing comes between, against the lease in memory.
use islands_kernel.Base.{
  ℕ, String, ◌≡◌, refl, true, false, Option, none, some, arith, ltb, string_eq, if◌then◌else◌,
  Bool-cases, inl, inr,
}
use islands_kernel.Base.Split.{split_first, has_separator, split_first-append}
use islands_kernel.Vault.Model.{Lease}
use islands_kernel.Vault.Store.{is_live}
use islands_kernel.Vault.LockFile.{
  is_newline, Floats, Attempt, done, first_line, content, lease_until, is_locked, advance,
  acquire_lease,
}

-- `float` reads what an f-string writes.
pub record IsReadable (floats : Floats) : Type 0 where
  pub float-show : (n : ℕ) → floats.float (floats.show n) ≡ some n

-- A holder is one line.
abbrev pub IsLine : String → Type 0
IsLine holder = has_separator is_newline holder ≡ false

module _ (floats : Floats) (readable : IsReadable floats) where
  pub split-content :
      (a : Attempt)
      → IsLine a.holder
      → split_first is_newline (content floats a) ≡ some (a.holder, floats.show a.until)
  unfolding content is_newline
  split-content a line = split_first-append is_newline a.holder _ (floats.show a.until) refl line

  pub lease_until-content :
      (a : Attempt) → IsLine a.holder → lease_until floats (some (content floats a)) ≡ some a.until
  unfolding lease_until
  lease_until-content a line = ground (arith, split-content a line, readable.float-show a.until)

  pub first_line-content :
      (a : Attempt) → IsLine a.holder → first_line (content floats a) ≡ a.holder
  unfolding first_line
  first_line-content a line = ground (arith, split-content a line)

  -- The file of a lease.
  abbrev pub file_of : Option Lease → Option String
  file_of none = none
  file_of (some cur) =
      some (content floats (record { holder = cur.holder; until = cur.until; now = 0 }))

  abbrev pub HasLine : Option Lease → Type 0
  HasLine none = Unit
  HasLine (some cur) = IsLine cur.holder

  -- A call of `acquire_lease` that no other step comes between does what the lease in memory does:
  -- it refuses a live lease and leaves the file, and otherwise it takes the lease over and answers
  -- that it holds it. The holders are single lines.
  pub acquire_lease_alone :
      (a : Attempt) (cur : Option Lease)
      → IsLine a.holder
      → HasLine cur
      → acquire_lease floats a (file_of cur) ≡ (
          if is_live cur a.now
          then (done false, file_of cur)
          else (done true, file_of (some (record { holder = a.holder; until = a.until }))))
  unfolding acquire_lease advance is_locked is_live content
  acquire_lease_alone a none line lines = refl
  acquire_lease_alone a (some cur) line lines =
      let old : Attempt = record { holder = cur.holder; until = cur.until; now = 0 } in
      let was = lease_until-content old lines in
      let mine = first_line-content a line in
      elim (Bool-cases (ltb a.now cur.until)) [
        | inl live ↦ ground (arith, was, live)
        | inr over ↦ ground (arith, was, over, mine)
      ]
