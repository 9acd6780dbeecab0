-- ===== src/Vault/LockFile/Race.antt =====
-- Calls of `acquire_lease` that are interleaved.
use mathlib.Core.Path.{subst}
use islands_kernel.Base.{
  ℕ, zero, suc, ◌+◌, ◌≤◌, ◌<◌, String, ◌≡◌, refl, sym, true, false, Option, none, some, List, [],
  ◌∷◌, arith, string_eq, inl, inr, ◌⊎◌,
}
use islands_kernel.Vault.LockFile.{
  Floats, Attempt, Phase, linking, comparing, replacing, confirming, done, content, lease_until,
  is_locked, advance, System, step_in, step, run, begin, won, winners,
}
use islands_kernel.Vault.LockFile.Atomic.{
  IsReadable, IsLine, lease_until-content, first_line-content,
}

-- 1 where there is a lock file.
abbrev pub taken : Option String → ℕ
taken none = 0
taken (some text) = 1

taken_most : (lock : Option String) → taken lock ≤ 1
taken_most none = omega arith
taken_most (some text) = omega arith

-- No call is about to take a lease over.
abbrev IsCalm : Phase → Type 0
IsCalm linking = Unit
IsCalm comparing = Unit
IsCalm replacing = ⊥
IsCalm confirming = ⊥
IsCalm (done answer) = Unit

module _ (floats : Floats) (readable : IsReadable floats) (horizon : ℕ) where
  -- The call reads the clock before the horizon, and asks for a lease until the horizon or later.
  abbrev pub IsWithin : Attempt → Type 0
  IsWithin a = IsLine a.holder × (a.now < horizon) × (horizon ≤ a.until)

  abbrev pub AreWithin : List Attempt → Type 0
  AreWithin [] = Unit
  AreWithin (a ∷ attempts) = IsWithin a × AreWithin attempts

  -- The lock file, if there is one, is locked before the horizon.
  abbrev pub IsLiveFile : Option String → Type 0
  IsLiveFile none = Unit
  IsLiveFile (some text) =
      (lease_until floats (some text) ≡ none)
      ⊎ ((until : ℕ) × (lease_until floats (some text) ≡ some until) × (horizon ≤ until))

  locked_before :
      (text : String) (now : ℕ)
      → IsLiveFile (some text)
      → now < horizon
      → is_locked (lease_until floats (some text)) now ≡ true
  unfolding is_locked
  locked_before text now live before = elim live [
    | inl unreadable ↦ ground (arith, unreadable)
    | inr (until, read, late) ↦ ground (arith, read)
  ]

  AreCalm : List (Attempt × Phase) → Type 0
  AreCalm [] = Unit
  AreCalm ((a, phase) ∷ calls) = (IsWithin a × IsCalm phase) × AreCalm calls

  content-IsLiveFile : (a : Attempt) → IsWithin a → IsLiveFile (some (content floats a))
  content-IsLiveFile a (line, early, late) =
      inr (a.until, lease_until-content floats readable a line, late)

  -- A step of one call keeps it calm and the file live, and the call has won just where it made the
  -- file.
  advance-IsCalm :
      (a : Attempt) (phase : Phase) (lock : Option String)
      → IsWithin a
      → IsCalm phase
      → IsLiveFile lock
      → let (phase', lock') = advance floats a phase lock in
        IsCalm phase' × IsLiveFile lock' × (won phase' + taken lock ≡ won phase + taken lock')
  unfolding advance won lease_until is_locked
  advance-IsCalm a linking none within calm live = (tt, content-IsLiveFile a within, refl)
  advance-IsCalm a linking (some text) within calm live = (tt, live, refl)
  advance-IsCalm a comparing none within calm live = (tt, tt, refl)
  advance-IsCalm a comparing (some text) within calm live =
      rw (locked_before text a.now live within.1) (tt, live, refl)
  advance-IsCalm a replacing lock within calm live = absurd calm
  advance-IsCalm a confirming lock within calm live = absurd calm
  advance-IsCalm a (done answer) lock within calm live = (tt, live, refl)

  step_in-AreCalm :
      (n : ℕ) (lock : Option String) (calls : List (Attempt × Phase))
      → AreCalm calls
      → IsLiveFile lock
      → let (lock', calls') = step_in floats n lock calls in
        AreCalm calls'
        × IsLiveFile lock'
        × (winners calls' + taken lock ≡ winners calls + taken lock')
  unfolding step_in winners AreCalm
  step_in-AreCalm n lock [] calm live = (tt, live, refl)
  step_in-AreCalm zero lock ((a, phase) ∷ calls) ((within, calm), rest) live =
      let (calm', live', kept) = advance-IsCalm a phase lock within calm live in
      (((within, calm'), rest), live', ground arith)
  step_in-AreCalm (suc n) lock ((a, phase) ∷ calls) (own, rest) live =
      let (calm', live', kept) = step_in-AreCalm n lock calls rest live in
      ((own, calm'), live', ground arith)

  run-AreCalm :
      (schedule : List ℕ) (sys : System)
      → AreCalm sys.calls
      → IsLiveFile sys.lock
      → let last = run floats schedule sys in
        winners last.calls + taken sys.lock ≡ winners sys.calls + taken last.lock
  unfolding run step
  run-AreCalm [] sys calm live = refl
  run-AreCalm (n ∷ schedule) sys calm live =
      let (calm', live', kept) = step_in-AreCalm n sys.lock sys.calls calm live in
      ground (arith, run-AreCalm schedule (step floats n sys) calm' live')

  begin-AreCalm :
      (lock : Option String) (attempts : List Attempt)
      → AreWithin attempts
      → AreCalm (begin floats lock attempts).calls
        × (winners (begin floats lock attempts).calls ≡ 0)
        × ((begin floats lock attempts).lock ≡ lock)
  unfolding begin winners won AreCalm
  begin-AreCalm lock [] within = (tt, refl, refl)
  begin-AreCalm lock (a ∷ attempts) (own, within) =
      let (calm, none_won, same) = begin-AreCalm lock attempts within in
      (((own, tt), calm), ground arith, refl)

  -- However calls of `acquire_lease` are interleaved, while no lease expires: one of them at most is
  -- told that it holds the lease, and none is where the file was there before. As many are as files
  -- came to be. Every call reads the clock before a horizon and asks for a lease up to the horizon
  -- or beyond, and a file that was there before is locked until then; holders are single lines.
  pub acquire_lease_excludes :
      (schedule : List ℕ) (lock : Option String) (attempts : List Attempt)
      → AreWithin attempts
      → IsLiveFile lock
      → let last = run floats schedule (begin floats lock attempts) in
        (winners last.calls + taken lock ≡ taken last.lock) × (winners last.calls ≤ 1)
  acquire_lease_excludes schedule lock attempts within live =
      let (calm, none_won, same) = begin-AreCalm lock attempts within in
      let start = begin floats lock attempts in
      let kept = run-AreCalm schedule start calm (subst (λ l. IsLiveFile l) (sym same) live) in
      let last = run floats schedule start in
      let total : winners last.calls + taken lock ≡ taken last.lock =
        ground (arith, kept, none_won, same) in
      (total, ground (arith, total, taken_most last.lock))

module _ (floats : Floats) (readable : IsReadable floats) where
  -- Once a lease has expired, any two calls can both be told that they hold it, whoever makes them:
  -- some schedule has each read the expired lease before either replaces it, and each read its own
  -- text back before the other replaces that. The holders are single lines.
  pub acquire_lease_races :
      (a b : Attempt) (text : String) (expired : ℕ)
      → IsLine a.holder
      → IsLine b.holder
      → lease_until floats (some text) ≡ some expired
      → expired ≤ a.now
      → expired ≤ b.now
      → (schedule : List ℕ) × (winners
            (run floats schedule (begin floats (some text) (a ∷ b ∷ []))).calls
          ≡ 2)
  unfolding run step step_in begin advance winners won is_locked
  acquire_lease_races a b text expired line line' read over over' =
      let free : is_locked (lease_until floats (some text)) a.now ≡ false = ground (arith, read) in
      let free' : is_locked (lease_until floats (some text)) b.now ≡ false = ground (arith, read) in
      (
        0 ∷ 1 ∷ 0 ∷ 1 ∷ 0 ∷ 0 ∷ 1 ∷ 1 ∷ [],
        rw (free, free')
            (ground (
              arith,
              first_line-content floats readable a line,
              first_line-content floats readable b line',
            )),
      )
