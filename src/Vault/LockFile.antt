-- ===== src/Vault/LockFile.antt =====
-- vault/store/local_file.py: the lease of one connection as a lock file. Every call that reads or
-- writes the file is one step, so that processes which acquire the lease may be interleaved.
pub mod Atomic
pub mod Race
use islands_kernel.Base.{
  ℕ, zero, suc, ◌+◌, String, ◌<>◌, Bool, true, false, ◌&&◌, Option, none, some, List, [], ◌∷◌, leb,
  ltb, ◌==◌, string_eq, if◌then◌else◌,
}
use islands_kernel.Base.Split.{split_first, has_separator}

-- `c == "\n"`
unfoldable pub is_newline : ℕ → Bool
is_newline c = leb c 10 && leb 10 c

-- The text of a float in an f-string, and `float` of a text, which raises where it is not one.
pub record Floats : Type 0 where
  pub show : ℕ → String
  pub float : String → Option ℕ

-- The arguments of one call of `acquire_lease`.
pub record Attempt : Type 0 where
  pub holder : String
  pub until : ℕ
  pub now : ℕ

-- Where a call stands: before `os.link`, before `_lease_until`, before `os.replace`, before the read
-- that confirms, and returned.
pub data Phase : Type 0 where
  linking comparing replacing confirming : Phase
  done : Bool → Phase

-- `text.split("\n", 1)[0]`
unfoldable pub first_line : String → String
first_line text = elim (split_first is_newline text) [ none ↦ text | some p ↦ p.0 ]

-- `cur_until is None or cur_until > now`
unfoldable pub is_locked : Option ℕ → ℕ → Bool
is_locked none now = true
is_locked (some cur_until) now = ltb now cur_until

-- The file and the calls that run on it.
pub record System : Type 0 where
  pub lock : Option String
  pub calls : List (Attempt × Phase)

module _ (floats : Floats) where
  -- `f"{holder}\n{until}"`
  unfoldable pub content : Attempt → String
  content a = a.holder <> ("\n" <> floats.show a.until)

  -- `_lease_until`, of a file that may be missing.
  unfoldable pub lease_until : Option String → Option ℕ
  lease_until none = none
  lease_until (some text) = elim (split_first is_newline text) [
    | none ↦ none
    | some p ↦ floats.float p.1
  ]

  -- One step of a call, on the lock file; `none` is that there is no file. The temporary file is the
  -- call's own, so to write it is no step.
  unfoldable pub advance : Attempt → Phase → Option String → Phase × Option String
  advance a linking none = (done true, some (content a))
  advance a linking (some text) = (comparing, some text)
  advance a comparing lock =
      if is_locked (lease_until lock) a.now then (done false, lock) else (replacing, lock)
  advance a replacing lock = (confirming, some (content a))
  advance a confirming none = (done false, none)
  advance a confirming (some text) = (done (first_line text == a.holder), some text)
  advance a (done answer) lock = (done answer, lock)

  -- A call that no other step comes between: four steps are the most it takes.
  unfoldable pub acquire_lease : Attempt → Option String → Phase × Option String
  acquire_lease a lock =
      let (p1, l1) = advance a linking lock in
      let (p2, l2) = advance a p1 l1 in let (p3, l3) = advance a p2 l2 in advance a p3 l3

  unfoldable pub lease_held : Option String → ℕ → Bool
  lease_held none now = false
  lease_held (some text) now = is_locked (lease_until (some text)) now

  -- The call at the position makes a step; none does past the end of the list.
  unfoldable pub step_in :
      ℕ → Option String → List (Attempt × Phase) → Option String × List (Attempt × Phase)
  step_in n lock [] = (lock, [])
  step_in zero lock ((a, phase) ∷ calls) =
      let (phase', lock') = advance a phase lock in (lock', (a, phase') ∷ calls)
  step_in (suc n) lock (c ∷ calls) =
      let (lock', calls') = step_in n lock calls in (lock', c ∷ calls')

  unfoldable pub step : ℕ → System → System
  step n sys =
      let (lock, calls) = step_in n sys.lock sys.calls in record { lock = lock; calls = calls }

  -- The steps of a schedule, one after the other.
  unfoldable pub run : List ℕ → System → System
  run [] sys = sys
  run (n ∷ schedule) sys = run schedule (step n sys)

  -- Calls that have not begun.
  unfoldable pub begin : Option String → List Attempt → System
  begin lock [] = record { lock = lock; calls = [] }
  begin lock (a ∷ attempts) =
      let rest = begin lock attempts in record { lock = lock; calls = (a, linking) ∷ rest.calls }

-- `release_lease`
unfoldable pub release_lease : String → Option String → Option String
release_lease holder none = none
release_lease holder (some text) = if first_line text == holder then none else some text

-- 1 for a call that was told that it holds the lease.
unfoldable pub won : Phase → ℕ
won (done true) = 1
won _ = 0

unfoldable pub winners : List (Attempt × Phase) → ℕ
winners [] = 0
winners ((a, phase) ∷ calls) = won phase + winners calls
