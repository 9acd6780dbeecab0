-- ===== src/Tests/LockFile.antt =====
-- Lock files whose floats are written in unary.
use Prim.Native.String.append
use islands_kernel.Base.{
  ℕ, zero, suc, ◌+◌, ◌≤◌, String, ◌<>◌, ◌≡◌, refl, ◌∙◌, ap, false, true, none, some, List, [], ◌∷◌,
  arith, if◌then◌else◌,
}
use islands_kernel.Vault.Model.{Lease}
use islands_kernel.Vault.Store.{is_live}
use islands_kernel.Vault.LockFile.{
  is_newline, Floats, Attempt, done, content, acquire_lease, run, begin, winners,
}
use islands_kernel.Vault.LockFile.Atomic.{
  IsReadable, file_of, acquire_lease_alone, lease_until-content,
}
use islands_kernel.Vault.LockFile.Race.{taken, acquire_lease_excludes, acquire_lease_races}

abbrev marks : ℕ → String
marks zero = ""
marks (suc n) = "1" <> marks n

abbrev count : String → ℕ
count String.[] = 0
count (String.◌∷◌ c s) = suc (count s)

abbrev unary : Floats
unary = record { show = marks; float = λ text. some (count text) }

count_first : (s : String) → count ("1" <> s) ≡ suc (count s)
count_first s = ap count (append.cons "1" String.[] s ∙ ap (λ t. String.◌∷◌ "1" t) (append.nil s))

count-marks : (n : ℕ) → count (marks n) ≡ n
count-marks zero = refl
count-marks (suc n) = count_first (marks n) ∙ ap suc (count-marks n)

unary-IsReadable : IsReadable unary
unary-IsReadable = record { float-show = λ n. ap some (count-marks n) }

abbrev first : Attempt
first = record { holder = "w1"; until = 9; now = 5 }

abbrev second : Attempt
second = record { holder = "w2"; until = 8; now = 4 }

abbrev expired : Lease
expired = record { holder = "w0"; until = 3 }

acquire_lease_alone_example :
    acquire_lease unary first (file_of unary unary-IsReadable (some expired)) ≡ (
      if is_live (some expired) first.now
      then (done false, file_of unary unary-IsReadable (some expired))
      else (done true, file_of unary unary-IsReadable (some (record { holder = "w1"; until = 9 }))))
unfolding is_newline
acquire_lease_alone_example =
    acquire_lease_alone unary unary-IsReadable first (some expired) refl refl

acquire_lease_excludes_example :
    let last = run unary (0 ∷ 1 ∷ 0 ∷ 1 ∷ []) (begin unary none (first ∷ second ∷ [])) in
    (winners last.calls + taken none ≡ taken last.lock) × (winners last.calls ≤ 1)
unfolding is_newline
acquire_lease_excludes_example =
    acquire_lease_excludes unary unary-IsReadable 7 (0 ∷ 1 ∷ 0 ∷ 1 ∷ []) none (first ∷ second ∷ [])
      ((refl, omega arith, omega arith), ((refl, omega arith, omega arith), tt)) tt

abbrev old : Attempt
old = record { holder = "w0"; until = 3; now = 0 }

acquire_lease_races_example :
    (schedule : List ℕ) × (winners
        (run unary schedule (begin unary (some (content unary old)) (first ∷ second ∷ []))).calls
      ≡ 2)
unfolding is_newline
acquire_lease_races_example =
    acquire_lease_races unary unary-IsReadable first second (content unary old) 3 refl refl
      (lease_until-content unary unary-IsReadable old refl) (omega arith) (omega arith)
