-- ===== src/Tier1Lock/Tests.antt =====
-- A wait that gets the lock at its third attempt, and one that expires at its fifth.
use gitreins.Prelude.{ℕ, ◌≡◌, refl, true, false, [], ◌∷◌, none, some, String, leb}
use gitreins.Tier1Lock.Lock.{Process, World, close, attempts, acquire}
use gitreins.Tier1Lock.Laws.{Ends, attempts-Ends}

abbrev patient : World
patient = record { tier1 = true; opened = some 5; granted = λ k. leb 2 k; expired = λ k. leb 4 k }

abbrev hopeless : World
hopeless = record patient { granted = λ k. false }

abbrev process : Process
process = record { lock_fd = none; last_acquire_result = none; open_fds = 1 ∷ [] }

abbrev locked : Process
locked = record { lock_fd = some 5; last_acquire_result = some "waited"; open_fds = 5 ∷ 1 ∷ [] }

patient_waits : acquire patient 5 process ≡ some (some "waited", locked)
unfolding acquire attempts close
patient_waits = refl

hopeless_expires :
    acquire hopeless 5 process
    ≡ some (some "wait-expired", record process { last_acquire_result = some "wait-expired" })
unfolding acquire attempts close
hopeless_expires = refl

attempts-Ends_example :
    (result : String) × (last : ℕ) × (attempts hopeless 5 0 false ≡ some result)
    × Ends hopeless 0 last false result
attempts-Ends_example = attempts-Ends hopeless 4 0 false refl
