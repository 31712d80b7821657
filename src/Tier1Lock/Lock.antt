-- ===== src/Tier1Lock/Lock.antt =====
-- engine/tier1_lock.py, `acquire` and `release`. What `flock` and the clock answer at each attempt is
-- the environment's, and so is the descriptor that `os.open` gives.
use gitreins.Prelude.{
  ℕ, zero, suc, ◌+◌, Bool, true, false, List, [], ◌∷◌, Option, none, some, String,
}
use gitreins.Prelude.{if◌then◌else◌, ◌==◌, nat_eq, string_eq}

-- `_LOCK_FD`, `LAST_ACQUIRE_RESULT`, and the descriptors that the process has open.
pub record Process : Type 0 where
  pub lock_fd : Option ℕ
  pub last_acquire_result : Option String
  pub open_fds : List ℕ

-- `opened` is what `os.open` returns, or none when it raises. `granted k` says that attempt `k` gets
-- the lock, `expired k` that the clock read after it has reached the deadline.
pub record World : Type 0 where
  pub tier1 : Bool
  pub opened : Option ℕ
  pub granted : ℕ → Bool
  pub expired : ℕ → Bool

unfoldable pub close : ℕ → List ℕ → List ℕ
close fd [] = []
close fd (other ∷ others) = if fd == other then others else other ∷ close fd others

module _ (world : World) where
  open world use {tier1, opened, granted, expired}

  abbrev pub success : Bool → String
  success waited = if waited then "waited" else "acquired"

  -- The `while True` loop from attempt `k`; none when the fuel is too short.
  unfoldable pub attempts : (fuel k : ℕ) → Bool → Option String
  attempts zero k waited = none
  attempts (suc fuel) k waited =
      let rest = attempts fuel (k + 1) true in
      if granted k then some (success waited) else if expired k then some "wait-expired" else rest

  -- The end of the loop: an expired wait closes the descriptor, a lock keeps it.
  abbrev pub keep_or_close : ℕ → Process → String → Option String × Process
  keep_or_close fd p result =
      if result == "wait-expired"
      then (
        some result,
        record p { last_acquire_result = some result; open_fds = close fd (fd ∷ p.open_fds) },
      )
      else (
        some result,
        record p {
          lock_fd = some fd;
          last_acquire_result = some result;
          open_fds = fd ∷ p.open_fds;
        },
      )

  abbrev pub settle_wait : ℕ → Process → Option String → Option (Option String × Process)
  settle_wait fd p none = none
  settle_wait fd p (some result) = some (keep_or_close fd p result)

  abbrev pub try_lock : Option ℕ → ℕ → Process → Option (Option String × Process)
  try_lock none fuel p = some (none, record p { last_acquire_result = none })
  try_lock (some fd) fuel p = settle_wait fd p (attempts fuel 0 false)

  -- `acquire`
  unfoldable pub acquire : ℕ → Process → Option (Option String × Process)
  unfolding close attempts
  acquire fuel p = if tier1 then try_lock opened fuel p else some (none, p)

abbrev pub release_fd : Option ℕ → Process → Process
release_fd none p = p
release_fd (some fd) p = record p {
  lock_fd = none;
  last_acquire_result = none;
  open_fds = close fd p.open_fds;
}

-- `release`
unfoldable pub release : Process → Process
unfolding close
release p = release_fd p.lock_fd p
