-- ===== src/JobStore/Liveness.antt =====
-- engine/job_store.py, the liveness of a record's worker and the settings of the heartbeat.
pub mod Laws
use gitreins.Prelude.{ℕ, Bool, true, false, not, ◌&&◌, Option, none, some}
use gitreins.Prelude.{String, if◌then◌else◌, ◌==◌, string_eq, ltb}
use gitreins.JobStore.Record.{
  Json, null, bool, int, negative, float, str, container, Signal, delivered, process_lookup_error,
  permission_error, os_error, Moment, Host, Job, worker_pid, as_pid, is_positive, heartbeat_at,
  text_of, status_text,
}
use Prim.Native.String.{◌++◌}

abbrev pub is_some : {A : Type 0} → Option A → Bool
is_some none = false
is_some (some a) = true

abbrev pub answers : Signal → Bool
answers delivered = true
answers process_lookup_error = false
answers permission_error = true
answers os_error = false

abbrev pub alive_as : {F : Type 0} → Moment F → Option ℕ → Bool
alive_as m none = false
alive_as m (some n) = answers (m.kill n)

-- `pid_alive`
unfoldable pub pid_alive : {F : Type 0} → Moment F → Json F → Bool
pid_alive m pid = alive_as m (as_pid pid)

module _ (host : Host) where
  open host use {F, minus, larger, decimal, parse_float, format_whole, nonzero}

  -- `max(a, b)`
  abbrev max_of : F → F → F
  max_of a b = if larger b a then b else a

  abbrev setting : F → F → Option F → F
  setting least default none = default
  setting least default (some f) = max_of least f

  abbrev from_env : F → F → Option String → F
  from_env least default none = default
  from_env least default (some raw) =
      if raw == "" then default else setting least default (parse_float raw)

  abbrev given_or_env : F → F → Option F → Option String → F
  given_or_env least default (some seconds) env = max_of least seconds
  given_or_env least default none env = from_env least default env

  -- `heartbeat_interval` and `heartbeat_stale_seconds`; the variable of the environment comes last.
  unfoldable pub heartbeat_interval : Option F → Option String → F
  heartbeat_interval = given_or_env (decimal 5 2) (decimal 15 0)

  unfoldable pub heartbeat_stale_seconds : Option F → Option String → F
  heartbeat_stale_seconds = given_or_env (decimal 0 0) (decimal 180 0)

  unfoldable pub age_of : Moment F → F → F
  age_of m heartbeat = max_of (decimal 0 0) (minus m.now heartbeat)

  unfoldable pub is_stale : Moment F → F → Bool
  unfolding age_of heartbeat_stale_seconds
  is_stale m heartbeat = larger (age_of m heartbeat) (heartbeat_stale_seconds none m.stale_env)

  -- A pid that is named and gone.
  unfoldable pub names_dead : Moment F → Job F → Bool
  unfolding pid_alive worker_pid
  names_dead m job = is_some (as_pid (worker_pid job)) && not (pid_alive m (worker_pid job))

  abbrev truthy : Json F → Bool
  truthy null = false
  truthy (bool b) = b
  truthy (int n) = ltb 0 n
  truthy (negative n) = true
  truthy (float f) = nonzero f
  truthy (str s) = not (s == "")
  truthy (container full s) = full

  unfoldable pub who : Job F → String
  unfolding text_of worker_pid
  who job = if truthy (worker_pid job) then text_of host (worker_pid job) else "unknown"

  -- The verdict on the heartbeat, or on its absence.
  unfoldable pub reported : Moment F → Job F → Option F → Bool × String
  unfolding who is_stale age_of heartbeat_stale_seconds worker_pid text_of
  reported m job (some heartbeat) =
      if is_stale m heartbeat
      then (
        false,
        "worker heartbeat is stale: last update "
            ++ format_whole (age_of m heartbeat)
            ++ "s ago (cap "
            ++ format_whole (heartbeat_stale_seconds none m.stale_env)
            ++ "s), worker "
            ++ who job
            ++ " stopped reporting (no verdict was written)",
      )
      else (
        true,
        "worker "
            ++ who job
            ++ " alive, heartbeat "
            ++ format_whole (age_of m heartbeat)
            ++ "s old",
      )
  reported m job none =
      if is_positive (worker_pid job)
      then (
        true,
        "legacy record, pid " ++ text_of host (worker_pid job) ++ " alive (no heartbeat recorded)",
      )
      else (true, "legacy record with no worker identity (no heartbeat recorded)")

  -- `worker_liveness`
  unfoldable pub worker_liveness : Moment F → Job F → Bool × String
  unfolding reported status_text names_dead heartbeat_at
  worker_liveness m job =
      if not (status_text host job == "running")
      then (
        false,
        "job is "
            ++ (if status_text host job == "" then "unknown" else status_text host job)
            ++ ", not running",
      )
      else if names_dead m job
      then (
        false,
        "worker process died before completing (pid "
            ++ text_of host (worker_pid job)
            ++ "); no verdict was written",
      )
      else reported m job (heartbeat_at host job)

  -- `worker_identified`
  unfoldable pub worker_identified : Job F → Bool
  worker_identified job =
      if is_some (heartbeat_at host job) then true else is_some (as_pid (worker_pid job))
