-- ===== src/JobStore/Record.antt =====
-- engine/job_store.py, a job record and the liveness of its worker.
use gitreins.Prelude.{ℕ, Bool, true, false, [], ◌∷◌, Option, none, some}
use gitreins.Prelude.{String, if◌then◌else◌, ◌==◌, string_eq, ltb}
use gitreins.Prelude.Dict.{Dict, lookup}

-- A JSON value over a type of floats. A list or an object goes by its truth value and its `str`.
pub data Json (F : Type 0) : Type 0 where
  null : Json F
  bool : Bool → Json F
  int : ℕ → Json F
  negative : ℕ → Json F
  float : F → Json F
  str : String → Json F
  container : Bool → String → Json F

-- What `os.kill(pid, 0)` does.
pub data Signal : Type 0 where
  delivered : Signal
  process_lookup_error : Signal
  permission_error : Signal
  os_error : Signal

-- A moment: `time.time()`, the processes, and `GITREINS_JOB_HEARTBEAT_STALE_SECONDS`.
pub record Moment (F : Type 0) : Type 0 where
  pub now : F
  pub kill : ℕ → Signal
  pub stale_env : Option String

-- Python's floats, their formats, `str` and `os.path.abspath`. `decimal n k` is n / 10 ^ k, and
-- `negative n` in a record is -(n + 1).
pub record Host : Type 1 where
  pub F : Type 0
  pub minus : F → F → F
  pub larger : F → F → Bool
  pub nonzero : F → Bool
  pub decimal : ℕ → ℕ → F
  pub of_negative : ℕ → F
  pub parse_float : String → Option F
  pub format_whole : F → String
  pub show : Json F → String
  pub abspath : String → String

abbrev pub Job : Type 0 → Type 0
Job F = Dict (Json F)

module _ {F : Type 0} where
  -- `job.get(key) == word` for a word
  abbrev is_word : Option (Json F) → String → Bool
  is_word (some (str s)) word = s == word
  is_word _ word = false

  unfoldable pub field_is : String → String → Job F → Bool
  field_is key word job = is_word (lookup key job) word

  unfoldable pub is_running : Job F → Bool
  unfolding field_is
  is_running = field_is "status" "running"

  abbrev or_null : Option (Json F) → Json F
  or_null none = null
  or_null (some v) = v

  abbrev or_pid : Option (Json F) → Job F → Json F
  or_pid (some v) job = v
  or_pid none job = or_null (lookup "pid" job)

  -- `job.get("worker_pid", job.get("pid"))`
  unfoldable pub worker_pid : Job F → Json F
  worker_pid job = or_pid (lookup "worker_pid" job) job

  -- An `int` above zero that is no `bool`.
  abbrev pub as_pid : Json F → Option ℕ
  as_pid (int n) = if ltb 0 n then some n else none
  as_pid _ = none

  abbrev pub is_positive : Json F → Bool
  is_positive (int n) = ltb 0 n
  is_positive (bool b) = b
  is_positive _ = false

module _ (host : Host) where
  open host use {F, minus, larger, decimal, of_negative, parse_float, format_whole, show, nonzero}

  abbrev pub as_number : Json F → Option F
  as_number (int n) = some (decimal n 0)
  as_number (negative n) = some (of_negative n)
  as_number (float f) = some f
  as_number _ = none

  abbrev pub as_field : Option (Json F) → Option F
  as_field none = none
  as_field (some v) = as_number v

  -- `job.get("heartbeat_at")`, when it is a number and no `bool`
  unfoldable pub heartbeat_at : Job F → Option F
  heartbeat_at job = as_field (lookup "heartbeat_at" job)

  -- `str(v)`
  unfoldable pub text_of : Json F → String
  text_of (str s) = s
  text_of v = show v

  abbrev text_or_empty : Option (Json F) → String
  text_or_empty none = ""
  text_or_empty (some v) = text_of v

  unfoldable pub status_text : Job F → String
  unfolding text_of
  status_text job = text_or_empty (lookup "status" job)

-- `worker_identity` for the pid that the caller gives or has; a thread names itself.
unfoldable pub worker_identity : {F : Type 0} → F → Json F → Option String → Job F
worker_identity now pid none =
    ("worker_pid", pid)
    ∷ ("worker_kind", str "process")
    ∷ ("worker_started_at", float now)
    ∷ ("heartbeat_at", float now)
    ∷ []
worker_identity now pid (some thread) =
    ("worker_pid", pid)
    ∷ ("worker_kind", str "thread")
    ∷ ("worker_started_at", float now)
    ∷ ("heartbeat_at", float now)
    ∷ ("worker_thread", str thread)
    ∷ []

-- `make_job`; the id and the time are drawn outside.
unfoldable pub make_job :
    (host : Host) → String → host.F → String → String → Json host.F → Job host.F
make_job host id now task_id workdir caps =
    ("id", str id)
    ∷ ("status", str "running")
    ∷ ("running", bool true)
    ∷ ("task_id", str task_id)
    ∷ ("workdir", str (host.abspath workdir))
    ∷ ("result", null)
    ∷ ("error", null)
    ∷ ("started_at", float now)
    ∷ ("finished_at", null)
    ∷ ("pid", null)
    ∷ ("caps", caps)
    ∷ []
