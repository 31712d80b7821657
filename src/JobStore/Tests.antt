-- ===== src/JobStore/Tests.antt =====
-- Small job stores, and the theorems at them. A float is a whole number of seconds.
use gitreins.Prelude.{ℕ, ◌≡◌, refl, inl, inr, true, false, [], ◌∷◌, Option, none, some}
use gitreins.Prelude.{
  ◌-◌, ◌/◌, ◌^◌, ltb, nat_eq, ◌==◌, String, string_eq, sym, ap, ◌∙◌, Bool-cases, if◌then◌else◌,
  contains,
}
use text.Mathlib.TextEquality.{eq_iff}
use gitreins.Prelude.Dict.{lookup, insert}
use gitreins.JobStore.Record.{
  Host, Job, Moment, null, str, int, float, delivered, process_lookup_error, make_job, is_running,
  field_is, worker_pid, heartbeat_at, text_of, status_text,
}
use gitreins.JobStore.Liveness.{
  worker_liveness, heartbeat_stale_seconds, age_of, is_stale, pid_alive, names_dead, reported, who,
  worker_identified,
}
use gitreins.JobStore.Store.{
  Store, Result, return, load_job, reaped, save_job, put_listed, listed, insert_newest, sort_newest,
  update, stamped, is_unplaced, has_key, find_in, list_jobs, find_running_job, reap_stale_job, beat,
  lease_free,
}
use gitreins.JobStore.Store.Reap.{put, load_job-put, some_eq, none≢some}
use gitreins.JobStore.Caps.{cap_to_dict, cap_from_dict, limits, cap_from_dict-cap_to_dict}
use gitreins.EvalCap.Tests.{num, cap}
use gitreins.JobStore.Lease.{System, idle, leased, move, here, next, acquire}
use gitreins.JobStore.Lease.Ended.{ended_stays}

abbrev host : Host
host = record {
  F = ℕ;
  minus = λ a b. a - b;
  larger = λ a b. ltb b a;
  nonzero = λ a. ltb 0 a;
  decimal = λ n k. n / 10 ^ k;
  of_negative = λ n. 0;
  parse_float = λ s. none;
  format_whole = λ n. "n";
  show = λ v. "value";
  abspath = λ p. p;
}

-- Process 7 is alive, and no other.
abbrev at_1000 : Moment ℕ
at_1000 = record {
  now = 1000;
  kill = λ n. if n == 7 then delivered else process_lookup_error;
  stale_env = none;
}

abbrev job : String → ℕ → ℕ → Job ℕ
job id worker beaten =
    ("worker_pid", int worker)
    ∷ ("heartbeat_at", float beaten)
    ∷ make_job host id 900 "task" "/repo" null

abbrev empty : Store ℕ
empty = record { files = []; held = []; writable = true }

abbrev holding : Job ℕ → Store ℕ
holding j = put "job-a" j empty

abbrev orphan : Job ℕ
orphan = job "job-a" 8 990

program : Unit {0}
unfolding make_job lookup insert load_job field_is is_running worker_pid heartbeat_at text_of
    status_text heartbeat_stale_seconds age_of is_stale pid_alive names_dead worker_liveness
    reported who worker_identified lease_free contains reaped save_job put_listed listed
    insert_newest sort_newest list_jobs reap_stale_job update stamped beat is_unplaced has_key
    find_in find_running_job
program = tt

-- A live worker, a dead one, and a silent one.
live :
    worker_liveness host at_1000 (job "job-a" 7 990)
    ≡ (true, "worker value alive, heartbeat ns old")
unfolding program
live = refl

dead : (worker_liveness host at_1000 orphan).0 ≡ false
unfolding program
dead = refl

silent : (worker_liveness host at_1000 (job "job-a" 7 819)).0 ≡ false
unfolding program
silent = refl

-- A dead worker's record is ended by the search, and a beat after it writes nothing.
abbrev after_search : Result (Option (Job ℕ)) × Store ℕ
after_search =
    find_running_job host (λ i. at_1000) (λ i. at_1000) (λ i. 1001) "task" "/repo" (holding orphan)

search_frees : after_search.0 ≡ return none
unfolding program
search_frees = refl

beat_too_late : beat host 1002 [] "job-a" after_search.1 ≡ (return false, after_search.1)
unfolding program
beat_too_late = refl

nothing : (id : String) → load_job id empty ≡ none
unfolding load_job lookup
nothing id = refl

holding_filed :
    (j : Job ℕ)
    → lookup "id" j ≡ some (str "job-a")
    → (id : String) (found : Job ℕ) → load_job id (holding j) ≡ some found
    → lookup "id" found ≡ some (str id)
holding_filed j name id found h = elim (Bool-cases ("job-a" == id)) [
  | inl same ↦
      let stored : load_job id (holding j) ≡ some j =
        load_job-put "job-a" j empty id ∙ rw same refl in
      ap (lookup "id") (sym (some_eq (sym stored ∙ h)))
      ∙ name
      ∙ ap (λ k. some (str k)) ((eq_iff "job-a" id).0 same)
  | inr other ↦
      let missing : load_job id (holding j) ≡ none =
        load_job-put "job-a" j empty id ∙ rw other (nothing id) in
      absurd (none≢some (sym missing ∙ h))
]

holding_leases : (j : Job ℕ) → lease_free "job-a" (holding j) ≡ true
unfolding lease_free contains
holding_leases j = refl

abbrev finished : Job ℕ
finished = insert "status" (str "complete") orphan

abbrev settled : System ℕ
settled = record { store = holding finished; holder = none; stage = λ a. idle }

finished_name : lookup "id" finished ≡ some (str "job-a")
unfolding program
finished_name = refl

finished_there : load_job "job-a" (holding finished) ≡ some finished
unfolding program
finished_there = refl

finished_over : is_running finished ≡ false
unfolding program
finished_over = refl

ended_stays_example :
    load_job "job-a" (move 3 leased (record settled { holder = some 3 })).store ≡ some finished
ended_stays_example =
    ended_stays host "job-a" settled settled (move 3 leased (record settled { holder = some 3 }))
      (λ a. refl) (holding_filed finished finished_name "job-a") here
      (next here (acquire settled 3 refl refl)) finished finished_there finished_over

cap_from_dict-cap_to_dict_example :
    cap_from_dict num (cap_to_dict num (some cap)) ≡ limits num (some cap)
cap_from_dict-cap_to_dict_example = cap_from_dict-cap_to_dict num (some cap)
