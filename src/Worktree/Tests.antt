-- ===== src/Worktree/Tests.antt =====
-- A repository of two branches: a task whose tip is judged, and a commit that lands meanwhile.
mod Lanes
use gitreins.Prelude.{
  not, Option, sym, ap, subst, if_ind, text_beq_iff, is_empty, ℕ, zero, ◌≡◌, refl, Bool, true,
  false, List, [], ◌∷◌, none, some, String, if◌then◌else◌, ◌==◌, text_eq, text_beq, leb, ltb, All,
  contains,
}
use gitreins.Prelude.Dict.{Dict, lookup, insert, remove}
use gitreins.Prelude.Int.{pos}
use gitreins.Prelude.Text.{Text, codes, Unicode, strip, starts_with}
use gitreins.EvidenceBounds.Lines.{splitlines, is_line_end}
use gitreins.Gate.Value.{
  Value, Runtime, null, atom, str, dict, bare, entry, get_field, truthy, sequence, find_field,
}
use gitreins.Gate.PassClass.{pass_class}
use gitreins.Gate.Waiver.{waiver_satisfied}
use gitreins.Worktree.State.{
  WorktreeRecord, Command, Outcome, returned, raised, ◌>>=◌, after, instead, or_refuse, pure,
  no_verdict, GitResult, Host,
}
use gitreins.Worktree.Checkout.{
  head, branch_tip, commit_exists, is_ancestor, is_clean, clean_status, is_exempt,
  is_runtime_artifact, matches_exemption,
}
use gitreins.Worktree.Verdict.{
  is_true, is_word, runner_passed, is_fresh, tier1_skipped_steps, unwaived, refusal_of, accept,
  matching_verdicts, find_verdict, fresh_verdict,
}
use gitreins.Worktree.Reconcile.{
  reconcile_and_persist, reconcile, classify, classify_all, branch_is_merged,
}
use gitreins.Worktree.Reconcile.Merged.{IsTrue, reconcile-AreTrue}
use gitreins.Worktree.Ready.{find_record, get_ready}
use gitreins.Worktree.Merge.{
  Merged, hold_gate, fresh_gate, rebase_onto, guard_gate, follow_main, recheck, apply, remove_tree,
  reap, finish, gates, merge_from, merge,
}
use gitreins.Worktree.State.Returned.{returned_value, returned_world, Gave}
use gitreins.Worktree.Clean.{
  removed, kept, Decision, clean, sweep, fate_of, failed_reap_blocker, caught, ended, remaining,
}
use gitreins.Worktree.Clean.Careful.{AreCareful, clean-AreCareful}
use gitreins.Worktree.Marks.{Evidence, marked, mark_lane}
use gitreins.Worktree.Marks.Laws.{HasMarked, mark_lane-HasMarked}
use gitreins.Worktree.Merge.Quiet.{IsQuiet, Keeps, asks}
use gitreins.Worktree.Merge.Quiet.Judged.{IsMergeCleared, merge-IsJudged}

-- Where main and the task's branch stand, and whether another commit is about to land on the branch.
record World : Type 0 where
  main : Text
  tip : Text
  racing : Bool

abbrev ascii : Unicode
ascii = record { is_space = λ c. leb c 32; upper_of = λ c. c ∷ []; fold_of = λ c. c ∷ [] }

abbrev python : Runtime
python = record { unicode = ascii; show = λ v. [] }

abbrev answer : ℕ → Text → World → Outcome GitResult × World
answer code out w = (returned (record { returncode = pos code; stdout = out }), w)

abbrev land : World → World
land w = if w.racing then record w { tip = codes "c2"; racing = false } else w

abbrev idle : World → World
idle w = w

abbrev is : String → Text → Bool
is command arg = arg == codes command

abbrev run : (World → World) → Text → List Text → World → Outcome GitResult × World
run meanwhile command args w =
    if is "symbolic-ref" command
    then answer zero (codes "main") w
    else if is "rev-parse" command
    then if contains args (codes "HEAD") then answer zero w.main w else answer zero w.tip w
    else if is "merge-base" command
    then if contains args (codes "HEAD")
      then answer (if w.tip == w.main then zero else 1) [] w
      else answer zero [] (meanwhile w)
    else if is "merge" command
    then answer zero [] (record w { main = w.tip })
    else if is "branch" command
    then answer zero [] (record w { tip = [] })
    else answer zero [] w

abbrev git : (World → World) → Text → List Text → Command World GitResult
git meanwhile workdir [] = answer 1 []
git meanwhile workdir (command ∷ args) = run meanwhile command args

abbrev lane : WorktreeRecord ℕ
lane = record {
  task_id = "t";
  path = codes "wt";
  branch = codes "gitreins/task/t";
  created_at = 0;
  updated_at = 0;
  last_heartbeat = 0;
  state = "judging";
  tick = none;
  brief_path = none;
  main_root = none;
  branch_point = some (codes "c0");
  notes = [];
  lane_phase = none;
  lane_result = none;
  lane_command = none;
  exit_code = none;
  output = none;
  started_at = none;
  finished_at = none;
  error = none;
}

abbrev verdict : Value
verdict = dict (
    entry "passed" (atom true (codes "True")) (
      entry "pass_class" (str (codes "judged")) (
        entry "commit" (str (codes "c1")) (
          entry "worktree" (str (codes "wt"))
            (entry "branch" (str (codes "gitreins/task/t")) bare)))))

abbrev host : (World → World) → List Value → Host
host meanwhile verdicts = record {
  W = World;
  F = ℕ;
  python = python;
  sha256 = λ t. t;
  waiver_env = [];
  waiver_config = none;
  main_root = codes "main";
  venv_name = codes ".venv";
  valid_id = λ id. true;
  resolve = λ path. path;
  default_tree = λ id. codes "wt";
  git = git meanwhile;
  is_dir = λ path. pure true;
  exists = λ path. pure false;
  list_worktrees =
      pure (record { path = codes "wt"; branch = some (codes "refs/heads/gitreins/task/t") } ∷ []);
  clock = pure 0;
  stale = λ now last. ltb now last;
  load_registry = pure (("t", lane) ∷ []);
  save_registry = λ records. pure tt;
  list_verdicts = λ tree id. pure verdicts;
  read_disk_verdict = λ tree. pure none;
  guard_runner = λ tree. pure (atom true (codes "True"));
  judge_runner = λ tree id. pure null;
  append_event = λ event. pure tt;
}

merging : Unit {0}
unfolding reconcile_and_persist reconcile classify classify_all branch_is_merged merge merge_from
    gates finish reap remove_tree apply recheck follow_main rebase_onto guard_gate hold_gate
    fresh_gate find_record get_ready find_verdict fresh_verdict matching_verdicts accept refusal_of
    unwaived tier1_skipped_steps is_fresh runner_passed is_word is_true head branch_tip
    commit_exists is_ancestor is_clean clean_status is_exempt is_runtime_artifact matches_exemption
    ◌>>=◌ after or_refuse instead text_beq contains strip starts_with splitlines is_line_end
    get_field truthy sequence find_field pass_class waiver_satisfied lookup remove
merging = tt

abbrev start : Bool → World
start racing = record { main = codes "c0"; tip = codes "c1"; racing = racing }

abbrev at_commit : String → Merged
at_commit commit = record {
  task_id = "t";
  mode = "fast-forward";
  source_commit = codes commit;
  destination_commit = codes commit;
  branch = codes "gitreins/task/t";
  worktree = codes "wt";
}

abbrev stop : String → World
stop commit = record { main = codes commit; tip = []; racing = false }

merged_quietly :
    merge (host idle (verdict ∷ [])) false none [] "t" (start false)
    ≡ (returned (at_commit "c1"), stop "c1")
unfolding merging
merged_quietly = refl

-- The tip as `git rev-parse` gives it.
abbrev tip_in : World → Option Text
tip_in w = if not (is_empty (strip ascii w.tip)) then some (strip ascii w.tip) else none

abbrev quiet_host : Host
quiet_host = host idle (verdict ∷ [])

abbrev Kept : World → Outcome GitResult × World → Type 0
Kept w x = (a : GitResult) (v : World) → x ≡ (returned a, v) → tip_in v ≡ tip_in w

answer-Kept : (code : ℕ) (out : Text) (w : World) → Kept w (answer code out w)
answer-Kept code out w a v e = ap tip_in (sym (returned_world e))

asks-merge : (args : List Text) → asks (codes "merge" ∷ args) ≡ true → ⊥
unfolding contains text_beq
asks-merge args h = cc

asks-branch : (args : List Text) → asks (codes "branch" ∷ args) ≡ true → ⊥
unfolding contains text_beq
asks-branch args h = cc

asks-other :
    (word : String) (command : Text) (args : List Text)
    → (asks (codes word ∷ args) ≡ true → ⊥)
    → is word command ≡ true
    → asks (command ∷ args) ≡ true
    → ⊥
asks-other word command args never same ask =
    never (subst (λ c. asks (c ∷ args) ≡ true) ((text_beq_iff command (codes word)).0 same) ask)

run-Kept :
    (command : Text) (args : List Text) (w : World)
    → asks (command ∷ args) ≡ true
    → Kept w (run idle command args w)
run-Kept command args w ask =
    if_ind (Kept w) (is "symbolic-ref" command) (λ _. answer-Kept _ _ w)
      (λ _.
        if_ind (Kept w) (is "rev-parse" command)
          (λ _.
            if_ind (Kept w) (contains args (codes "HEAD")) (λ _. answer-Kept _ _ w)
              (λ _. answer-Kept _ _ w))
          (λ _.
            if_ind (Kept w) (is "merge-base" command)
              (λ _.
                if_ind (Kept w) (contains args (codes "HEAD")) (λ _. answer-Kept _ _ w)
                  (λ _. answer-Kept _ _ w))
              (λ _.
                if_ind (Kept w) (is "merge" command)
                  (λ same. absurd (asks-other "merge" command args (asks-merge args) same ask))
                  (λ _.
                    if_ind (Kept w) (is "branch" command)
                      (λ same.
                        absurd (asks-other "branch" command args (asks-branch args) same ask))
                      (λ _. answer-Kept _ _ w)))))

asked-Kept :
    (dir : Text) (args : List Text) → asks args ≡ true → Keeps quiet_host tip_in (git idle dir args)
asked-Kept dir [] ask a w v e = cc
asked-Kept dir (command ∷ args) ask a w v e = run-Kept command args w ask a v e

tip-read :
    (branch : Text) (o : Option Text) (w v : World)
    → branch_tip quiet_host branch w ≡ (returned o, v)
    → o ≡ tip_in w
unfolding branch_tip ◌>>=◌ after text_beq contains
tip-read branch o w v e = sym (returned_value e)

quiet : (branch : Text) → IsQuiet quiet_host tip_in branch
quiet branch = record {
  reads = tip-read branch;
  questions = asked-Kept;
  verdicts = λ tree task_id a w v e. ap tip_in (sym (returned_world e));
  disk = λ tree a w v e. ap tip_in (sym (returned_world e));
  guard = λ tree a w v e. ap tip_in (sym (returned_world e));
  judge = λ tree task_id a w v e. ap tip_in (sym (returned_world e));
}

-- With no verdict the merge is refused and nothing has changed.
refused : merge (host idle []) false none [] "t" (start false) ≡ (raised no_verdict, start false)
unfolding merging
refused = refl

-- The verdict is for c1; c2 lands after the gate and before the tip is read again, and is merged.
unjudged_merged :
    merge (host land (verdict ∷ [])) false none [] "t" (start true)
    ≡ (returned (at_commit "c2"), stop "c2")
unfolding merging
unjudged_merged = refl

merge-IsJudged_example : IsMergeCleared quiet_host tip_in "t" (start false) (codes "c1")
merge-IsJudged_example =
    merge-IsJudged quiet_host tip_in none [] "t" (quiet (codes "gitreins/task/t")) (start false)
      (at_commit "c1") (stop "c1") merged_quietly
