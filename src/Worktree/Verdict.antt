-- ===== src/Worktree/Verdict.antt =====
-- engine/worktree_manager.py, the verdict that a merge rests on: where it is found and what it must
-- say.
use gitreins.Prelude.{Bool, true, false, not, ◌&&◌, ◌||◌, List, [], ◌∷◌, Option, none, some, String}
use gitreins.Prelude.{if◌then◌else◌, ◌==◌, text_eq, is_empty, keep, map}
use gitreins.Prelude.Text.{Text, codes, strip}
use gitreins.Gate.Value.{
  Value, bare, null, atom, str, list, dict, object, get_field, truthy, sequence, find_field,
  or_default,
}
use gitreins.Gate.PassClass.{pass_class, pass_class_tier1_only}
use gitreins.Gate.Waiver.{waiver_satisfied}
use gitreins.Worktree.State.{
  WorktreeRecord, Command, Refusal, store_failed, no_verdict, failed_verdict, skipped_checks,
  tier1_only, ◌>>=◌, pure, refuse, or_refuse, Host,
}

-- `v is True`
unfoldable pub is_true : Value → Bool
is_true (atom b s) = b && s == codes "True"
is_true _ = false

unfoldable pub is_word : Text → Value → Bool
is_word t (str s) = s == t
is_word t _ = false

-- `v or {}`, for a `v` that is a mapping when it holds anything.
abbrev or_empty : Value → Value
or_empty v = if truthy v then v else dict bare

abbrev is_list : Value → Bool
is_list (list vs) = true
is_list _ = false

-- `_runner_passed`: a `bool`, or the attribute of an object.
unfoldable pub runner_passed : Value → Bool
unfolding truthy find_field
runner_passed (atom b s) = b && s == codes "True"
runner_passed (object fs) = truthy (or_default (find_field "passed" fs) null)
runner_passed _ = false

abbrev pub same_commit : Text → Value → Bool
same_commit head entry =
    is_word head (get_field entry "commit" null)
    || is_word head (get_field entry "source_commit" null)

-- The test of `_fresh_verdict`.
unfoldable pub is_fresh : Text → Value → Bool
unfolding is_true is_word get_field
is_fresh head (dict fs) =
    is_true (get_field (dict fs) "passed" null)
    && is_word head (get_field (dict fs) "commit" (get_field (dict fs) "source_commit" null))
is_fresh head _ = false

abbrev first : (Value → Bool) → List Value → Option Value
first test [] = none
first test (entry ∷ entries) = if test entry then some entry else first test entries

abbrev put_disk : (Value → Bool) → Option Value → List Value → List Value
put_disk test none matching = matching
put_disk test (some disk) matching = if test disk then disk ∷ matching else matching

module _ (h : Host) where
  open h use {W, F, python, sha256}

  -- `str(v)`
  abbrev pub text_of : Value → Text
  text_of (str s) = s
  text_of (atom b s) = s
  text_of null = codes "None"
  text_of v = python.show v

  abbrev skipped_of : Value → List Text
  skipped_of tier1 =
      if is_list (get_field tier1 "skipped_steps" null)
      then keep (λ step. not (is_empty (strip python.unicode step)))
          (map text_of (sequence (get_field tier1 "skipped_steps" null)))
      else if truthy (get_field tier1 "degraded" null)
      then codes "unknown" ∷ []
      else []

  abbrev skipped_in : Value → List Text
  skipped_in (dict fs) = skipped_of (dict fs)
  skipped_in _ = []

  -- `_tier1_skipped_steps`, of a verdict whose `stages` is a mapping or false; on another value the
  -- source raises `AttributeError`, where the list is empty here.
  unfoldable pub tier1_skipped_steps : Value → List Text
  unfolding truthy get_field sequence
  tier1_skipped_steps (dict fs) =
      skipped_in (or_empty (get_field (or_empty (get_field (dict fs) "stages" null)) "tier1" null))
  tier1_skipped_steps _ = []

  -- `_refuse_tier1_only`, as the test of what it refuses.
  unfoldable pub unwaived : Value → Bool
  unfolding pass_class waiver_satisfied
  unwaived verdict =
      pass_class verdict == pass_class_tier1_only
      && not (waiver_satisfied python sha256 verdict h.waiver_env h.waiver_config)

  -- What a verdict is refused for, in the order of the source.
  unfoldable pub refusal_of : Value → Option Refusal
  unfolding is_true tier1_skipped_steps unwaived
  refusal_of verdict =
      if not (is_true (get_field verdict "passed" null))
      then some failed_verdict
      else if not (is_empty (tier1_skipped_steps verdict))
      then some skipped_checks
      else if unwaived verdict
      then some tier1_only
      else none

  abbrev pub refuse_for : Value → Option Refusal → Command W Value
  refuse_for verdict none = pure verdict
  refuse_for verdict (some e) = refuse e

  unfoldable pub accept : Option Value → Command W Value
  unfolding refusal_of
  accept none = refuse no_verdict
  accept (some verdict) = refuse_for verdict (refusal_of verdict)

  -- A verdict of this tree and branch.
  abbrev stamped : WorktreeRecord F → Text → Value → Bool
  stamped r worktree entry =
      text_of (get_field entry "worktree" (str [])) == worktree
      && is_word r.branch (get_field entry "branch" null)

  -- `_matching_verdicts`
  unfoldable pub matching_verdicts : String → WorktreeRecord F → Command W (List Value)
  unfolding get_field is_word
  matching_verdicts task_id r = do
    let tree = h.resolve r.path
    entries ← or_refuse (h.list_verdicts tree task_id) store_failed
    disk ← h.read_disk_verdict tree
    pure (put_disk (stamped r tree) disk (keep (stamped r tree) entries))

  -- `_find_verdict`
  unfoldable pub find_verdict : String → WorktreeRecord F → Text → Command W (Option Value)
  unfolding matching_verdicts get_field is_word
  find_verdict task_id r source_head = do
    entries ← matching_verdicts task_id r
    pure (first (same_commit source_head) entries)

  -- `_fresh_verdict`
  unfoldable pub fresh_verdict : String → WorktreeRecord F → Text → Value → Command W (Option Value)
  unfolding is_fresh find_verdict
  fresh_verdict task_id r source_head fresh =
      if is_fresh source_head fresh then pure (some fresh) else find_verdict task_id r source_head
