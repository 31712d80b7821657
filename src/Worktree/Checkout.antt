-- ===== src/Worktree/Checkout.antt =====
-- engine/worktree_manager.py, the questions that are put to git, and what counts as a clean tree.
use gitreins.Prelude.{
  zero, Bool, true, false, not, ◌&&◌, ◌||◌, List, [], ◌∷◌, ◌++◌, Option, none, some,
}
use gitreins.Prelude.{
  if◌then◌else◌, ◌==◌, text_eq, ltb, nat_beq, length, take, drop, is_empty, any, contains, map,
}
use gitreins.Prelude.Int.{ℤ, pos}
use gitreins.Prelude.Text.{Text, codes, starts_with, strip}
use gitreins.EvidenceBounds.Lines.{splitlines, is_line_end}
use gitreins.Worktree.State.{Command, git_failed, ◌>>=◌, ◌>>◌, pure, refuse_if, GitResult, Host}
use mathlib.Core.List.{reverse}

abbrev pub succeeded : GitResult → Bool
succeeded r = is_zero r.returncode
  where
    is_zero : ℤ → Bool
    is_zero (pos zero) = true
    is_zero _ = false

abbrev runtime_artifact_files : List Text
runtime_artifact_files =
    codes ".gitreins/worktrees.json"
    ∷ codes ".gitreins/worktrees.lock"
    ∷ codes ".gitreins/disposable.json"
    ∷ codes ".gitreins/disposable.lock"
    ∷ codes ".gitreins/tasks.yaml.lock"
    ∷ codes ".coding-hermes/board/events.jsonl"
    ∷ []

abbrev runtime_artifact_untracked_files : List Text
runtime_artifact_untracked_files =
    codes ".gitreins/tasks.yaml"
    ∷ codes ".gitreins/usage.jsonl"
    ∷ codes ".gitreins/qa-ledger.jsonl"
    ∷ codes ".gitreins/quality.json"
    ∷ []

abbrev runtime_artifact_prefixes : List Text
runtime_artifact_prefixes =
    codes ".gitreins/history/" ∷ codes ".gitreins/logs/" ∷ codes ".gitreins/verdicts/" ∷ []

abbrev worktree_venv_lockfiles : List Text
worktree_venv_lockfiles = codes "uv.lock" ∷ codes ".uv.lock" ∷ []

-- `_is_runtime_artifact`
unfoldable pub is_runtime_artifact : Text → Bool
unfolding contains starts_with
is_runtime_artifact path =
    contains runtime_artifact_files path
    || any (starts_with path) runtime_artifact_prefixes
    || (starts_with path (codes ".gitreins/")
        && starts_with (reverse path) (reverse (codes ".lock")))

-- `_matches_exemption`
unfoldable pub matches_exemption : Text → List Text → Bool
unfolding starts_with
matches_exemption path names =
    any (λ name. path == name || starts_with path (name ++ codes "/")) names

-- A line of `splitlines()`, without its end.
drop_ends : Text → Text
unfolding is_line_end
drop_ends (c ∷ d ∷ s) =
    if nat_beq c 10 && nat_beq d 13 then s else if is_line_end c then d ∷ s else c ∷ d ∷ s
drop_ends (c ∷ []) = if is_line_end c then [] else c ∷ []
drop_ends [] = []

lines_of : Text → List Text
unfolding drop_ends splitlines
lines_of s = map (λ (line : Text). reverse (drop_ends (reverse line))) (splitlines s)

abbrev untracked : Text → Bool
untracked line = take 2 line == codes "??"

-- A line of the status that counts as no work: the body of the loop of `_is_clean`.
unfoldable pub is_exempt : (in_task_tree : Bool) → Text → Text → Bool
unfolding is_runtime_artifact matches_exemption contains
is_exempt in_task_tree venv_name line =
    not (ltb (length line) 4)
    && (is_runtime_artifact (drop 3 line)
        || (untracked line && contains runtime_artifact_untracked_files (drop 3 line))
        || (in_task_tree
            && matches_exemption (drop 3 line)
                (venv_name ∷ (if untracked line then worktree_venv_lockfiles else []))))

unfoldable pub clean_status : Bool → Text → List Text → Bool
unfolding is_exempt
clean_status in_task_tree venv_name [] = true
clean_status in_task_tree venv_name (line ∷ lines) =
    is_exempt in_task_tree venv_name line && clean_status in_task_tree venv_name lines

abbrev word : Bool → Text → Option Text
word ok s = if ok && not (is_empty s) then some s else none

module _ (h : Host) where
  open h use {W, python, main_root, git, resolve}

  abbrev pub stripped : Text → Text
  stripped s = strip python.unicode s

  -- `_head`, and `_branch_tip`
  unfoldable pub head : Text → Command W (Option Text)
  head workdir = do
    r ← git workdir (codes "rev-parse" ∷ codes "--verify" ∷ codes "HEAD" ∷ [])
    pure (word (succeeded r) (stripped r.stdout))

  unfoldable pub branch_tip : Text → Command W (Option Text)
  branch_tip branch = do
    r ← git main_root (
        codes "rev-parse"
        ∷ codes "--verify"
        ∷ codes "--quiet"
        ∷ (codes "refs/heads/" ++ branch)
        ∷ [])
    pure (word (succeeded r) (stripped r.stdout))

  -- `_commit_exists`, and `_is_ancestor`
  unfoldable pub commit_exists : Text → Command W Bool
  commit_exists commit = do
    r ← git main_root (codes "cat-file" ∷ codes "-e" ∷ (commit ++ codes "^{commit}") ∷ [])
    pure (succeeded r)

  unfoldable pub is_ancestor : Text → Text → Command W Bool
  is_ancestor ancestor descendant = do
    r ← git main_root (codes "merge-base" ∷ codes "--is-ancestor" ∷ ancestor ∷ descendant ∷ [])
    pure (succeeded r)

  -- `_is_clean`; `_git` with its check raises on a failed status.
  unfoldable pub is_clean : Text → Command W Bool
  unfolding clean_status lines_of
  is_clean workdir = do
    r ← git workdir (codes "status" ∷ codes "--porcelain" ∷ codes "--untracked-files=all" ∷ [])
    refuse_if (not (succeeded r)) git_failed
    pure (clean_status (not (resolve workdir == resolve main_root)) h.venv_name (lines_of r.stdout))
