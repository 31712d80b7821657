-- ===== src/Worktree/Marks.antt =====
-- engine/worktree_manager.py, the marks on a lane: `heartbeat`, `mark_phase` and `mark_lane`, over the
-- registry as it was loaded; a result is the registry that is saved.
pub mod Laws
use gitreins.Prelude.{
  Bool, true, false, ◌&&◌, ◌||◌, List, Option, none, some, String, if◌then◌else◌, ◌==◌, string_eq,
}
use gitreins.Prelude.Dict.{Dict, lookup, insert}
use gitreins.Prelude.Int.{ℤ}
use gitreins.Prelude.Text.{Text}
use gitreins.Gate.Value.{Value}
use gitreins.Worktree.State.{WorktreeRecord}
use gitreins.Worktree.Reconcile.{is_lane_state}

-- A ValueError, a KeyError, or the registry with the record that is returned.
pub data Marked (F : Type 0) : Type 0 where
  unknown_phase : String → Marked F
  unknown_task : String → Marked F
  marked : Dict (WorktreeRecord F) → WorktreeRecord F → Marked F

-- What a lane leaves with its mark; `none` leaves what was there.
pub record Evidence : Type 0 where
  pub command : Option (List Text)
  pub result : Option Value
  pub exit_code : Option ℤ
  pub output : Option Text
  pub error : Option Text

abbrev or_was {ℓ} : {A : Type ℓ} → Option A → Option A → Option A
or_was none was = was
or_was (some new) was = some new

abbrev is_none {ℓ} : {A : Type ℓ} → Option A → Bool
is_none none = true
is_none (some a) = false

module _ {F : Type 0} where
  abbrev update_record :
      String
      → (WorktreeRecord F → WorktreeRecord F)
      → Dict (WorktreeRecord F)
      → Option (WorktreeRecord F)
      → Marked F
  update_record task_id f records none = unknown_task task_id
  update_record task_id f records (some r) = marked (insert task_id (f r) records) (f r)

  -- `heartbeat`
  unfoldable pub heartbeat : String → F → Dict (WorktreeRecord F) → Marked F
  unfolding lookup insert
  heartbeat task_id now records =
      update_record task_id (λ r. record r { last_heartbeat = now }) records
        (lookup task_id records)

  -- `mark_phase`
  unfoldable pub mark_phase : String → String → F → Dict (WorktreeRecord F) → Marked F
  unfolding lookup insert
  mark_phase task_id phase now records =
      if phase == "guarding" || phase == "judging"
      then update_record task_id (λ r. record r { state = phase; last_heartbeat = now }) records
          (lookup task_id records)
      else unknown_phase phase

  abbrev lane_record : String → F → Evidence → WorktreeRecord F → WorktreeRecord F
  lane_record phase now e r = record r {
    state = phase;
    lane_phase = some phase;
    updated_at = now;
    last_heartbeat = now;
    lane_command = or_was e.command r.lane_command;
    lane_result = or_was e.result r.lane_result;
    exit_code = or_was e.exit_code r.exit_code;
    output = or_was e.output r.output;
    error = or_was e.error r.error;
    started_at = if phase == "running" && is_none r.started_at then some now else r.started_at;
    finished_at = if phase == "completed" || phase == "failed" then some now else r.finished_at;
  }

  -- `mark_lane`
  unfoldable pub mark_lane : String → String → F → Evidence → Dict (WorktreeRecord F) → Marked F
  unfolding lookup insert
  mark_lane task_id phase now e records =
      if is_lane_state phase
      then update_record task_id (lane_record phase now e) records (lookup task_id records)
      else unknown_phase phase
