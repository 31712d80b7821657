-- ===== src/Worktree/Tests/Lanes.antt =====
-- Lanes that are reconciled, cleaned and marked.
use gitreins.Prelude.{ℕ, ◌≡◌, refl, true, false, List, [], ◌∷◌, none, some, String, text_eq, All}
use gitreins.Prelude.Dict.{Dict, lookup, insert}
use gitreins.Prelude.Int.{pos}
use gitreins.Prelude.Text.{codes}
use gitreins.Worktree.State.{WorktreeRecord, returned, pure, Host}
use gitreins.Worktree.Reconcile.{reconcile_and_persist, reconcile}
use gitreins.Worktree.Reconcile.Merged.{IsTrue, reconcile-AreTrue}
use gitreins.Worktree.State.Returned.{Gave}
use gitreins.Worktree.Clean.{
  removed, kept, Decision, clean, sweep, fate_of, failed_reap_blocker, caught, ended, remaining,
}
use gitreins.Worktree.Clean.Careful.{AreCareful, clean-AreCareful}
use gitreins.Worktree.Marks.{Evidence, marked, mark_lane}
use gitreins.Worktree.Tests.{World, lane, quiet_host, start, merging}

abbrev failed_lane : WorktreeRecord ℕ
failed_lane = record lane { state = "failed" }

abbrev silent_lane : WorktreeRecord ℕ
silent_lane = record lane { last_heartbeat = 1 }

abbrev lost_lane : WorktreeRecord ℕ
lost_lane = record lane { path = codes "elsewhere" }

abbrev busy_host : Host
busy_host = record quiet_host {
  load_registry = pure (("s", silent_lane) ∷ ("o", lost_lane) ∷ ("f", failed_lane) ∷ []);
}

abbrev decisions : List (Decision busy_host)
decisions =
    record {
      task_id = "s";
      of = record silent_lane {
        state = "stale";
        notes = codes "no heartbeat for more than 24h" ∷ [];
      };
      fate = kept none;
    }
    ∷ record {
      task_id = "o";
      of = record lost_lane {
        state = "orphan";
        notes = codes "tree missing from git worktree metadata" ∷ [];
      };
      fate = kept none;
    }
    ∷ record { task_id = "f"; of = failed_lane; fate = removed true }
    ∷ []

abbrev main_only : World
main_only = record { main = codes "c0"; tip = []; racing = false }

-- The failed lane goes with its branch; the stale and the orphan one stay without the confirmation.
cleaned : clean busy_host false (start false) ≡ (returned decisions, main_only)
unfolding merging clean sweep fate_of failed_reap_blocker caught ended remaining
cleaned = refl

clean-AreCareful_example :
    (records : Dict (WorktreeRecord ℕ)) × Gave (reconcile_and_persist busy_host) records
    × AreCareful busy_host false records decisions
    × Gave (busy_host.save_registry (remaining busy_host decisions)) tt
clean-AreCareful_example =
    clean-AreCareful busy_host false (start false) decisions main_only cleaned

-- A registry that says "judging" of a lane whose branch main has.
abbrev caught_up : World
caught_up = record { main = codes "c1"; tip = codes "c1"; racing = false }

abbrev reconciled : Dict (WorktreeRecord ℕ)
reconciled = ("t", record lane { state = "merged" }) ∷ []

reconciled_as : reconcile quiet_host caught_up ≡ (returned reconciled, caught_up)
unfolding merging
reconciled_as = refl

reconcile-AreTrue_example :
    All (λ (x : String × WorktreeRecord ℕ). IsTrue quiet_host x.1) reconciled
reconcile-AreTrue_example =
    reconcile-AreTrue quiet_host caught_up reconciled caught_up reconciled_as

abbrev evidence : Evidence
evidence = record {
  command = none;
  result = none;
  exit_code = some (pos 1);
  output = none;
  error = none;
}

abbrev registry : Dict (WorktreeRecord ℕ)
registry = ("u", failed_lane) ∷ ("t", record lane { started_at = some 3 }) ∷ []

abbrev failed_at_9 : WorktreeRecord ℕ
failed_at_9 = record lane {
  state = "failed";
  lane_phase = some "failed";
  updated_at = 9;
  last_heartbeat = 9;
  exit_code = some (pos 1);
  started_at = some 3;
  finished_at = some 9;
}

abbrev registry_later : Dict (WorktreeRecord ℕ)
registry_later = ("u", failed_lane) ∷ ("t", failed_at_9) ∷ []

lane_marked : mark_lane "t" "failed" 9 evidence registry ≡ marked registry_later failed_at_9
unfolding mark_lane lookup insert
lane_marked = refl
