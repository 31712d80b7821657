-- ===== src/TaskManager/Tests.antt =====
-- Small stores, and the theorems at them. A file is its document; a dump is the document of its
-- entries.
use gitreins.Prelude.{◌≡◌, ◌≢◌, refl, ◌↔◌, inl, true, false, List, [], ◌∷◌, none, some, map}
use gitreins.Prelude.{arith, String, string_eq, All}
use text.Mathlib.TextEquality.{eq_iff}
use gitreins.Prelude.Dict.{lookup, insert, values}
use gitreins.TaskManager.Task.{
  Task, Document, unparsable, entries, Yaml, to_entry, of_entry, canonical,
}
use gitreins.TaskManager.Store.{
  Manager, Disk, State, return, raise, dependency_error, locked_load_save, read_entries, reload,
}
use gitreins.TaskManager.Store.Cycle.{IsReady, stored, reload-stored}
use gitreins.TaskManager.Store.Lost.{second_corruption_lost}
use gitreins.TaskManager.Methods.{create, complete, completed, blocked_by, is_complete}
use gitreins.TaskManager.Methods.Finish.{
  Leaves, latest, returned_by, complete-stored, complete_refused, complete-returns_iff,
}
use gitreins.TaskManager.Methods.Shared.{HasStatus, at, complete_both, create_resurrects}

abbrev name_of : Document → String
name_of (unparsable e) = e
name_of (entries es) = "ok"

abbrev model : Yaml
model = record {
  Bytes = Document;
  parse = λ d. d;
  dump = entries;
  digest = name_of;
  cut_short = λ d. false;
  parse_dump = λ es. refl;
  dump_whole = λ es. refl;
}

abbrev task : String → String → List String → Task
task id status deps = record {
  id = id;
  title = "";
  criteria = [];
  status = status;
  created_at = "";
  completed_at = none;
  depends_on = deps;
}

abbrev view : List Task → Manager
view ts = record { tasks = map (λ t. (t.id, t)) ts; load_error = none; preserved = none }

abbrev disk : List Task → Disk Document
disk ts = record {
  dir = true;
  file = some (entries (map to_entry ts));
  copies = [];
  writable = true;
}

abbrev process : List Task → List Task → State Document
process mine theirs = record { self = view mine; disk = disk theirs }

abbrev login : Task
login = task "login" "in_progress" []

abbrev docs : Task
docs = task "docs" "pending" ("login" ∷ [])

abbrev both : List Task
both = login ∷ docs ∷ []

process-IsReady : IsReady model (process both both)
unfolding to_entry lookup
process-IsReady = record {
  dir = refl;
  readable = (refl, _, refl, (("login", refl), (("docs", refl), tt)));
  clean = refl;
  keyed = (refl, refl, (refl, refl, tt));
}

login_known : lookup "login" (view both).tasks ≡ some login
unfolding lookup
login_known = refl

docs_known : lookup "docs" (view both).tasks ≡ some docs
unfolding lookup
docs_known = refl

complete-stored_example :
    Leaves model
      (returned_by (stored model (disk both) "login") "1" "2" login)
      "login"
      (completed "2" (latest (stored model (disk both) "login") (completed "1" login)))
      (process both both)
      "docs"
      (complete model "login" true "1" "2" (process both both))
complete-stored_example =
    complete-stored model "login" "1" "2" "docs" true login (process both both) process-IsReady
      login_known (inl refl)

docs_blocked : blocked_by (view both).tasks (lookup "docs" (view both).tasks) ≡ "login" ∷ []
unfolding lookup blocked_by
docs_blocked = refl

complete_refused_example :
    complete model "docs" false "1" "2" (process both both)
    ≡ (raise (dependency_error ("login" ∷ [])), process both both)
complete_refused_example =
    complete_refused model "docs" "1" "2" "login" [] docs (process both both) docs_known
      docs_blocked

complete-returns_iff_example :
    ((complete model "docs" false "1" "2" (process both both)).0
      ≡ return (returned_by (stored model (disk both) "docs") "1" "2" docs))
    ↔ All (λ d. is_complete (lookup d (view both).tasks) ≡ true) ("login" ∷ [])
complete-returns_iff_example =
    complete-returns_iff model "docs" "1" "2" docs (process both both) process-IsReady docs_known

login≢docs : ◌≢◌ {A = String} "login" "docs"
login≢docs = ground (arith, eq_iff "login" "docs")

complete_both_example :
    let first = (complete model "login" true "1" "2" (at model (view both) (disk both))).1 in
    let second = (complete model "docs" true "3" "4" (at model (view both) first.disk)).1 in
    HasStatus model "complete" (stored model second.disk "login")
    × HasStatus model "complete" (stored model second.disk "docs")
complete_both_example =
    complete_both model "login" "docs" "1" "2" "3" "4" true true (view both) (view both) (disk both)
      login docs login≢docs process-IsReady process-IsReady login_known docs_known (inl refl)
      (inl refl)

-- Another process has deleted `login`.
stale-IsReady : IsReady model (process both (docs ∷ []))
unfolding to_entry lookup
stale-IsReady = record {
  dir = refl;
  readable = (refl, _, refl, (("docs", refl), tt));
  clean = refl;
  keyed = (refl, refl, (refl, refl, tt));
}

login_deleted : stored model (disk (docs ∷ [])) "login" ≡ none
unfolding lookup read_entries of_entry to_entry insert
login_deleted = refl

api≢login : ◌≢◌ {A = String} "api" "login"
api≢login = ground (arith, eq_iff "api" "login")

create_resurrects_example :
    stored model (create model "api" "API" [] [] "now" (process both (docs ∷ []))).1.disk "login"
    ≡ some (canonical login)
create_resurrects_example =
    create_resurrects model "api" "API" [] [] "now" "login" login (process both (docs ∷ []))
      stale-IsReady api≢login login_deleted login_known

reload-stored_example :
    ((reload model (process both (docs ∷ []))).0 ≡ return tt)
    × (lookup "login" (reload model (process both (docs ∷ []))).1.self.tasks
        ≡ stored model (disk (docs ∷ [])) "login")
    × ((reload model (process both (docs ∷ []))).1.disk ≡ disk (docs ∷ []))
reload-stored_example =
    reload-stored model (process both (docs ∷ [])) "login" stale-IsReady.readable

-- A store that does not parse, before and after the process has preserved another one.
abbrev broken : State Document
broken = record {
  self = view [];
  disk = record { dir = true; file = some (unparsable "e"); copies = []; writable = true };
}

abbrev broken_again : State Document
broken_again = record {
  self = record { tasks = []; load_error = none; preserved = some "first" };
  disk = record {
    dir = true;
    file = some (unparsable "e");
    copies = ("first", unparsable "first") ∷ [];
    writable = true;
  };
}

first_copied : lookup "first" broken_again.disk.copies ≡ some (unparsable "first")
unfolding lookup
first_copied = refl

second_corruption_lost_example :
    ((locked_load_save model (λ ts. return ts) broken_again).0 ≡ return tt)
    × ((locked_load_save model (λ ts. return ts) broken_again).1.disk.file
        ≡ some (entries (map to_entry (values []))))
    × ((locked_load_save model (λ ts. return ts) broken_again).1.disk.copies
        ≡ broken_again.disk.copies)
second_corruption_lost_example =
    second_corruption_lost model (unparsable "e") "first" "e" (unparsable "first") (λ ts. return ts)
      broken_again [] refl refl refl refl first_copied refl
