-- ===== src/TaskManager/Task.antt =====
-- engine/task_manager.py, the tasks and the YAML entries that hold them.
use gitreins.Prelude.{◌≡◌, refl, Bool, false, List, [], ◌∷◌, Option, none, some}
use gitreins.Prelude.{String, if◌then◌else◌, ◌==◌, string_eq}
use gitreins.Prelude.Text.{Text}

pub record Task : Type 0 where
  pub id : String
  pub title : String
  pub criteria : List Text
  pub status : String
  pub created_at : String
  pub completed_at : Option String
  pub depends_on : List String

-- A mapping under `tasks:`, with the keys that it has.
pub record Entry : Type 0 where
  pub id : Option String
  pub title : Option String
  pub criteria : Option (List Text)
  pub status : Option String
  pub created_at : Option String
  pub completed_at : Option String
  pub depends_on : Option (List String)

-- What `yaml.safe_load` makes of a file: it raises (or gives no mapping with a list of tasks), or
-- it gives the entries.
pub data Document : Type 0 where
  unparsable : String → Document
  entries : List Entry → Document

-- PyYAML, the digest of a file's bytes and the test for a last byte that is no newline. The laws
-- say that a dumped document is read back as it was, and that it ends in a newline.
pub record Yaml : Type 1 where
  pub Bytes : Type 0
  pub parse : Bytes → Document
  pub dump : List Entry → Bytes
  pub digest : Bytes → String
  pub cut_short : Bytes → Bool
  pub parse_dump : (es : List Entry) → parse (dump es) ≡ entries es
  pub dump_whole : (es : List Entry) → cut_short (dump es) ≡ false

abbrev or_else {ℓ} : {A : Type ℓ} → Option A → A → A
or_else none d = d
or_else (some a) d = a

-- The construction of a `Task` in `_load`, at the key that `item["id"]` gave.
unfoldable pub of_entry : String → Entry → Task
of_entry id e = record {
  id = id;
  title = or_else e.title "";
  criteria = or_else e.criteria [];
  status = or_else e.status "pending";
  created_at = or_else e.created_at "";
  completed_at = e.completed_at;
  depends_on = or_else e.depends_on [];
}

-- `if task.completed_at:`
abbrev truthy_text : Option String → Option String
truthy_text none = none
truthy_text (some s) = if s == "" then none else some s

abbrev truthy_list : List String → Option (List String)
truthy_list [] = none
truthy_list (s ∷ ss) = some (s ∷ ss)

-- The entry that `_save` writes.
unfoldable pub to_entry : Task → Entry
to_entry t = record {
  id = some t.id;
  title = some t.title;
  criteria = some t.criteria;
  status = some t.status;
  created_at = some t.created_at;
  completed_at = truthy_text t.completed_at;
  depends_on = truthy_list t.depends_on;
}

-- What a save and a load make of a task: an empty `completed_at` is lost.
abbrev pub canonical : Task → Task
canonical t = record t { completed_at = truthy_text t.completed_at }

or_else-truthy_list : (ss : List String) → or_else (truthy_list ss) [] ≡ ss
or_else-truthy_list [] = refl
or_else-truthy_list (s ∷ ss) = refl

pub of_entry-to_entry : (t : Task) → of_entry t.id (to_entry t) ≡ canonical t
unfolding of_entry to_entry
of_entry-to_entry t = λ i. record {
  id = t.id;
  title = t.title;
  criteria = t.criteria;
  status = t.status;
  created_at = t.created_at;
  completed_at = truthy_text t.completed_at;
  depends_on = or_else-truthy_list t.depends_on i;
}
