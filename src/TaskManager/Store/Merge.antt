-- ===== src/TaskManager/Store/Merge.antt =====
-- engine/task_manager.py: what merging the entries of a file into a view gives, key by key.
use gitreins.Prelude.{◌≡◌, refl, sym, ◌∙◌, ap, subst, List, [], ◌∷◌, Option, none, some, map}
use gitreins.Prelude.{
  String, if◌then◌else◌, ◌==◌, string_eq, arith, Bool-cases, Option-cases, inl, inr, All,
}
use text.Mathlib.TextEquality.{eq_iff}
use gitreins.Prelude.Dict.{Dict, insert, lookup, values, remove, lookup-insert, lookup-remove}
use gitreins.TaskManager.Task.{Task, Entry, of_entry, to_entry, canonical, of_entry-to_entry}
use gitreins.TaskManager.Store.{read_entries}

-- Each key is the id of its task, and stands once.
abbrev pub IsKeyed : Dict Task → Type 0
IsKeyed [] = Unit
IsKeyed ((k, t) ∷ m) = (t.id ≡ k) × (lookup k m ≡ none) × IsKeyed m

pub insert-IsKeyed :
    (k : String) (t : Task) (m : Dict Task) → t.id ≡ k → IsKeyed m → IsKeyed (insert k t m)
unfolding insert lookup
insert-IsKeyed k t [] e h = (e, refl, tt)
insert-IsKeyed k t ((j, w) ∷ m) e (f, fresh, h) = elim (Bool-cases (j == k)) [
  | inl same ↦ rw same (e ∙ sym ((eq_iff j k).0 same), fresh, h)
  | inr other ↦
      rw other
        (f, ground (arith, lookup-insert k j t m, eq_iff k j, eq_iff j k), insert-IsKeyed k t m e h)
]

pub remove-IsKeyed : (k : String) (m : Dict Task) → IsKeyed m → IsKeyed (remove k m)
unfolding remove
remove-IsKeyed k [] h = tt
remove-IsKeyed k ((j, w) ∷ m) (f, fresh, h) = elim (Bool-cases (j == k)) [
  | inl same ↦ rw same (remove-IsKeyed k m h)
  | inr other ↦ rw other (f, ground (arith, lookup-remove k j m), remove-IsKeyed k m h)
]

abbrev pub HasId : Entry → Type 0
HasId e = (id : String) × (e.id ≡ some id)

-- The newer of two readings of a key.
abbrev pub over {ℓ} : {A : Type ℓ} → Option A → Option A → Option A
over none old = old
over (some a) old = some a

-- The tasks of a list of entries.
abbrev pub tasks_of : List Entry → Dict Task
tasks_of es = (read_entries [] es).0

read_entries-cons :
    (target : Dict Task) (e : Entry) (es : List Entry) (id : String)
    → e.id ≡ some id
    → read_entries target (e ∷ es) ≡ read_entries (insert id (of_entry id e) target) es
unfolding read_entries
read_entries-cons target e es id h = simp h

lookup-nil {ℓ} : {V : Type ℓ} (j : String) → lookup {V = V} j [] ≡ none
unfolding lookup
lookup-nil j = refl

over_assoc {ℓ} : {A : Type ℓ} (x a b : Option A) → over x (over a b) ≡ over (over x a) b
over_assoc none a b = refl
over_assoc (some x) a b = refl

lookup-insert-over :
    (k j : String) (t : Task) (m : Dict Task)
    → lookup j (insert k t m) ≡ over (lookup j (insert k t [])) (lookup j m)
lookup-insert-over k j t m =
    rw (lookup-insert k j t m, lookup-insert k j t [], lookup-nil {V = Task} j)
      (elim (Bool-cases (k == j)) [ inl same ↦ rw same | inr other ↦ rw other ])

lookup-read_entries_nil :
    (target : Dict Task) (j : String)
    → lookup j (read_entries target []).0 ≡ over (lookup j (tasks_of [])) (lookup j target)
unfolding read_entries
lookup-read_entries_nil target j = rw (lookup-nil {V = Task} j)

-- Merging never removes: the file wins where it has the key, and the view keeps the rest.
pub lookup-read_entries :
    (target : Dict Task) (es : List Entry) (j : String)
    → All HasId es
    → lookup j (read_entries target es).0 ≡ over (lookup j (tasks_of es)) (lookup j target)
lookup-read_entries target [] j h = lookup-read_entries_nil target j
lookup-read_entries target (e ∷ es) j ((id, has), h) =
    let t = of_entry id e in
    let later = lookup-read_entries (insert id t target) es j h in
    let alone = lookup-read_entries (insert id t []) es j h in
    cc (
      read_entries-cons target e es id has,
      read_entries-cons [] e es id has,
      later,
      alone,
      over_assoc (lookup j (tasks_of es)) (lookup j (insert id t [])) (lookup j target),
      lookup-insert-over id j t target,
    )

pub read_entries_ok :
    (target : Dict Task) (es : List Entry) → All HasId es → (read_entries target es).1 ≡ none
read_entries_ok target [] h = read_entries_nil_ok target
  where
    read_entries_nil_ok : (m : Dict Task) → (read_entries m []).1 ≡ none
    read_entries_nil_ok m = unfold read_entries in refl
read_entries_ok target (e ∷ es) ((id, has), h) =
    rw (read_entries-cons target e es id has)
      (read_entries_ok (insert id (of_entry id e) target) es h)

of_entry-id : (id : String) (e : Entry) → (of_entry id e).id ≡ id
unfolding of_entry
of_entry-id id e = refl

pub read_entries-IsKeyed :
    (target : Dict Task) (es : List Entry) → IsKeyed target → IsKeyed (read_entries target es).0
unfolding read_entries
read_entries-IsKeyed target [] k = k
read_entries-IsKeyed target (e ∷ es) k = elim (Option-cases e.id) [
  | inl missing ↦ simp missing k
  | inr (id, has) ↦ simp has (
      read_entries-IsKeyed (insert id (of_entry id e) target) es
        (insert-IsKeyed id (of_entry id e) target (of_entry-id id e) k))
]

abbrev pub map_option {ℓ κ} : {A : Type ℓ} {B : Type κ} → (A → B) → Option A → Option B
map_option f none = none
map_option f (some a) = some (f a)

pub saved-HasId : (ts : List Task) → All HasId (map to_entry ts)
unfolding to_entry
saved-HasId [] = tt
saved-HasId (t ∷ ts) = ((t.id, refl), saved-HasId ts)

lookup-tasks_of_saved_nil :
    (j : String)
    → lookup j (tasks_of (map to_entry (values {V = Task} [])))
      ≡ map_option canonical (lookup {V = Task} j [])
unfolding values read_entries lookup
lookup-tasks_of_saved_nil j = refl

to_entry-id : (t : Task) → (to_entry t).id ≡ some t.id
unfolding to_entry
to_entry-id t = refl

over-none {ℓ} : {A : Type ℓ} (x : Option A) → over x none ≡ x
over-none none = refl
over-none (some a) = refl

saved_cons :
    (k : String) (t : Task) (m : Dict Task)
    → tasks_of (map to_entry (values ((k, t) ∷ m)))
      ≡ (read_entries (insert t.id (canonical t) []) (map to_entry (values m))).0
unfolding values
saved_cons k t m =
    let rest = map to_entry (values m) in
    ap (λ r. r.0) (read_entries-cons [] (to_entry t) rest t.id (to_entry-id t))
    ∙ ap (λ x. (read_entries (insert t.id x []) rest).0) (of_entry-to_entry t)

lookup-cons :
    (k j : String) (t : Task) (m : Dict Task)
    → lookup j ((k, t) ∷ m) ≡ (if k == j then some t else lookup j m)
unfolding lookup
lookup-cons k j t m = refl

-- A fresh key in front is read last, and nothing comes over it.
over-fresh :
    (k j : String) (t : Task) (m : Dict Task)
    → lookup k m ≡ none
    → over (map_option canonical (lookup j m)) (lookup j (insert k (canonical t) []))
      ≡ map_option canonical (lookup j ((k, t) ∷ m))
over-fresh k j t m fresh =
    rw (lookup-insert k j (canonical t) [], lookup-cons k j t m, lookup-nil {V = Task} j)
      (elim (Bool-cases (k == j)) [
        | inl same ↦
            let gone : lookup j m ≡ none = rw ((eq_iff k j).0 same) at fresh in rw (same, gone)
        | inr other ↦ rw other (over-none (map_option canonical (lookup j m)))
      ])

-- What a save writes is read back, key by key.
pub lookup-tasks_of_saved :
    (m : Dict Task) (j : String)
    → IsKeyed m
    → lookup j (tasks_of (map to_entry (values m))) ≡ map_option canonical (lookup j m)
lookup-tasks_of_saved [] j h = lookup-tasks_of_saved_nil j
lookup-tasks_of_saved ((k, t) ∷ m) j (e, fresh, h) =
    let rest = lookup-tasks_of_saved m j h in
    let merged =
      lookup-read_entries (insert t.id (canonical t) []) (map to_entry (values m)) j
        (saved-HasId (values m)) in
    ap (lookup j) (saved_cons k t m)
    ∙ (merged
        ∙ rw rest (
            subst
              (λ x.
                over (map_option canonical (lookup j m)) (lookup j (insert x (canonical t) []))
                ≡ map_option canonical (lookup j ((k, t) ∷ m)))
              (sym e) (over-fresh k j t m fresh)))

-- The task under a key carries the key as its id.
pub lookup-id : (m : Dict Task) (k : String) {t : Task} → IsKeyed m → lookup k m ≡ some t → t.id ≡ k
unfolding lookup
lookup-id [] k h e = cc
lookup-id ((j, w) ∷ m) k {t} (f, fresh, h) e = ground (arith, eq_iff j k, lookup-id m k {t = t} h)
