-- ===== src/Gate/Coverage.antt =====
-- engine/gate.py, per-criterion coverage: the only passing test that a gate may use.
pub mod Sound
pub mod Partition
pub mod Complete
use gitreins.Prelude.{ℕ, ◌+◌, Bool, true, false, not, ◌&&◌, ◌||◌, List, [], ◌∷◌, ◌++◌}
use gitreins.Prelude.{Option, none, some, if◌then◌else◌, ◌==◌, text_eq, nat_eq, ltb, length}
use gitreins.Prelude.{is_empty, contains, keep, get_or}
use gitreins.Prelude.Text.{Text, codes, starts_with, join, strip, split, upper, casefold}
use gitreins.Gate.Value.{Value, str, list, null, Runtime, get_field, sequence, text_or_empty}

abbrev pub prefix_min_chars : ℕ
prefix_min_chars = 10

-- `_matches`: exact text first, then a long enough prefix in either direction.
unfoldable pub matches : Text → Text → Bool
matches wanted graded =
    if wanted == graded
    then true
    else if ltb (length graded) prefix_min_chars || ltb (length wanted) prefix_min_chars
    then false
    else starts_with graded wanted || starts_with wanted graded

pub record Coverage : Type 0 where
  pub criteria : List Text
  pub graded : List Text
  pub ungraded : List Text
  pub failing : List Text

unfoldable pub complete : Coverage → Bool
complete c = not (is_empty c.criteria) && is_empty c.ungraded && is_empty c.failing

abbrev part : Text → List Text → List Text
part label [] = []
part label (t ∷ ts) = (label ++ join (codes "; ") (t ∷ ts)) ∷ []

unfoldable pub reason : Coverage → Text
reason c =
    if is_empty c.criteria
    then codes "no task criteria were supplied, so nothing was graded"
    else join (codes ", ")
        (part (codes "ungraded: ") c.ungraded ++ part (codes "not passing: ") c.failing)

unfoldable pub ungraded_note : Coverage → Text
unfolding complete reason
ungraded_note c = if complete c then [] else codes "Coverage FAILED — " ++ reason c

-- The variables of the loop of `check_coverage`; `used` has its newest index in front.
pub record Tally : Type 0 where
  pub used : List ℕ
  pub graded : List Text
  pub ungraded : List Text
  pub failing : List Text

abbrev pub or_else : Option ℕ → Option ℕ → Option ℕ
or_else (some i) other = some i
or_else none other = other

abbrev pub fresh : Tally
fresh = record { used = []; graded = []; ungraded = []; failing = [] }

unfoldable pub verdict_items : Value → List Value
verdict_items verdict = sequence (get_field verdict "items" null)

-- `items[match]`; the index comes from the loop over the items.
unfoldable pub item_at : List Value → ℕ → Value
item_at items i = get_or items i null

module _ (py : Runtime) where
  unfoldable pub norm : Text → Text
  norm t = casefold py.unicode (join (codes " ") (split py.unicode t))

  unfoldable pub criterion_of : Value → Text
  criterion_of item = text_or_empty py (get_field item "criterion" (str []))

  unfoldable pub status_of : Value → Text
  status_of item =
      upper py.unicode (strip py.unicode (text_or_empty py (get_field item "status" (str []))))

  -- The `for` loop with `break`: the first unused index whose item passes the test.
  unfoldable pub first_unused : (Text → Bool) → List ℕ → ℕ → List Value → Option ℕ
  first_unused test used i [] = none
  first_unused test used i (item ∷ items) =
      if not (contains used i) && test (norm (criterion_of item))
      then some i
      else first_unused test used (i + 1) items

  unfoldable pub find_match : Text → List ℕ → List Value → Option ℕ
  find_match needle used items =
      or_else (first_unused (λ g. g == needle) used 0 items)
        (first_unused (matches needle) used 0 items)

  -- The end of a round, once the search for an item is over.
  unfoldable pub settle : List Value → Tally → Text → Option ℕ → Tally
  settle items t c none = record t { ungraded = t.ungraded ++ c ∷ [] }
  settle items t c (some i) = record {
    used = i ∷ t.used;
    graded = t.graded ++ c ∷ [];
    ungraded = t.ungraded;
    failing =
        if status_of (item_at items i) == codes "PASS" then t.failing else t.failing ++ c ∷ [];
  }

  -- One round of the loop over the criteria.
  unfoldable pub grade : List Value → Tally → Text → Tally
  grade items t c = settle items t c (find_match (norm c) t.used items)

  unfoldable pub grade_all : List Value → Tally → List Text → Tally
  grade_all items t [] = t
  grade_all items t (c ∷ cs) = grade_all items (grade items t c) cs

  unfoldable pub verdict_outcome : Value → Text
  verdict_outcome verdict =
      upper py.unicode (strip py.unicode (text_or_empty py (get_field verdict "verdict" (str []))))

  -- The criteria that are no white space.
  unfoldable pub wanted : List Text → List Text
  wanted = keep (λ c. not (is_empty (strip py.unicode c)))

  unfoldable pub check_coverage : Value → List Text → Coverage
  check_coverage verdict criteria =
      let t = grade_all (verdict_items verdict) fresh (wanted criteria) in
      record {
        criteria = wanted criteria;
        graded = t.graded;
        ungraded = t.ungraded;
        failing = t.failing;
      }

  unfoldable pub verdict_is_passing : Value → List Text → Bool
  unfolding complete
  verdict_is_passing verdict criteria =
      if verdict_outcome verdict == codes "COMPLETE"
      then if is_empty (verdict_items verdict)
        then false
        else complete (check_coverage verdict criteria)
      else false
