-- ===== src/Resolution/Answers.antt =====
-- engine/resolution.py, `parse_answers` and `rubric_position`.
pub mod Readable
use gitreins.Prelude.{
  ℕ, ◌-◌, Bool, true, false, not, ◌&&◌, ◌||◌, List, [], ◌∷◌, Option, none, some, map,
}
use gitreins.Prelude.{String, if◌then◌else◌, ◌==◌, string_eq, length, is_empty}
use gitreins.Prelude.Dict.{Dict}
use gitreins.Prelude.Int.{ℤ, pos, negsuc, leb_int, max_int, min_int}
use gitreins.Resolution.Value.{
  Real, Json, Members, null, bool, int, float, string, array, object, get_member, entries, is_text,
  as_float,
}

-- The three typed answers; `show` is `str` of a legend's values.
pub record Answers (F : Type 0) : Type 0 where
  pub resolves : F
  pub missing_kind : String
  pub kind_probabilities : Option (Dict F)
  pub kind_confidence : Option F
  pub quality_score : F
  pub quality_probabilities : Option (Dict F)
  pub quality_confidence : Option F
  pub legend : Option (Dict String)

-- The answers, or the problem that is named.
pub data Parsed {ℓ} (A : Type ℓ) : Type ℓ where
  typed : A → Parsed A
  problem : String → Parsed A

infixl 5 ◌>>=◌
unfoldable pub ◌>>=◌ {ℓ κ} : {A : Type ℓ} {B : Type κ} → Parsed A → (A → Parsed B) → Parsed B
typed a >>= f = f a
problem p >>= f = problem p

module _ (real : Real) where
  open real use {
    F, decimal, of_int, finite, at_least, greater, times, rounded, is_integer, truncated,
    int_of_text,
  }

  abbrev in_range : F → Bool
  in_range x = finite x && not (greater (decimal 0 0) x) && not (greater x (decimal 1 0))

  abbrev keep_if : (F → Bool) → Option F → Option F
  keep_if test none = none
  keep_if test (some x) = if test x then some x else none

  -- `_as_probability`, `_as_score`
  unfoldable pub as_probability : Json F → Option F
  unfolding as_float
  as_probability v = keep_if in_range (as_float real v)

  unfoldable pub as_score : Json F → Option F
  unfolding as_float
  as_score v = keep_if (λ x. finite x && not (greater (decimal 0 0) x)) (as_float real v)

  abbrev add_float : String → Option F → Dict F → Dict F
  add_float key none d = d
  add_float key (some x) d = (key, x) ∷ d

  floats_of : Dict (Json F) → Dict F
  unfolding as_probability
  floats_of [] = []
  floats_of ((key, raw) ∷ others) = add_float key (as_probability raw) (floats_of others)

  abbrev unless_empty : Dict F → Option (Dict F)
  unless_empty [] = none
  unless_empty (x ∷ xs) = some (x ∷ xs)

  -- `_float_map`
  unfoldable pub float_map : Json F → Option (Dict F)
  unfolding floats_of entries
  float_map (object m) = unless_empty (floats_of (entries m))
  float_map _ = none

  abbrev as_object : String → Json F → Parsed (Members F)
  as_object why (object m) = typed m
  as_object why _ = problem why

  -- A `dict` whose "type" is the given word.
  abbrev as_answer : String → String → Json F → Parsed (Members F)
  as_answer word why (object m) =
      if is_text word (get_member "type" m) then typed m else problem why
  as_answer word why _ = problem why

  abbrev as_number : String → Option F → Parsed F
  as_number why none = problem why
  as_number why (some x) = typed x

  abbrev as_label : Json F → Parsed String
  as_label (string s) = if s == "" then problem "'missing_kind.choice' is not a label" else typed s
  as_label _ = problem "'missing_kind.choice' is not a label"

  module _ (show : Json F → String) where
    abbrev texts_of : Dict (Json F) → Dict String
    texts_of d = map (λ (field : String × Json F). (field.0, show field.1)) d

    abbrev legend_of : Json F → Option (Dict String)
    legend_of (object m) = some (texts_of (entries m))
    legend_of _ = none

    -- `parse_answers`
    unfoldable pub parse_answers : Json F → Parsed (Answers F)
    unfolding as_probability as_score float_map get_member entries
    parse_answers payload = do
      fields ← as_object "payload is not an object" payload
      answers ← as_object "payload has no 'answers' object" (get_member "answers" fields)
      resolves ← as_answer "noul" "missing 'resolves' noul answer" (get_member "resolves" answers)
      probability ←
          as_number "'resolves.noul' is not a probability in [0, 1]"
            (as_probability (get_member "noul" resolves))
      choice ←
          as_answer "choice" "missing 'missing_kind' choice answer"
            (get_member "missing_kind" answers)
      label ← as_label (get_member "choice" choice)
      quality ←
          as_answer "score" "missing 'evidence_quality' score answer"
            (get_member "evidence_quality" answers)
      score ←
          as_number "'evidence_quality.score' is not a number"
            (as_score (get_member "score" quality))
      typed (record {
        resolves = probability;
        missing_kind = label;
        kind_probabilities = float_map (get_member "probabilities" choice);
        kind_confidence = as_probability (get_member "confidence" choice);
        quality_score = score;
        quality_probabilities = float_map (get_member "probabilities" quality);
        quality_confidence = as_probability (get_member "confidence" quality);
        legend = legend_of (get_member "legend" quality);
      })

  abbrev all_ints : Dict String → Bool
  all_ints [] = true
  all_ints ((key, label) ∷ others) = elim (int_of_text key) [
    | none ↦ false
    | some n ↦ all_ints others
  ]

  abbrev bands_of : Option (Dict String) → Dict String
  bands_of none = []
  bands_of (some d) = d

  abbrev on_rubric : F → ℕ → Option ℤ
  on_rubric score top =
      if greater score (of_int (pos top))
      then if leb_int (pos 0) (rounded score) && leb_int (rounded score) (pos top)
        then some (rounded score)
        else none
      else if at_least (decimal 1 0) score
      then some (max_int (pos 0) (min_int (pos top) (rounded (times score (of_int (pos top))))))
      else some (rounded score)

  abbrev without_rubric : F → Option ℤ
  without_rubric score =
      if is_integer score
      then some (truncated score)
      else if at_least (decimal 1 0) score
      then some (rounded score)
      else none

  -- `rubric_position`
  unfoldable pub rubric_position : F → Option (Dict String) → Option ℤ
  unfolding leb_int max_int min_int
  rubric_position score legend =
      let bands = bands_of legend in
      if all_ints bands
      then if is_empty bands then without_rubric score else on_rubric score (length bands - 1)
      else none
