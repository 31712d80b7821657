-- ===== src/Resolution/Call/First.antt =====
-- engine/resolution.py: `call_jev` takes the first candidate whose answer can be read.
use gitreins.Prelude.{
  ℕ, ◌+◌, ◌≡◌, refl, sym, List, [], ◌∷◌, Option, none, some, String, length, if_ind, nat_beq,
  nat_beq_iff, subst, inl, inr,
}
use gitreins.Prelude.Text.{Text}
use gitreins.Prelude.Slices.{Any}
use gitreins.Resolution.Value.{Real, Json}
use gitreins.Resolution.Answers.{Answers, Parsed, typed, problem, parse_answers}
use gitreins.Resolution.Call.{
  Body, unreadable, readable, Reply, raised, response, JevCallResult, Attempt, accepted, failed,
  attempt, after_attempt, call_from, call_jev, is_credential_failure, read_body, read_answers,
}

none≢some : {A : Type 0} {a : A} → none ≡ some a → ⊥
none≢some h = cc

module _ (real : Real) (lower strip : Text → Text) (show : Json real.F → String) where
  open real use {F}

  abbrev or_later : Attempt F → Option (Json F × Answers F) → Option (Json F × Answers F)
  or_later (accepted body answers) later = some (body, answers)
  or_later (failed reason detail note) later = later

  -- The first answer that can be read, of the candidates in order.
  abbrev pub first_accepted : List (Reply F) → Option (Json F × Answers F)
  first_accepted [] = none
  first_accepted (reply ∷ replies) =
      or_later (attempt real lower strip show reply) (first_accepted replies)

  -- A result holds `first`, with no reason when that is an answer and with one when it is none.
  pub record IsNamed (first : Option (Json F × Answers F)) (r : JevCallResult F) : Type 0 where
    pub payload : r.payload ≡ first
    pub answered : (a : Json F × Answers F) → first ≡ some a → r.reason ≡ none
    pub refused : first ≡ none → (why : String) × (r.reason ≡ some why)

  after_attempt-IsNamed :
      (total i : ℕ) (a : Attempt F)
      (next : Option String → Option Text → List Text → JevCallResult F) (attempts : List Text)
      (later : Option (Json F × Answers F))
      → ((why : String) (detail : Option Text) (notes : List Text)
          → IsNamed later (next (some why) detail notes))
      → IsNamed (or_later a later) (after_attempt real lower strip show total i a next attempts)
  after_attempt-IsNamed total i (accepted body answers) next attempts later ih = record {
    payload = refl;
    answered = λ a h. refl;
    refused = λ h. absurd (none≢some (sym h));
  }
  after_attempt-IsNamed total i (failed reason detail note) next attempts later ih = ih _ _ _

  call_from-IsNamed :
      (total i : ℕ) (replies : List (Reply F)) (why : String) (detail : Option Text)
      (attempts : List Text)
      → IsNamed
          (first_accepted replies)
          (call_from real lower strip show total i replies (some why) detail attempts)
  unfolding call_from
  call_from-IsNamed total i [] why detail attempts = record {
    payload = refl;
    answered = λ a h. absurd (none≢some h);
    refused = λ h. (why, refl);
  }
  call_from-IsNamed total i (reply ∷ replies) why detail attempts =
      after_attempt-IsNamed total i (attempt real lower strip show reply) _ attempts
        (first_accepted replies) (call_from-IsNamed total (i + 1) replies)

  -- `call_jev` returns the answer of the first candidate that can be read, with no reason; when no
  -- candidate's answer can be read, or there is no candidate, it returns no answer and a reason.
  pub call_jev-IsNamed :
      (replies : List (Reply F))
      → IsNamed (first_accepted replies) (call_jev real lower strip show replies)
  unfolding call_jev call_from
  call_jev-IsNamed [] = record {
    payload = refl;
    answered = λ a h. absurd (none≢some h);
    refused = λ h. (_, refl);
  }
  call_jev-IsNamed (reply ∷ replies) =
      after_attempt-IsNamed (length (reply ∷ replies)) 0 (attempt real lower strip show reply) _ []
        (first_accepted replies) (call_from-IsNamed (length (reply ∷ replies)) 1 replies)

  -- What was accepted is what the body reads as.
  abbrev Reads : Attempt F → Type 0
  Reads (accepted body answers) = parse_answers real show body ≡ typed answers
  Reads (failed reason detail note) = Unit

  read_answers-Reads :
      (body : Json F) (r : Parsed (Answers F))
      → parse_answers real show body ≡ r
      → Reads (read_answers real lower strip show body r)
  read_answers-Reads body (typed answers) h = h
  read_answers-Reads body (problem why) h = tt

  read_body-Reads : (body : Body F) → Reads (read_body real lower strip show body)
  read_body-Reads (unreadable exc) = tt
  read_body-Reads (readable body) = read_answers-Reads body (parse_answers real show body) refl

  attempt-Reads : (reply : Reply F) → Reads (attempt real lower strip show reply)
  unfolding attempt
  attempt-Reads (raised detail) = tt
  attempt-Reads (response status content body) =
      if_ind Reads (is_credential_failure status) (λ _. tt)
        (λ _. if_ind Reads (nat_beq status 200) (λ _. read_body-Reads body) (λ _. tt))

  abbrev pub AllRead : Option (Json F × Answers F) → Type 0
  AllRead none = Unit
  AllRead (some (body, answers)) = parse_answers real show body ≡ typed answers

  or_later-AllRead :
      (a : Attempt F) (later : Option (Json F × Answers F))
      → Reads a
      → AllRead later
      → AllRead (or_later a later)
  or_later-AllRead (accepted body answers) later h k = h
  or_later-AllRead (failed reason detail note) later h k = k

  pub first_accepted-AllRead : (replies : List (Reply F)) → AllRead (first_accepted replies)
  first_accepted-AllRead [] = tt
  first_accepted-AllRead (reply ∷ replies) =
      or_later-AllRead (attempt real lower strip show reply) _ (attempt-Reads reply)
        (first_accepted-AllRead replies)

  -- A reply with the status 200 whose body reads as the answers.
  abbrev pub HasAnswers : Answers F → Reply F → Type 0
  HasAnswers answers (response status content (readable body)) =
      (status ≡ 200) × (parse_answers real show body ≡ typed answers)
  HasAnswers answers (response status content (unreadable exc)) = ⊥
  HasAnswers answers (raised detail) = ⊥

  abbrev Gives : Reply F → Attempt F → Type 0
  Gives reply (accepted body answers) = HasAnswers answers reply
  Gives reply (failed reason detail note) = Unit

  read_answers-Gives :
      (content : Text) (status : ℕ) (body : Json F) (r : Parsed (Answers F))
      → status ≡ 200
      → parse_answers real show body ≡ r
      → Gives (response status content (readable body)) (read_answers real lower strip show body r)
  read_answers-Gives content status body (typed answers) e h = (e, h)
  read_answers-Gives content status body (problem why) e h = tt

  read_body-Gives :
      (content : Text) (status : ℕ) (body : Body F)
      → status ≡ 200
      → Gives (response status content body) (read_body real lower strip show body)
  read_body-Gives content status (unreadable exc) e = tt
  read_body-Gives content status (readable body) e =
      read_answers-Gives content status body (parse_answers real show body) e refl

  attempt-Gives : (reply : Reply F) → Gives reply (attempt real lower strip show reply)
  unfolding attempt
  attempt-Gives (raised detail) = tt
  attempt-Gives (response status content body) =
      if_ind (Gives (response status content body)) (is_credential_failure status) (λ _. tt)
        (λ _.
          if_ind (Gives (response status content body)) (nat_beq status 200)
            (λ ok. read_body-Gives content status body ((nat_beq_iff status 200).0 ok)) (λ _. tt))

  or_later-HasAnswers :
      (reply : Reply F) (replies : List (Reply F)) (a : Attempt F)
      (later : Option (Json F × Answers F)) (body : Json F) (answers : Answers F)
      → Gives reply a
      → (later ≡ some (body, answers) → Any (HasAnswers answers) replies)
      → or_later a later ≡ some (body, answers)
      → Any (HasAnswers answers) (reply ∷ replies)
  or_later-HasAnswers reply replies (accepted b held) later body answers h ih e =
      inl (subst (λ x. HasAnswers x reply) (some_answers e) h)
    where
      some_answers :
          ◌≡◌ {A = Option (Json F × Answers F)} (some (b, held)) (some (body, answers))
          → held ≡ answers
      some_answers e = cc e
  or_later-HasAnswers reply replies (failed reason detail note) later body answers h ih e =
      inr (ih e)

  pub first_accepted-HasAnswers :
      (replies : List (Reply F)) (body : Json F) (answers : Answers F)
      → first_accepted replies ≡ some (body, answers)
      → Any (HasAnswers answers) replies
  first_accepted-HasAnswers [] body answers e = absurd (none≢some e)
  first_accepted-HasAnswers (reply ∷ replies) body answers e =
      or_later-HasAnswers reply replies (attempt real lower strip show reply)
        (first_accepted replies) body answers (attempt-Gives reply)
        (first_accepted-HasAnswers replies body answers) e
