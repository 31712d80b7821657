-- ===== src/Resolution/Call.antt =====
-- engine/resolution.py, `call_jev`: one request, failing over across the credential candidates.
pub mod First
use gitreins.Prelude.{
  ℕ, suc, ◌+◌, ◌≡◌, Bool, true, false, ◌||◌, List, [], ◌∷◌, ◌++◌, Option, none, some,
}
use gitreins.Prelude.{String, if◌then◌else◌, nat_beq, take, length}
use gitreins.Prelude.Text.{Text, codes, starts_with}
use gitreins.EvidenceBounds.Marker.{decimal}
use gitreins.Resolution.Value.{Real, Json}
use gitreins.Resolution.Answers.{Answers, Parsed, typed, problem, parse_answers}

-- What `response.json()` does: it raises an exception with that class name, or returns a value.
pub data Body (F : Type 0) : Type 0 where
  unreadable : Text → Body F
  readable : Json F → Body F

-- What the poster does with a candidate: it raises, or answers with a status, a text and a body.
pub data Reply (F : Type 0) : Type 0 where
  raised : Text → Reply F
  response : (status : ℕ) (content : Text) (body : Body F) → Reply F

pub record JevCallResult (F : Type 0) : Type 0 where
  pub payload : Option (Json F × Answers F)
  pub reason : Option String
  pub detail : Option Text
  pub attempts : List Text

-- `needle in text`
unfoldable pub occurs_in : Text → Text → Bool
occurs_in needle [] = starts_with [] needle
occurs_in needle (c ∷ s) = starts_with (c ∷ s) needle || occurs_in needle s

-- One candidate: an answer, or the reason, the detail and the attempt that it leaves.
pub data Attempt (F : Type 0) : Type 0 where
  accepted : Json F → Answers F → Attempt F
  failed : (reason : String) (detail : Text) (note : Text) → Attempt F

abbrev is_credential_failure : ℕ → Bool
is_credential_failure status =
    nat_beq status 401 || nat_beq status 402 || nat_beq status 403 || nat_beq status 429

-- `lower` is `str.lower`, `strip` is `str.strip`, `show` is `str`.
module _ (real : Real) (lower strip : Text → Text) (show : Json real.F → String) where
  open real use {F}

  over_ceiling : Text → Bool
  unfolding occurs_in
  over_ceiling content =
      occurs_in (codes "max_tokens_exceeded") content || occurs_in (codes "context") (lower content)

  abbrev http_failure : ℕ → Text → Attempt F
  http_failure status content =
      failed (if over_ceiling content then "bundle-over-server-ceiling" else "http-error")
        (codes "HTTP " ++ decimal status ++ codes ": " ++ strip content)
        (codes "HTTP " ++ decimal status)

  abbrev read_answers : Json F → Parsed (Answers F) → Attempt F
  read_answers body (typed answers) = accepted body answers
  read_answers body (problem why) = failed "malformed-response" (codes why) (codes "malformed")

  abbrev read_body : Body F → Attempt F
  read_body (unreadable exc) =
      failed "malformed-response" (codes "body is not JSON (" ++ (exc ++ codes ")"))
        (codes "malformed")
  read_body (readable body) = read_answers body (parse_answers real show body)

  -- One round of the loop over the candidates.
  unfoldable pub attempt : Reply F → Attempt F
  unfolding over_ceiling
  attempt (raised detail) = failed "transport-error" detail (codes "transport-error")
  attempt (response status content body) =
      if is_credential_failure status
      then failed "all-credentials-rejected" (codes "HTTP " ++ decimal status)
          (codes "rejected (" ++ decimal status ++ codes ")")
      else if nat_beq status 200
      then read_body body
      else http_failure status (take 200 content)

  module _ (total : ℕ) where
    label : ℕ → Text
    label i = codes "candidate " ++ decimal (suc i) ++ codes "/" ++ decimal total ++ codes ": "

    abbrev after_attempt :
        ℕ
        → Attempt F
        → (Option String → Option Text → List Text → JevCallResult F)
        → List Text
        → JevCallResult F
    after_attempt i (accepted body answers) next attempts = record {
      payload = some (body, answers);
      reason = none;
      detail = none;
      attempts = attempts ++ (label i ++ codes "ok") ∷ [];
    }
    after_attempt i (failed reason detail note) next attempts =
        next (some reason) (some (label i ++ detail)) (attempts ++ (label i ++ note) ∷ [])

    -- The loop, over what the poster answers for each candidate.
    unfoldable pub call_from :
        ℕ → List (Reply F) → Option String → Option Text → List Text → JevCallResult F
    unfolding label
    call_from i [] reason detail attempts = record {
      payload = none;
      reason = reason;
      detail = detail;
      attempts = attempts;
    }
    call_from i (reply ∷ replies) reason detail attempts =
        after_attempt i (attempt reply) (λ r d a. call_from (i + 1) replies r d a) attempts

  -- `call_jev`
  unfoldable pub call_jev : List (Reply F) → JevCallResult F
  call_jev [] = record {
    payload = none;
    reason = some "no-credentials";
    detail = none;
    attempts = [];
  }
  call_jev (reply ∷ replies) = call_from (length (reply ∷ replies)) 0 (reply ∷ replies) none none []
