-- ===== src/Resolution/Resolve/Decided.antt =====
-- engine/resolution.py: `resolve` abstains with a reason or decides by a probability that was read.
use gitreins.Prelude.{
  ◌≡◌, ◌≢◌, refl, sym, subst, ◌∙◌, Bool, true, false, List, [], Option, none, some, String, if_ind,
  is_empty, arith, and_true,
}
use gitreins.Prelude.Text.{Text, strip}
use gitreins.Resolution.Value.{Real, Json}
use gitreins.Resolution.Answers.{Answers}
use gitreins.Resolution.Answers.Readable.{IsReadable, parse_answers-IsReadable}
use gitreins.Resolution.Bands.{band_for}
use gitreins.Resolution.Call.{Reply, JevCallResult}
use gitreins.Resolution.Call.First.{
  call_jev-IsNamed, AllRead, first_accepted-AllRead, HasAnswers, first_accepted-HasAnswers,
}
use gitreins.Prelude.Slices.{Any}
use gitreins.Resolution.Verdict.{AssembledBundle, ResolutionVerdict, ok, is_decided, abstain_with}
use gitreins.Resolution.Clip.{Platform, build_state, clip_state}
use gitreins.Resolution.Resolve.{judge, send, resolve}

false≢true : false ≢ true
false≢true h = cc

module _ (real : Real) (p : Platform real.F) where
  open real use {F, finite}
  open p use {unicode}

  -- A verdict is an abstention with a reason and no probability, or a decision with no reason, by
  -- the band of readable answers that one of the replies holds.
  pub record IsDecided (resolved_at review_at : F) (replies : List (Reply F))
      (v : ResolutionVerdict F) : Type 0 where
    pub abstained :
        ok v ≡ false → ((why : String) × (v.abstain_reason ≡ some why)) × (v.probability ≡ none)
    pub decided :
        ok v ≡ true
        → (v.abstain_reason ≡ none)
          × ((a : Answers F) × Any (HasAnswers real p.lower (strip unicode) p.show a) replies
              × IsReadable real a
              × (v.probability ≡ some a.resolves)
              × (v.missing_kind ≡ some a.missing_kind)
              × (v.verdict ≡ band_for real (some a.resolves) resolved_at review_at))

  abstain_with-IsDecided :
      (resolved_at review_at : F) (question : Text) (reason : String) (detail : Option Text)
      (bundle : Option (AssembledBundle F)) (attempts : List Text) (replies : List (Reply F))
      → IsDecided resolved_at review_at replies
          (abstain_with question reason detail bundle attempts)
  unfolding abstain_with
  abstain_with-IsDecided resolved_at review_at question reason detail bundle attempts replies =
      record { abstained = λ h. ((reason, refl), refl); decided = λ h. absurd (false≢true h) }

  band_for-decided :
      (x resolved_at review_at : F)
      → finite x ≡ true
      → is_decided (band_for real (some x) resolved_at review_at) ≡ true
  unfolding band_for
  band_for-decided x resolved_at review_at h = ground (arith, h)

  judge-IsDecided :
      (question state : Text) (b : AssembledBundle F) (resolved_at review_at : F)
      (payload : Option (Json F × Answers F)) (call : JevCallResult F) (replies : List (Reply F))
      → AllRead real p.lower (strip unicode) p.show payload
      → ((body : Json F) (a : Answers F)
          → payload ≡ some (body, a)
          → Any (HasAnswers real p.lower (strip unicode) p.show a) replies)
      → IsDecided resolved_at review_at replies
          (judge real p question state b resolved_at review_at payload call)
  unfolding judge
  judge-IsDecided question state b resolved_at review_at none call replies read held =
      abstain_with-IsDecided resolved_at review_at question _ _ (some b) call.attempts replies
  judge-IsDecided question state b resolved_at review_at (some (body, answers)) call replies read
        held =
      let readable = parse_answers-IsReadable real p.show body answers read in
      let known =
        band_for-decided answers.resolves resolved_at review_at
          (and_true _ _ (and_true _ _ readable.probability).0).0 in
      record {
        abstained = λ h. absurd (false≢true (sym h ∙ known));
        decided = λ h. (refl, (answers, held body answers refl, readable, refl, refl, refl));
      }

  module _ (graph hilo : Bool) (replies : Text → List (Reply F)) (resolved_at review_at : F) where
    send-IsDecided :
        (question : Text) (sent : Text × AssembledBundle F)
        → IsDecided resolved_at review_at
            (replies sent.0)
            (send real p graph hilo replies resolved_at review_at question sent)
    unfolding send
    send-IsDecided question (state, b) =
        let call = call_jev-IsNamed real p.lower (strip unicode) p.show (replies state) in
        judge-IsDecided question state b resolved_at review_at _ _ (replies state)
          (subst (AllRead real p.lower (strip unicode) p.show) (sym call.payload)
            (first_accepted-AllRead real p.lower (strip unicode) p.show (replies state)))
          (λ body a e.
            first_accepted-HasAnswers real p.lower (strip unicode) p.show (replies state) body a
              (sym call.payload ∙ e))

    -- The text that is sent, and the bundle that is reported.
    abbrev pub sent_for : (Text → AssembledBundle F) → Text → Text × AssembledBundle F
    sent_for assemble question =
        clip_state real p (build_state unicode question (assemble question).text)
          (assemble question)

    -- Whatever the bundle and the service's replies, whose whole numbers a float can hold, `resolve`
    -- abstains with a named reason and no probability, or decides with no reason: a reply to the
    -- clipped state, of the status 200, then holds answers whose probability is finite and from 0 to
    -- 1, whose label is not empty and whose score is finite and not negative, and the verdict is the
    -- band of that probability.
    pub resolve-IsDecided :
        (assemble : Text → AssembledBundle F) (question : Text)
        → IsDecided resolved_at review_at
            (replies (sent_for assemble question).0)
            (resolve real p graph hilo replies resolved_at review_at assemble question)
    unfolding resolve
    resolve-IsDecided assemble question =
        let sent = replies (sent_for assemble question).0 in
        if_ind (IsDecided resolved_at review_at sent) (is_empty (strip unicode question))
          (λ _. abstain_with-IsDecided resolved_at review_at question _ _ none [] sent)
          (λ _.
            if_ind (IsDecided resolved_at review_at sent)
              (is_empty (strip unicode (assemble question).text))
              (λ _.
                abstain_with-IsDecided resolved_at review_at question _ _ (some (assemble question))
                  [] sent)
              (λ _. send-IsDecided question (sent_for assemble question)))
