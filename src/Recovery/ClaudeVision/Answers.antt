-- ===== src/Recovery/ClaudeVision/Answers.antt =====
-- What of the model's answers reaches the graph.
use project4_sentinel_ai_scr.Base.{
  String, ◌==◌, ◌≡◌, refl, sym, ap, ◌∙◌, ◌≢◌, ◌↔◌, Bool, true, false, ◌&&◌, ◌||◌, Option, none,
  some, List, [], ◌∷◌, contains, eq_iff, arith,
}
use project4_sentinel_ai_scr.Base.Dict.{Dict, keys, has_key}
use project4_sentinel_ai_scr.Base.Exec.{ok, continue-eq-ok, ok-eq-ok}
use project4_sentinel_ai_scr.Recovery.State.{FieldType}
use project4_sentinel_ai_scr.Recovery.Ports.{SelectorProposal}
use project4_sentinel_ai_scr.Recovery.ClaudeVision.{
  JsonValue, text, other, Parsed, object, no_object, Response, Message, ClaudeVision, text_content,
  valid_selectors, propose, of_parsed, parse_response, propose_selectors,
}

-- The object gives the field a text.
abbrev pub has_text : String → Dict JsonValue → Bool
has_text f [] = false
has_text f ((k, text value) ∷ rest) = (k == f) || has_text f rest
has_text f ((k, other) ∷ rest) = has_text f rest

has_key_congr :
    (schema : Dict FieldType) (k f : String) → (k == f) ≡ true → has_key k schema ≡ has_key f schema
has_key_congr schema k f h = ap (λ x. has_key x schema) ((eq_iff k f).0 h)

pub keys-valid_selectors :
    (schema : Dict FieldType) (parsed : Dict JsonValue) (f : String)
    → contains (keys (valid_selectors schema parsed)) f ≡ (has_key f schema && has_text f parsed)
unfolding valid_selectors keys
keys-valid_selectors schema [] f = ground arith
keys-valid_selectors schema ((k, text value) ∷ rest) f =
    ground (arith, has_key_congr schema k f, keys-valid_selectors schema rest f)
keys-valid_selectors schema ((k, other) ∷ rest) f =
    ground (arith, keys-valid_selectors schema rest f)

propose-selectors : (d : Dict String) → (propose d).selectors ≡ d
propose-selectors [] = refl
propose-selectors (entry ∷ d) = refl

propose-is_confident : (d : Dict String) → ((propose d).is_confident ≡ true) ↔ (d ≢ [])
propose-is_confident [] = (λ h. absurd (cc), λ h. absurd (h refl))
propose-is_confident (entry ∷ d) = (λ h e. cc, λ h. refl)

-- The entries that an answer gives, as far as it is a JSON object.
abbrev pub entries_of : Option Parsed → Dict JsonValue
entries_of none = []
entries_of (some no_object) = []
entries_of (some (object parsed)) = parsed

parsed_lem :
    (schema : Dict FieldType) (o : Option Parsed)
    → of_parsed schema o ≡ propose (valid_selectors schema (entries_of o))
unfolding valid_selectors
parsed_lem schema none = refl
parsed_lem schema (some no_object) = refl
parsed_lem schema (some (object parsed)) = refl

module _ {W : Type 0} (c : ClaudeVision W) where
  -- A proposal that returns has a selector for just the requested fields to which the model's answer gives a
  -- text, and is confident exactly if there is one; an answer that is no JSON object gives none.
  pub propose_selectors_lem :
      (screenshot : String) (schema : Dict FieldType) (history : List String) (w v : W)
      (proposal : SelectorProposal)
      → propose_selectors c screenshot schema history w ≡ (ok proposal, v)
      → (message : Message) × (response : Response) × (u : W) × (c.create message w
          ≡ (ok response, u))
        × (message.screenshot_base64 ≡ screenshot)
        × ((f : String)
            → contains (keys proposal.selectors) f ≡ (
                has_key f schema
                && has_text f (entries_of (c.loads (text_content response.content)))))
        × ((proposal.is_confident ≡ true) ↔ (proposal.selectors ≢ []))
  unfolding propose_selectors parse_response
  propose_selectors_lem screenshot schema history w v proposal h =
      let (response, u, created, h₁) = continue-eq-ok (c.create _ w) _ h in
      let answer = c.loads (text_content response.content) in
      let (said, _) = ok-eq-ok h₁ in
      let e = sym said ∙ parsed_lem schema answer in
      let d = valid_selectors schema (entries_of answer) in
      let kept = ap (λ x. x.selectors) e ∙ propose-selectors d in
      (
        _,
        response,
        u,
        created,
        refl,
        λ f. ap (λ x. contains (keys x) f) kept ∙ keys-valid_selectors schema (entries_of answer) f,
        rw (e, propose-selectors d) (propose-is_confident d),
      )
