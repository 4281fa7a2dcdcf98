-- ===== src/Runtime/Output/Stream.antt =====
-- A whole stream of output: its chunks one after another, and the flush at the end.
use tc_pipelines.Base.{
  ℕ, zero, suc, ◌-◌, ◌≤◌, ◌≡◌, inl, inr, refl, sym, ap, ◌∙◌, subst, arith, Bool, true, false, ◌||◌,
  List, [], ◌∷◌, ◌++◌, map, JsString, ltb, leb, length, take, set_of, sort_by, Bool-cases,
}
use tc_pipelines.Runtime.Output.{
  redaction_variants, byte_length, utf8_prefix, OutputCapture, nothing_captured, retained_output,
  capture_output, drop, redacted, ready_boundary,
}
use tc_pipelines.Runtime.Output.Bounds.{
  IsBounded, byte_length-utf8_prefix, nothing_captured-IsBounded, capture_output-IsBounded,
}

pub concat : List JsString → JsString
concat [] = []
concat (part ∷ parts) = part ++ concat parts

pub append_nil : (s : JsString) → s ++ [] ≡ s
append_nil [] = refl
append_nil (c ∷ s) = ap (λ t. c ∷ t) (append_nil s)

pub append_assoc : (s t u : JsString) → (s ++ t) ++ u ≡ s ++ (t ++ u)
append_assoc [] t u = refl
append_assoc (c ∷ s) t u = ap (λ v. c ∷ v) (append_assoc s t u)

take-drop : (n : ℕ) (s : JsString) → take n s ++ drop n s ≡ s
take-drop zero s = refl
take-drop (suc n) [] = refl
take-drop (suc n) (c ∷ s) = ap (λ t. c ∷ t) (take-drop n s)

drop_all : (s : JsString) → drop (length s) s ≡ []
drop_all [] = refl
drop_all (c ∷ s) = drop_all s

concat-snoc :
    (parts : List JsString) (part : JsString) → concat (parts ++ part ∷ []) ≡ concat parts ++ part
unfolding concat
concat-snoc [] part = append_nil part
concat-snoc (first ∷ parts) part =
    ap (λ t. first ++ t) (concat-snoc parts part) ∙ sym (append_assoc first (concat parts) part)

-- What is retained is all that is ready, if the capture does not say that it was truncated.
retained_all :
    (value : JsString) (maximum : ℕ)
    → ltb (byte_length (utf8_prefix value maximum)) (byte_length value) ≡ false
    → utf8_prefix value maximum ≡ value
unfolding utf8_prefix
retained_all value maximum h = elim (Bool-cases (leb (byte_length value) maximum)) [
  | inl fits ↦ rw fits refl
  | inr large ↦ let bound = byte_length-utf8_prefix value maximum in absurd (ground (arith, bound))
]

module _ (maximum : ℕ) (redactions : List JsString) where
  -- All the chunks of a stream.
  unfoldable pub capture_chunks : List JsString → OutputCapture → OutputCapture
  capture_chunks [] capture = capture
  capture_chunks (chunk ∷ chunks) capture =
      capture_chunks chunks (capture_output maximum redactions chunk false capture)

  unfoldable pub capture_stream : List JsString → OutputCapture
  capture_stream chunks =
      capture_output maximum redactions [] true (capture_chunks chunks nothing_captured)

  -- The raw pieces that were handled so far, for the raw text that came in.
  record Handled (raw : JsString) (capture : OutputCapture) : Type 0 where
    pieces : List JsString
    conserved : concat pieces ++ capture.pending ≡ raw
    redacts :
        capture.truncated ≡ false
        → capture.text ≡ concat (map (λ piece. redacted piece redactions) pieces)

  capture_output-Handled :
      (text : JsString) (flush : Bool) (raw : JsString) (capture : OutputCapture)
      → Handled raw capture
      → Handled (raw ++ text) (capture_output maximum redactions text flush capture)
  unfolding capture_output retained_output concat
  capture_output-Handled text flush raw capture h =
      let combined = capture.pending ++ text in
      let boundary = ready_boundary maximum redactions flush combined in
      let piece = take boundary combined in
      record {
        pieces = h.pieces ++ piece ∷ [];
        conserved =
            ap (λ t. t ++ drop boundary combined) (concat-snoc h.pieces piece)
            ∙ append_assoc (concat h.pieces) piece (drop boundary combined)
            ∙ ap (λ t. concat h.pieces ++ t) (take-drop boundary combined)
            ∙ sym (append_assoc (concat h.pieces) capture.pending text)
            ∙ ap (λ t. t ++ text) h.conserved;
        redacts = λ kept.
            let (before, here) = both_false capture.truncated _ kept in
            ap (λ t. t ++ utf8_prefix (redacted piece redactions) (maximum - capture.bytes))
              (h.redacts before)
            ∙ ap (λ t. concat (map (λ p. redacted p redactions) h.pieces) ++ t)
                (retained_all (redacted piece redactions) (maximum - capture.bytes) here)
            ∙ sym (
                concat-snoc (map (λ p. redacted p redactions) h.pieces) (redacted piece redactions))
            ∙ ap concat (sym (map-snoc h.pieces piece));
      }
    where
      both_false : (a b : Bool) → (a || b) ≡ false → (a ≡ false) × (b ≡ false)
      both_false false false e = (refl, refl)
      both_false false true e = absurd (cc)
      both_false true b e = absurd (cc)

      map-snoc :
          (ps : List JsString) (p : JsString)
          → map (λ q. redacted q redactions) (ps ++ p ∷ [])
            ≡ map (λ q. redacted q redactions) ps ++ redacted p redactions ∷ []
      map-snoc [] p = refl
      map-snoc (q ∷ ps) p = ap (λ t. redacted q redactions ∷ t) (map-snoc ps p)

  capture_chunks-Handled :
      (chunks : List JsString) (raw : JsString) (capture : OutputCapture)
      → Handled raw capture
      → Handled (raw ++ concat chunks) (capture_chunks chunks capture)
  unfolding capture_chunks concat
  capture_chunks-Handled [] raw capture h = subst (λ r. Handled r capture) (sym (append_nil raw)) h
  capture_chunks-Handled (chunk ∷ chunks) raw capture h =
      subst
        (λ r.
          Handled r (capture_chunks chunks (capture_output maximum redactions chunk false capture)))
        (append_assoc raw chunk (concat chunks))
        (capture_chunks-Handled chunks (raw ++ chunk)
          (capture_output maximum redactions chunk false capture)
          (capture_output-Handled chunk false raw capture h))

  capture_chunks-IsBounded :
      (chunks : List JsString) (capture : OutputCapture)
      → IsBounded maximum capture
      → IsBounded maximum (capture_chunks chunks capture)
  unfolding capture_chunks
  capture_chunks-IsBounded [] capture h = h
  capture_chunks-IsBounded (chunk ∷ chunks) capture h =
      capture_chunks-IsBounded chunks (capture_output maximum redactions chunk false capture)
        (capture_output-IsBounded maximum redactions chunk false capture h)

  -- After the flush, no output is pending.
  pending-flush :
      (capture : OutputCapture) → (capture_output maximum redactions [] true capture).pending ≡ []
  unfolding capture_output
  pending-flush capture = drop_all (capture.pending ++ [])

-- The text that is captured from a stream never has more bytes than the limit. The raw output is cut
-- into pieces, none of it lost, and unless the capture says that it was truncated, the text is what
-- the redaction makes of the pieces.
pub capture_stream-conserved :
    (maximum : ℕ) (redactions chunks : List JsString)
    → (byte_length (capture_stream maximum redactions chunks).text ≤ maximum)
      × (pieces : List JsString) × (concat pieces ≡ concat chunks)
      × ((capture_stream maximum redactions chunks).truncated ≡ false
          → (capture_stream maximum redactions chunks).text
            ≡ concat (map (λ piece. redacted piece redactions) pieces))
unfolding capture_stream concat
capture_stream-conserved maximum redactions chunks =
    let before = capture_chunks maximum redactions chunks nothing_captured in
    let bounded = capture_output-IsBounded maximum redactions [] true before (
      capture_chunks-IsBounded maximum redactions chunks nothing_captured
        (nothing_captured-IsBounded maximum)) in
    let start : Handled maximum redactions [] nothing_captured = record {
      pieces = [];
      conserved = refl;
      redacts = λ h. refl;
    } in
    let last =
      capture_output-Handled maximum redactions [] true (concat chunks) before
        (capture_chunks-Handled maximum redactions chunks [] nothing_captured start) in
    (
      omega (arith, bounded.text_counted, bounded.within),
      last.pieces,
      sym (append_nil (concat last.pieces))
          ∙ ap (λ t. concat last.pieces ++ t) (sym (pending-flush maximum redactions before))
          ∙ last.conserved
          ∙ append_nil (concat chunks),
      last.redacts,
    )

redacted_nothing : (value : JsString) → redacted value [] ≡ value
unfolding redacted redaction_variants set_of sort_by
redacted_nothing value = refl

-- Without secrets, the text that is captured from a stream is the whole output, unless the capture
-- says that it was truncated.
pub capture_stream_plain :
    (maximum : ℕ) (chunks : List JsString)
    → (capture_stream maximum [] chunks).truncated ≡ false
    → (capture_stream maximum [] chunks).text ≡ concat chunks
capture_stream_plain maximum chunks kept =
    let (_, pieces, same, redacts) = capture_stream-conserved maximum [] chunks in
    redacts kept ∙ ap concat (unchanged pieces) ∙ same
  where
    unchanged : (pieces : List JsString) → map (λ piece. redacted piece []) pieces ≡ pieces
    unchanged [] = refl
    unchanged (piece ∷ pieces) = rw (redacted_nothing piece, unchanged pieces) refl
