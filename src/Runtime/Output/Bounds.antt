-- ===== src/Runtime/Output/Bounds.antt =====
-- The limit on the retained output, in bytes of UTF-8.
use tc_pipelines.Base.{
  ℕ, zero, suc, ◌+◌, ◌-◌, ◌≤◌, ◌≡◌, inl, inr, refl, arith, Bool, true, false, ◌&&◌, List, [], ◌∷◌,
  ◌++◌, JsString, ltb, length, take, Bool-cases,
}
use tc_pipelines.Runtime.Output.{
  is_high, is_low, unit_bytes, byte_length, shrink, utf8_prefix, min, OutputCapture,
  nothing_captured, retained_output, capture_output, redacted, ready_boundary,
}

byte_length-take-shrink :
    (value : JsString) (maximum end : ℕ)
    → byte_length (take (shrink value maximum end) value) ≤ maximum
unfolding shrink byte_length
byte_length-take-shrink value maximum zero = omega arith
byte_length-take-shrink value maximum (suc end) =
    by_test (byte_length-take-shrink value maximum end)
  where
    by_test :
        byte_length (take (shrink value maximum end) value) ≤ maximum
        → byte_length (take (shrink value maximum (suc end)) value) ≤ maximum
    by_test h = elim (Bool-cases (ltb maximum (byte_length (take (suc end) value)))) [
      | inl more ↦ rw more h
      | inr fits ↦ rw fits (ground arith)
    ]

-- `utf8Prefix` never returns more bytes than it may.
pub byte_length-utf8_prefix :
    (value : JsString) (maximum : ℕ) → byte_length (utf8_prefix value maximum) ≤ maximum
unfolding utf8_prefix
byte_length-utf8_prefix value maximum =
    ground (arith, byte_length-take-shrink value maximum (min (length value) maximum))

is_low-not_high : (d : ℕ) → is_low d ≡ true → is_high d ≡ false
is_low-not_high d h = ground arith

unit_bytes-low : (d : ℕ) → is_low d ≡ true → unit_bytes d ≡ 3
unit_bytes-low d h = ground arith

unit_bytes-high : (d : ℕ) → is_high d ≡ true → unit_bytes d ≡ 3
unit_bytes-high d h = ground arith

both_true : (a b : Bool) → (a && b) ≡ true → (a ≡ true) × (b ≡ true)
both_true true true h = (refl, refl)
both_true true false h = absurd (cc)
both_true false b h = absurd (cc)

byte_length-low : (d : ℕ) (b : JsString) → is_low d ≡ true → byte_length (d ∷ b) ≡ 3 + byte_length b
unfolding byte_length
byte_length-low d [] h = rw (unit_bytes-low d h) (omega arith)
byte_length-low d (e ∷ b) h = rw (is_low-not_high d h, unit_bytes-low d h) refl

byte_length-pair :
    (c d : ℕ) (s : JsString)
    → (is_high c && is_low d) ≡ true
    → byte_length (c ∷ d ∷ s) ≡ 4 + byte_length s
unfolding byte_length
byte_length-pair c d s h = rw h refl

byte_length-single :
    (c d : ℕ) (s : JsString)
    → (is_high c && is_low d) ≡ false
    → byte_length (c ∷ d ∷ s) ≡ unit_bytes c + byte_length (d ∷ s)
unfolding byte_length
byte_length-single c d s h = rw h refl

byte_length-nil : byte_length [] ≡ 0
unfolding byte_length
byte_length-nil = refl

byte_length-one : (c : ℕ) → byte_length (c ∷ []) ≡ unit_bytes c
unfolding byte_length
byte_length-one c = refl

byte_length-append_one : (c : ℕ) (b : JsString) → byte_length (c ∷ b) ≤ unit_bytes c + byte_length b
unfolding byte_length
byte_length-append_one c [] = omega arith
byte_length-append_one c (d ∷ b) = elim (Bool-cases (is_high c && is_low d)) [
  | inl pair ↦
      let (high, low) = both_true (is_high c) (is_low d) pair in
      omega (arith, byte_length-pair c d b pair, byte_length-low d b low, unit_bytes-high c high)
  | inr single ↦ omega (arith, byte_length-single c d b single)
]

-- Putting two texts together can only save bytes: two lone surrogates may become a pair.
byte_length-append_le : (a b : JsString) → byte_length (a ++ b) ≤ byte_length a + byte_length b
byte_length-append_le [] b = omega (arith, byte_length-nil)
byte_length-append_le (c ∷ []) b = omega (arith, byte_length-append_one c b, byte_length-one c)
byte_length-append_le (c ∷ d ∷ s) b = elim (Bool-cases (is_high c && is_low d)) [
  | inl pair ↦ omega (
    arith,
    byte_length-pair c d (s ++ b) pair,
    byte_length-pair c d s pair,
    byte_length-append_le s b,
  )
  | inr single ↦ omega (
    arith,
    byte_length-single c d (s ++ b) single,
    byte_length-single c d s single,
    byte_length-append_le (d ∷ s) b,
  )
]

-- The bytes counted are enough for the text, and within the limit.
pub record IsBounded (maximum : ℕ) (capture : OutputCapture) : Type 0 where
  pub text_counted : byte_length capture.text ≤ capture.bytes
  pub within : capture.bytes ≤ maximum

pub nothing_captured-IsBounded : (maximum : ℕ) → IsBounded maximum nothing_captured
unfolding byte_length
nothing_captured-IsBounded maximum = record { text_counted = omega arith; within = omega arith }

pub capture_output-IsBounded :
    (maximum : ℕ) (redactions : List JsString) (text : JsString) (flush : Bool)
    (capture : OutputCapture)
    → IsBounded maximum capture
    → IsBounded maximum (capture_output maximum redactions text flush capture)
unfolding capture_output retained_output
capture_output-IsBounded maximum redactions text flush capture bounded =
    let combined = capture.pending ++ text in
    let ready =
      redacted (take (ready_boundary maximum redactions flush combined) combined) redactions in
    let retained = utf8_prefix ready (maximum - capture.bytes) in
    let small = byte_length-utf8_prefix ready (maximum - capture.bytes) in
    let joined = byte_length-append_le capture.text retained in
    record {
      text_counted = omega (arith, bounded.text_counted);
      within = omega (arith, bounded.within);
    }
