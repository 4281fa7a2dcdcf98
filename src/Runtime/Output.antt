-- ===== src/Runtime/Output.antt =====
-- The capture of a task's output in packages/tc-sdlc/src/runtime/index.ts: redaction, the boundary
-- behind which a secret may still be incomplete, and the limit on the retained bytes.
pub mod Bounds
pub mod Stream
use tc_pipelines.Base.{
  ℕ, zero, suc, ◌+◌, ◌-◌, ◌/◌, ◌%◌, Bool, true, false, ◌&&◌, ◌||◌, not, List, [], ◌∷◌, ◌++◌, map,
  Option, none, some, JsString, js, ◌==◌, nat_eq, list_eq, ltb, leb, if◌then◌else◌, length, take,
  flat_map, set_of, starts_with, sort_by, backslash,
}

abbrev pub max : ℕ → ℕ → ℕ
max a b = if ltb a b then b else a

abbrev pub min : ℕ → ℕ → ℕ
min a b = if ltb b a then b else a

-- `value.slice(n)`
abbrev pub drop {ℓ} : {A : Type ℓ} → ℕ → List A → List A
drop zero s = s
drop (suc n) [] = []
drop (suc n) (c ∷ s) = drop n s

abbrev pub is_high : ℕ → Bool
is_high c = leb 0xd800 c && leb c 0xdbff

abbrev pub is_low : ℕ → Bool
is_low c = leb 0xdc00 c && leb c 0xdfff

-- The bytes of a code unit that is not the start of a surrogate pair. A lone surrogate is encoded
-- as the replacement character.
abbrev pub unit_bytes : ℕ → ℕ
unit_bytes c = if ltb c 0x80 then 1 else if ltb c 0x800 then 2 else 3

-- `Buffer.byteLength(value)`, in UTF-8
unfoldable pub byte_length : JsString → ℕ
byte_length [] = 0
byte_length (c ∷ []) = unit_bytes c
byte_length (c ∷ d ∷ s) =
    let rest = byte_length s in
    let next = byte_length (d ∷ s) in
    if is_high c && is_low d then 4 + rest else unit_bytes c + next

-- The loop of `utf8Prefix` from an end.
unfoldable pub shrink : JsString → ℕ → ℕ → ℕ
shrink value maximum_bytes zero = 0
shrink value maximum_bytes (suc end) =
    let smaller = shrink value maximum_bytes end in
    if ltb maximum_bytes (byte_length (take (suc end) value)) then smaller else suc end

unfoldable pub utf8_prefix : JsString → ℕ → JsString
utf8_prefix value maximum_bytes =
    if leb (byte_length value) maximum_bytes
    then value
    else take (shrink value maximum_bytes (min (length value) maximum_bytes)) value

abbrev pub hex_digit : ℕ → ℕ
hex_digit n = if ltb n 10 then b'0' + n else b'a' + (n - 10)

abbrev pub unicode_escape : ℕ → JsString
unicode_escape c =
    backslash
    ∷ b'u'
    ∷ hex_digit (c / 4096)
    ∷ hex_digit (c / 256 % 16)
    ∷ hex_digit (c / 16 % 16)
    ∷ hex_digit (c % 16)
    ∷ []

-- What `JSON.stringify` writes for a code unit that is not in a surrogate pair.
abbrev pub json_char : ℕ → JsString
json_char c =
    if c == b'"' || c == backslash
    then backslash ∷ c ∷ []
    else if c == 0x08
    then backslash ∷ b'b' ∷ []
    else if c == 0x09
    then backslash ∷ b't' ∷ []
    else if c == 0x0a
    then backslash ∷ b'n' ∷ []
    else if c == 0x0c
    then backslash ∷ b'f' ∷ []
    else if c == 0x0d
    then backslash ∷ b'r' ∷ []
    else if ltb c 0x20 || is_high c || is_low c
    then unicode_escape c
    else c ∷ []

-- `JSON.stringify(secret).slice(1, -1)`
unfoldable pub json_escape : JsString → JsString
json_escape [] = []
json_escape (c ∷ []) = json_char c
json_escape (c ∷ d ∷ s) =
    let rest = json_escape s in
    let next = json_escape (d ∷ s) in
    if is_high c && is_low d then c ∷ d ∷ rest else json_char c ++ next

-- `text.replaceAll(secret, by)` for a secret that is not empty, behind a match with `skip` code units
-- left
unfoldable pub replace_from : JsString → JsString → ℕ → JsString → JsString
replace_from secret by skip [] = []
replace_from secret by (suc skip) (c ∷ s) = replace_from secret by skip s
replace_from secret by zero (c ∷ s) =
    let behind = replace_from secret by (length secret - 1) s in
    let next = replace_from secret by zero s in
    if starts_with secret (c ∷ s) then by ++ behind else c ∷ next

abbrev pub longer : JsString → JsString → Bool
longer left right = leb (length right) (length left)

unfoldable pub redaction_variants : List JsString → List JsString
redaction_variants redactions =
    sort_by longer (set_of (flat_map (λ secret. secret ∷ json_escape secret ∷ []) redactions))

abbrev pub redacted_text : JsString
redacted_text = js "[REDACTED]"

abbrev pub replace_each : List JsString → JsString → JsString
replace_each [] text = text
replace_each (secret ∷ secrets) text =
    replace_each secrets (replace_from secret redacted_text 0 text)

-- Every secret is redacted in its turn. The secrets are not empty: `taskRedactions` drops those.
unfoldable pub redacted : JsString → List JsString → JsString
redacted value redactions = replace_each (redaction_variants redactions) value

abbrev pub longest : List JsString → ℕ
longest [] = 0
longest (secret ∷ secrets) = max (length secret) (longest secrets)

-- The loop over the offsets at which a secret stands, from an offset with the text behind it.
unfoldable pub retreat : JsString → ℕ → JsString → ℕ → ℕ
retreat secret offset [] boundary = boundary
retreat secret offset (c ∷ s) boundary = retreat secret (suc offset) s (
    if starts_with secret (c ∷ s) && ltb offset boundary && ltb boundary (offset + length secret)
    then offset
    else boundary)

abbrev pub retreat_each : JsString → List JsString → ℕ → ℕ
retreat_each value [] boundary = boundary
retreat_each value (secret ∷ secrets) boundary =
    retreat_each value secrets (retreat secret 0 value boundary)

unfoldable pub safe_boundary : JsString → List JsString → ℕ
safe_boundary value redactions =
    let variants = redaction_variants redactions in
    retreat_each value variants (length value - (longest variants - 1))

pub record OutputCapture : Type 0 where
  pub pending : JsString
  pub text : JsString
  pub bytes : ℕ
  pub truncated : Bool

abbrev pub nothing_captured : OutputCapture
nothing_captured = record { pending = []; text = []; bytes = 0; truncated = false }

module _ (maximum_output : ℕ) (redactions : List JsString) where
  abbrev pub ready_boundary : Bool → JsString → ℕ
  ready_boundary flush combined =
      if flush then length combined else safe_boundary combined redactions

  -- What a call of `captureOutput` retains.
  unfoldable pub retained_output : JsString → Bool → OutputCapture → JsString
  retained_output text flush capture =
      let combined = capture.pending ++ text in
      let ready = redacted (take (ready_boundary flush combined) combined) redactions in
      utf8_prefix ready (maximum_output - capture.bytes)

  -- `captureOutput`, but for the event that it emits when it retains anything.
  unfoldable pub capture_output : JsString → Bool → OutputCapture → OutputCapture
  capture_output text flush capture =
      let combined = capture.pending ++ text in
      let boundary = ready_boundary flush combined in
      let ready = redacted (take boundary combined) redactions in
      let retained = retained_output text flush capture in
      record {
        pending = drop boundary combined;
        text = capture.text ++ retained;
        bytes = capture.bytes + byte_length retained;
        truncated = capture.truncated || ltb (byte_length retained) (byte_length ready);
      }
