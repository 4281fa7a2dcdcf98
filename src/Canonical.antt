-- ===== src/Canonical.antt =====
-- packages/tc-sdlc/src/canonical.ts: the canonical text of a JSON value, and its digest.
-- The members of an object are a list; keys that look like integers, which JavaScript would list
-- first, are not told apart.
pub mod Laws
use tc_pipelines.Base.{
  ℕ, Bool, true, false, JsString, js, ◌++◌, ◌∷◌, [], List, js_le, if◌then◌else◌,
}

mutual
  pub data Json : Type 0 where
    null : Json
    boolean : Bool → Json
    number : ℕ → Json
    string : JsString → Json
    array : Items → Json
    object : Members → Json

  pub data Items : Type 0 where
    no_items : Items
    item : Json → Items → Items

  pub data Members : Type 0 where
    no_members : Members
    member : (key : JsString) → Json → Members → Members

unfoldable pub insert_member : JsString → Json → Members → Members
insert_member key value no_members = member key value no_members
insert_member key value (member other held rest) =
    if js_le key other
    then member key value (member other held rest)
    else member other held (insert_member key value rest)

-- `sortValue`. The values of an object are sorted on the way, which the sort by key does not see.
unfoldable mutual
  pub sort_value : Json → Json
  sort_value null = null
  sort_value (boolean b) = boolean b
  sort_value (number n) = number n
  sort_value (string s) = string s
  sort_value (array items) = array (sort_items items)
  sort_value (object members) = object (sort_members members)

  pub sort_items : Items → Items
  sort_items no_items = no_items
  sort_items (item value items) = item (sort_value value) (sort_items items)

  pub sort_members : Members → Members
  sort_members no_members = no_members
  sort_members (member key value members) =
      insert_member key (sort_value value) (sort_members members)

-- `JSON.stringify(value, null, 2)`, and SHA-256 of a text's UTF-8 bytes in hexadecimal.
pub record Hashing : Type 0 where
  pub stringify : Json → JsString
  pub sha256 : JsString → JsString

module _ (hashing : Hashing) where
  unfoldable pub canonical_json : Json → JsString
  canonical_json value = hashing.stringify (sort_value value) ++ 0x0a ∷ []

  unfoldable pub digest : Json → JsString
  digest value = js "sha256:" ++ hashing.sha256 (canonical_json value)

  unfoldable pub bytes_digest : JsString → JsString
  bytes_digest value = js "sha256:" ++ hashing.sha256 value

abbrev pub strings : List JsString → Items
strings [] = no_items
strings (s ∷ ss) = item (string s) (strings ss)
