-- ===== src/Tests/Canonical.antt =====
-- Canonical texts of a JSON value: its members are given in two orders.
use tc_pipelines.Base.{◌≡◌, ap, true, false, nat_eq, ◌≢◌, refl, ◌∷◌, [], ◌++◌, js, JsString, js_lt}
use tc_pipelines.Canonical.{
  Json, null, boolean, number, string, array, object, Items, no_items, item, Members, no_members,
  member, insert_member, sort_value, Hashing, canonical_json, digest,
}
use tc_pipelines.Canonical.Laws.{
  alike_object, alike_array, each_item, no_more, exchanged, digest-Alike,
}

abbrev mutual
  written : Json → JsString
  written null = js "null"
  written (boolean b) = js "b"
  written (number n) = js "n"
  written (string s) = s
  written (array items) = js "[" ++ written_items items ++ js "]"
  written (object members) = js "{" ++ written_members members ++ js "}"

  written_items : Items → JsString
  written_items no_items = []
  written_items (item value items) = written value ++ js "," ++ written_items items

  written_members : Members → JsString
  written_members no_members = []
  written_members (member key value members) =
      key ++ js ":" ++ written value ++ js "," ++ written_members members

abbrev pub flat : Hashing
flat = record { stringify = written; sha256 = λ text. text }

abbrev inner : Json
inner = object (member (js "y") null (member (js "x") (string (js "v")) no_members))

abbrev inner_exchanged : Json
inner_exchanged = object (member (js "x") (string (js "v")) (member (js "y") null no_members))

abbrev outer : Json
outer = array (item inner no_items)

abbrev outer_exchanged : Json
outer_exchanged = array (item inner_exchanged no_items)

text_of_outer : canonical_json flat outer ≡ js "[{x:v,y:null,},]" ++ 0x0a ∷ []
unfolding canonical_json sort_value insert_member js_lt
text_of_outer = refl

clash : true ≢ false
clash e = absurd (cc)

apart : js "y" ≢ js "x"
unfolding js_lt
apart e = clash (ap (js_lt (js "x")) e)

digest-Alike_example : digest flat outer ≡ digest flat outer_exchanged
digest-Alike_example = digest-Alike flat (
    alike_array (
      each_item (alike_object (exchanged (js "y") (js "x") null (string (js "v")) no_members apart))
        no_more))
