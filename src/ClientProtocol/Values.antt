-- ===== src/ClientProtocol/Values.antt =====
-- The values that `JSON.parse` gives. A number is kept by the text that `String` gives of it, since
-- nothing computes with it. An object's keys are distinct after parsing.
use thread_link.Prelude.{
  Bool, true, false, Option, none, some, [], ◌++◌, if◌then◌else◌, Text, js, ◌==◌,
}

mutual
  pub data Json : Type 0 where
    null : Json
    bool : Bool → Json
    num : Text → Json
    str : Text → Json
    arr : Items → Json
    obj : Fields → Json

  pub data Items : Type 0 where
    nil : Items
    cons : Json → Items → Items

  pub data Fields : Type 0 where
    end : Fields
    property : Text → Json → Fields → Fields

unfoldable pub get_property : Text → Fields → Option Json
get_property key end = none
get_property key (property k v fields) = if k == key then some v else get_property key fields

-- `obj[key]`, `none` being undefined. Of the keys that the program reads, an array has none.
unfoldable pub field_of : Json → Text → Option Json
unfolding get_property
field_of (obj fields) key = get_property key fields
field_of _ key = none

abbrev bool_text : Bool → Text
bool_text true = js "true"
bool_text false = js "false"

-- Texts one after another, if each is there.
infixr 5 ◌<>◌
abbrev ◌<>◌ : Option Text → Option Text → Option Text
some s <> some t = some (s ++ t)
_ <> _ = none

-- `toString` of an object from JSON, which throws if the object has a property of that name of its own:
-- that is no function, and `valueOf` gives no primitive value.
unfoldable pub object_text : Fields → Option Text
unfolding get_property
object_text fields = elim (get_property (js "toString") fields) [
  | none ↦ some (js "[object Object]")
  | some v ↦ none
]

-- `String(v)`, with `none` where it throws; an array is its items joined by commas, where null is empty.
unfoldable mutual
  pub text_of : Json → Option Text
  text_of null = some (js "null")
  text_of (bool b) = some (bool_text b)
  text_of (num t) = some t
  text_of (str s) = some s
  text_of (arr items) = items_text items
  text_of (obj fields) = object_text fields

  pub items_text : Items → Option Text
  items_text nil = some []
  items_text (cons v items) = item_text v <> more_text items

  pub more_text : Items → Option Text
  more_text nil = some []
  more_text (cons v items) = some (js ",") <> (item_text v <> more_text items)

  pub item_text : Json → Option Text
  item_text null = some []
  item_text (bool b) = some (bool_text b)
  item_text (num t) = some t
  item_text (str s) = some s
  item_text (arr items) = items_text items
  item_text (obj fields) = object_text fields

unfoldable pub to_string : Option Json → Option Text
to_string none = some (js "undefined")
to_string (some v) = text_of v
