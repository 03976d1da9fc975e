-- ===== src/Config/Json.antt =====
-- What the program uses of simdjson's document model, a library that is not in the repository. Each
-- access of the source is `element[key].get_…().get(value)`, whose error is `none` here.
use frame_processor.Base.{ℤ, Bool, List, Option, none, some, Text}
use frame_processor.Types.{Double}

pub record Simdjson : Type 1 where
  pub Element : Type 0
  -- `parser.parse(text)`, and `parser.load(path)` of a file with that text.
  pub parse : Text → Option Element
  pub minify : Element → Text
  -- `element[key]`: an error unless the element is an object with the key.
  pub at_key : Element → Text → Option Element
  pub get_string : Element → Option Text
  pub get_int64 : Element → Option ℤ
  pub get_double : Element → Option Double
  pub get_bool : Element → Option Bool
  pub get_array : Element → Option (List Element)
  pub get_object : Element → Option Element
  -- What an element of a parser's document has become when the same parser has loaded a document with
  -- the second element as its root. The library's documentation allows a parser one document at a time.
  pub overwritten : Element → Element → Element

-- `value` is left alone by an access that fails.
abbrev pub or_else {ℓ} : {A : Type ℓ} → Option A → A → A
or_else none a = a
or_else (some b) a = b
