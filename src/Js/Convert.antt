-- ===== src/Js/Convert.antt =====
-- `String(x)` and `Number(x)` of a JSON value. They throw a TypeError, `none` here, at an object
-- with a key "toString": that hides the method, and a JSON value is never a function.
use factory_network_server.Prelude.{
  true, false, Option, none, some, [], ◌∷◌, ◌++◌, ◌>>=◌, if◌then◌else◌, is_some,
}
use factory_network_server.Prelude.Texts.{Text, codes}
use factory_network_server.Prelude.Int.{pos}
use factory_network_server.Js.Values.{
  Number, nan, finite, Json, null, boolean, number, text, array, object, Items, nil, cons, Fields,
  get_field,
}

-- How the language reads a number from a string, and prints one.
pub record Host : Type 0 where
  pub string_to_number : Text → Number
  pub number_to_text : Number → Text

unfoldable pub object_to_text : Fields → Option Text
unfolding get_field
object_to_text fs =
    if is_some (get_field (codes "toString") fs) then none else some (codes "[object Object]")

-- The elements of an array behind the first are joined by commas.
unfoldable pub join_next : Text → Text
join_next s = 44 ∷ s

module _ (host : Host) where
  unfoldable mutual
    unfolding object_to_text join_next

    pub to_text : Json → Option Text
    to_text null = some (codes "null")
    to_text (boolean true) = some (codes "true")
    to_text (boolean false) = some (codes "false")
    to_text (number n) = some (host.number_to_text n)
    to_text (text s) = some s
    to_text (array xs) = join xs
    to_text (object fs) = object_to_text fs

    -- One element of a joined array: null gives the empty string.
    pub element_to_text : Json → Option Text
    element_to_text null = some []
    element_to_text (boolean true) = some (codes "true")
    element_to_text (boolean false) = some (codes "false")
    element_to_text (number n) = some (host.number_to_text n)
    element_to_text (text s) = some s
    element_to_text (array xs) = join xs
    element_to_text (object fs) = object_to_text fs

    pub join : Items → Option Text
    join nil = some []
    join (cons x nil) = element_to_text x
    join (cons x (cons y ys)) = do
      s ← element_to_text x
      rest ← join (cons y ys)
      some (s ++ join_next rest)

  unfoldable pub to_number : Option Json → Option Number
  unfolding to_text
  to_number none = some nan
  to_number (some null) = some (finite (pos 0) 0)
  to_number (some (boolean true)) = some (finite (pos 1) 0)
  to_number (some (boolean false)) = some (finite (pos 0) 0)
  to_number (some (number n)) = some n
  to_number (some (text s)) = some (host.string_to_number s)
  to_number (some (array xs)) = do s ← join xs; some (host.string_to_number s)
  to_number (some (object fs)) = do s ← object_to_text fs; some nan
