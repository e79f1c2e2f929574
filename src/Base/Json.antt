-- ===== src/Base/Json.antt =====
-- The values that a JSON document decodes to in Python, with the questions that the program asks of
-- them. A dict of texts and values is `Base.Dict`.
use Prim.Native.Nat.{ℕ}
use Prim.Native.String.{String}
use text.Mathlib.Text.{◌==◌}
use mathlib.Core.Bool.{Bool, true, false}
use mathlib.Core.Option.{Option, none, some}
use mathlib.Core.List.{List, [], ◌∷◌}
use control_plane_kit_interp.Base.Dict.{Dict, get}

mutual
  pub data Json : Type 0 where
    null : Json
    boolean : Bool → Json
    -- an integer that is not negative, and any other number by its text
    number : ℕ → Json
    other_number : String → Json
    string : String → Json
    array : Items → Json
    object : Fields → Json

  pub data Items : Type 0 where
    end : Items
    item : Json → Items → Items

  pub data Fields : Type 0 where
    stop : Fields
    field : String → Json → Fields → Fields

unfoldable pub elements : Items → List Json
elements end = []
elements (item v vs) = v ∷ elements vs

unfoldable pub members : Fields → Dict Json
members stop = []
members (field k v fs) = (k, v) ∷ members fs

-- `d.get(key)`, which is `None` for a missing key
abbrev or_null : Option Json → Json
or_null none = null
or_null (some v) = v

unfoldable pub member : String → Dict Json → Json
unfolding get
member k d = or_null (get k d)

-- `type(value) is dict` and `type(value) is list`, with what the value holds
unfoldable pub as_object : Json → Option (Dict Json)
unfolding members
as_object (object fs) = some (members fs)
as_object _ = none

unfoldable pub as_array : Json → Option (List Json)
unfolding elements
as_array (array vs) = some (elements vs)
as_array _ = none

unfoldable pub as_text : Json → Option String
as_text (string s) = some s
as_text _ = none

-- `value == s`, `value is True` and `value is False`
unfoldable pub is_text : Json → String → Bool
is_text (string t) s = t == s
is_text _ s = false

unfoldable pub is_true : Json → Bool
is_true (boolean b) = b
is_true _ = false

unfoldable pub is_false : Json → Bool
is_false (boolean true) = false
is_false (boolean false) = true
is_false _ = false

unfoldable pub is_null : Json → Bool
is_null null = true
is_null _ = false

-- A dict whose values are all texts.
abbrev with_text : String → Option String → Option (Dict String) → Option (Dict String)
with_text k (some v) (some rest) = some ((k, v) ∷ rest)
with_text k (some v) none = none
with_text k none rest = none

unfoldable pub as_texts : Dict Json → Option (Dict String)
unfolding as_text
as_texts [] = some []
as_texts ((k, v) ∷ d) = with_text k (as_text v) (as_texts d)
