-- ===== src/Llm/Service/Keys.antt =====
-- Which answers of the cache a request may meet.
use Prim.Native.String as Text
use Prim.Native.Char.{Char, code}
use rhombus_ai.Base.{String, ◌≢◌, [], ◌∷◌, All}
use rhombus_ai.Llm.Service.{unit_separator, Texts}

abbrev pub HasNoSeparator : String → Type 0
HasNoSeparator Text.[] = Unit
HasNoSeparator (Text.◌∷◌ c s) = (code c ≢ 31) × HasNoSeparator s

-- What Python documents of `str.split`, for which the unit separator is a blank.
pub record IsTexts (texts : Texts) : Type 0 where
  pub words : (s : String) → All HasNoSeparator (texts.split s)

abbrev separator : Char
separator = Text.char_at unit_separator 0
