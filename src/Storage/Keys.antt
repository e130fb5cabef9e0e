-- ===== src/Storage/Keys.antt =====
-- aws_light/storage/storage_service.py: the names and keys of which no path leads out of the place that
-- it has in its bucket.
use Prim.Native.Char.{Char, code}
use aws_light.Prelude.{
  String, Bool, true, false, not, List, [], ◌∷◌, ◌&&◌, ◌||◌, ◌==◌, str_eq, if◌then◌else◌,
}

add_first : Char → List String → List String
add_first c [] = String.◌∷◌ c "" ∷ []
add_first c (part ∷ more) = String.◌∷◌ c part ∷ more

-- s.split("/")
unfoldable pub parts : String → List String
unfolding add_first
parts String.[] = "" ∷ []
parts (String.◌∷◌ c s) = let rest = parts s in if code c == 47 then "" ∷ rest else add_first c rest

unfoldable pub is_part : String → Bool
is_part part = not (str_eq part "" || str_eq part "." || str_eq part "..")

unfoldable pub all_parts : List String → Bool
unfolding is_part
all_parts [] = true
all_parts (part ∷ more) = is_part part && all_parts more

unfoldable pub one_part : List String → Bool
one_part (part ∷ []) = true
one_part _ = false

-- A relative path that is its own normal form.
unfoldable pub plain_key : String → Bool
unfolding parts all_parts
plain_key key = all_parts (parts key)

-- Such a path of one part.
unfoldable pub plain_name : String → Bool
unfolding plain_key parts one_part
plain_name name = plain_key name && one_part (parts name)
