-- ===== src/Datp/Conforms.antt =====
-- datp/spec.py read as JSON schemas: required fields, the types of properties and their limits.
use Prim.Native.Char.{Char}
use oi_interface.Base.{
  String, Bool, true, false, List, [], ◌∷◌, Option, none, some, mem, ◌==◌, ◌&&◌, ◌||◌, leb, ◌≡◌,
  arith,
}
use oi_interface.Base.Int.{pos, negsuc}
use oi_interface.Dict.{get, has, put}
use oi_interface.Json.{Json, null, bool, int, text, array, object}
use oi_interface.Datp.Messages.{Message}
use oi_interface.Datp.Parse.{valid_ts}
use oi_interface.Datp.Schema.{
  Kind, string_kind, object_kind, array_kind, boolean_kind, integer_kind, null_kind, Limit,
  unlimited, equal_to, one_of, timestamp, within, Property, Schema,
}

abbrev is_kind : Json → Kind → Bool
is_kind null null_kind = true
is_kind (bool b) boolean_kind = true
is_kind (int n) integer_kind = true
is_kind (text s) string_kind = true
is_kind (array vs) array_kind = true
is_kind (object fs) object_kind = true
is_kind v k = false

abbrev is_one : Json → List Kind → Bool
is_one v [] = false
is_one v (k ∷ ks) = is_kind v k || is_one v ks

abbrev pub has_all : List String → Message → Bool
has_all [] m = true
has_all (f ∷ fs) m = has f m && has_all fs m

module _ (is_digit : Char → Bool) where
  -- Limits on texts say nothing of other values, and bounds nothing of what is no number.
  abbrev is_within : Limit → Json → Bool
  is_within unlimited v = true
  is_within (equal_to s) (text t) = s == t
  is_within (one_of ss) (text t) = mem t ss
  is_within timestamp (text t) = valid_ts is_digit t
  is_within (within lo hi) (int (pos n)) = leb lo n && leb n hi
  is_within (within lo hi) (int (negsuc n)) = false
  is_within l v = true

  abbrev pub fits : Option Property → Json → Bool
  fits none v = true
  fits (some p) v = is_one v p.kinds && is_within p.limit v

  -- Every property of a value that the schema declares is as declared.
  unfoldable pub well_typed : Schema → Message → Bool
  unfolding get
  well_typed s [] = true
  well_typed s ((k, v) ∷ m) = fits (get k s.properties) v && well_typed s m

  pub well_typed-put :
      (s : Schema) (k : String) (v : Json) (m : Message)
      → fits (get k s.properties) v ≡ true
      → well_typed s m ≡ true
      → well_typed s (put k v m) ≡ true
  unfolding well_typed put
  well_typed-put s k v [] h t = ground arith
  well_typed-put s k v ((j, w) ∷ m) h t = ground (arith, well_typed-put s k v m)
