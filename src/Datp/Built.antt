-- ===== src/Datp/Built.antt =====
-- datp/messages.py: what the builders build is what the parser and the specification accept.
use Prim.Native.Char.{Char}
use oi_interface.Base.{
  String, Bool, true, false, List, [], ◌∷◌, ◌++◌, Option, none, some, mem, ◌==◌, ◌&&◌, ◌≡◌, refl,
  arith, Bool-cases, inl, inr, ap, ◌∙◌, truthy, is_empty,
}
use oi_interface.Dict.{Dict, get, has, put, get-put}
use oi_interface.Json.{Json, text, to_dict, fields_of, dict, dicts}
use oi_interface.Datp.Messages.{Message, envelope, with_text, with_dict, with_dicts}
use oi_interface.Datp.Parse.{valid_ts, parse_message, parsed, missing, valid_message_types}
use oi_interface.Datp.Schema.{
  Schema, validate_message_structure, missing_in_payload, missing_of, contains, get_schema_for_type,
  envelope_schema,
}
use oi_interface.Datp.Conforms.{well_typed, well_typed-put, has_all, fits}

pub to_dict-fields_of : (d : Dict Json) → to_dict (fields_of d) ≡ d
to_dict-fields_of [] = refl
to_dict-fields_of ((k, v) ∷ d) = ap (λ r. (k, v) ∷ r) (to_dict-fields_of d)

has_all-put :
    (fs : List String) (k : String) (v : Json) (m : Message)
    → has_all fs m ≡ true
    → has_all fs (put k v m) ≡ true
has_all-put [] k v m h = refl
has_all-put (f ∷ fs) k v m h =
    let later : (has f m && has_all fs m) ≡ true = h in
    ground (arith, has_all-put fs k v m, get-put f k v m)

contains-dict : (m : Message) (f : String) → contains (dict m) f ≡ some (has f m)
unfolding contains
contains-dict m f = ap (λ d. some (has f d)) (to_dict-fields_of m)

has_all-missing_in_payload :
    (fs : List String) (m : Message)
    → has_all fs m ≡ true
    → missing_in_payload fs (dict m) ≡ some []
unfolding missing_in_payload
has_all-missing_in_payload [] m h = refl
has_all-missing_in_payload (f ∷ fs) m h =
    let rest : missing_in_payload fs (dict m) ≡ some [] =
      has_all-missing_in_payload fs m (ground arith) in
    let here : has f m ≡ true = ground arith in rw (contains-dict m f, rest, here) refl

module _ (is_digit : Char → Bool) where
  -- A payload with all that its schema requires, of the types that it declares.
  pub record Conforms (s : Schema) (m : Message) : Type 0 where
    pub complete : has_all s.required m ≡ true
    pub typed : well_typed is_digit s m ≡ true

  put-Conforms :
      (s : Schema) (k : String) (v : Json) (m : Message)
      → fits is_digit (get k s.properties) v ≡ true
      → Conforms s m
      → Conforms s (put k v m)
  put-Conforms s k v m h c = record {
    complete = has_all-put s.required k v m c.complete;
    typed = well_typed-put is_digit s k v m h c.typed;
  }

  pub with_text-Conforms :
      (s : Schema) (k : String) (o : Option String) (m : Message)
      → ((t : String) → fits is_digit (get k s.properties) (text t) ≡ true)
      → Conforms s m
      → Conforms s (with_text k o m)
  unfolding with_text
  with_text-Conforms s k none m h c = c
  with_text-Conforms s k (some t) m h c = elim (Bool-cases (truthy t)) [
    | inl e ↦ rw e (put-Conforms s k (text t) m (h t) c)
    | inr e ↦ rw e c
  ]

  pub with_dict-Conforms :
      (s : Schema) (k : String) (o : Option (Dict Json)) (m : Message)
      → ((d : Dict Json) → fits is_digit (get k s.properties) (dict d) ≡ true)
      → Conforms s m
      → Conforms s (with_dict k o m)
  unfolding with_dict
  with_dict-Conforms s k none m h c = c
  with_dict-Conforms s k (some d) m h c = elim (Bool-cases (is_empty d)) [
    | inl e ↦ rw e c
    | inr e ↦ rw e (put-Conforms s k (dict d) m (h d) c)
  ]

  pub with_dicts-Conforms :
      (s : Schema) (k : String) (ds : List (Dict Json)) (m : Message)
      → fits is_digit (get k s.properties) (dicts ds) ≡ true
      → Conforms s m
      → Conforms s (with_dicts k ds m)
  unfolding with_dicts
  with_dicts-Conforms s k ds m h c = elim (Bool-cases (is_empty ds)) [
    | inl e ↦ rw e c
    | inr e ↦ rw e (put-Conforms s k (dicts ds) m h c)
  ]

  -- A message that parses to itself, has no structural error, and has a payload as the schema says.
  pub record IsAccepted (s : Schema) (m : Message) : Type 0 where
    pub parses : parse_message is_digit (some (dict m)) ≡ parsed m
    pub structure : validate_message_structure m ≡ some []
    pub envelope_conforms : Conforms envelope_schema m
    pub payload : Message
    pub is_payload : get "payload" m ≡ some (dict payload)
    pub payload_conforms : Conforms s payload

  -- For one of the known types.
  abbrev IsKnownType : String → Schema → Type 0
  IsKnownType t s = (get_schema_for_type t ≡ some s) × (mem t valid_message_types ≡ true)

  envelope-parses :
      (t id d ts : String) (p : Message)
      → mem t valid_message_types ≡ true
      → valid_ts is_digit ts ≡ true
      → parse_message is_digit (some (dict (envelope t id d ts p))) ≡ parsed (envelope t id d ts p)
  unfolding parse_message missing get oi_interface.Base.same
  envelope-parses t id d ts p k v = rw (k, v) refl

  envelope-structure :
      (s : Schema) (t id d ts : String) (p : Message)
      → get_schema_for_type t ≡ some s
      → has_all s.required p ≡ true
      → validate_message_structure (envelope t id d ts p) ≡ some []
  unfolding validate_message_structure missing_of get oi_interface.Base.same
  envelope-structure s t id d ts p k c = rw (k, has_all-missing_in_payload s.required p c) refl

  envelope-Conforms :
      (t id d ts : String) (p : Message)
      → mem t valid_message_types ≡ true
      → valid_ts is_digit ts ≡ true
      → Conforms envelope_schema (envelope t id d ts p)
  unfolding well_typed get mem oi_interface.Base.same
  envelope-Conforms t id d ts p k v = record { complete = refl; typed = ground arith }

  pub envelope-IsAccepted :
      (s : Schema) (t id d ts : String) (p : Message)
      → IsKnownType t s
      → valid_ts is_digit ts ≡ true
      → Conforms s p
      → IsAccepted s (envelope t id d ts p)
  unfolding get oi_interface.Base.same
  envelope-IsAccepted s t id d ts p k v c = record {
    parses = envelope-parses t id d ts p k.1 v;
    structure = envelope-structure s t id d ts p k.0 c.complete;
    envelope_conforms = envelope-Conforms t id d ts p k.1 v;
    payload = p;
    is_payload = refl;
    payload_conforms = c;
  }
