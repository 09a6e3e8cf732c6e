-- ===== src/Datp/Server/Conversation.antt =====
-- datp/server.py: which backend, agent and session key a device gets. The configured backends and agents
-- are dicts of texts, as their types say.
use Prim.Native.String.{◌++◌ as ◌<>◌}
use oi_interface.Base.{
  String, Bool, true, false, List, [], ◌∷◌, Option, none, some, mem, ◌==◌, if◌then◌else◌, truthy,
}
use oi_interface.Dict.{Dict, get}
use oi_interface.Json.{Json, null, text, as_text}

-- `ConversationValidationError`, but that for a conversation that is no object.
pub data ConversationError : Type 0 where
  backend_not_text agent_not_text session_key_not_text : ConversationError
  unknown_backend unknown_agent : String → ConversationError

pub record Conversation : Type 0 where
  pub backend_id : Option String
  pub agent_id : Option String
  pub session_key : String

pub record Config : Type 0 where
  pub available_backends : List (Dict Json)
  pub default_backend_id : Option String
  pub default_agent : Option (Dict Json)
  pub available_agents : List (Dict Json)

-- `item.get("id")`
abbrev pub id_in : Dict Json → Option String
id_in d = elim (get "id" d) [ none ↦ none | some v ↦ as_text v ]

abbrev with_id : Option String → List String → List String
with_id none ids = ids
with_id (some i) ids = if truthy i then i ∷ ids else ids

-- `{str(item.get("id")) for item in items if isinstance(item, dict) and item.get("id")}`
unfoldable pub available_ids : List (Dict Json) → List String
available_ids [] = []
available_ids (d ∷ ds) = with_id (id_in d) (available_ids ds)

-- The defaults of the constructor.
unfoldable pub init_config :
    List (Dict Json) → Option String → Option (Dict Json) → List (Dict Json) → Config
init_config backends backend_id agent agents = record {
  available_backends = backends;
  default_backend_id = default_backend backend_id backends;
  default_agent = agent;
  available_agents = default_agents agents agent;
}
  where
    first_backend : List (Dict Json) → Option String
    first_backend [] = none
    first_backend (b ∷ bs) = id_in b

    default_backend : Option String → List (Dict Json) → Option String
    default_backend none bs = first_backend bs
    default_backend (some i) bs = if truthy i then some i else first_backend bs

    default_agents : List (Dict Json) → Option (Dict Json) → List (Dict Json)
    default_agents [] none = []
    default_agents [] (some a) = a ∷ []
    default_agents (a ∷ rest) default = a ∷ rest

-- `x is not None and not isinstance(x, str)`
abbrev pub is_no_text : Option Json → Bool
is_no_text none = false
is_no_text (some null) = false
is_no_text (some (text s)) = false
is_no_text (some v) = true

-- `x is not None and x not in ids`, the id that is not there.
abbrev pub not_among : Option Json → List String → Option String
not_among (some (text s)) ids = if mem s ids then none else some s
not_among v ids = none

abbrev check_selection : Option String → Option String → Option ConversationError
check_selection (some b) agent = some (unknown_backend b)
check_selection none (some a) = some (unknown_agent a)
check_selection none none = none

unfoldable pub validate_conversation_request : Config → Bool → Dict Json → Option ConversationError
validate_conversation_request c strict requested =
    if is_no_text (get "backend_id" requested)
    then some backend_not_text
    else if is_no_text (get "agent_id" requested)
    then some agent_not_text
    else if is_no_text (get "session_key" requested)
    then some session_key_not_text
    else if strict
    then check_selection
        (not_among (get "backend_id" requested) (available_ids c.available_backends))
        (not_among (get "agent_id" requested) (available_ids c.available_agents))
    else none

-- `requested.get(key, current.get(key))`, where the request has passed the validation.
abbrev pub candidate : Option Json → Option String → Option String
candidate none current = current
candidate (some v) current = as_text v

-- The candidate if it is available, else the default.
abbrev pub select : Option String → List String → Option String → Option String
select none ids default = default
select (some i) ids default = if mem i ids then some i else default

abbrev same_id : Option String → Option String → Bool
same_id none none = true
same_id (some i) (some j) = i == j
same_id i j = false

-- `next((agent for agent in agents if agent.get("id") == i), default)`
unfoldable pub agent_with :
    Option String → List (Dict Json) → Option (Dict Json) → Option (Dict Json)
agent_with i [] default = default
agent_with i (a ∷ agents) default =
    if same_id (id_in a) i then some a else agent_with i agents default

-- `requested.get("session_key") or current.get("session_key") or f"oi:device:{device_id}"`
abbrev pub session_key_or : Option String → String → String → String
session_key_or none current fallback = if truthy current then current else fallback
session_key_or (some s) current fallback =
    if truthy s then s else if truthy current then current else fallback

abbrev pub backend_now : Option Conversation → Option String
backend_now none = none
backend_now (some c) = c.backend_id

abbrev pub agent_now : Option Conversation → Option String
agent_now none = none
agent_now (some c) = c.agent_id

abbrev pub key_now : Option Conversation → String
key_now none = ""
key_now (some c) = c.session_key

abbrev pub default_agent_id : Config → Option String
default_agent_id c = elim c.default_agent [ none ↦ none | some a ↦ id_in a ]

-- `_resolve_conversation` after its validation, which is a weaker one than the callers have made.
unfoldable pub resolve_conversation :
    Config → String → Dict Json → Option Conversation → Conversation × Option (Dict Json)
resolve_conversation c device_id requested current =
    let backend_candidate = candidate (get "backend_id" requested) (backend_now current) in
    let agent_candidate = candidate (get "agent_id" requested) (agent_now current) in
    let agent_id = select agent_candidate (available_ids c.available_agents) (default_agent_id c) in
    (
      record {
        backend_id =
            select backend_candidate (available_ids c.available_backends) c.default_backend_id;
        agent_id = agent_id;
        session_key =
            session_key_or (candidate (get "session_key" requested) none) (key_now current)
              ("oi:device:" <> device_id);
      },
      agent_with agent_id c.available_agents c.default_agent,
    )
