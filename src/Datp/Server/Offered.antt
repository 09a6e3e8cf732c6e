-- ===== src/Datp/Server/Offered.antt =====
-- datp/server.py: what `_resolve_conversation` chooses.
use Prim.Native.String.{◌++◌ as ◌<>◌}
use oi_interface.Base.{
  String, true, List, Option, none, some, mem, truthy, ◌≡◌, refl, ◌⊎◌, inl, inr, arith, Bool-cases,
}
use oi_interface.Dict.{Dict}
use oi_interface.Json.{Json}
use oi_interface.Datp.Text.{truthy-append}
use oi_interface.Datp.Server.Conversation.{
  Conversation, Config, available_ids, resolve_conversation, select, session_key_or,
  default_agent_id,
}

-- An id is the default or one of those on offer.
abbrev pub IsOffered : Option String → List String → Option String → Type 0
IsOffered o ids default = (o ≡ default) ⊎ ((i : String) × (o ≡ some i) × (mem i ids ≡ true))

pub record IsValid (c : Config) (v : Conversation) : Type 0 where
  pub backend : IsOffered v.backend_id (available_ids c.available_backends) c.default_backend_id
  pub agent : IsOffered v.agent_id (available_ids c.available_agents) (default_agent_id c)
  pub key : truthy v.session_key ≡ true

select-IsOffered :
    (o : Option String) (ids : List String) (default : Option String)
    → IsOffered (select o ids default) ids default
select-IsOffered none ids default = inl refl
select-IsOffered (some i) ids default = elim (Bool-cases (mem i ids)) [
  | inl t ↦ rw t (inr (i, refl, t))
  | inr t ↦ rw t (inl refl)
]

session_key_or-truthy :
    (o : Option String) (current fallback : String)
    → truthy fallback ≡ true
    → truthy (session_key_or o current fallback) ≡ true
session_key_or-truthy none current fallback h = ground arith
session_key_or-truthy (some s) current fallback h = ground arith

own_key_truthy : (d : String) → truthy ("oi:device:" <> d) ≡ true
own_key_truthy d = truthy-append "o" "i:device:" d

-- Whatever is asked for, the conversation has a backend and an agent that are configured, or the
-- defaults, and a session key.
pub resolve_conversation-IsValid :
    (c : Config) (d : String) (requested : Dict Json) (current : Option Conversation)
    → IsValid c (resolve_conversation c d requested current).0
unfolding resolve_conversation
resolve_conversation-IsValid c d requested current = record {
  backend = select-IsOffered _ (available_ids c.available_backends) c.default_backend_id;
  agent = select-IsOffered _ (available_ids c.available_agents) (default_agent_id c);
  key = session_key_or-truthy _ _ ("oi:device:" <> d) (own_key_truthy d);
}
