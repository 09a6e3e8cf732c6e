-- ===== src/Attention/State.antt =====
-- attention/policy.py and attention/events.py: the data of the attention policy.
use oi_interface.Base.{ℕ, String, Bool, true, false, Option, none, some, List, []}
use oi_interface.Base.Int.{ℤ}
use oi_interface.Dict.{Dict}

-- `AttentionTransition`
pub data AttentionTransition : Type 0 where
  explicit implicit timeout device_offline interrupted : AttentionTransition

-- `ATTENTION_IDLE` and `ATTENTION_ACTIVE`
pub data Phase : Type 0 where
  idle active : Phase

-- `AttentionState`
pub record AttentionState : Type 0 where
  pub device_id : String
  pub state : Phase
  pub acquired_at : Option ℕ
  pub last_activity : Option ℕ
  pub auto_release_after_seconds : Option ℕ
  pub priority : ℤ
  pub reason : String

-- `AttentionConfig`
pub record AttentionConfig : Type 0 where
  pub auto_release_timeout : ℕ
  pub activity_timeout : ℕ
  pub require_explicit_release : Bool
  pub enable_priority : Bool
  pub default_priority : ℤ

-- What goes to the event bus, with the fields of its payload.
pub data Event : Type 0 where
  acquired : String → String → Option String → AttentionTransition → Event
  changed : String → Option String → AttentionTransition → String → Event
  released : String → String → AttentionTransition → Event
  priority_updated : String → ℤ → Option ℤ → String → Event

-- `AttentionPolicy`
pub record AttentionPolicy : Type 0 where
  pub config : AttentionConfig
  pub device_attention : Dict AttentionState
  pub current_attention : Option String
  pub attention_queue : List String
  pub events : List Event

unfoldable pub init : AttentionConfig → AttentionPolicy
init c = record {
  config = c;
  device_attention = [];
  current_attention = none;
  attention_queue = [];
  events = [];
}

abbrev pub is_none {ℓ} : {A : Type ℓ} → Option A → Bool
is_none none = true
is_none (some a) = false
