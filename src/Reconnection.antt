-- ===== src/Reconnection.antt =====
-- src/oi-gateway/src/registry/reconnection.py: `ReconnectionManager`. Times are milliseconds, also the
-- delays, which the source keeps as float seconds (whole milliseconds here); a delay's jitter, r /
-- 1000.0 seconds for a random r below int(delay * 100), is then r milliseconds for an r below a tenth
-- of the delay. The random number is an argument, and so is the time of a disconnection. `S` is the
-- value type of a state dict. The event of `record_reconnect` is its result.
pub mod Counting
pub mod Backoff
mod Tests
use oi_interface.Base.{
  ℕ, String, Bool, Option, [], leb, ◌∷◌, ◌+◌, min, ◌*◌, ◌^◌, if◌then◌else◌, ◌&&◌, ltb, ◌/◌,
}
use oi_interface.Dict.{or_default, put, pop, Dict, get}

pub record ReconnectionManager (S : Type 0) : Type 0 where
  pub base_delay : ℕ
  pub max_delay : ℕ
  pub max_retries : ℕ
  pub jitter : Bool
  pub disconnect_times : Dict ℕ
  pub reconnect_counts : Dict ℕ
  pub saved_states : Dict (Dict S)

-- `registry.device_reconnected`
pub record Reconnected : Type 0 where
  pub device_id : String
  pub reconnect_count : ℕ

-- A delay, or what is raised: `randbelow` refuses 0, and an int of more than 1024 bits is no float.
pub data Delay : Type 0 where
  wait : ℕ → Delay
  value_error overflow_error : Delay

module _ {S : Type 0} where
  unfoldable pub init : ℕ → ℕ → ℕ → Bool → ReconnectionManager S
  init base_delay max_delay max_retries jitter = record {
    base_delay = base_delay;
    max_delay = max_delay;
    max_retries = max_retries;
    jitter = jitter;
    disconnect_times = [];
    reconnect_counts = [];
    saved_states = [];
  }

  unfoldable pub get_reconnect_count : String → ReconnectionManager S → ℕ
  get_reconnect_count d m = or_default (get d m.reconnect_counts) 0

  unfoldable pub record_disconnect : String → ℕ → ReconnectionManager S → ReconnectionManager S
  record_disconnect d now m = record m {
    disconnect_times = put d now m.disconnect_times;
    reconnect_counts = put d (or_default (get d m.reconnect_counts) 0 + 1) m.reconnect_counts;
  }

  unfoldable pub record_reconnect :
      String → ReconnectionManager S → ReconnectionManager S × Reconnected
  record_reconnect d m = (
    record m { disconnect_times = pop d m.disconnect_times },
    record { device_id = d; reconnect_count = or_default (get d m.reconnect_counts) 0 },
  )

  -- `random` is what `secrets.randbelow` returns.
  unfoldable pub get_backoff_delay : String → ℕ → ReconnectionManager S → Delay
  get_backoff_delay d random m =
      let count = or_default (get d m.reconnect_counts) 0 in
      let delay = min (m.base_delay * 2 ^ count) m.max_delay in
      if leb 1024 count
      then overflow_error
      else if m.jitter && ltb 0 delay
      then (if ltb 0 (delay / 10) then wait (delay + random) else value_error)
      else wait delay

  unfoldable pub should_reconnect : String → ReconnectionManager S → Bool
  should_reconnect d m = leb (or_default (get d m.reconnect_counts) 0) m.max_retries

  -- An empty state is not saved.
  unfoldable pub save_state : String → Dict S → ReconnectionManager S → ReconnectionManager S
  save_state d [] m = m
  save_state d (e ∷ state) m = record m { saved_states = put d (e ∷ state) m.saved_states }

  unfoldable pub restore_state :
      String → ReconnectionManager S → ReconnectionManager S × Option (Dict S)
  restore_state d m = (record m { saved_states = pop d m.saved_states }, get d m.saved_states)

  unfoldable pub reset_reconnect_count : String → ReconnectionManager S → ReconnectionManager S
  reset_reconnect_count d m = record m { reconnect_counts = put d 0 m.reconnect_counts }

  unfoldable pub get_disconnect_time : String → ReconnectionManager S → Option ℕ
  get_disconnect_time d m = get d m.disconnect_times

  unfoldable pub clear_device : String → ReconnectionManager S → ReconnectionManager S
  clear_device d m = record m {
    disconnect_times = pop d m.disconnect_times;
    reconnect_counts = pop d m.reconnect_counts;
    saved_states = pop d m.saved_states;
  }
