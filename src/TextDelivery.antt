-- ===== src/TextDelivery.antt =====
-- src/oi-gateway/src/text/delivery.py: `TextDeliveryPipeline`. The deliveries are made in the order of
-- the events, as the lock of a device has it; whether the device acknowledges a command comes with the
-- event.
pub mod Numbering
mod Tests
use oi_interface.Base.{
  String, Bool, Option, not, false, ℕ, if◌then◌else◌, truthy, List, ◌+◌, ◌&&◌, ◌++◌, ◌∷◌, [],
}
use oi_interface.Dict.{Dict, put, or_default, get}

-- `agent_response_stream` or `agent_response_delta`, with `text_delta` and `is_final`; and
-- `agent_progress`, with `text` and `kind`.
pub data TextEvent : Type 0 where
  response_delta : String → Bool → TextEvent
  progress : String → Option String → TextEvent

-- The tests of `_on_event`.
unfoldable pub is_skipped : TextEvent → Bool
is_skipped (response_delta text_delta is_final) = not (truthy text_delta) && not is_final
is_skipped (progress text kind) = not (truthy text)

-- `is_final` of `_do_deliver_text_delta`
abbrev pub ends : TextEvent → Bool
ends (response_delta text_delta is_final) = is_final
ends (progress text kind) = false

-- A command: the device, the `sequence` of the command, and what it shows.
pub record Shown : Type 0 where
  pub device_id : String
  pub sequence : ℕ
  pub event : TextEvent

pub record TextDeliveryPipeline : Type 0 where
  pub sequence_counters : Dict ℕ
  pub sent : List Shown

abbrev pub counter : String → Dict ℕ → ℕ
counter d counters = or_default (get d counters) 0

-- `_do_deliver_text_delta`
unfoldable pub do_deliver_text_delta :
    String → TextEvent → Bool → TextDeliveryPipeline → TextDeliveryPipeline
do_deliver_text_delta d event ok p =
    let seq = counter d p.sequence_counters in
    let counters = put d (seq + 1) p.sequence_counters in
    record {
      sequence_counters = if ok && ends event then put d 0 counters else counters;
      sent = p.sent ++ record { device_id = d; sequence = seq; event = event } ∷ [];
    }

-- `_on_event` and what it schedules.
unfoldable pub on_event : String → TextEvent → Bool → TextDeliveryPipeline → TextDeliveryPipeline
unfolding is_skipped do_deliver_text_delta
on_event d event ok p = if is_skipped event then p else do_deliver_text_delta d event ok p
