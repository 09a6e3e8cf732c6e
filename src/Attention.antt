-- ===== src/Attention.antt =====
-- src/oi-gateway/src/attention/policy.py: `AttentionPolicy`, which device the user is focused on.
-- The clock is an argument `now` of each call, in microseconds, and durations are microseconds too.
-- The event bus is the list `events` of what was emitted, the latest last; subscribers of the bus
-- are taken not to call back into the policy.
pub mod State
pub mod Queue
pub mod Core
pub mod Invariant
pub mod Handover
pub mod Reach
pub mod Waiting
pub mod Timeouts
mod Tests
pub mod Candidates
use oi_interface.Base.{
  ℕ, ◌+◌, ◌-◌, ◌≤◌, String, ◌≡◌, Bool, true, false, ◌&&◌, ◌||◌, not, Option, none, some, List, [],
  ◌∷◌, ◌++◌, ltb, leb, if◌then◌else◌, ◌==◌, mem, remove, keep_if, truthy, truthy_ℕ,
}
use oi_interface.Base.Int.{ℤ, pos, ltb_ℤ}
use oi_interface.Dict.{Dict, get, put, update, has, or_default, keys}
use State.{
  AttentionTransition, explicit, implicit, timeout, device_offline, interrupted, Phase, idle,
  active, AttentionState, AttentionConfig, Event, acquired, changed, released, priority_updated,
  AttentionPolicy, is_none,
}
use Queue.{outranked, outranking, queue_for}

emit : Event → AttentionPolicy → AttentionPolicy
emit e p = record p { events = p.events ++ e ∷ [] }

-- `state.state = ATTENTION_IDLE; state.acquired_at = None`
abbrev idled : AttentionState → AttentionState
idled st = record st { state = idle; acquired_at = none }

-- `_release_current_attention` with `process_queue=False`.
unfoldable pub release_only : String → AttentionTransition → AttentionPolicy → AttentionPolicy
unfolding emit
release_only reason tr p = elim p.current_attention [
  | none ↦ p
  | some d ↦
      emit (released d reason tr) (record p {
        current_attention = none;
        device_attention = update d idled p.device_attention;
      })
]

-- The new or updated entry of `acquire_attention`.
acquired_entry :
    String → String → Option ℤ → Option ℕ → ℕ → ℤ → Option AttentionState → AttentionState
acquired_entry d reason priority auto_release now requested none = record {
  device_id = d;
  state = active;
  acquired_at = some now;
  last_activity = some now;
  auto_release_after_seconds = auto_release;
  priority = requested;
  reason = reason;
}
acquired_entry d reason priority auto_release now requested (some st) = record st {
  state = active;
  acquired_at = some now;
  last_activity = some now;
  auto_release_after_seconds = auto_release;
  priority = or_default priority st.priority;
  reason = reason;
}

-- The events of a successful `acquire_attention`; `old` is the device that had attention.
acquire_events : String → Option String → AttentionTransition → String → List Event
acquire_events d old tr reason =
    acquired d reason old tr
    ∷ (if is_none old || not (or_default old d == d) then changed d old tr reason ∷ [] else [])

-- The end of `acquire_attention`, once nothing stands in the way.
pub grant :
    String
    → String
    → Option ℤ
    → Option ℕ
    → AttentionTransition
    → ℕ
    → AttentionPolicy
    → AttentionPolicy
unfolding acquired_entry acquire_events
grant d reason priority auto_release tr now p =
    let requested = or_default priority p.config.default_priority in
    let st =
      acquired_entry d reason priority auto_release now requested (get d p.device_attention) in
    record p {
      device_attention = put d st p.device_attention;
      current_attention = some d;
      events = p.events ++ acquire_events d p.current_attention tr reason;
    }

-- How a request for `d` fares against the device `c` that has attention.
pub data Contest : Type 0 where
  queued : Contest  -- the holder's priority is higher
  refused : Contest  -- an explicit release is required
  overtaken : AttentionTransition → Contest

contest : AttentionConfig → Option AttentionState → ℤ → Contest
unfolding outranked outranking
contest cfg current requested =
    if cfg.enable_priority && outranking requested current
    then queued
    else if cfg.require_explicit_release
    then refused
    else overtaken
        (if cfg.enable_priority && outranked requested current then interrupted else implicit)

resolve : Contest → String → ℤ → AttentionPolicy → AttentionPolicy × Bool
unfolding release_only
resolve queued d requested p = (queue_for d requested p, false)
resolve refused d requested p = (p, false)
resolve (overtaken tr) d requested p = (release_only "" tr p, true)

-- The guard of `acquire_attention`: the state it leaves, and whether the device may go on.
-- An empty `current_attention` is false in Python, and is not contested.
pub clear_way : String → ℤ → AttentionPolicy → AttentionPolicy × Bool
unfolding contest resolve
clear_way d requested p = elim p.current_attention [
  | none ↦ (p, true)
  | some c ↦
      if truthy c && not (c == d)
      then resolve (contest p.config (get c p.device_attention) requested) d requested p
      else (p, true)
]

unfoldable pub acquire_attention :
    String
    → String
    → Option ℤ
    → Option ℕ
    → AttentionTransition
    → ℕ
    → AttentionPolicy
    → AttentionPolicy × Bool
unfolding grant clear_way
acquire_attention d reason priority auto_release tr now p =
    let (q, clear) = clear_way d (or_default priority p.config.default_priority) p in
    if clear then (grant d reason priority auto_release tr now q, true) else (q, false)

-- `_process_attention_queue`: pops until a device is tracked, which is granted attention.
unfoldable pub process_queue : List String → ℕ → AttentionPolicy → AttentionPolicy
unfolding acquire_attention
process_queue [] now p = record p { attention_queue = [] }
process_queue (d ∷ ds) now p =
    let q = record p { attention_queue = ds } in
    let rest = process_queue ds now p in
    if has d p.device_attention
    then (acquire_attention d "queued" none none implicit now q).0
    else rest

-- `_release_current_attention` with `process_queue=True`; it returns at once where nothing is held.
unfoldable pub release_current :
    String → AttentionTransition → ℕ → AttentionPolicy → AttentionPolicy
release_current reason tr now p = elim p.current_attention [
  | none ↦ p
  | some _ ↦ let q = release_only reason tr p in process_queue q.attention_queue now q
]

holds_attention : String → AttentionPolicy → Bool
holds_attention d p = elim p.current_attention [ none ↦ false | some c ↦ c == d ]

unfoldable pub release_attention :
    String → String → AttentionTransition → ℕ → AttentionPolicy → AttentionPolicy × Bool
unfolding release_current holds_attention
release_attention d reason tr now p =
    if holds_attention d p then (release_current reason tr now p, true) else (p, false)

unfoldable pub handle_device_offline : String → ℕ → AttentionPolicy → AttentionPolicy × Bool
unfolding release_current holds_attention
handle_device_offline d now p =
    if holds_attention d p
    then (release_current "device offline" device_offline now p, true)
    else (p, false)

unfoldable pub record_activity : String → ℕ → AttentionPolicy → AttentionPolicy
record_activity d now p = record p {
  device_attention = update d (λ st. record st { last_activity = some now }) p.device_attention;
}

-- The entry that `set_priority` writes.
prioritised : String → ℤ → Option AttentionState → AttentionState
prioritised d priority none = record {
  device_id = d;
  state = idle;
  acquired_at = none;
  last_activity = none;
  auto_release_after_seconds = none;
  priority = priority;
  reason = "";
}
prioritised d priority (some st) = record st { priority = priority }

old_priority : Option AttentionState → Option ℤ
old_priority none = none
old_priority (some st) = some st.priority

-- The queue at the end of `set_priority`.
pub requeue : String → ℤ → AttentionPolicy → AttentionPolicy
requeue d priority p =
    let q = record p { attention_queue = remove d p.attention_queue } in
    if mem d p.attention_queue
    then (if ltb_ℤ (pos 0) priority then queue_for d priority q else q)
    else p

unfoldable pub set_priority : String → ℤ → String → AttentionPolicy → AttentionPolicy
unfolding emit prioritised old_priority requeue
set_priority d priority reason p =
    let known = get d p.device_attention in
    let q = record p {
      device_attention = put d (prioritised d priority known) p.device_attention;
    } in
    requeue d priority (emit (priority_updated d priority (old_priority known) reason) q)

-- Whether the entry of the current device is due for its automatic release.
is_due : AttentionState → ℕ → Bool
is_due st now = elim st.auto_release_after_seconds [
  | none ↦ false
  | some limit ↦
      truthy_ℕ limit && elim st.last_activity [ none ↦ false | some last ↦ leb (last + limit) now ]
]

unfoldable pub timed_out :
    String → Option AttentionState → ℕ → AttentionPolicy → AttentionPolicy × List String
unfolding is_due
timed_out d none now p = (p, [])
timed_out d (some st) now p =
    if is_due st now then ((release_attention d "timeout" timeout now p).0, d ∷ []) else (p, [])

unfoldable pub check_timeouts : ℕ → AttentionPolicy → AttentionPolicy × List String
check_timeouts now p =
    if truthy_ℕ p.config.auto_release_timeout
    then elim p.current_attention [
      | none ↦ (p, [])
      | some d ↦ if truthy d then timed_out d (get d p.device_attention) now p else (p, [])
    ]
    else (p, [])

pub data Call : Type 0 where
  acquires : String → String → Option ℤ → Option ℕ → AttentionTransition → Call
  releases : String → String → AttentionTransition → Call
  goes_offline : String → Call
  acts : String → Call
  prioritises : String → ℤ → String → Call
  checks : Call

-- One call of a method of the policy at the time `now`.
unfoldable pub step : ℕ → Call → AttentionPolicy → AttentionPolicy
step now (acquires d reason priority auto_release tr) p =
    (acquire_attention d reason priority auto_release tr now p).0
step now (releases d reason tr) p = (release_attention d reason tr now p).0
step now (goes_offline d) p = (handle_device_offline d now p).0
step now (acts d) p = record_activity d now p
step now (prioritises d priority reason) p = set_priority d priority reason p
step now checks p = (check_timeouts now p).0

unfoldable pub run : List (ℕ × Call) → AttentionPolicy → AttentionPolicy
run [] p = p
run ((now, c) ∷ cs) p = run cs (step now c p)
