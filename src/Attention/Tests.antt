-- ===== src/Attention/Tests.antt =====
-- The attention policy on small histories, and its theorems at them.
use oi_interface.Attention.State.{
  AttentionPolicy, AttentionConfig, init, explicit, AttentionState, active,
}
use oi_interface.Base.{
  List, false, ℕ, ◌≡◌, true, some, ◌∷◌, [], none, same, some-ne_of_test, refl, mem, remove,
}
use oi_interface.Attention.{
  run, Call, prioritises, acquires, step, acquire_attention, set_priority, release_attention,
  check_timeouts,
}
use oi_interface.Attention.Reach.{AllNamed, Inv, run-init-Inv}
use oi_interface.Base.Int.{pos}
use oi_interface.Dict.{get, put, update}
use oi_interface.Attention.Queue.{queue_for, insert_by_priority}
use oi_interface.Attention.Core.{Core}
use oi_interface.Attention.Handover.{acquire_attention-may_take, release_attention_hands_over}

abbrev defaults : AttentionConfig
defaults = record {
  auto_release_timeout = 300;
  activity_timeout = 60;
  require_explicit_release = false;
  enable_priority = true;
  default_priority = pos 0;
}

-- The desk has attention at priority 5 until time 30; the phone, tracked at 0, was denied and waits.
abbrev history : List (ℕ × Call)
history =
    (1, prioritises "phone" (pos 0) "setup")
    ∷ (2, acquires "desk" "call" (some (pos 5)) (some 28) explicit)
    ∷ (3, acquires "phone" "tap" none none explicit)
    ∷ []

abbrev contended : AttentionPolicy
contended = run history (init defaults)

history-AllNamed : AllNamed history
unfolding same
history-AllNamed = (
  some-ne_of_test "phone" "" refl,
  (some-ne_of_test "desk" "" refl, (some-ne_of_test "phone" "" refl, tt)),
)

contended_state :
    (contended.current_attention ≡ some "desk") × (contended.attention_queue ≡ "phone" ∷ [])
unfolding run step init acquire_attention set_priority same get put update mem remove queue_for
    insert_by_priority
contended_state = (refl, refl)

run-init-Inv_example : Inv (run history (init defaults))
run-init-Inv_example = run-init-Inv defaults history history-AllNamed

abbrev desk_entry : AttentionState
desk_entry = record {
  device_id = "desk";
  state = active;
  acquired_at = some 2;
  last_activity = some 2;
  auto_release_after_seconds = some 28;
  priority = pos 5;
  reason = "call";
}

contended-Core : Core contended
contended-Core = (run-init-Inv defaults history history-AllNamed).core

release_attention_hands_over_example :
    let (q, done) = release_attention "desk" "done" explicit 4 contended in
    (done ≡ true) × (q.current_attention ≡ some "phone") × (q.attention_queue ≡ [])
unfolding run step init acquire_attention set_priority same get put update mem remove queue_for
    insert_by_priority release_attention
release_attention_hands_over_example =
    release_attention_hands_over "desk" "done" explicit 4 contended

acquire_attention-may_take_example :
    let (q, granted) = acquire_attention "watch" "tap" (some (pos 9)) none explicit 4 contended in
    (granted ≡ true) × (q.current_attention ≡ some "watch")
unfolding run step init acquire_attention set_priority same get put update mem remove queue_for
    insert_by_priority
acquire_attention-may_take_example =
    acquire_attention-may_take "watch" "tap" (some (pos 9)) none explicit 4 contended contended-Core

desk_is_reported :
    let (q, reported) = check_timeouts 40 contended in
    (reported ≡ "desk" ∷ []) × (q.current_attention ≡ some "phone")
unfolding check_timeouts run step acquire_attention set_priority mem init same get put queue_for
    oi_interface.Attention.timed_out release_attention oi_interface.Attention.process_queue
    insert_by_priority update
desk_is_reported = (refl, refl)

abbrev desk_only : AttentionPolicy
desk_only = run ((1, acquires "desk" "call" (some (pos 5)) none explicit) ∷ []) (init defaults)

desk_only-Core : Core desk_only
unfolding same
desk_only-Core = (run-init-Inv defaults _ (some-ne_of_test "desk" "" refl, tt)).core
