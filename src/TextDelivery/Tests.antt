-- ===== src/TextDelivery/Tests.antt =====
-- Text for two devices, and the theorem there.
use oi_interface.TextDelivery.{TextDeliveryPipeline, response_delta, progress, counter}
use oi_interface.TextDelivery.Numbering.{History, numbered, sent_to, run, run-numbered}
use oi_interface.Base.{[], same, false, map, ◌≡◌, true, ◌∷◌, ◌++◌, refl, none}

abbrev idle : TextDeliveryPipeline
idle = record { sequence_counters = []; sent = [] }

-- The desk refuses its final delta, so the number of its next text is 2.
abbrev history : History
history =
    ("desk", response_delta "It" false, true)
    ∷ ("hall", response_delta "Yes" true, true)
    ∷ ("desk", response_delta "" false, true)
    ∷ ("desk", response_delta " is" true, false)
    ∷ ("desk", progress "busy" none, true)
    ∷ []

desk_numbers : map (λ s. s.sequence) (numbered "desk" 0 history) ≡ 0 ∷ 1 ∷ 2 ∷ []
unfolding numbered same oi_interface.TextDelivery.is_skipped
desk_numbers = refl

run-numbered_example :
    sent_to "desk" (run history idle).sent
    ≡ sent_to "desk" idle.sent ++ numbered "desk" (counter "desk" idle.sequence_counters) history
run-numbered_example = run-numbered "desk" history idle
