-- ===== src/Datp/Commands/Phases.antt =====
-- datp/commands.py: what becomes of a `send`, when acks, timeouts and other sends come in any order.
use oi_interface.Base.{
  String, Bool, true, false, List, [], ◌∷◌, Option, none, some, ◌==◌, ◌≡◌, refl, Bool-cases, inl,
  inr, ◌∙◌, ap, sym, same_self, eq_of_test, not,
}
use oi_interface.Dict.{Dict, get, put, pop, has, get-put, get-pop, is_some, get-put_same}
use mathlib.Core.Path.{subst}
use oi_interface.Json.{Json, null, bool, int, float, text, array, object}
use oi_interface.Datp.Commands.{
  Dispatcher, on_event, start, resolve, ack_of, ok_in, send_returned, wake, not_sent, after_sending,
  end_wait, after_waiting, Place, sending, waiting, ended,
}
use oi_interface.Datp.Commands.Acks.{
  CommandPhase, IsNotStarted, Step, ack_in, advance, device_answered, event, going_out, gone_out,
  over, passed_on, phase_after, place_of, run, same_text, started, step, told, waited, woken,
}

-- The phase of a command, in the state of the dispatcher.
abbrev IsAt : String → CommandPhase → Dispatcher → Type 0
IsAt i (going_out ack) s =
    (get i s.places ≡ some sending) × (has i s.pending ≡ not (is_some ack)) × (get i s.done ≡ ack)
IsAt i (gone_out ack) s =
    (get i s.places ≡ some waiting) × (has i s.pending ≡ not (is_some ack)) × (get i s.done ≡ ack)
IsAt i (over r) s = (get i s.places ≡ some (ended r)) × (has i s.pending ≡ false)

-- The parts of the state that are about a command are the same.
abbrev SameFor : String → Dispatcher → Dispatcher → Type 0
SameFor i s s' =
    (get i s'.places ≡ get i s.places)
    × (get i s'.pending ≡ get i s.pending)
    × (get i s'.done ≡ get i s.done)

IsAt-SameFor :
    (i : String) (p : CommandPhase) (s s' : Dispatcher) → SameFor i s s' → IsAt i p s → IsAt i p s'
IsAt-SameFor i (going_out ack) s s' h d = (h.0 ∙ d.0, ap is_some h.1 ∙ d.1, h.2 ∙ d.2)
IsAt-SameFor i (gone_out ack) s s' h d = (h.0 ∙ d.0, ap is_some h.1 ∙ d.1, h.2 ∙ d.2)
IsAt-SameFor i (over r) s s' h d = (h.0 ∙ d.0, ap is_some h.1 ∙ d.1)

other-put {ℓ} :
    {V : Type ℓ} (i j : String) (v : V) (d : Dict V)
    → (i == j) ≡ false
    → get i (put j v d) ≡ get i d
other-put i j v d n = get-put i j v d ∙ rw n refl

other-pop {ℓ} :
    {V : Type ℓ} (i j : String) (d : Dict V) → (i == j) ≡ false → get i (pop j d) ≡ get i d
other-pop i j d n = get-pop i j d ∙ rw n refl

has-pop_same {ℓ} : {V : Type ℓ} (i : String) (d : Dict V) → has i (pop i d) ≡ false
has-pop_same i d =
    ap is_some (let gone : get i (pop i d) ≡ none = get-pop i i d ∙ rw (same_self i) refl in gone)

resolve-other :
    (i j : String) (ok : Json) (s : Dispatcher) → (i == j) ≡ false → SameFor i s (resolve j ok s)
resolve-other i j ok s n = elim (Bool-cases (has j s.pending)) [
  | inl t ↦ rw t (refl, other-pop i j s.pending n, other-put i j ok s.done n)
  | inr t ↦ rw t (refl, refl, refl)
]

-- The ack of a command, at each phase: only the first one counts.
resolve-IsAt :
    (i : String) (ok : Json) (p : CommandPhase) (s : Dispatcher)
    → IsAt i p s
    → IsAt i (told (some ok) p) (resolve i ok s)
resolve-IsAt i ok (going_out none) s (a, b, c) =
    rw b (a, has-pop_same i s.pending, get-put_same i ok s.done)
resolve-IsAt i ok (going_out (some v)) s (a, b, c) = rw b (a, b, c)
resolve-IsAt i ok (gone_out none) s (a, b, c) =
    rw b (a, has-pop_same i s.pending, get-put_same i ok s.done)
resolve-IsAt i ok (gone_out (some v)) s (a, b, c) = rw b (a, b, c)
resolve-IsAt i ok (over r) s (a, b) = rw b (a, b)

told-none : (p : CommandPhase) → told none p ≡ p
told-none (going_out none) = refl
told-none (going_out (some v)) = refl
told-none (gone_out none) = refl
told-none (gone_out (some v)) = refl
told-none (over r) = refl

ack_of-other :
    (i : String) (o : Option Json) (ok : Json) (s : Dispatcher)
    → same_text i o ≡ false
    → SameFor i s (ack_of o ok s)
ack_of-other i none ok s n = (refl, refl, refl)
ack_of-other i (some (text j)) ok s n = resolve-other i j ok s n
ack_of-other i (some null) ok s n = (refl, refl, refl)
ack_of-other i (some (bool b)) ok s n = (refl, refl, refl)
ack_of-other i (some (int z)) ok s n = (refl, refl, refl)
ack_of-other i (some (float f)) ok s n = (refl, refl, refl)
ack_of-other i (some (array vs)) ok s n = (refl, refl, refl)
ack_of-other i (some (object fs)) ok s n = (refl, refl, refl)

-- An id that is the text of the command.
text_of : (i : String) (o : Option Json) → same_text i o ≡ true → o ≡ some (text i)
text_of i none h = cc
text_of i (some (text j)) h = ap (λ k. some (text k)) (sym (eq_of_test i j h))
text_of i (some null) h = cc
text_of i (some (bool b)) h = cc
text_of i (some (int z)) h = cc
text_of i (some (float f)) h = cc
text_of i (some (array vs)) h = cc
text_of i (some (object fs)) h = cc

event-IsAt :
    (i : String) (event_type : String) (payload : Dict Json) (p : CommandPhase) (s : Dispatcher)
    → IsAt i p s
    → IsAt i (told (ack_in i (event event_type payload)) p) (on_event event_type payload s)
unfolding on_event
event-IsAt i event_type payload p s h = elim (Bool-cases (event_type == "ack")) [
  | inl t ↦ elim (Bool-cases (same_text i (get "command_id" payload))) [
    | inl u ↦
        rw (t, text_of i (get "command_id" payload) u, same_self i)
          (resolve-IsAt i (ok_in payload) p s h)
    | inr u ↦
        rw (t, u, told-none p)
          (IsAt-SameFor i p s _ (ack_of-other i (get "command_id" payload) (ok_in payload) s u) h)
  ]
  | inr t ↦ rw (t, told-none p) h
]

not_sent-other : (i j : String) (s : Dispatcher) → (i == j) ≡ false → SameFor i s (not_sent j s)
not_sent-other i j s n = elim (Bool-cases (has j s.pending)) [
  | inl t ↦ rw t (other-put i j _ s.places n, other-pop i j s.pending n, refl)
  | inr t ↦ rw t (other-put i j _ s.places n, refl, refl)
]

after_sending-other :
    (i j : String) (sent : Bool) (s : Dispatcher) (o : Option Place)
    → (i == j) ≡ false
    → SameFor i s (after_sending j sent s o)
after_sending-other i j true s (some sending) n = (other-put i j waiting s.places n, refl, refl)
after_sending-other i j false s (some sending) n = not_sent-other i j s n
after_sending-other i j sent s (some waiting) n = (refl, refl, refl)
after_sending-other i j sent s (some (ended o)) n = (refl, refl, refl)
after_sending-other i j sent s none n = (refl, refl, refl)

send_returned-IsAt :
    (i : String) (sent : Bool) (p : CommandPhase) (s : Dispatcher)
    → IsAt i p s
    → IsAt i (passed_on sent p) (send_returned i sent s)
unfolding send_returned
send_returned-IsAt i true (going_out ack) s (a, b, c) = rw a (get-put_same i waiting s.places, b, c)
send_returned-IsAt i false (going_out none) s (a, b, c) =
    rw (a, b) (get-put_same i _ s.places, has-pop_same i s.pending)
send_returned-IsAt i false (going_out (some v)) s (a, b, c) =
    rw (a, b) (get-put_same i _ s.places, b)
send_returned-IsAt i sent (gone_out ack) s (a, b, c) = rw a (a, b, c)
send_returned-IsAt i sent (over r) s (a, b) = rw a (a, b)

end_wait-other :
    (i j : String) (s : Dispatcher) (o : Option Json)
    → (i == j) ≡ false
    → SameFor i s (end_wait j s o)
end_wait-other i j s (some ok) n = (other-put i j _ s.places n, refl, refl)
end_wait-other i j s none n = (other-put i j _ s.places n, other-pop i j s.pending n, refl)

after_waiting-other :
    (i j : String) (s : Dispatcher) (o : Option Place)
    → (i == j) ≡ false
    → SameFor i s (after_waiting j s o)
after_waiting-other i j s (some waiting) n = end_wait-other i j s (get j s.done) n
after_waiting-other i j s (some sending) n = (refl, refl, refl)
after_waiting-other i j s (some (ended o)) n = (refl, refl, refl)
after_waiting-other i j s none n = (refl, refl, refl)

wake-IsAt :
    (i : String) (p : CommandPhase) (s : Dispatcher) → IsAt i p s → IsAt i (waited p) (wake i s)
unfolding wake
wake-IsAt i (going_out ack) s (a, b, c) = rw a (a, b, c)
wake-IsAt i (gone_out none) s (a, b, c) =
    rw (a, c) (get-put_same i _ s.places, has-pop_same i s.pending)
wake-IsAt i (gone_out (some v)) s (a, b, c) = rw (a, c) (get-put_same i _ s.places, b)
wake-IsAt i (over r) s (a, b) = rw a (a, b)

step-IsAt :
    (i : String) (e : Step) (steps : List Step) (p : CommandPhase) (s : Dispatcher)
    → IsNotStarted i (e ∷ steps)
    → IsAt i p s
    → IsAt i (advance i e p) (step e s)
unfolding step advance start send_returned wake
step-IsAt i (started j) steps p s n h =
    IsAt-SameFor i p s _
      (
        other-put i j sending s.places n.0,
        other-put i j true s.pending n.0,
        other-pop i j s.done n.0,
      )
      h
step-IsAt i (event event_type payload) steps p s n h = event-IsAt i event_type payload p s h
step-IsAt i (device_answered j sent) steps p s n h = elim (Bool-cases (i == j)) [
  | inl t ↦ rw t (
      subst (λ k. IsAt i (passed_on sent p) (send_returned k sent s)) (eq_of_test i j t)
        (send_returned-IsAt i sent p s h))
  | inr t ↦ rw t (IsAt-SameFor i p s _ (after_sending-other i j sent s (get j s.places) t) h)
]
step-IsAt i (woken j) steps p s n h = elim (Bool-cases (i == j)) [
  | inl t ↦ rw t (subst (λ k. IsAt i (waited p) (wake k s)) (eq_of_test i j t) (wake-IsAt i p s h))
  | inr t ↦ rw t (IsAt-SameFor i p s _ (after_waiting-other i j s (get j s.places) t) h)
]

rest-IsNotStarted :
    (i : String) (e : Step) (steps : List Step) → IsNotStarted i (e ∷ steps) → IsNotStarted i steps
rest-IsNotStarted i (started j) steps n = n.1
rest-IsNotStarted i (event event_type payload) steps n = n
rest-IsNotStarted i (device_answered j sent) steps n = n
rest-IsNotStarted i (woken j) steps n = n

run-IsAt :
    (i : String) (steps : List Step) (p : CommandPhase) (s : Dispatcher)
    → IsNotStarted i steps
    → IsAt i p s
    → IsAt i (phase_after i steps p) (run steps s)
unfolding run phase_after
run-IsAt i [] p s n h = h
run-IsAt i (e ∷ steps) p s n h =
    run-IsAt i steps (advance i e p) (step e s) (rest-IsNotStarted i e steps n)
      (step-IsAt i e steps p s n h)

place_of-IsAt :
    (i : String) (p : CommandPhase) (s : Dispatcher)
    → IsAt i p s
    → get i s.places ≡ some (place_of p)
place_of-IsAt i (going_out ack) s h = h.0
place_of-IsAt i (gone_out ack) s h = h.0
place_of-IsAt i (over r) s h = h.0

-- A command that is not started again goes its own way, however the steps of other commands and other
-- events come in between. Of its acks the first counts, if it comes before the end. If its message went
-- out, it returns what that ack says, or False on waking without one. If not, it returns False, or raises
-- a KeyError where an ack has come before.
pub run-start_phase :
    (i : String) (steps : List Step) (s : Dispatcher)
    → IsNotStarted i steps
    → get i (run steps (start i s)).places ≡ some (place_of (phase_after i steps (going_out none)))
unfolding start
run-start_phase i steps s n =
    place_of-IsAt i (phase_after i steps (going_out none)) (run steps (start i s)) (
      run-IsAt i steps (going_out none) (start i s) n (
        get-put_same i sending s.places,
        ap is_some (get-put_same i true s.pending),
        (let gone : get i (pop i s.done) ≡ none = get-pop i i s.done ∙ rw (same_self i) refl in
            gone),
      ))
