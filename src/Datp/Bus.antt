-- ===== src/Datp/Bus.antt =====
-- datp/events.py: `EventBus`. A subscriber is named by a text, since callbacks are told apart by identity.
use oi_interface.Base.{
  String, Bool, true, false, List, [], ◌∷◌, ◌++◌, mem, remove, not, if◌then◌else◌, ◌≡◌, sym,
  append_nil, ◌∙◌, ap, append_assoc,
}
use oi_interface.Dict.{Dict}
use oi_interface.Json.{Json}

unfoldable pub subscribe : String → List String → List String
subscribe callback subscribers =
    if not (mem callback subscribers) then subscribers ++ callback ∷ [] else subscribers

unfoldable pub unsubscribe : String → List String → List String
unsubscribe callback subscribers =
    if mem callback subscribers then remove callback subscribers else subscribers

-- A call of a subscriber changes the state `W` of all of them, which has the subscribers too, and may
-- raise.
module _ {W : Type 0} (call : String → String → String → Dict Json → W → W × Bool) where
  abbrev note_raised : String → Bool → List String → List String
  note_raised sub true logged = sub ∷ logged
  note_raised sub false logged = logged

  -- The loop of `emit` over `list(self._subscribers)`, and the subscribers whose errors it logs.
  unfoldable pub emit_each :
      (event_type device_id : String) → Dict Json → List String → W → W × List String
  emit_each event_type device_id payload [] world = (world, [])
  emit_each event_type device_id payload (sub ∷ subs) world =
      let (world', raised) = call sub event_type device_id payload world in
      let (last, logged) = emit_each event_type device_id payload subs world' in
      (last, note_raised sub raised logged)

  unfoldable pub emit :
      (W → List String) → (event_type device_id : String) → Dict Json → W → W × List String
  emit subscribers event_type device_id payload world =
      emit_each event_type device_id payload (subscribers world) world

  emit_each-trace :
      (trace : W → List String) (event_type device_id : String) (payload : Dict Json)
      (subs : List String) (world : W)
      → ((sub : String) (v : W)
          → trace (call sub event_type device_id payload v).0 ≡ trace v ++ sub ∷ [])
      → trace (emit_each event_type device_id payload subs world).0 ≡ trace world ++ subs
  unfolding emit_each
  emit_each-trace trace event_type device_id payload [] world h = sym (append_nil (trace world))
  emit_each-trace trace event_type device_id payload (sub ∷ subs) world h =
      emit_each-trace trace event_type device_id payload subs
        (call sub event_type device_id payload world).0 h
      ∙ ap (λ t. t ++ subs) (h sub world)
      ∙ append_assoc (trace world) (sub ∷ []) subs

  -- If each subscriber leaves its name in a trace, an emission leaves those of the subscribers of its
  -- beginning, each once and in their order: errors, and changes of the list on the way, skip none.
  emit-trace :
      (trace : W → List String) (subscribers : W → List String) (event_type device_id : String)
      (payload : Dict Json) (world : W)
      → ((sub : String) (v : W)
          → trace (call sub event_type device_id payload v).0 ≡ trace v ++ sub ∷ [])
      → trace (emit subscribers event_type device_id payload world).0
        ≡ trace world ++ subscribers world
  unfolding emit
  emit-trace trace subscribers event_type device_id payload world h =
      emit_each-trace trace event_type device_id payload (subscribers world) world h
