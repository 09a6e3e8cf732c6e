-- ===== src/Characters/Repeated.antt =====
-- character_packs/__init__.py: a state that is shown is not sent again.
use oi_interface.Base.{
  String, Bool, true, false, Option, none, ◌⊎◌, inl, inr, ◌≡◌, refl, Bool-cases, ap, ◌∙◌, some,
}
use oi_interface.Dict.{get, get-put_same}
use oi_interface.Datp.Server.State.{Server}
use oi_interface.Datp.Server.Dispatch.{send_to_device}
use oi_interface.Characters.Pack.{CharacterPack}
use oi_interface.Characters.BuiltIn.First.{create_synth_goblin}
use oi_interface.Characters.Renderer.{render, RenderInstruction, RenderError}
use oi_interface.Characters.Service.{
  CharacterRendererService, SemanticState, value, is_rendering_enabled, is_last, note_sent,
  send_instruction, render_state, is_last_self, with_pack,
}

-- The service is on for the device, and its last state is this one.
abbrev IsShown : String → SemanticState → Option String → CharacterRendererService → Type 0
IsShown d state label s =
    (is_rendering_enabled d s ≡ true) × (is_last (get d s.last_rendered) (value state) label ≡ true)

note_sent-IsShown :
    (d : String) (state : SemanticState) (label : Option String) (s : CharacterRendererService)
    (x : Server × Bool)
    → is_rendering_enabled d s ≡ true
    → (note_sent d (value state) label s x).1 ≡ true
    → IsShown d state label (note_sent d (value state) label s x).0.0
note_sent-IsShown d state label s (server, true) on ok = (
  on,
  ap (λ o. is_last o (value state) label) (get-put_same d (value state, label) s.last_rendered)
      ∙ is_last_self (value state) label,
)
note_sent-IsShown d state label s (server, false) on ok = cc

send_instruction-IsShown :
    (ts token d : String) (state : SemanticState) (label : Option String) (p : CharacterPack)
    (s : CharacterRendererService) (server : Server) (r : RenderError ⊎ RenderInstruction)
    → is_rendering_enabled d s ≡ true
    → (send_instruction ts token d (value state) label p s server r).1 ≡ true
    → IsShown d state label (send_instruction ts token d (value state) label p s server r).0.0
send_instruction-IsShown ts token d state label p s server (inl e) on ok = cc
send_instruction-IsShown ts token d state label p s server (inr r) on ok =
    note_sent-IsShown d state label s (send_to_device d _ server) on ok

with_pack-IsShown :
    (ts token d : String) (state : SemanticState) (label : Option String) (pack : Option String)
    (s : CharacterRendererService) (server : Server)
    → is_rendering_enabled d s ≡ true
    → (with_pack ts token d (value state) label pack s server).1 ≡ true
    → IsShown d state label (with_pack ts token d (value state) label pack s server).0.0
with_pack-IsShown ts token d state label (some i) s server on ok = cc
with_pack-IsShown ts token d state label none s server on ok =
    send_instruction-IsShown ts token d state label create_synth_goblin s server
      (render create_synth_goblin (value state) none label) on ok

render_state-IsShown :
    (ts token d : String) (state : SemanticState) (label : Option String) (pack : Option String)
    (s : CharacterRendererService) (server : Server)
    → (render_state ts token d state label pack s server).1 ≡ true
    → IsShown d state label (render_state ts token d state label pack s server).0.0
unfolding render_state
render_state-IsShown ts token d state label pack s server ok =
    elim (Bool-cases (is_rendering_enabled d s)) [
      | inl on ↦ elim (Bool-cases (is_last (get d s.last_rendered) (value state) label)) [
        | inl l ↦ rw (on, l) (on, l)
        | inr l ↦
            rw (on, l)
              (with_pack-IsShown ts token d state label pack s server on (rw (on, l) at ok))
      ]
      | inr off ↦ elim (clash (rw off at ok)) [ ]
    ]
  where
    clash : false ≡ true → ⊥
    clash e = cc

skipped :
    (ts token d : String) (state : SemanticState) (label : Option String) (pack : Option String)
    (s : CharacterRendererService) (server : Server)
    → is_rendering_enabled d s ≡ true
    → is_last (get d s.last_rendered) (value state) label ≡ true
    → render_state ts token d state label pack s server ≡ ((s, server), true)
unfolding render_state
skipped ts token d state label pack s server on last = rw (on, last) refl

-- Where rendering a state succeeds, rendering it again for the same device, with the same label and
-- whatever pack it has now, sends nothing, changes nothing, and succeeds.
pub render_state-again :
    (ts token d : String) (state : SemanticState) (label : Option String) (pack : Option String)
    (s : CharacterRendererService) (server : Server) (ts' token' : String) (pack' : Option String)
    → (render_state ts token d state label pack s server).1 ≡ true
    → let (s', server') = (render_state ts token d state label pack s server).0 in
      render_state ts' token' d state label pack' s' server' ≡ ((s', server'), true)
render_state-again ts token d state label pack s server ts' token' pack' ok =
    let (on, last) = render_state-IsShown ts token d state label pack s server ok in
    skipped ts' token' d state label pack' (render_state ts token d state label pack s server).0.0
      (render_state ts token d state label pack s server).0.1 on last
