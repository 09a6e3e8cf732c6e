-- ===== src/Characters/Tests.antt =====
-- Character packs on a few inputs, and the theorems there.
use Prim.Native.Char.{Char, code}
use oi_interface.Base.{
  String, Bool, true, false, List, [], ◌∷◌, Option, none, some, ◌≡◌, refl, ◌&&◌, ◌||◌, ltb, map,
  inl, inr, ◌==◌, not, if◌then◌else◌,
}
use oi_interface.Dict.{is_some, get}
use oi_interface.Datp.Server.State.{Server}
use oi_interface.Characters.Pack.{
  pack_from_dict, pack_to_dict, register_pack, get_pack, stored, stored_overlays,
}
use oi_interface.Characters.Stored.{pack_from_dict-pack_to_dict, register_pack_lem}
use oi_interface.Characters.BuiltIn.First.{create_synth_goblin, create_pixel_robot}
use oi_interface.Characters.Validator.{validate, is_pack_id, is_version, invalid_pack_id}
use oi_interface.Characters.Generator.{generate}
use oi_interface.Characters.Generated.{generate-IsMade, IsMade}
use oi_interface.Characters.Renderer.{render}
use oi_interface.Characters.Rendered.{IsRendered, render-IsRendered}
use oi_interface.Characters.Service.{CharacterRendererService, render_state, muted}
use oi_interface.Characters.Repeated.{render_state-again}

abbrev is_digit : Char → Bool
is_digit c = ltb 47 (code c) && ltb (code c) 58

abbrev is_alnum : Char → Bool
is_alnum c = is_digit c || (ltb 96 (code c) && ltb (code c) 123)

robot_valid : validate is_digit is_alnum create_pixel_robot ≡ (true, [])
unfolding validate oi_interface.Characters.Validator.missing_states get oi_interface.Base.same
    oi_interface.Base.mem oi_interface.Characters.Validator.states_errors
    oi_interface.Characters.Validator.state_errors oi_interface.Characters.Validator.overlays_errors
    is_pack_id oi_interface.Characters.Text.is_all oi_interface.Characters.Text.without is_version
    oi_interface.Characters.Text.split_at
robot_valid = refl

pack_from_dict-pack_to_dict_example :
    pack_from_dict (pack_to_dict create_pixel_robot)
    ≡ some (record create_pixel_robot { overlays = stored_overlays none })
pack_from_dict-pack_to_dict_example = pack_from_dict-pack_to_dict create_pixel_robot

register_pack_lem_example :
    let (rows, registered) = register_pack create_pixel_robot (create_synth_goblin ∷ []) in
    (registered ≡ not (is_some (get_pack "pixel-robot" (create_synth_goblin ∷ []))))
    × (get_pack "synth-goblin" rows ≡ (
        if registered && "synth-goblin" == "pixel-robot"
        then some (stored create_pixel_robot)
        else get_pack "synth-goblin" (create_synth_goblin ∷ [])))
register_pack_lem_example =
    register_pack_lem create_pixel_robot (create_synth_goblin ∷ []) "synth-goblin"

new_id : is_pack_id is_digit is_alnum "my_pack-2" ≡ true
unfolding is_pack_id oi_interface.Base.same oi_interface.Characters.Text.is_all
    oi_interface.Characters.Text.without
new_id = refl

one_zero : is_version is_digit is_alnum "1.0" ≡ true
unfolding is_version oi_interface.Base.same oi_interface.Characters.Text.split_at
    oi_interface.Characters.Text.is_all
one_zero = refl

generate-IsMade_example :
    IsMade is_digit is_alnum
      (generate "my_pack-2" "tiny_135x240" "robot" "friendly" "calm" (("idle", "Hi") ∷ []))
unfolding get oi_interface.Base.same oi_interface.Base.mem
generate-IsMade_example =
    generate-IsMade is_digit is_alnum "my_pack-2" "tiny_135x240" "robot" "friendly" "calm"
      (("idle", "Hi") ∷ []) refl refl refl new_id refl (refl, tt) one_zero

-- The id that a prompt with a comma makes, such as "warm, owl", is not valid.
comma_id : is_pack_id is_digit is_alnum "gen-warm,-owl" ≡ false
unfolding is_pack_id oi_interface.Base.same oi_interface.Characters.Text.is_all
    oi_interface.Characters.Text.without
comma_id = refl

render-IsRendered_example :
    IsRendered create_synth_goblin "idle"
      (some "wifi_weak")
      (some "A label that is too long")
      (render create_synth_goblin "idle" (some "wifi_weak") (some "A label that is too long"))
render-IsRendered_example =
    render-IsRendered create_synth_goblin "idle" (some "wifi_weak")
      (some "A label that is too long")

abbrev service : CharacterRendererService
service = record { last_rendered = []; render_enabled = [] }

abbrev server : Server
server = record {
  config = record {
    available_backends = [];
    default_backend_id = none;
    default_agent = none;
    available_agents = [];
  };
  device_registry =
      (
        "desk",
        record {
          ws = 1;
          session_id = "s";
          capabilities = [];
          resume_token = none;
          nonce = none;
          conversation = record { backend_id = none; agent_id = none; session_key = "k" };
        },
      )
      ∷ [];
  registry = none;
  bus = [];
  sent = [];
  closed = [];
}

shown : (render_state "now" "a" "desk" muted none none service server).1 ≡ true
unfolding render_state get render oi_interface.Base.same
    oi_interface.Datp.Server.Dispatch.send_to_device oi_interface.Datp.Messages.build_command
    oi_interface.Datp.Server.State.send oi_interface.Datp.Server.State.among
shown = refl

-- A device that has a pack is not shown any.
assigned_pack_is_not_shown :
    render_state "now" "a" "desk" muted none (some "pixel-robot") service server
    ≡ ((service, server), false)
unfolding render_state get
assigned_pack_is_not_shown = refl

render_state-again_example :
    let (s, server') = (render_state "now" "a" "desk" muted none none service server).0 in
    render_state "later" "b" "desk" muted none none s server' ≡ ((s, server'), true)
render_state-again_example =
    render_state-again "now" "a" "desk" muted none none service server "later" "b" none shown
