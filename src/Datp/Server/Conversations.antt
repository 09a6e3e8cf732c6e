-- ===== src/Datp/Server/Conversations.antt =====
-- datp/server.py: the conversations of all devices stay on offer, in every order of events.
use oi_interface.Base.{
  String, Bool, true, List, [], ◌∷◌, ◌++◌, Option, none, some, ◌==◌, ◌&&◌, ◌≡◌, refl, ◌⊎◌, inl, inr,
  Bool-cases, ℕ, ◌∙◌, ap, sym, not, All,
}
use mathlib.Core.Path.{subst}
use oi_interface.Dict.{Dict, get, put, get-put, pop, get-pop, has}
use oi_interface.Json.{Json}
use oi_interface.Datp.Messages.{Message}
use oi_interface.Datp.Server.Conversation.{Conversation, Config}
use oi_interface.Datp.Server.Offered.{IsValid}
use oi_interface.Datp.Server.State.{
  Server, Connection, DeviceEntry, Result, returned, connection_closed, close,
  connection_owns_device, send,
}
use oi_interface.Datp.Server.Hello.{Incoming, hello_begin, Begun, refused, going_on, entry_of}
use oi_interface.Datp.Server.Dispatch.{end_connection, send_to_device, and_sent, send_entry}
use oi_interface.Datp.Server.Effect.{
  Effect, same_table, written, IsSame, hello_begin-IsSame, hello_end-table, send-config,
  send-device_registry,
}
use oi_interface.Datp.Server.Handled.{
  dispatch-Effect, hello_begin-IsValid, update_device_conversation-Effect,
}
use oi_interface.Datp.Server.Reach.{
  System, Waiting, Event, received, resumed, ended, lost, outgoing, chosen, postponed, step, run,
  begun, resume, behind, receive,
}

-- The configuration stays, and the entries have conversations that it offers.
abbrev pub IsServed : Config → Server → Type 0
IsServed c s =
    (s.config ≡ c)
    × ((k : String) (e : DeviceEntry) → get k s.device_registry ≡ some e → IsValid c e.conversation)

abbrev pub AllValid : Config → System → Type 0
AllValid c y = IsServed c y.server × All (λ p. IsValid c p.conversation) y.waiting

IsServed-same : (c : Config) (s s' : Server) → IsSame s s' → IsServed c s → IsServed c s'
IsServed-same c s s' h v = (h.0 ∙ v.0, λ k e g. v.1 k e (sym (ap (get k) h.1) ∙ g))

put-IsValid :
    (c : Config) (d : String) (e : DeviceEntry) (table : Dict DeviceEntry)
    → ((k : String) (x : DeviceEntry) → get k table ≡ some x → IsValid c x.conversation)
    → IsValid c e.conversation
    → (k : String) (x : DeviceEntry) → get k (put d e table) ≡ some x
    → IsValid c x.conversation
put-IsValid c d e table h v k x g = elim (Bool-cases (k == d)) [
  | inl t ↦
      let same : some e ≡ some x = sym (get-put k d e table ∙ rw t refl) ∙ g in
      let same_entry : e ≡ x = cc in subst (λ y. IsValid c y.conversation) same_entry v
  | inr t ↦ h k x (sym (get-put k d e table ∙ rw t refl) ∙ g)
]

Effect-IsServed :
    (c : Config) (w : Connection) (d : String) (s s' : Server)
    → Effect w d s s'
    → IsServed c s
    → IsServed c s'
Effect-IsServed c w d s s' (same_table h t) v = IsServed-same c s s' (h, t) v
Effect-IsServed c w d s s' (written e h t u o) v = (
  h ∙ v.0,
  λ k x g.
      put-IsValid c d e s.device_registry v.1 (subst (λ r. IsValid r e.conversation) v.0 u) k x
        (sym (ap (get k) t) ∙ g),
)

behind-All :
    (P : Waiting → Type 0) (p : Waiting) (ps : List Waiting) → P p → All P ps → All P (ps ++ p ∷ [])
behind-All P p [] h hs = (h, tt)
behind-All P p (q ∷ ps) h hs = (hs.0, behind-All P p ps h hs.1)

and_sent-IsSame :
    (s : Server) (x : Server × Result (Unit {0})) → IsSame s x.0 → IsSame s (and_sent x).0
and_sent-IsSame s (s', returned u) h = h
and_sent-IsSame s (s', connection_closed) h = h

send_entry-IsSame :
    (m : Message) (s : Server) (o : Option DeviceEntry) → IsSame s (send_entry m s o).0
send_entry-IsSame m s none = (refl, refl)
send_entry-IsSame m s (some e) = elim (Bool-cases (has "v" m && has "type" m && has "id" m)) [
  | inl t ↦
      rw t (and_sent-IsSame s (send e.ws m s) (send-config e.ws m s, send-device_registry e.ws m s))
  | inr t ↦ rw t (refl, refl)
]

send_to_device-IsSame : (d : String) (m : Message) (s : Server) → IsSame s (send_to_device d m s).0
unfolding send_to_device
send_to_device-IsSame d m s = send_entry-IsSame m s (get d s.device_registry)

module _ (same_value : Json → Json → Bool) (c : Config) where
  begun-AllValid :
      (w : Connection) (m : Incoming) (waiting : List Waiting) (s : Server) (b : Begun)
      → IsServed c s
      → All (λ p. IsValid c p.conversation) waiting
      → ((v : Conversation) (agent : Option (Dict Json)) → b ≡ going_on v agent → IsValid c v)
      → AllValid c (begun same_value w m waiting (s, b))
  begun-AllValid w m waiting s (refused r) h hs v = (h, hs)
  begun-AllValid w m waiting s (going_on u agent) h hs v = (h, (v u agent refl, hs))

  resume-AllValid :
      (now : ℕ) (ts session_id : String) (s : Server) (waiting : List Waiting)
      → IsServed c s
      → All (λ p. IsValid c p.conversation) waiting
      → AllValid c (resume same_value now ts session_id s waiting)
  resume-AllValid now ts session_id s [] h hs = (h, tt)
  resume-AllValid now ts session_id s (p ∷ waiting) h hs =
      let (same_config, table) =
        hello_end-table same_value now ts session_id p.connection p.hello p.conversation p.agent
          s in
      let e = entry_of p.connection session_id p.hello.payload p.conversation in
      (
        (
          same_config ∙ h.0,
          λ k x g.
              put-IsValid c p.hello.device_id e s.device_registry h.1 hs.0 k x
                (sym (ap (get k) table) ∙ g),
        ),
        hs.1,
      )

  ended-IsServed :
      (now : ℕ) (w : Connection) (d : Option String) (s : Server)
      → IsServed c s
      → IsServed c (end_connection same_value now w d s)
  unfolding end_connection
  ended-IsServed now w none s h = h
  ended-IsServed now w (some d) s h =
      elim (Bool-cases (not (d == "") && connection_owns_device w d s)) [
        | inl t ↦ rw t (h.0, λ k x g. kept k x g)
        | inr t ↦ rw t h
      ]
    where
      kept :
          (k : String) (x : DeviceEntry)
          → get k (pop d s.device_registry) ≡ some x
          → IsValid c x.conversation
      kept k x g = elim (Bool-cases (k == d)) [
        | inl t ↦
            let gone : none ≡ some x = sym (get-pop k d s.device_registry ∙ rw t refl) ∙ g in cc
        | inr t ↦ h.1 k x (sym (get-pop k d s.device_registry ∙ rw t refl) ∙ g)
      ]

  receive-AllValid :
      (now : ℕ) (ts session_id : String) (w : Connection) (raw : String ⊎ Incoming) (y : System)
      → AllValid c y
      → AllValid c (receive same_value now ts session_id w raw y)
  receive-AllValid now ts session_id w (inl problem) y h = (
    Effect-IsServed c w "" y.server _
        (dispatch-Effect same_value now ts session_id w (inl problem) y.server) h.0,
    h.1,
  )
  receive-AllValid now ts session_id w (inr m) y h = elim (Bool-cases (m.msg_type == "hello")) [
    | inl t ↦
        let b = hello_begin ts w m y.server in
        rw t (
          begun-AllValid w m y.waiting b.0 b.1
            (IsServed-same c y.server b.0 (hello_begin-IsSame ts w m y.server) h.0) h.1
            (λ u agent e.
              subst (λ r. IsValid r u) h.0.0 (hello_begin-IsValid ts w m y.server u agent e)))
    | inr t ↦ rw t (
      Effect-IsServed c w m.device_id y.server _
          (dispatch-Effect same_value now ts session_id w (inr m) y.server) h.0,
      h.1,
    )
  ]

  sent-IsServed :
      (d : String) (m : Message) (s : Server) → IsServed c s → IsServed c (send_to_device d m s).0
  sent-IsServed d m s h = IsServed-same c s (send_to_device d m s).0 (send_to_device-IsSame d m s) h

  postponed-All :
      (waiting : List Waiting)
      → All (λ p. IsValid c p.conversation) waiting
      → All (λ p. IsValid c p.conversation) (behind same_value waiting)
  postponed-All [] h = tt
  postponed-All (p ∷ waiting) h = behind-All (λ q. IsValid c q.conversation) p waiting h.0 h.1

  step-AllValid : (e : Event) (y : System) → AllValid c y → AllValid c (step same_value e y)
  unfolding step close
  step-AllValid (received now ts session_id w raw) y h =
      receive-AllValid now ts session_id w raw y h
  step-AllValid (resumed now ts session_id) y h =
      resume-AllValid now ts session_id y.server y.waiting h.0 h.1
  step-AllValid (ended now w d) y h = (ended-IsServed now w d y.server h.0, h.1)
  step-AllValid (lost w) y h = h
  step-AllValid (outgoing d m) y h = (sent-IsServed d m y.server h.0, h.1)
  step-AllValid (chosen ts d backend_id agent_id session_key) y h = (
    Effect-IsServed c 0 d y.server _
        (update_device_conversation-Effect same_value 0 ts d backend_id agent_id session_key true 0
          y.server)
        h.0,
    h.1,
  )
  step-AllValid postponed y h = (h.0, postponed-All y.waiting h.1)

  -- If it is so at first, then after any events in any order each device has a backend and an agent that
  -- are configured, or the default ones, and a session key that is not empty.
  pub run-AllValid :
      (events : List Event) (y : System) → AllValid c y → AllValid c (run same_value events y)
  unfolding run
  run-AllValid [] y h = h
  run-AllValid (e ∷ events) y h = run-AllValid events (step same_value e y) (step-AllValid e y h)
