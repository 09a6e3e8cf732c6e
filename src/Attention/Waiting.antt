-- ===== src/Attention/Waiting.antt =====
-- attention/policy.py: what becomes of a device that was denied attention and waits in the queue.
use oi_interface.Attention.State.{AttentionPolicy, AttentionTransition, explicit}
use oi_interface.Attention.{acquire_attention, release_attention, clear_way, release_only, contest}
use oi_interface.Base.{
  String, Option, ℕ, List, ◌≡◌, true, some, ◌∷◌, [], none, false, Bool-cases, inl, arith, inr, ◌∙◌,
  ◌==◌, mem, refl,
}
use oi_interface.Base.Int.{ℤ, pos}
use oi_interface.Attention.Core.{Core, holder-truthy}
use oi_interface.Dict.{has, get, or_default, get-put}
use oi_interface.Attention.Queue.{outranking, queue_for, insert_by_priority}
use oi_interface.Attention.Handover.{acquire_attention-may_take, release_attention_hands_over}

clear_way-queue :
    (d : String) (requested : ℤ) (p : AttentionPolicy)
    → (clear_way d requested p).1 ≡ true
    → (clear_way d requested p).0.attention_queue ≡ p.attention_queue
unfolding clear_way release_only
clear_way-queue d requested p t = ground arith

acquire_attention-granted :
    (d reason : String) (priority : Option ℤ) (auto_release : Option ℕ) (tr : AttentionTransition)
    (now : ℕ) (p : AttentionPolicy)
    → let (q, granted) = acquire_attention d reason priority auto_release tr now p in
      granted ≡ true → (q.attention_queue ≡ p.attention_queue) × (has d q.device_attention ≡ true)
unfolding acquire_attention
acquire_attention-granted d reason priority auto_release tr now p g =
    let requested = or_default priority p.config.default_priority in
    elim (Bool-cases (clear_way d requested p).1) [
      | inl t ↦ rw t (clear_way-queue d requested p t, rw get-put (ground arith))
      | inr t ↦ cc (g, t)
    ]

release_first :
    (d : String) (tr : AttentionTransition) (now : ℕ) (q : AttentionPolicy) (rest : List String)
    → q.current_attention ≡ some d
    → q.attention_queue ≡ d ∷ rest
    → has d q.device_attention ≡ true
    → (release_attention d "" tr now q).0.current_attention ≡ some d
release_first d tr now q rest holds heads tracked =
    ground (arith, release_attention_hands_over d "" tr now q)

release_last :
    (c d : String) (tr : AttentionTransition) (now : ℕ) (q : AttentionPolicy)
    → q.current_attention ≡ some c
    → q.attention_queue ≡ d ∷ []
    → get d q.device_attention ≡ none
    → ((release_attention c "" tr now q).0.current_attention ≡ none)
      × ((release_attention c "" tr now q).0.attention_queue ≡ [])
release_last c d tr now q holds waits untracked = (
  ground (arith, release_attention_hands_over c "" tr now q),
  ground (arith, release_attention_hands_over c "" tr now q),
)

-- In a state in order, a device that heads the queue and is granted attention by a request of its
-- own gets it back when it releases it.
release_own_place :
    (d reason : String) (priority : Option ℤ) (auto_release : Option ℕ) (tr : AttentionTransition)
    (now later : ℕ) (p : AttentionPolicy) (rest : List String)
    → Core p
    → p.attention_queue ≡ d ∷ rest
    → (acquire_attention d reason priority auto_release tr now p).1 ≡ true
    → let q = (acquire_attention d reason priority auto_release tr now p).0 in
      (release_attention d "" explicit later q).0.current_attention ≡ some d
release_own_place d reason priority auto_release tr now later p rest h e g =
    let (queue, tracked) = acquire_attention-granted d reason priority auto_release tr now p g in
    let holds = (acquire_attention-may_take d reason priority auto_release tr now p h).1 in
    release_first d explicit later _ rest (rw g at holds) (queue ∙ e) tracked

acquire_attention_queues :
    (c d reason : String) (priority : Option ℤ) (auto_release : Option ℕ) (tr : AttentionTransition)
    (now : ℕ) (p : AttentionPolicy)
    → Core p
    → p.current_attention ≡ some c
    → (c == d) ≡ false
    → p.config.enable_priority ≡ true
    → outranking (or_default priority p.config.default_priority) (get c p.device_attention) ≡ true
    → acquire_attention d reason priority auto_release tr now p
      ≡ (queue_for d (or_default priority p.config.default_priority) p, false)
unfolding acquire_attention
acquire_attention_queues c d reason priority auto_release tr now p h e other on above =
    rw (e, clear_way)
      (rw (holder-truthy d (pos 0) p h c e) (rw other (rw (on, contest) (rw above (ground arith)))))

-- In a state in order, with priorities enabled and nobody queued, a device that was never tracked
-- and asks at a lower priority than that of the holder is denied attention and waits in the queue,
-- but does not get attention when the holder releases it: the release drops it.
untracked_is_dropped :
    (c d reason : String) (priority : Option ℤ) (auto_release : Option ℕ) (tr : AttentionTransition)
    (now later : ℕ) (p : AttentionPolicy)
    → Core p
    → p.current_attention ≡ some c
    → p.attention_queue ≡ []
    → get d p.device_attention ≡ none
    → p.config.enable_priority ≡ true
    → outranking (or_default priority p.config.default_priority) (get c p.device_attention) ≡ true
    → let (q, granted) = acquire_attention d reason priority auto_release tr now p in
      let r = (release_attention c "" explicit later q).0 in
      (granted ≡ false)
      × (q.attention_queue ≡ d ∷ [])
      × (r.current_attention ≡ none)
      × (r.attention_queue ≡ [])
untracked_is_dropped c d reason priority auto_release tr now later p h e w u on above =
    let requested = or_default priority p.config.default_priority in
    let denied =
      acquire_attention_queues c d reason priority auto_release tr now p h e
        (ground (arith, h.entries c)) on above in
    let queue : (queue_for d requested p).attention_queue ≡ d ∷ [] =
      unfold queue_for mem insert_by_priority in rw (w, queue_for) in
    let (current, waiting) =
      release_last c d explicit later (queue_for d requested p) (unfold queue_for in e) queue
        (unfold queue_for in u) in
    rw denied (refl, queue, current, waiting)
