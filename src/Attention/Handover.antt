-- ===== src/Attention/Handover.antt =====
-- attention/policy.py: who has attention after a request, and after a release.
use oi_interface.Attention.State.{
  AttentionTransition, AttentionState, AttentionPolicy, implicit, released,
}
use oi_interface.Attention.{
  acquire_attention, process_queue, release_current, release_attention, release_only, idled,
  resolve, clear_way, contest, Contest, overtaken, queued, refused,
}
use oi_interface.Base.{
  if◌then◌else◌, ◌==◌, arith, Bool-cases, inl, ◌||◌, inr, ◌&&◌, List, String, ◌≡◌, none, ℕ, Option,
  ◌∷◌, Bool, true, some, not, false, Option-cases, [], ◌∙◌, refl, ◌++◌, truthy,
}
use oi_interface.Dict.{get-update, Dict, has, update, or_default, get}
use oi_interface.Attention.Core.{Core, holder-truthy}
use oi_interface.Base.Int.{ℤ}
use oi_interface.Attention.Queue.{outranking, queue_for}

-- The first tracked device of a queue, and the queue behind it.
abbrev pub next_holder : List String → Dict AttentionState → Option String
next_holder [] devices = none
next_holder (d ∷ ds) devices =
    let rest = next_holder ds devices in if has d devices then some d else rest

abbrev pub is_holder : String → Option String → Bool
is_holder d none = false
is_holder d (some c) = c == d

abbrev pub still_waiting : List String → Dict AttentionState → List String
still_waiting [] devices = []
still_waiting (d ∷ ds) devices =
    let rest = still_waiting ds devices in if has d devices then ds else rest

-- Whether a request at `requested` by `d` is granted, read off the documentation: the device has
-- attention already, or none has, or the holder neither outranks it nor must release explicitly.
abbrev pub may_take : String → ℤ → AttentionPolicy → Bool
may_take d requested p = elim p.current_attention [
  | none ↦ true
  | some c ↦
      (c == d)
      || not (p.config.require_explicit_release)
        && not (p.config.enable_priority && outranking requested (get c p.device_attention))
]

module _ (p : AttentionPolicy) (free : p.current_attention ≡ none) where
  acquire_free :
      (d reason : String) (priority : Option ℤ) (auto_release : Option ℕ) (tr : AttentionTransition)
      (now : ℕ)
      → let q = acquire_attention d reason priority auto_release tr now p in
        (q.1 ≡ true) × (q.0.current_attention ≡ some d) × (q.0.attention_queue ≡ p.attention_queue)
  unfolding acquire_attention
  acquire_free d reason priority auto_release tr now = (ground arith, ground arith, ground arith)

process_queue_lem :
    (ds : List String) (now : ℕ) (p : AttentionPolicy)
    → p.current_attention ≡ none
    → ((process_queue ds now p).current_attention ≡ next_holder ds p.device_attention)
      × ((process_queue ds now p).attention_queue ≡ still_waiting ds p.device_attention)
unfolding process_queue
process_queue_lem [] now p free = (free, refl)
process_queue_lem (d ∷ ds) now p free = elim (Bool-cases (has d p.device_attention)) [
  | inl t ↦
      let q : AttentionPolicy = record p { attention_queue = ds } in
      let (granted, holds, waits) = acquire_free q free d "queued" none none implicit now in
      rw t (holds, waits)
  | inr t ↦ rw t (process_queue_lem ds now p free)
]

-- A write to an entry adds and removes no key.
has-update :
    (f : AttentionState → AttentionState) (d k : String) (devices : Dict AttentionState)
    → has k (update d f devices) ≡ has k devices
has-update f d k devices = rw get-update (ground arith)

module _ (f : AttentionState → AttentionState) (d : String) (devices : Dict AttentionState) where
  next_holder-update :
      (ds : List String) → next_holder ds (update d f devices) ≡ next_holder ds devices
  next_holder-update [] = refl
  next_holder-update (e ∷ es) = rw has-update (rw (next_holder-update es))

  still_waiting-update :
      (ds : List String) → still_waiting ds (update d f devices) ≡ still_waiting ds devices
  still_waiting-update [] = refl
  still_waiting-update (e ∷ es) = rw has-update (rw (still_waiting-update es))

release_only_held :
    (reason : String) (tr : AttentionTransition) (p : AttentionPolicy) (c : String)
    → p.current_attention ≡ some c
    → release_only reason tr p ≡ record p {
      current_attention = none;
      device_attention = update c idled p.device_attention;
      events = p.events ++ released c reason tr ∷ [];
    }
unfolding release_only
release_only_held reason tr p c e = rw (e, release_only)

pub release_current_lem :
    (reason : String) (tr : AttentionTransition) (now : ℕ) (p : AttentionPolicy) (c : String)
    → p.current_attention ≡ some c
    → let q = release_current reason tr now p in
      (q.current_attention ≡ next_holder p.attention_queue p.device_attention)
      × (q.attention_queue ≡ still_waiting p.attention_queue p.device_attention)
unfolding release_current
release_current_lem reason tr now p c e =
    rw (e, release_current)
      (rw (release_only_held reason tr p c e) (
        (process_queue_lem p.attention_queue now _ refl).0
            ∙ next_holder-update idled c p.device_attention p.attention_queue,
        (process_queue_lem p.attention_queue now _ refl).1
            ∙ still_waiting-update idled c p.device_attention p.attention_queue,
      ))

-- Releasing from the device that has attention hands it to the first queued device that is tracked,
-- drops the untracked devices before it, and returns True; if none is tracked, the queue is empty
-- and nobody has attention. From any other device the answer is False, and the holder and the queue
-- stay.
pub release_attention_hands_over :
    (d reason : String) (tr : AttentionTransition) (now : ℕ) (p : AttentionPolicy)
    → let (q, done) = release_attention d reason tr now p in
      (done ≡ is_holder d p.current_attention)
      × (q.current_attention ≡ (
          if done then next_holder p.attention_queue p.device_attention else p.current_attention))
      × (q.attention_queue ≡ (
          if done then still_waiting p.attention_queue p.device_attention else p.attention_queue))
unfolding release_attention
release_attention_hands_over d reason tr now p = elim (Option-cases p.current_attention) [
  | inl e ↦ (ground arith, ground arith, ground arith)
  | inr (c, e) ↦
      let (current, waiting) = release_current_lem reason tr now p c e in
      (ground arith, ground arith, ground arith)
]

resolve-contest :
    (d : String) (requested : ℤ) (o : Option AttentionState) (p : AttentionPolicy)
    → (resolve (contest p.config o requested) d requested p).1 ≡ (
        not (p.config.require_explicit_release)
        && not (p.config.enable_priority && outranking requested o))
unfolding resolve contest
resolve-contest d requested o p = ground arith

resolve_refused :
    (d : String) (requested : ℤ) (p : AttentionPolicy) (c : Contest)
    → (resolve c d requested p).1 ≡ false
    → (resolve c d requested p).0.current_attention ≡ p.current_attention
unfolding resolve queue_for
resolve_refused d requested p queued r = refl
resolve_refused d requested p refused r = refl
resolve_refused d requested p (overtaken tr) r = cc

-- The guard lets a request through exactly if `may_take` says so, and leaves the holder otherwise.
clear_way_lem :
    (d : String) (requested : ℤ) (p : AttentionPolicy)
    → Core p
    → ((clear_way d requested p).1 ≡ may_take d requested p)
      × ((clear_way d requested p).1 ≡ false
          → (clear_way d requested p).0.current_attention ≡ p.current_attention)
unfolding clear_way
clear_way_lem d requested p h = elim (Option-cases p.current_attention) [
  | inl e ↦ (ground arith, ground arith)
  | inr (c, e) ↦ (
    ground (
      arith,
      holder-truthy d requested p h c e,
      resolve-contest d requested (get c p.device_attention) p,
    ),
    elim (Bool-cases (truthy c && not (c == d))) [
      | inl t ↦ rw (e, clear_way) (rw t (λ r. resolve_refused d requested p _ r ∙ e))
      | inr t ↦ λ r. rw (e, clear_way) (rw t e)
    ],
  )
]

-- In a state whose entries and queue are in order (Core), a request is granted exactly if the
-- device has attention already, or nobody has, or the holder may be overtaken: explicit releases
-- are not required, and the holder does not have a higher priority while priorities are enabled.
-- The device that is granted attention has it, and otherwise the holder keeps it.
pub acquire_attention-may_take :
    (d reason : String) (priority : Option ℤ) (auto_release : Option ℕ) (tr : AttentionTransition)
    (now : ℕ) (p : AttentionPolicy)
    → Core p
    → let (q, granted) = acquire_attention d reason priority auto_release tr now p in
      (granted ≡ may_take d (or_default priority p.config.default_priority) p)
      × (q.current_attention ≡ (if granted then some d else p.current_attention))
unfolding acquire_attention
acquire_attention-may_take d reason priority auto_release tr now p h =
    let requested = or_default priority p.config.default_priority in
    let (decides, stays) = clear_way_lem d requested p h in
    elim (Bool-cases (clear_way d requested p).1) [
      | inl t ↦ rw t (rw t at decides, refl)
      | inr t ↦ rw t (rw t at decides, stays t)
    ]
