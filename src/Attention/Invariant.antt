-- ===== src/Attention/Invariant.antt =====
-- attention/policy.py: what holds of the policy between two calls.
use oi_interface.Base.{
  ℕ, String, ◌≡◌, ◌≢◌, inl, inr, Option, none, some, List, [], ◌∷◌, arith, Bool-cases, Option-cases,
  mem, remove, IsDistinct, remove-IsDistinct, ap,
}
use oi_interface.Base.Int.{ℤ, pos, ltb_ℤ}
use oi_interface.Dict.{get, has, get-put}
use oi_interface.Attention.State.{AttentionTransition, AttentionState, AttentionPolicy}
use oi_interface.Attention.{
  clear_way, acquire_attention, process_queue, release_current, release_attention,
  handle_device_offline, requeue, set_priority, timed_out, check_timeouts, Call, acquires, releases,
  goes_offline, acts, prioritises, checks, step, truthy, or_default, implicit, holds_attention,
  is_due, truthy_ℕ, device_offline, timeout,
}
use oi_interface.Attention.Core.{
  Core, release_only-Core, grant-Core, queue_for-Core, record_activity-Core, clear_way-Core,
  clear_way-current,
}

module _ (p : AttentionPolicy) (h : Core p) where
  acquire_attention-Core :
      (d reason : String) (priority : Option ℤ) (auto_release : Option ℕ) (tr : AttentionTransition)
      (now : ℕ)
      → d ≢ ""
      → Core (acquire_attention d reason priority auto_release tr now p).0
  unfolding acquire_attention
  acquire_attention-Core d reason priority auto_release tr now nonempty =
      let requested = or_default priority p.config.default_priority in
      let q-Core = clear_way-Core d requested p h in
      elim (Bool-cases (clear_way d requested p).1) [
        | inl t ↦ rw t (
            grant-Core (clear_way d requested p).0 q-Core d reason priority auto_release tr now
              nonempty (clear_way-current d requested p h t))
        | inr t ↦ rw t q-Core
      ]

  requeue-Core : (d : String) (priority : ℤ) → Core (requeue d priority p)
  unfolding requeue
  requeue-Core d priority =
      let q : AttentionPolicy = record p { attention_queue = remove d p.attention_queue } in
      let q-Core : Core q = record {
        entries = h.entries;
        named = h.named;
        distinct = remove-IsDistinct d p.attention_queue h.distinct;
      } in
      elim (Bool-cases (mem d p.attention_queue)) [
        | inl m ↦ elim (Bool-cases (ltb_ℤ (pos 0) priority)) [
          | inl t ↦ rw m (rw t (queue_for-Core _ q-Core d priority))
          | inr t ↦ rw m (rw t q-Core)
        ]
        | inr m ↦ rw m h
      ]

process_queue-Core :
    (ds : List String) (now : ℕ) (p : AttentionPolicy)
    → IsDistinct ds
    → Core p
    → Core (process_queue ds now p)
unfolding process_queue
process_queue-Core [] now p u h = record { entries = h.entries; named = h.named; distinct = tt }
process_queue-Core (d ∷ ds) now p u h = elim (Bool-cases (has d p.device_attention)) [
  | inl t ↦ rw t (
      acquire_attention-Core (record p { attention_queue = ds })
        (record { entries = h.entries; named = h.named; distinct = u.1 }) d "queued" none none
        implicit now (λ (e : d ≡ ""). ground (arith, h.named)))
  | inr t ↦ rw t (process_queue-Core ds now p u.1 h)
]

release_current-Core :
    (reason : String) (tr : AttentionTransition) (now : ℕ) (p : AttentionPolicy)
    → Core p
    → Core (release_current reason tr now p)
unfolding release_current
release_current-Core reason tr now p h =
    let q-Core = release_only-Core p h reason tr in
    elim (Option-cases p.current_attention) [
      | inl e ↦ rw (e, release_current) h
      | inr (c, e) ↦ rw (e, release_current) (process_queue-Core _ now _ q-Core.distinct q-Core)
    ]

set_priority-Core :
    (d : String) (priority : ℤ) (reason : String) (p : AttentionPolicy)
    → d ≢ ""
    → Core p
    → Core (set_priority d priority reason p)
unfolding set_priority
set_priority-Core d priority reason p nonempty h =
    requeue-Core _
      (record {
        entries = λ k. elim (Option-cases (get d p.device_attention)) [
          | inl e ↦ rw (e, get-put) (ground (arith, h.entries k, h.entries d))
          | inr (st, e) ↦ rw (e, get-put) (ground (arith, h.entries k, h.entries d))
        ];
        named = rw get-put (ground (arith, h.named));
        distinct = h.distinct;
      })
      d priority

release_attention-Core :
    (d reason : String) (tr : AttentionTransition) (now : ℕ) (p : AttentionPolicy)
    → Core p
    → Core (release_attention d reason tr now p).0
unfolding release_attention
release_attention-Core d reason tr now p h = elim (Bool-cases (holds_attention d p)) [
  | inl t ↦ rw t (release_current-Core reason tr now p h)
  | inr t ↦ rw t h
]

handle_device_offline-Core :
    (d : String) (now : ℕ) (p : AttentionPolicy) → Core p → Core (handle_device_offline d now p).0
unfolding handle_device_offline
handle_device_offline-Core d now p h = elim (Bool-cases (holds_attention d p)) [
  | inl t ↦ rw t (release_current-Core "device offline" device_offline now p h)
  | inr t ↦ rw t h
]

module _ {ℓ} (P : AttentionPolicy → Type ℓ) (now : ℕ) (p : AttentionPolicy) (unchanged : P p) where
  module _ (released : (d : String) → P (release_attention d "timeout" timeout now p).0) where
    timed_out_ind : (d : String) (o : Option AttentionState) → P (timed_out d o now p).0
    unfolding timed_out
    timed_out_ind d none = unchanged
    timed_out_ind d (some st) = elim (Bool-cases (is_due st now)) [
      | inl t ↦ rw t (released d)
      | inr t ↦ rw t unchanged
    ]

    -- `check_timeouts` leaves the policy alone, or releases attention for a timeout.
    pub check_timeouts_ind : P (check_timeouts now p).0
    unfolding check_timeouts
    check_timeouts_ind = elim (Bool-cases (truthy_ℕ p.config.auto_release_timeout)) [
      | inr t ↦ rw t unchanged
      | inl t ↦ elim (Option-cases p.current_attention) [
        | inl e ↦ rw t (rw (e, check_timeouts) unchanged)
        | inr (d, e) ↦ elim (Bool-cases (truthy d)) [
          | inl n ↦ rw (t, e, check_timeouts) (rw n (timed_out_ind d (get d p.device_attention)))
          | inr n ↦ rw (t, e, check_timeouts) (rw n unchanged)
        ]
      ]
    ]

-- The device that a call names.
abbrev pub subject : Call → Option String
subject (acquires d _ _ _ _) = some d
subject (releases d _ _) = some d
subject (goes_offline d) = some d
subject (acts d) = some d
subject (prioritises d _ _) = some d
subject checks = none

pub step-Core :
    (now : ℕ) (c : Call) (p : AttentionPolicy) → subject c ≢ some "" → Core p → Core (step now c p)
unfolding step
step-Core now (acquires d reason priority auto_release tr) p n h =
    acquire_attention-Core p h d reason priority auto_release tr now (λ e. n (ap some e))
step-Core now (releases d reason tr) p n h = release_attention-Core d reason tr now p h
step-Core now (goes_offline d) p n h = handle_device_offline-Core d now p h
step-Core now (acts d) p n h = record_activity-Core p h d now
step-Core now (prioritises d priority reason) p n h =
    set_priority-Core d priority reason p (λ e. n (ap some e)) h
step-Core now checks p n h =
    check_timeouts_ind Core now p h (λ d. release_attention-Core d "timeout" timeout now p h)
