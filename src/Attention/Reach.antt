-- ===== src/Attention/Reach.antt =====
-- attention/policy.py: what holds after any sequence of calls from a new policy.
use oi_interface.Attention.State.{
  AttentionPolicy, init, AttentionConfig, AttentionTransition, AttentionState, device_offline,
  timeout,
}
use oi_interface.Attention.Core.{Core}
use oi_interface.Base.{
  List, ◌≡◌, String, ℕ, none, Option, [], mem, arith, Option-cases, ◌≢◌, refl, inl, some, ◌∷◌, inr,
  ◌∙◌, sym, Bool-cases,
}
use oi_interface.Attention.{
  requeue, step, run, Call, release_current, acquires, acquire_attention, releases,
  release_attention, goes_offline, handle_device_offline, acts, record_activity, check_timeouts,
  prioritises, holds_attention, set_priority, checks,
}
use oi_interface.Dict.{Dict, get}
use oi_interface.Attention.Queue.{queue_for}
use oi_interface.Base.Int.{ℤ}
use oi_interface.Attention.Invariant.{subject, step-Core, check_timeouts_ind}
use oi_interface.Attention.Handover.{
  next_holder, still_waiting, acquire_attention-may_take, release_current_lem,
}

-- `Core`, and no device waits while nobody has attention.
pub record Inv (p : AttentionPolicy) : Type 0 where
  pub core : Core p
  pub unattended : p.current_attention ≡ none → p.attention_queue ≡ []

still_waiting_of_none :
    (ds : List String) (devices : Dict AttentionState)
    → next_holder ds devices ≡ none
    → still_waiting ds devices ≡ []
still_waiting_of_none [] devices h = refl
still_waiting_of_none (d ∷ ds) devices h = ground (arith, still_waiting_of_none ds devices)

abbrev Unattended : AttentionPolicy → Type 0
Unattended p = p.current_attention ≡ none → p.attention_queue ≡ []

acquire_attention-Unattended :
    (d reason : String) (priority : Option ℤ) (auto_release : Option ℕ) (tr : AttentionTransition)
    (now : ℕ) (p : AttentionPolicy)
    → Inv p
    → Unattended (acquire_attention d reason priority auto_release tr now p).0
acquire_attention-Unattended d reason priority auto_release tr now p h n =
    ground (arith, acquire_attention-may_take d reason priority auto_release tr now p h.core)

release_current-Unattended :
    (reason : String) (tr : AttentionTransition) (now : ℕ) (p : AttentionPolicy)
    → Unattended p
    → Unattended (release_current reason tr now p)
release_current-Unattended reason tr now p h n = elim (Option-cases p.current_attention) [
  | inl e ↦ unfold release_current in rw (e, release_current) (h e)
  | inr (c, e) ↦
      let (current, waiting) = release_current_lem reason tr now p c e in
      waiting ∙ still_waiting_of_none p.attention_queue p.device_attention (sym current ∙ n)
]

requeue-Unattended :
    (d : String) (priority : ℤ) (p : AttentionPolicy)
    → Unattended p
    → Unattended (requeue d priority p)
unfolding requeue queue_for mem
requeue-Unattended d priority p h n = elim (Bool-cases (mem d p.attention_queue)) [
  | inl m ↦ ground (arith, h)
  | inr m ↦ rw m (h (rw m at n))
]

release_attention-Unattended :
    (d reason : String) (tr : AttentionTransition) (now : ℕ) (p : AttentionPolicy)
    → Unattended p
    → Unattended (release_attention d reason tr now p).0
unfolding release_attention
release_attention-Unattended d reason tr now p h = elim (Bool-cases (holds_attention d p)) [
  | inl t ↦ rw t (release_current-Unattended reason tr now p h)
  | inr t ↦ rw t h
]

handle_device_offline-Unattended :
    (d : String) (now : ℕ) (p : AttentionPolicy)
    → Unattended p
    → Unattended (handle_device_offline d now p).0
unfolding handle_device_offline
handle_device_offline-Unattended d now p h = elim (Bool-cases (holds_attention d p)) [
  | inl t ↦ rw t (release_current-Unattended "device offline" device_offline now p h)
  | inr t ↦ rw t h
]

check_timeouts-Unattended :
    (now : ℕ) (p : AttentionPolicy) → Unattended p → Unattended (check_timeouts now p).0
check_timeouts-Unattended now p h =
    check_timeouts_ind Unattended now p h
      (λ d. release_attention-Unattended d "timeout" timeout now p h)

step-Unattended : (now : ℕ) (c : Call) (p : AttentionPolicy) → Inv p → Unattended (step now c p)
unfolding step
step-Unattended now (acquires d reason priority auto_release tr) p h =
    acquire_attention-Unattended d reason priority auto_release tr now p h
step-Unattended now (releases d reason tr) p h =
    release_attention-Unattended d reason tr now p h.unattended
step-Unattended now (goes_offline d) p h = handle_device_offline-Unattended d now p h.unattended
step-Unattended now (acts d) p h = unfold record_activity in h.unattended
step-Unattended now (prioritises d priority reason) p h =
    unfold set_priority in requeue-Unattended d priority _ h.unattended
step-Unattended now checks p h = check_timeouts-Unattended now p h.unattended

-- Every call on a device with a non-empty id keeps the invariant.
pub step-Inv :
    (now : ℕ) (c : Call) (p : AttentionPolicy) → subject c ≢ some "" → Inv p → Inv (step now c p)
step-Inv now c p n h = record {
  core = step-Core now c p n h.core;
  unattended = step-Unattended now c p h;
}

init-Inv : (cfg : AttentionConfig) → Inv (init cfg)
unfolding init get
init-Inv cfg = record {
  core = record { entries = λ k. ground arith; named = refl; distinct = tt };
  unattended = λ _. refl;
}

abbrev pub AllNamed : List (ℕ × Call) → Type 0
AllNamed [] = Unit
AllNamed ((now, c) ∷ cs) = (subject c ≢ some "") × AllNamed cs

run-Inv : (cs : List (ℕ × Call)) (p : AttentionPolicy) → AllNamed cs → Inv p → Inv (run cs p)
unfolding run
run-Inv [] p n h = h
run-Inv ((now, c) ∷ cs) p n h = run-Inv cs (step now c p) n.1 (step-Inv now c p n.0 h)

-- Every history of calls on a new policy, each about a device with a non-empty id: the holder of
-- attention, if there is one, has the one entry that is active, and its last activity is known; each
-- entry stands under its own id; no device is queued twice; and while nobody has attention nobody is
-- queued.
pub run-init-Inv :
    (cfg : AttentionConfig) (cs : List (ℕ × Call)) → AllNamed cs → Inv (run cs (init cfg))
run-init-Inv cfg cs n = run-Inv cs (init cfg) n (init-Inv cfg)
