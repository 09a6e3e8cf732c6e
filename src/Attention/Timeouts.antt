-- ===== src/Attention/Timeouts.antt =====
-- attention/policy.py: `check_timeouts` and `set_priority`, on every branch.
use oi_interface.Attention.Handover.{next_holder, still_waiting}
use oi_interface.Attention.State.{AttentionPolicy, AttentionState}
use oi_interface.Base.{
  ℕ, String, ◌≡◌, some, ◌<◌, IsDistinct, Option, ◌+◌, ◌≤◌, ◌∷◌, [], arith, ◌∙◌, none, if◌then◌else◌,
  inl, Bool-cases, mem, ◌==◌, inr, ◌&&◌, not, ◌||◌, ap, remove-IsDistinct, mem-remove, remove, List,
  ◌⊎◌,
}
use oi_interface.Attention.{set_priority, requeue, prioritised}
use oi_interface.Base.Int.{ℤ, ltb_ℤ, pos}
use oi_interface.Attention.Core.{Core}
use oi_interface.Dict.{get, Dict, get-put}
use oi_interface.Attention.Queue.{queue_for, mem-queue_for}

-- The holder's limit has run out: it has one that is not 0, and its last activity is that long ago.
abbrev pub IsExpired : ℕ → AttentionState → Type 0
IsExpired now st =
    (limit last : ℕ) × (st.auto_release_after_seconds ≡ some limit)
    × (0 < limit)
    × (st.last_activity ≡ some last)
    × (last + limit ≤ now)

-- Timeouts are enabled, and the holder's limit has run out.
abbrev pub HasExpired : ℕ → AttentionPolicy → String → Type 0
HasExpired now p d =
    (0 < p.config.auto_release_timeout)
    × (p.current_attention ≡ some d)
    × ((st : AttentionState) × (get d p.device_attention ≡ some st) × IsExpired now st)

-- What the check does: an expired holder is reported and loses attention to the first queued device that
-- is tracked; if there is none, nothing is changed or reported.
abbrev pub IsChecked : ℕ → AttentionPolicy → AttentionPolicy × List String → Type 0
IsChecked now p (q, reported) =
    ((d : String) × HasExpired now p d
      × (reported ≡ d ∷ [])
      × (q.current_attention ≡ next_holder p.attention_queue p.device_attention)
      × (q.attention_queue ≡ still_waiting p.attention_queue p.device_attention))
    ⊎ (((d : String) → ¬ HasExpired now p d) × (q ≡ p) × (reported ≡ []))

-- The priority of an entry.
abbrev pub recorded : Option AttentionState → Option ℤ
recorded none = none
recorded (some st) = some st.priority

prioritised-recorded :
    (d : String) (priority : ℤ) (o : Option AttentionState) (k : String)
    (other : Option AttentionState)
    → recorded (if k == d then some (prioritised d priority o) else other)
      ≡ (if k == d then some priority else recorded other)
unfolding prioritised
prioritised-recorded d priority none k other = ground arith
prioritised-recorded d priority (some st) k other = ground arith

requeue_lem :
    (d : String) (priority : ℤ) (p : AttentionPolicy)
    → IsDistinct p.attention_queue
    → (k : String)
    → mem k (requeue d priority p).attention_queue
      ≡ (mem k p.attention_queue && (not (k == d) || ltb_ℤ (pos 0) priority))
unfolding requeue
requeue_lem d priority p u k =
    let q : AttentionPolicy = record p { attention_queue = remove d p.attention_queue } in
    let removed = mem-remove k d p.attention_queue u in
    let queued_again = mem-queue_for d priority q (remove-IsDistinct d p.attention_queue u) k in
    elim (Bool-cases (mem d p.attention_queue)) [
      | inr m ↦ rw m (ground arith)
      | inl m ↦ elim (Bool-cases (ltb_ℤ (pos 0) priority)) [
        | inl t ↦ rw m (rw t (queued_again ∙ ground (arith, removed)))
        | inr t ↦ rw m (rw t (removed ∙ ground arith))
      ]
    ]

requeue_rest :
    (d : String) (priority : ℤ) (p : AttentionPolicy)
    → ((requeue d priority p).current_attention ≡ p.current_attention)
      × ((requeue d priority p).device_attention ≡ p.device_attention)
unfolding requeue queue_for
requeue_rest d priority p = (ground arith, ground arith)

-- Where no device is queued twice, `set_priority` records the priority of its device and leaves
-- the priorities of the others and the holder of attention alone; the queue keeps the other
-- devices, and the device itself only if the priority is positive.
set_priority_lem :
    (d : String) (priority : ℤ) (reason : String) (p : AttentionPolicy)
    → IsDistinct p.attention_queue
    → (k : String)
    → let q = set_priority d priority reason p in
      (q.current_attention ≡ p.current_attention)
      × (recorded (get k q.device_attention)
          ≡ (if k == d then some priority else recorded (get k p.device_attention)))
      × (mem k q.attention_queue
          ≡ (mem k p.attention_queue && (not (k == d) || ltb_ℤ (pos 0) priority)))
unfolding set_priority
set_priority_lem d priority reason p u k =
    let rest = requeue_rest d priority _ in
    (
      rest.0,
      ap (λ (t : Dict AttentionState). recorded (get k t)) rest.1
          ∙ rw get-put (
              prioritised-recorded d priority (get d p.device_attention) k
                (get k p.device_attention)),
      requeue_lem d priority _ u k,
    )
