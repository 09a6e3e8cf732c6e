-- ===== src/Attention/Queue.antt =====
-- attention/policy.py: `_queue_for_attention`, the queue of devices that were denied.
use oi_interface.Base.{
  String, ◌≡◌, Bool, true, false, Option, none, some, List, [], ◌∷◌, arith, if◌then◌else◌, ◌==◌,
  mem, remove, IsDistinct, mem-remove, remove-IsDistinct, Bool-cases, inl, inr,
}
use oi_interface.Base.Int.{ℤ, ltb_ℤ}
use oi_interface.Dict.{Dict, get}
use oi_interface.Attention.State.{AttentionState, AttentionPolicy}

-- Whether the queued device is tracked with a priority below `priority`.
unfoldable pub outranked : ℤ → Option AttentionState → Bool
outranked priority none = false
outranked priority (some st) = ltb_ℤ st.priority priority

-- Whether the device is tracked with a priority above `priority`.
unfoldable pub outranking : ℤ → Option AttentionState → Bool
outranking priority none = false
outranking priority (some st) = ltb_ℤ priority st.priority

-- The `for` loop: before the first device that `priority` outranks, or at the end.
unfoldable pub insert_by_priority : String → ℤ → Dict AttentionState → List String → List String
unfolding outranked
insert_by_priority d priority devices [] = d ∷ []
insert_by_priority d priority devices (e ∷ es) =
    if outranked priority (get e devices)
    then d ∷ e ∷ es
    else e ∷ insert_by_priority d priority devices es

unfoldable pub queue_for : String → ℤ → AttentionPolicy → AttentionPolicy
queue_for d priority p = record p {
  attention_queue =
      insert_by_priority d priority p.device_attention
        (if mem d p.attention_queue then remove d p.attention_queue else p.attention_queue);
}

module _ (d : String) (priority : ℤ) (devices : Dict AttentionState) where
  pub mem-insert_by_priority :
      (x : String) (es : List String)
      → mem x (insert_by_priority d priority devices es) ≡ (if x == d then true else mem x es)
  unfolding mem insert_by_priority
  mem-insert_by_priority x [] = ground arith
  mem-insert_by_priority x (e ∷ es) = ground (arith, mem-insert_by_priority x es)

  pub insert_by_priority-IsDistinct :
      (es : List String)
      → mem d es ≡ false
      → IsDistinct es
      → IsDistinct (insert_by_priority d priority devices es)
  unfolding mem insert_by_priority
  insert_by_priority-IsDistinct [] m h = ground arith
  insert_by_priority-IsDistinct (e ∷ es) m h =
      ground (arith, insert_by_priority-IsDistinct es, mem-insert_by_priority e es)

module _ (d : String) (priority : ℤ) (p : AttentionPolicy) (h : IsDistinct p.attention_queue) where
  -- Queueing a device keeps the queue without repetitions.
  pub queue_for-IsDistinct : IsDistinct (queue_for d priority p).attention_queue
  unfolding queue_for
  queue_for-IsDistinct = elim (Bool-cases (mem d p.attention_queue)) [
    | inl e ↦
        rw (e, queue_for)
          (insert_by_priority-IsDistinct d priority _ _
            (rw (mem-remove d d p.attention_queue h) (ground arith))
            (remove-IsDistinct d p.attention_queue h))
    | inr e ↦ rw (e, queue_for) (insert_by_priority-IsDistinct d priority _ _ e h)
  ]

  -- It adds that device, and neither adds nor drops another.
  pub mem-queue_for :
      (x : String)
      → mem x (queue_for d priority p).attention_queue
        ≡ (if x == d then true else mem x p.attention_queue)
  unfolding queue_for
  mem-queue_for x = elim (Bool-cases (mem d p.attention_queue)) [
    | inl e ↦
        rw (e, queue_for)
          (rw mem-insert_by_priority (ground (arith, mem-remove x d p.attention_queue h)))
    | inr e ↦ rw (e, queue_for) (mem-insert_by_priority d priority _ x _)
  ]
