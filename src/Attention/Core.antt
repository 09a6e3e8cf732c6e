-- ===== src/Attention/Core.antt =====
-- attention/policy.py: the table of devices agrees with the device that has attention, and the
-- queue has no repetitions. The parts of the calls keep this.
use oi_interface.Base.{
  ◌&&◌, ℕ, String, ◌≡◌, ◌≢◌, ◌⊎◌, inl, inr, true, false, Option, none, some, arith, ◌==◌,
  Bool-cases, Option-cases, IsDistinct,
}
use oi_interface.Base.Int.{ℤ}
use oi_interface.Dict.{get, is_some, get-put, get-update}
use oi_interface.Attention.State.{AttentionTransition, AttentionState, AttentionPolicy, active}
use oi_interface.Attention.Queue.{queue_for, queue_for-IsDistinct}
use oi_interface.Attention.{
  queued, refused, overtaken, release_only, grant, clear_way, record_activity, resolve, truthy,
  contest, Contest, overtaken, not,
}

-- The entry under `k` carries that key, and is active exactly while `k` has attention; the holder
-- has an entry, with the time of its last activity.
abbrev pub EntryAgrees : String → Option String → Option AttentionState → Type 0
EntryAgrees k current none = current ≢ some k
EntryAgrees k current (some st) =
    (st.device_id ≡ k)
    × (st.state ≡ active → current ≡ some k)
    × (current ≡ some k → (st.state ≡ active) × (is_some st.last_activity ≡ true))

pub record Core (p : AttentionPolicy) : Type 0 where
  pub entries : (k : String) → EntryAgrees k p.current_attention (get k p.device_attention)
  pub named : get "" p.device_attention ≡ none
  pub distinct : IsDistinct p.attention_queue

module _ (p : AttentionPolicy) (h : Core p) where
  pub release_only-Core :
      (reason : String) (tr : AttentionTransition) → Core (release_only reason tr p)
  unfolding release_only
  release_only-Core reason tr = elim (Option-cases p.current_attention) [
    | inl e ↦ rw (e, release_only) h
    | inr (d, e) ↦
        rw (e, release_only)
          (record {
            entries = λ k. rw get-update (ground (arith, h.entries k, h.entries d));
            named = rw get-update (ground (arith, h.named));
            distinct = h.distinct;
          })
  ]

  pub grant-Core :
      (d reason : String) (priority : Option ℤ) (auto_release : Option ℕ) (tr : AttentionTransition)
      (now : ℕ)
      → d ≢ ""
      → (p.current_attention ≡ none) ⊎ (p.current_attention ≡ some d)
      → Core (grant d reason priority auto_release tr now p)
  unfolding grant
  grant-Core d reason priority auto_release tr now nonempty clear = record {
    entries = λ k. elim (Option-cases (get d p.device_attention)) [
      | inl e ↦ rw (e, get-put) (ground (arith, h.entries k, h.entries d))
      | inr (st, e) ↦ rw (e, get-put) (ground (arith, h.entries k, h.entries d))
    ];
    named = rw get-put (ground (arith, h.named));
    distinct = ground (arith, h.distinct);
  }

  pub queue_for-Core : (d : String) (priority : ℤ) → Core (queue_for d priority p)
  unfolding queue_for
  queue_for-Core d priority = record {
    entries = h.entries;
    named = h.named;
    distinct = queue_for-IsDistinct d priority p h.distinct;
  }

  pub record_activity-Core : (d : String) (now : ℕ) → Core (record_activity d now p)
  unfolding record_activity
  record_activity-Core d now = record {
    entries = λ k. rw get-update (ground (arith, h.entries k, h.entries d));
    named = rw get-update (ground (arith, h.named));
    distinct = h.distinct;
  }

module _ (d : String) (requested : ℤ) (p : AttentionPolicy) (h : Core p) where
  pub holder-truthy : (c : String) → p.current_attention ≡ some c → (c == "") ≡ false
  holder-truthy c e = ground (arith, h.entries c, h.named)

  resolve-Core : (c : Contest) → Core (resolve c d requested p).0
  unfolding resolve
  resolve-Core queued = queue_for-Core p h d requested
  resolve-Core refused = h
  resolve-Core (overtaken tr) = release_only-Core p h "" tr

  resolve-current :
      (c : Contest)
      → (resolve c d requested p).1 ≡ true
      → (resolve c d requested p).0.current_attention ≡ none
  unfolding resolve release_only
  resolve-current queued t = cc
  resolve-current refused t = cc
  resolve-current (overtaken tr) t = ground arith

  pub clear_way-Core : Core (clear_way d requested p).0
  unfolding clear_way
  clear_way-Core = elim (Option-cases p.current_attention) [
    | inl e ↦ rw (e, clear_way) h
    | inr (c, e) ↦ elim (Bool-cases (truthy c && not (c == d))) [
      | inl t ↦ rw (e, clear_way) (rw t (resolve-Core _))
      | inr t ↦ rw (e, clear_way) (rw t h)
    ]
  ]

  pub clear_way-current :
      (clear_way d requested p).1 ≡ true
      → ((clear_way d requested p).0.current_attention ≡ none)
        ⊎ ((clear_way d requested p).0.current_attention ≡ some d)
  unfolding clear_way
  clear_way-current t = elim (Option-cases p.current_attention) [
    | inl e ↦ ground arith
    | inr (c, e) ↦ ground (
      arith,
      holder-truthy c,
      resolve-current (contest p.config (get c p.device_attention) requested),
    )
  ]
