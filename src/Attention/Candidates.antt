-- ===== src/Attention/Candidates.antt =====
-- attention/policy.py: `get_attention_candidates`, the tracked devices by falling priority.
use oi_interface.Attention.State.{AttentionPolicy, AttentionState}
use oi_interface.Dict.{Dict, get, keys, mem-keys-keep_if, passing}
use oi_interface.Base.{
  Bool, Option, String, not, List, ◌≡◌, keep_if, true, false, arith, none, some, ◌&&◌, ◌==◌, ◌↔◌,
  IsDistinct, ◌⊎◌, mem, ◌≢◌, inl, refl, inr,
}
use oi_interface.Base.Int.{ℤ, ltb_ℤ, pos, ◌≤ℤ◌}
use oi_interface.Sort.{Order, sort, reversed, IsSorted, sort-IsSorted, mem-sort}

-- `self._device_attention[d].priority`; every candidate is a key, so no `KeyError` is raised.
unfoldable pub priority_of : Dict AttentionState → String → ℤ
priority_of devices d = elim (get d devices) [ none ↦ pos 0 | some st ↦ st.priority ]

-- The tests of the loop that collects the candidates.
is_candidate : Bool → Option ℤ → AttentionPolicy → String × AttentionState → Bool
is_candidate include_current min_priority p (d, st) =
    not (elim min_priority [ none ↦ false | some least ↦ ltb_ℤ st.priority least ])
    && not (not include_current && elim p.current_attention [ none ↦ false | some c ↦ d == c ])

pub lt_priority-asym :
    (devices : Dict AttentionState) (a b : String)
    → ltb_ℤ (priority_of devices a) (priority_of devices b) ≡ true
    → ltb_ℤ (priority_of devices b) (priority_of devices a) ≡ false
lt_priority-asym devices a b h = ground arith

pub lt_priority_trans :
    (devices : Dict AttentionState) (a b c : String)
    → ltb_ℤ (priority_of devices b) (priority_of devices a) ≡ false
    → ltb_ℤ (priority_of devices c) (priority_of devices b) ≡ false
    → ltb_ℤ (priority_of devices c) (priority_of devices a) ≡ false
lt_priority_trans devices a b c h k = ground arith

-- The key of the sort.
abbrev pub by_priority : Dict AttentionState → Order String
by_priority devices = record {
  lt = λ a b. ltb_ℤ (priority_of devices a) (priority_of devices b);
  asym = lt_priority-asym devices;
  le_trans = lt_priority_trans devices;
}

pub get_attention_candidates : Bool → Option ℤ → AttentionPolicy → List String
get_attention_candidates include_current min_priority p =
    sort (reversed (by_priority p.device_attention))
      (keys (keep_if (is_candidate include_current min_priority p) p.device_attention))

-- Whether a priority reaches the least one that is asked for, if any.
abbrev pub Reaches : Option ℤ → ℤ → Type 0
Reaches none q = Unit
Reaches (some least) q = least ≤ℤ q

Reaches-iff :
    (least : Option ℤ) (q : ℤ)
    → (elim least [ none ↦ false | some m ↦ ltb_ℤ q m ] ≡ false) ↔ Reaches least q
Reaches-iff none q = (λ _. tt, λ _. refl)
Reaches-iff (some m) q = (λ h. ground arith, λ h. ground arith)

is_candidate_iff :
    (include_current : Bool) (min_priority : Option ℤ) (p : AttentionPolicy) (d : String)
    (st : AttentionState)
    → (is_candidate include_current min_priority p (d, st) ≡ true) ↔ (
        Reaches min_priority st.priority
        × ((include_current ≡ true) ⊎ (p.current_attention ≢ some d)))
unfolding is_candidate
is_candidate_iff true min_priority p d st =
    let (fwd, back) = Reaches-iff min_priority st.priority in
    (λ h. (fwd (ground arith), inl refl), λ r. rw (back r.0))
is_candidate_iff false min_priority p d st =
    let (fwd, back) = Reaches-iff min_priority st.priority in
    (λ h. (fwd (ground arith), inr (λ e. ground arith)), λ r. ground (arith, back r.0))

-- In a table in which no device occurs twice, the candidates are exactly the tracked devices that
-- reach the least priority asked for, without the current one if that is left out, and no
-- candidate has a lower priority than one behind it.
get_attention_candidates_lem :
    (include_current : Bool) (min_priority : Option ℤ) (p : AttentionPolicy)
    → IsDistinct (keys p.device_attention)
    → let found = get_attention_candidates include_current min_priority p in
      IsSorted (reversed (by_priority p.device_attention)) found
      × ((d : String)
          → (mem d found ≡ true) ↔ (
              (st : AttentionState) × (get d p.device_attention ≡ some st)
              × Reaches min_priority st.priority
              × ((include_current ≡ true) ⊎ (p.current_attention ≢ some d))))
unfolding get_attention_candidates
get_attention_candidates_lem include_current min_priority p u = (
  sort-IsSorted _ _,
  λ d.
      rw (mem-sort, mem-keys-keep_if _ d p.device_attention u)
        (
          λ h.
              let (st, e, t) =
                passing (λ st. is_candidate include_current min_priority p (d, st)) _ h in
              let (least, other) = (is_candidate_iff include_current min_priority p d st).0 t in
              (st, e, least, other),
          λ r. rw r.1 ((is_candidate_iff include_current min_priority p d r.0).1 (r.2, r.3)),
        ),
)
