-- ===== src/Reconnection/Counting.antt =====
-- registry/reconnection.py: what a history of calls leaves for each device.
use oi_interface.Reconnection.{
  ReconnectionManager, record_disconnect, get_reconnect_count, get_disconnect_time, save_state,
  record_reconnect, restore_state, reset_reconnect_count, clear_device,
}
use oi_interface.Base.{
  String, List, ℕ, ◌∷◌, Option, ◌≡◌, arith, ◌∙◌, if◌then◌else◌, ◌==◌, ap, some, [], none, ◌+◌, refl,
  same, true, false, sym, Bool,
}
use oi_interface.Dict.{Dict, get-put, or_default, get-pop, get, put}

pub data Call (S : Type 0) : Type 0 where
  disconnects : String → ℕ → Call S
  reconnects : String → Call S
  saves : String → Dict S → Call S
  restores : String → Call S
  resets : String → Call S
  clears : String → Call S

pub count-put :
    (d j : String) (counts : Dict ℕ)
    → or_default (get d (put j (or_default (get j counts) 0 + 1) counts)) 0
      ≡ (if d == j then or_default (get d counts) 0 + 1 else or_default (get d counts) 0)
count-put d j counts =
    ap (λ o. or_default o 0) (get-put d j (or_default (get j counts) 0 + 1) counts)
    ∙ elim (same d j)
        as (λ t.
          or_default
            (if elim t [ yes _ ↦ true | no _ ↦ false ]
              then some (or_default (get j counts) 0 + 1)
              else get d counts)
            0
          ≡ (if elim t [ yes _ ↦ true | no _ ↦ false ]
              then or_default (get d counts) 0 + 1
              else or_default (get d counts) 0)) [
                | yes e ↦ ap (λ k. or_default (get k counts) 0 + 1) (sym e)
                | no n ↦ refl
              ]

zero_put :
    (b : Bool) (o : Option ℕ)
    → or_default (if b then some 0 else o) 0 ≡ (if b then 0 else or_default o 0)
zero_put true o = refl
zero_put false o = refl

zero_pop :
    (b : Bool) (o : Option ℕ)
    → or_default (if b then none else o) 0 ≡ (if b then 0 else or_default o 0)
zero_pop true o = refl
zero_pop false o = refl

module _ {S : Type 0} where
  unfoldable pub step : Call S → ReconnectionManager S → ReconnectionManager S
  step (disconnects d now) m = record_disconnect d now m
  step (reconnects d) m = (record_reconnect d m).0
  step (saves d state) m = save_state d state m
  step (restores d) m = (restore_state d m).0
  step (resets d) m = reset_reconnect_count d m
  step (clears d) m = clear_device d m

  unfoldable pub run : List (Call S) → ReconnectionManager S → ReconnectionManager S
  run [] m = m
  run (c ∷ calls) m = run calls (step c m)

  -- What a call makes of the count n of device d.
  abbrev pub counted : String → Call S → ℕ → ℕ
  counted d (disconnects j now) n = if d == j then n + 1 else n
  counted d (reconnects j) n = n
  counted d (saves j state) n = n
  counted d (restores j) n = n
  counted d (resets j) n = if d == j then 0 else n
  counted d (clears j) n = if d == j then 0 else n

  -- Disconnections of d since the last call that resets or clears it, from n.
  abbrev pub count_all : String → List (Call S) → ℕ → ℕ
  count_all d [] n = n
  count_all d (c ∷ calls) n = count_all d calls (counted d c n)

  -- What a call makes of the time at which d was last seen to disconnect.
  abbrev pub timed : String → Call S → Option ℕ → Option ℕ
  timed d (disconnects j now) t = if d == j then some now else t
  timed d (reconnects j) t = if d == j then none else t
  timed d (saves j state) t = t
  timed d (restores j) t = t
  timed d (resets j) t = t
  timed d (clears j) t = if d == j then none else t

  abbrev pub time_all : String → List (Call S) → Option ℕ → Option ℕ
  time_all d [] t = t
  time_all d (c ∷ calls) t = time_all d calls (timed d c t)

  step-count :
      (d : String) (c : Call S) (m : ReconnectionManager S)
      → get_reconnect_count d (step c m) ≡ counted d c (get_reconnect_count d m)
  unfolding step get_reconnect_count save_state record_disconnect record_reconnect restore_state
      reset_reconnect_count clear_device
  step-count d (disconnects j now) m = count-put d j m.reconnect_counts
  step-count d (reconnects j) m = refl
  step-count d (saves j []) m = refl
  step-count d (saves j (e ∷ state)) m = refl
  step-count d (restores j) m = refl
  step-count d (resets j) m =
      ap (λ o. or_default o 0) (get-put d j 0 m.reconnect_counts)
      ∙ zero_put (d == j) (get d m.reconnect_counts)
  step-count d (clears j) m =
      ap (λ o. or_default o 0) (get-pop d j m.reconnect_counts)
      ∙ zero_pop (d == j) (get d m.reconnect_counts)

  step-time :
      (d : String) (c : Call S) (m : ReconnectionManager S)
      → get_disconnect_time d (step c m) ≡ timed d c (get_disconnect_time d m)
  unfolding step get_disconnect_time save_state record_disconnect oi_interface.Dict.put
      record_reconnect oi_interface.Dict.pop restore_state reset_reconnect_count clear_device
  step-time d (disconnects j now) m = get-put d j now m.disconnect_times
  step-time d (reconnects j) m = get-pop d j m.disconnect_times
  step-time d (saves j []) m = refl
  step-time d (saves j (e ∷ state)) m = refl
  step-time d (restores j) m = refl
  step-time d (resets j) m = refl
  step-time d (clears j) m = get-pop d j m.disconnect_times

  -- After any history of calls, the count of a device is the number of its disconnections since it was
  -- last reset or cleared, and its disconnection time is that of the last one after which it has
  -- neither reconnected nor been cleared.
  pub run_lem :
      (d : String) (calls : List (Call S)) (m : ReconnectionManager S)
      → (get_reconnect_count d (run calls m) ≡ count_all d calls (get_reconnect_count d m))
        × (get_disconnect_time d (run calls m) ≡ time_all d calls (get_disconnect_time d m))
  unfolding run
  run_lem d [] m = (refl, refl)
  run_lem d (c ∷ calls) m =
      let (n, t) = run_lem d calls (step c m) in
      (n ∙ ap (count_all d calls) (step-count d c m), t ∙ ap (time_all d calls) (step-time d c m))

  -- A saved state that is not empty is restored once: it comes back, and a second restoring finds none.
  pub restore-save :
      (d : String) (e : String × S) (state : Dict S) (m : ReconnectionManager S)
      → let saved = save_state d (e ∷ state) m in
        ((restore_state d saved).1 ≡ some (e ∷ state))
        × ((restore_state d (restore_state d saved).0).1 ≡ none)
  unfolding save_state restore_state
  restore-save d e state m = (
    ground (arith, get-put d d (e ∷ state) m.saved_states),
    ground (arith, get-pop d d (put d (e ∷ state) m.saved_states)),
  )
