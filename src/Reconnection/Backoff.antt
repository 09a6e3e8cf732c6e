-- ===== src/Reconnection/Backoff.antt =====
-- registry/reconnection.py: the exponential backoff.
use native.Mathlib.Omega.{pow_step}
use oi_interface.Reconnection.{
  ReconnectionManager, Delay, get_backoff_delay, get_reconnect_count, wait, record_disconnect,
}
use oi_interface.Base.{
  String, ℕ, min, Bool, ◌≤◌, ◌*◌, leb, ◌<◌, ◌^◌, ◌&&◌, ◌/◌, false, ◌+◌, ◌≡◌, true, arith, ap, ◌∙◌,
  same_self, refl,
}
use oi_interface.Reconnection.Counting.{count-put}

abbrev pub within : Delay → ℕ → ℕ → Bool
within (wait w) low high = leb low w && leb w high
within _ low high = false

moved : (b p : ℕ) → b * (2 * p) ≡ 2 * (b * p)
moved b p = grind arith

doubled : (b n x : ℕ) → min (b * 2 ^ (n + 1)) x ≡ min (2 * min (b * 2 ^ n) x) x
doubled b n x =
    ap (λ power. min (b * power) x) (ap (λ k. 2 ^ k) (omega arith) ∙ pow_step 2 n)
    ∙ ap (λ k. min k x) (moved b (2 ^ n))
    ∙ omega arith

module _ {S : Type 0} where
  -- The delay before the jitter.
  abbrev pub base : String → ReconnectionManager S → ℕ
  base d m = min (m.base_delay * 2 ^ get_reconnect_count d m) m.max_delay

  -- With a random number below a tenth of the delay, with a delay of at least 10 ms and a count below
  -- 1024, nothing is raised, and the delay is at least the capped exponential and at most a tenth more.
  get_backoff_delay-within :
      (d : String) (random : ℕ) (m : ReconnectionManager S)
      → 10 ≤ base d m
      → get_reconnect_count d m < 1024
      → random < base d m / 10
      → within (get_backoff_delay d random m) (base d m) (base d m + base d m / 10) ≡ true
  unfolding get_backoff_delay get_reconnect_count
  get_backoff_delay-within d random m b c r = ground arith

  -- A disconnection doubles the delay, up to the cap.
  base-record_disconnect :
      (d : String) (now : ℕ) (m : ReconnectionManager S)
      → base d (record_disconnect d now m) ≡ min (2 * base d m) m.max_delay
  unfolding get_reconnect_count record_disconnect
  base-record_disconnect d now m =
      ap (λ n. min (m.base_delay * 2 ^ n) m.max_delay)
        (count-put d d m.reconnect_counts ∙ rw (same_self d) refl)
      ∙ doubled m.base_delay (get_reconnect_count d m) m.max_delay
