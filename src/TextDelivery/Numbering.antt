-- ===== src/TextDelivery/Numbering.antt =====
-- text/delivery.py: the sequence numbers that a device sees, whatever the others get.
use oi_interface.Base.{
  ◌∷◌, [], List, keep_if, String, ℕ, ◌≡◌, Bool, ◌==◌, ◌++◌, sym, if◌then◌else◌, ap, append_nil,
  ◌&&◌, ◌+◌, ◌∙◌, not, Bool-cases, keep_if-append, ◌||◌, inl, inr, true, false, arith, eq_of_test,
  refl, append_assoc,
}
use oi_interface.TextDelivery.{
  TextDeliveryPipeline, do_deliver_text_delta, on_event, TextEvent, Shown, counter, ends,
  is_skipped,
}
use oi_interface.Dict.{Dict, put, or_default, get-put}

-- Events of all devices in their order, with the answer of the device to what is sent for each.
abbrev pub History : Type 0
History = List (String × TextEvent × Bool)

unfoldable pub run : History → TextDeliveryPipeline → TextDeliveryPipeline
run [] p = p
run ((d, event, ok) ∷ rest) p = run rest (on_event d event ok p)

-- The commands for a device.
unfoldable pub sent_to : String → List Shown → List Shown
unfolding keep_if
sent_to d = keep_if (λ s. d == s.device_id)

-- The commands for a device by the events of it alone: each has the next number, from 0 again after a
-- final delta that the device acknowledges. What has nothing to show is not sent.
unfoldable pub numbered : String → ℕ → History → List Shown
numbered d n [] = []
numbered d n ((j, event, ok) ∷ rest) =
    let later = numbered d (if ok && ends event then 0 else n + 1) rest in
    let same_number = numbered d n rest in
    if not (d == j) || is_skipped event
    then same_number
    else record { device_id = d; sequence = n; event = event } ∷ later

counter-put :
    (d j : String) (n : ℕ) (counters : Dict ℕ)
    → counter d (put j n counters) ≡ (if d == j then n else counter d counters)
counter-put d j n counters =
    ap (λ o. or_default o 0) (get-put d j n counters)
    ∙ elim (Bool-cases (d == j)) [ inl t ↦ rw t refl | inr t ↦ rw t refl ]

counter_after :
    (d j : String) (event : TextEvent) (ok : Bool) (p : TextDeliveryPipeline)
    → counter d (do_deliver_text_delta j event ok p).sequence_counters ≡ (
        if d == j
        then (if ok && ends event then 0 else counter d p.sequence_counters + 1)
        else counter d p.sequence_counters)
unfolding do_deliver_text_delta
counter_after d j event ok p =
    let raised = put j (counter j p.sequence_counters + 1) p.sequence_counters in
    let once = counter-put d j (counter j p.sequence_counters + 1) p.sequence_counters in
    let twice = counter-put d j 0 raised in
    elim (Bool-cases (ok && ends event)) [
      | inl t ↦ elim (Bool-cases (d == j)) [
        | inl u ↦ rw (t, u) (twice ∙ rw u refl)
        | inr u ↦ rw (t, u) (twice ∙ rw u (once ∙ rw u refl))
      ]
      | inr t ↦ elim (Bool-cases (d == j)) [
        | inl u ↦
            rw (t, u)
              (once ∙ rw u (ap (λ k. counter k p.sequence_counters + 1) (sym (eq_of_test d j u))))
        | inr u ↦ rw (t, u) (once ∙ rw u refl)
      ]
    ]

sent_to-last :
    (d : String) (shown : List Shown) (s : Shown)
    → sent_to d (shown ++ s ∷ []) ≡ sent_to d shown ++ (if d == s.device_id then s ∷ [] else [])
unfolding sent_to keep_if
sent_to-last d shown s = keep_if-append (λ r. d == r.device_id) shown (s ∷ [])

numbered_skipped :
    (d j : String) (n : ℕ) (event : TextEvent) (ok : Bool) (rest : History)
    → (not (d == j) || is_skipped event) ≡ true
    → numbered d n ((j, event, ok) ∷ rest) ≡ numbered d n rest
unfolding numbered
numbered_skipped d j n event ok rest h = rw h refl

numbered_shown :
    (d j : String) (n : ℕ) (event : TextEvent) (ok : Bool) (rest : History)
    → (not (d == j) || is_skipped event) ≡ false
    → numbered d n ((j, event, ok) ∷ rest)
      ≡ record { device_id = d; sequence = n; event = event }
        ∷ numbered d (if ok && ends event then 0 else n + 1) rest
unfolding numbered
numbered_shown d j n event ok rest h = rw h refl

-- What is sent for an event of a device.
abbrev shown_for : String → TextEvent → TextDeliveryPipeline → Shown
shown_for j event p = record {
  device_id = j;
  sequence = counter j p.sequence_counters;
  event = event;
}

deliver_sent :
    (d j : String) (event : TextEvent) (ok : Bool) (p : TextDeliveryPipeline)
    → sent_to d (do_deliver_text_delta j event ok p).sent
      ≡ sent_to d p.sent ++ (if d == j then shown_for j event p ∷ [] else [])
unfolding do_deliver_text_delta
deliver_sent d j event ok p = sent_to-last d p.sent (shown_for j event p)

deliver-numbered :
    (d j : String) (event : TextEvent) (ok : Bool) (rest : History) (p : TextDeliveryPipeline)
    → is_skipped event ≡ false
    → sent_to d (do_deliver_text_delta j event ok p).sent
        ++ numbered d (counter d (do_deliver_text_delta j event ok p).sequence_counters) rest
      ≡ sent_to d p.sent ++ numbered d (counter d p.sequence_counters) ((j, event, ok) ∷ rest)
deliver-numbered d j event ok rest p h =
    let n = counter d p.sequence_counters in
    let next = if ok && ends event then 0 else n + 1 in
    let before = sent_to d p.sent in
    ap
      (λ r. r ++ numbered d (counter d (do_deliver_text_delta j event ok p).sequence_counters) rest)
      (deliver_sent d j event ok p)
    ∙ ap (λ m. (before ++ (if d == j then shown_for j event p ∷ [] else [])) ++ numbered d m rest)
        (counter_after d j event ok p)
    ∙ elim (Bool-cases (d == j)) [
      | inl u ↦
          let e = eq_of_test d j u in
          rw u (
            append_assoc before (shown_for j event p ∷ []) (numbered d next rest)
            ∙ ap (λ k. before ++ shown_for k event p ∷ numbered d next rest) (sym e)
            ∙ ap (λ r. before ++ r) (sym (numbered_shown d j n event ok rest (rw (u, h) refl))))
      | inr u ↦ rw u (
          ap (λ r. r ++ numbered d n rest) (append_nil before)
          ∙ ap (λ r. before ++ r) (sym (numbered_skipped d j n event ok rest (rw u refl))))
    ]

-- One event: the commands that the device gets for it, and the number that comes next.
on_event-numbered :
    (d j : String) (event : TextEvent) (ok : Bool) (rest : History) (p : TextDeliveryPipeline)
    → sent_to d (on_event j event ok p).sent
        ++ numbered d (counter d (on_event j event ok p).sequence_counters) rest
      ≡ sent_to d p.sent ++ numbered d (counter d p.sequence_counters) ((j, event, ok) ∷ rest)
unfolding on_event
on_event-numbered d j event ok rest p = elim (Bool-cases (is_skipped event)) [
  | inl t ↦ rw t (
      ap (λ r. sent_to d p.sent ++ r)
        (sym (numbered_skipped d j (counter d p.sequence_counters) event ok rest (ground arith))))
  | inr t ↦ rw t (deliver-numbered d j event ok rest p t)
]

-- The commands that a device gets bear the numbers that its own events give them, whichever events of
-- other devices come between: the next number for each, from 0 again after a final delta that the
-- device acknowledges, and only after such a one. What was sent before stays.
pub run-numbered :
    (d : String) (history : History) (p : TextDeliveryPipeline)
    → sent_to d (run history p).sent
      ≡ sent_to d p.sent ++ numbered d (counter d p.sequence_counters) history
unfolding run numbered
run-numbered d [] p = sym (append_nil (sent_to d p.sent))
run-numbered d ((j, event, ok) ∷ rest) p =
    run-numbered d rest (on_event j event ok p) ∙ on_event-numbered d j event ok rest p
