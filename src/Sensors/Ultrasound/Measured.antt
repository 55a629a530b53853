-- ===== src/Sensors/Ultrasound/Measured.antt =====
-- What `getDistance` measures: an echo that comes and ends within the wait, and one that does not.
use cg2111a_final_project.Base.{
  ℕ, ◌^◌, ◌<◌, ◌≡◌, refl, ap, inl, inr, List, ◌∷◌, ◌++◌, true, false, arith, bit, clear_bit,
}
use cg2111a_final_project.Sensors.Floating.{Floating}
use cg2111a_final_project.Sensors.Ultrasound.{
  Sonar, Happening, change, cs51, int0, happen, happen_all, int0_isr, enable_int0, disable_int0,
  get_distance, centimetres,
}
use cg2111a_final_project.Sensors.Ultrasound.Echo.{
  CountsUp, AllTicks, total, IsResting, IsLate, IsReady, happen_all-append, stopped_ticks, rises,
  ticks_keep, pulse_of, echo_timed, enabled, triggering, triggered, triggering-IsWaiting,
}

masked_rest : (s : Sonar) → IsResting s → IsResting (disable_int0 s)
unfolding disable_int0
masked_rest s r = record {
  low = r.low;
  stopped = r.stopped;
  reset = r.reset;
  nothing_kept = r.nothing_kept;
}

-- An echo that is being timed when the interrupt is masked: its end is kept.
masked_change :
    (timer : ℕ → ℕ → ℕ) (s : Sonar) (idle idle' : List Happening)
    → s.edge ≡ 1
    → bit cs51 s.tccr5b ≡ true
    → AllTicks idle
    → AllTicks idle'
    → IsLate (happen_all timer (disable_int0 s) (idle ++ change ∷ idle'))
unfolding disable_int0 happen_all happen
masked_change timer s idle idle' high runs q q' =
    let off = record s { eimsk = clear_bit int0 s.eimsk } in
    let (t, e) = ticks_keep timer off idle q in
    let (t', e') = ticks_keep timer (record off { tcnt5 = t; flag = true }) idle' q' in
    let cleared : bit int0 (clear_bit int0 s.eimsk) ≡ false = ground arith in
    rw (happen_all-append timer off idle (change ∷ idle'), e, cleared, e')
      (record { high = high; running = runs; kept = refl })

same_pulse :
    (timer : ℕ → ℕ → ℕ) (s : Sonar)
    → IsResting s
    → (happen timer (triggering (enable_int0 s)) change).pulse ≡ s.pulse
unfolding happen enable_int0 int0_isr
same_pulse timer s r = rw r.nothing_kept (ground (arith, r.low))

module _ (f : Floating) (timer : ℕ → ℕ → ℕ) (s : Sonar) where
  -- From rest, or with the end of an earlier echo kept, with a timer that counts up: an echo that begins
  -- after the trigger and ends within the wait, after fewer than 2^16 ticks, is what `getDistance`
  -- returns in centimetres, whatever was measured before; and the sensor is ready for the next call.
  pub get_distance_measures :
      (during before echo rest : List Happening)
      → CountsUp timer
      → IsReady s
      → AllTicks during
      → AllTicks before
      → AllTicks echo
      → AllTicks rest
      → total echo < 2 ^ 16
      → let out = get_distance f timer during (pulse_of before echo rest) s in
        (out.0 ≡ centimetres f (total echo)) × IsReady out.1
  unfolding get_distance
  get_distance_measures during before echo rest c r qd qb qe qr l =
      let start = enable_int0 s in
      let waiting = enabled s r in
      let (down, measured) =
        echo_timed timer (triggering start) before echo rest c (triggering-IsWaiting start waiting)
          qb qe qr l in
      rw (triggered timer start during (pulse_of before echo rest) waiting.rest.stopped qd)
        (ap (centimetres f) measured, inl (masked_rest _ down.rest))

  -- From rest, an echo that begins within the wait and ends only after it: `getDistance` returns the
  -- distance of the measurement before, and once the pin comes down the end is kept, so that the sensor is
  -- ready for the next call.
  pub get_distance_late :
      (during before after idle idle' : List Happening)
      → IsResting s
      → AllTicks during
      → AllTicks before
      → AllTicks after
      → AllTicks idle
      → AllTicks idle'
      → let out = get_distance f timer during (before ++ change ∷ after) s in
        (out.0 ≡ centimetres f s.pulse) × IsReady (happen_all timer out.1 (idle ++ change ∷ idle'))
  unfolding get_distance happen_all
  get_distance_late during before after idle idle' r qd qb qa qi qi' =
      let start = enable_int0 s in
      let waiting = enabled s (inl r) in
      let here = triggering start in
      let up = rises timer here (triggering-IsWaiting start waiting) in
      let (t, e) = ticks_keep timer (happen timer here change) after qa in
      rw
        (
          triggered timer start during (before ++ change ∷ after) waiting.rest.stopped qd,
          happen_all-append timer here before (change ∷ after),
          stopped_ticks timer here before waiting.rest.stopped qb,
          e,
        )
        (
          ap (centimetres f) (same_pulse timer s r),
          inr (
              masked_change timer (record (happen timer here change) { tcnt5 = t }) idle idle'
                up.high up.running qi qi'),
        )
