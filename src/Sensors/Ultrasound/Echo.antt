-- ===== src/Sensors/Ultrasound/Echo.antt =====
-- The echo pin while `getDistance` waits: an echo that comes and ends, step by step.
use cg2111a_final_project.Base.{
  ℕ, ◌+◌, ◌^◌, ◌<◌, ◌≡◌, refl, ap, ◌∙◌, ◌⊎◌, inl, inr, List, [], ◌∷◌, ◌++◌, true, false, arith, bit,
  set_bit, clear_bit, Bool-cases,
}
use cg2111a_final_project.Sensors.Ultrasound.{
  Sonar, trigger, Happening, ticks, change, cs51, int0, happen, happen_all, int0_isr, enable_int0,
  trigger_ultrasonic,
}

-- Timer 5 counts up while it runs, until it wraps around at 2^16.
abbrev pub CountsUp : (ℕ → ℕ → ℕ) → Type 0
CountsUp timer = (v n : ℕ) → v + n < 2 ^ 16 → timer v n ≡ v + n

-- Only the clock ticks.
abbrev pub AllTicks : List Happening → Type 0
AllTicks [] = Unit
AllTicks (ticks n ∷ hs) = AllTicks hs
AllTicks (change ∷ hs) = ⊥

abbrev pub total : List Happening → ℕ
total [] = 0
total (ticks n ∷ hs) = n + total hs
total (change ∷ hs) = total hs

-- No echo is being timed.
pub record IsResting (s : Sonar) : Type 0 where
  pub low : s.edge ≡ 0
  pub stopped : bit cs51 s.tccr5b ≡ false
  pub reset : s.tcnt5 ≡ 0
  pub nothing_kept : s.flag ≡ false

-- An echo is being timed, and its end was kept while the interrupt was masked.
pub record IsLate (s : Sonar) : Type 0 where
  pub high : s.edge ≡ 1
  pub running : bit cs51 s.tccr5b ≡ true
  pub kept : s.flag ≡ true

-- What `getDistance` relies on when it is called.
abbrev pub IsReady : Sonar → Type 0
IsReady s = IsResting s ⊎ IsLate s

pub happen_all-append :
    (timer : ℕ → ℕ → ℕ) (s : Sonar) (hs hs' : List Happening)
    → happen_all timer s (hs ++ hs') ≡ happen_all timer (happen_all timer s hs) hs'
unfolding happen_all
happen_all-append timer s [] hs' = refl
happen_all-append timer s (h ∷ hs) hs' = happen_all-append timer (happen timer s h) hs hs'

pub stopped_ticks :
    (timer : ℕ → ℕ → ℕ) (s : Sonar) (hs : List Happening)
    → bit cs51 s.tccr5b ≡ false
    → AllTicks hs
    → happen_all timer s hs ≡ s
unfolding happen_all
stopped_ticks timer s [] h q = refl
stopped_ticks timer s (ticks n ∷ hs) h q = rw h (stopped_ticks timer s hs h q)
stopped_ticks timer s (change ∷ hs) h q = absurd q

running_ticks :
    (timer : ℕ → ℕ → ℕ) (s : Sonar) (hs : List Happening)
    → CountsUp timer
    → bit cs51 s.tccr5b ≡ true
    → AllTicks hs
    → s.tcnt5 + total hs < 2 ^ 16
    → happen_all timer s hs ≡ record s { tcnt5 = s.tcnt5 + total hs }
unfolding happen_all
running_ticks timer s [] c h q l = ground arith
running_ticks timer s (ticks n ∷ hs) c h q l =
    rw (h, c s.tcnt5 n (omega arith))
      (running_ticks timer (record s { tcnt5 = s.tcnt5 + n }) hs c h q (omega arith)
        ∙ ap (λ t. record s { tcnt5 = t }) (omega arith))
running_ticks timer s (change ∷ hs) c h q l = absurd q

-- The interrupt is enabled and no echo is being timed.
pub record IsWaiting (s : Sonar) : Type 0 where
  pub rest : IsResting s
  pub on : bit int0 s.eimsk ≡ true

-- An echo has been timed for `w` ticks.
pub record IsTiming (w : ℕ) (s : Sonar) : Type 0 where
  pub high : s.edge ≡ 1
  pub running : bit cs51 s.tccr5b ≡ true
  pub counted : s.tcnt5 ≡ w
  pub nothing_kept : s.flag ≡ false
  pub on : bit int0 s.eimsk ≡ true

pub rises : (timer : ℕ → ℕ → ℕ) (s : Sonar) → IsWaiting s → IsTiming 0 (happen timer s change)
unfolding happen int0_isr
rises timer s r = ground (arith, r.rest.low, r.rest.stopped, r.rest.reset, r.rest.nothing_kept)

falls :
    (timer : ℕ → ℕ → ℕ) (w : ℕ) (s : Sonar)
    → IsTiming w s
    → IsWaiting (happen timer s change) × ((happen timer s change).pulse ≡ w)
unfolding happen int0_isr
falls timer w s r = (
  record {
    rest = record {
      low = ground arith;
      stopped = ground arith;
      reset = ground arith;
      nothing_kept = ground arith;
    };
    on = ground arith;
  },
  ground arith,
)

times_on :
    (timer : ℕ → ℕ → ℕ) (s : Sonar) (hs : List Happening)
    → CountsUp timer
    → IsTiming 0 s
    → AllTicks hs
    → total hs < 2 ^ 16
    → IsTiming (total hs) (happen_all timer s hs)
times_on timer s hs c r q l =
    rw (running_ticks timer s hs c r.running q (omega (arith, r.counted))) (record {
      high = r.high;
      running = r.running;
      counted = omega (arith, r.counted);
      nothing_kept = r.nothing_kept;
      on = r.on;
    })

-- Ticks change the counter at most.
pub ticks_keep :
    (timer : ℕ → ℕ → ℕ) (s : Sonar) (hs : List Happening)
    → AllTicks hs
    → (t : ℕ) × (happen_all timer s hs ≡ record s { tcnt5 = t })
unfolding happen_all
ticks_keep timer s [] q = (s.tcnt5, refl)
ticks_keep timer s (ticks n ∷ hs) q = elim (Bool-cases (bit cs51 s.tccr5b)) [
  | inl runs ↦
      let (t, e) = ticks_keep timer (record s { tcnt5 = timer s.tcnt5 n }) hs q in (t, rw runs e)
  | inr stops ↦ let (t, e) = ticks_keep timer s hs q in (t, rw stops e)
]
ticks_keep timer s (change ∷ hs) q = absurd q

-- An echo: the pin goes up and comes down again.
abbrev pub pulse_of : List Happening → List Happening → List Happening → List Happening
pulse_of before echo rest = before ++ change ∷ (echo ++ change ∷ rest)

pub echo_timed :
    (timer : ℕ → ℕ → ℕ) (s : Sonar) (before echo rest : List Happening)
    → CountsUp timer
    → IsWaiting s
    → AllTicks before
    → AllTicks echo
    → AllTicks rest
    → total echo < 2 ^ 16
    → IsWaiting (happen_all timer s (pulse_of before echo rest))
      × ((happen_all timer s (pulse_of before echo rest)).pulse ≡ total echo)
unfolding happen_all
echo_timed timer s before echo rest c r qb qe qr l =
    let up = rises timer s r in
    let high = times_on timer (happen timer s change) echo c up qe l in
    let (down, measured) = falls timer (total echo) _ high in
    rw
      (
        happen_all-append timer s before (change ∷ (echo ++ change ∷ rest)),
        stopped_ticks timer s before r.rest.stopped qb,
        happen_all-append timer (happen timer s change) echo (change ∷ rest),
        stopped_ticks timer (happen timer (happen_all timer (happen timer s change) echo) change)
            rest down.rest.stopped qr,
      )
      (down, measured)

pub enabled : (s : Sonar) → IsReady s → IsWaiting (enable_int0 s)
unfolding enable_int0 int0_isr
enabled s (inl r) = rw r.nothing_kept (record {
  rest = record { low = r.low; stopped = r.stopped; reset = r.reset; nothing_kept = refl };
  on = ground arith;
})
enabled s (inr r) =
    rw (r.kept, r.high)
      (record {
        rest = record { low = refl; stopped = ground arith; reset = refl; nothing_kept = refl };
        on = ground arith;
      })

-- While no echo is timed, the trigger only leaves its pin low.
abbrev pub triggering : Sonar → Sonar
triggering s = record s { porta = clear_bit trigger (set_bit trigger s.porta) }

pub triggered :
    (timer : ℕ → ℕ → ℕ) (s : Sonar) (during after : List Happening)
    → bit cs51 s.tccr5b ≡ false
    → AllTicks during
    → trigger_ultrasonic timer during after s ≡ happen_all timer (triggering s) after
unfolding trigger_ultrasonic
triggered timer s during after stops q =
    rw (stopped_ticks timer (record s { porta = set_bit trigger s.porta }) during stops q) refl

pub triggering-IsWaiting : (s : Sonar) → IsWaiting s → IsWaiting (triggering s)
triggering-IsWaiting s r = record {
  rest = record {
    low = r.rest.low;
    stopped = r.rest.stopped;
    reset = r.rest.reset;
    nothing_kept = r.rest.nothing_kept;
  };
  on = r.on;
}
