-- ===== src/Sensors/Tests.antt =====
-- The theorems on the sensors at concrete measurements, with whole numbers in the place of `float`.
use cg2111a_final_project.Base.{
  ℕ, ◌+◌, ◌-◌, ◌*◌, ◌/◌, ◌^◌, ◌<◌, ◌≡◌, refl, inl, [], ◌∷◌, ◌++◌, Bool, false, true, arith, ltb,
}
use cg2111a_final_project.Base.Int.{ℤ, pos, negsuc}
use cg2111a_final_project.Sensors.Floating.{Floating}
use cg2111a_final_project.Sensors.Ultrasound.{
  Sonar, ticks, change, get_distance, centimetres, happen_all,
}
use cg2111a_final_project.Sensors.Ultrasound.Echo.{IsResting, IsReady, pulse_of}
use cg2111a_final_project.Sensors.Ultrasound.Measured.{get_distance_measures, get_distance_late}
use cg2111a_final_project.Sensors.Colour.{Three, three, Pins, calc_dist, get_color, vect_incr}
use cg2111a_final_project.Sensors.Colour.Least.{IsOrder}
use cg2111a_final_project.Sensors.Colour.Classified.{sample, of_color, get_color_nearest}

abbrev pub of_ℤ : ℤ → ℕ
of_ℤ (pos n) = n
of_ℤ (negsuc n) = 0

-- Every root is 1 or more.
abbrev pub whole : Floating
whole = record {
  Real = ℕ;
  of_ℕ = λ n. n;
  of_ℤ = of_ℤ;
  to_ℕ = λ x. x;
  to_ℤ = pos;
  decimal = λ m k. m / 10 ^ k;
  add = λ x y. x + y;
  sub = λ x y. x - y;
  mul = λ x y. x * y;
  div = λ x y. x / y;
  sqrt = λ x. x + 1;
  lt = ltb;
}

whole-IsOrder : IsOrder whole
whole-IsOrder = record {
  transitive = λ x y z h k. ground arith;
  cotransitive = λ x y z h k. ground arith;
  irreflexive = λ x. ground arith;
  zero_below_one = refl;
}

abbrev pub sonar : Sonar
sonar = record {
  ddra = 0;
  ddrd = 255;
  porta = 0;
  tccr5a = 0;
  tccr5b = 8;
  tcnt5 = 0;
  eicra = 0b10100001;
  eimsk = 0b00001100;
  flag = false;
  pulse = 77;
  edge = 0;
}

sonar-IsResting : IsResting sonar
sonar-IsResting = record { low = refl; stopped = refl; reset = refl; nothing_kept = refl }

get_distance_measures_example :
    let out =
      get_distance whole
        (λ v n. v + n)
        (ticks 30 ∷ [])
        (pulse_of (ticks 900 ∷ []) (ticks 1000 ∷ ticks 500 ∷ []) (ticks 90 ∷ []))
        sonar in
    (out.0 ≡ centimetres whole 1500) × IsReady out.1
get_distance_measures_example =
    get_distance_measures whole (λ v n. v + n) sonar (ticks 30 ∷ []) (ticks 900 ∷ [])
      (ticks 1000 ∷ ticks 500 ∷ []) (ticks 90 ∷ []) (λ v n h. refl) (inl sonar-IsResting) tt tt tt
      tt (omega arith)

get_distance_late_example :
    let out =
      get_distance whole
        (λ v n. v + n)
        (ticks 30 ∷ [])
        ((ticks 900 ∷ []) ++ change ∷ ticks 39000 ∷ [])
        sonar in
    (out.0 ≡ centimetres whole 77)
    × IsReady (happen_all (λ v n. v + n) out.1 ((ticks 5 ∷ []) ++ change ∷ ticks 6 ∷ []))
get_distance_late_example =
    get_distance_late whole (λ v n. v + n) sonar (ticks 30 ∷ []) (ticks 900 ∷ []) (ticks 39000 ∷ [])
      (ticks 5 ∷ []) (ticks 6 ∷ []) sonar-IsResting tt tt tt tt tt

abbrev pub pins : Pins
pins = record { driven = true; listening = true; s0 = true; s1 = false; s2 = false; s3 = false }

abbrev sensor : Bool → Bool → ℕ → ℕ
sensor s2 s3 t = 300 + t

abbrev steps : Three (Three ℕ)
steps = three (three 3 3 2) (three 3 2 2) (three 3 3 2)

far :
    (near : Three ℕ) (step test : Three ℕ) (k : ℕ)
    → ltb (calc_dist whole near step test k) 1 ≡ false
unfolding calc_dist
far near step test k = ground arith

get_color_nearest_example :
    let r = get_color whole sensor steps pins in
    (r.color < 3)
    × (j : ℕ) × (j < vect_incr)
    × (of_color r.dist r.color ≡ sample whole steps r.test r.color j)
    × (ltb (sample whole steps r.test 2 50) (sample whole steps r.test r.color j) ≡ false)
get_color_nearest_example =
    get_color_nearest whole whole-IsOrder sensor steps pins 2 50 (λ c k hc hk. far _ _ _ k)
      (omega arith) (omega arith)
