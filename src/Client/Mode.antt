-- ===== src/Client/Mode.antt =====
-- The client's view of the drive mode, and of the ultrasonic reading.
use cg2111a_final_project.Base.{
  ℕ, ◌≡◌, ◌≢◌, refl, List, [], ◌∷◌, Option, none, some, true, not, ◌==◌, elem,
}
use cg2111a_final_project.Base.Switch.{switch_hit_rule, elem_rule, of_OnSome, OnSome}
use cg2111a_final_project.Wire.Constants.Net
use cg2111a_final_project.Client.{Client, Event, print, mode}
use cg2111a_final_project.Client.Reader.{
  handle_network, network_cases, keeping, handle_error, handle_status, handle_ultrasonic_message,
  handle_color_message, handle_mode_message,
}

abbrev Keeps : Client → Option (Client × List Event) → Type 0
Keeps s out = OnSome (λ (t : Client × List Event). t.0 ≡ s) out

keeping-Keeps : (s : Client) (o : Option (List Event)) → Keeps s (keeping s o)
keeping-Keeps s none = tt
keeping-Keeps s (some es) = refl

-- A message from the Pi that is no mode message leaves the client's state alone, whatever follows its
-- first byte and on every branch of the handlers.
pub handle_network_keeps :
    (s s' : Client) (type : ℕ) (rest : List ℕ) (es : List Event)
    → type ≢ Net.manualmode_packet
    → handle_network s (type ∷ rest) ≡ some (s', es)
    → s' ≡ s
unfolding handle_network
handle_network_keeps s s' type rest es other e =
    of_OnSome (λ (t : Client × List Event). t.0 ≡ s)
      (switch_hit_rule (Keeps s) type (network_cases s buffer) (some (s, []))
        (
          (λ h. keeping-Keeps s (handle_error buffer)),
          (
            (λ h. keeping-Keeps s (handle_status buffer)),
            (
              (λ h. keeping-Keeps s (handle_ultrasonic_message buffer)),
              (
                (λ h. refl),
                (
                  (λ h. keeping-Keeps s (handle_color_message buffer)),
                  ((λ h. refl), ((λ h. refl), ((λ h. absurd (other (is_mode h))), tt))),
                ),
              ),
            ),
          ),
        )
        refl)
      e
  where
    buffer : List ℕ
    buffer = type ∷ rest

    is_mode : elem type (Net.manualmode_packet ∷ []) ≡ true → type ≡ Net.manualmode_packet
    is_mode =
        elem_rule (λ c. c ≡ Net.manualmode_packet) type (Net.manualmode_packet ∷ []) (refl, tt)

-- A mode message sets the client's mode to whether its second byte is not 0, and nothing else.
pub handle_network-mode :
    (s : Client) (value : ℕ) (rest : List ℕ)
    → handle_network s (Net.manualmode_packet ∷ value ∷ rest)
      ≡ some (record s { manual_mode = not (value == 0) }, print (mode (not (value == 0))) ∷ [])
unfolding handle_network handle_mode_message
handle_network-mode s value rest = refl
