-- ===== src/Uart/Fifo.antt =====
-- The serial port as two queues: what goes in comes out in order.
use cg2111a_final_project.Base.{
  ℕ, suc, ◌≡◌, refl, sym, ap, subst, ◌∙◌, ◌⊎◌, inl, inr, List, [], ◌∷◌, ◌++◌, append-nil, Option,
  some, ◌≢◌, Bool, true, false, ◌&&◌, ◌==◌, if◌then◌else◌, ltb, length, Bool-cases, ==_iff,
}
use cg2111a_final_project.Uart.{Uart, buffer_size, write}
use cg2111a_final_project.Uart.Cbuffer.{Cbuffer, IsRing, contents, is_empty}
use cg2111a_final_project.Uart.Cbuffer.Queue.{pop, write-push, is_full-contents, is_empty-contents}

abbrev pub to_send : Uart → List ℕ
to_send u = contents buffer_size u.tx_buffer

abbrev pub to_read : Uart → List ℕ
to_read u = contents buffer_size u.rx_buffer

-- The buffers are rings, and bytes that wait to be sent are announced by the interrupt flag.
pub record IsUart (u : Uart) : Type 0 where
  pub rx_ring : IsRing buffer_size u.rx_buffer
  pub tx_ring : IsRing buffer_size u.tx_buffer
  pub announced : (to_send u ≡ []) ⊎ (u.udrie0 ≡ true)

-- `write` takes the byte unless 511 bytes wait; what it sends and what then waits are the bytes that
-- waited and the one that was taken.
abbrev pub Writes : Uart → ℕ → Option (Bool × Uart × List ℕ) → Type 0
Writes u ch result =
    (taken : Bool) × (u' : Uart) × (out : List ℕ) × (result ≡ some (taken, u', out))
    × IsUart u'
    × (u'.rx_buffer ≡ u.rx_buffer)
    × (taken ≡ ltb (length (to_send u)) 511)
    × (to_send u ++ (if taken then ch ∷ [] else []) ≡ out ++ to_send u')

pub nothing_of : (xs : List ℕ) → (length xs == 0) ≡ true → xs ≡ []
nothing_of [] e = refl
nothing_of (x ∷ xs) e = absurd (no e)
  where
    no : (suc (length xs) == 0) ≡ true → ⊥
    no h = cc ((==_iff (suc (length xs)) 0).0 h)

-- The byte goes into the buffer.
buffered :
    (u : Uart) (udre0 : Bool) (ch : ℕ)
    → IsUart u
    → ltb (length (to_send u)) 511 ≡ true
    → (udre0 && is_empty u.tx_buffer) ≡ false
    → Writes u ch (write u udre0 ch)
unfolding write
buffered u udre0 ch v room held =
    let (r, run, ring, same) = write-push buffer_size u.tx_buffer ch v.tx_ring in
    let grown : contents buffer_size r.1 ≡ to_send u ++ ch ∷ [] =
      ap (λ p. p.1) same ∙ rw room refl in
    (
      true,
      record u { tx_buffer = r.1; udrie0 = true },
      [],
      rw (is_full-contents buffer_size u.tx_buffer v.tx_ring, room, held, run) refl,
      record { rx_ring = v.rx_ring; tx_ring = ring; announced = inr refl },
      refl,
      sym room,
      sym grown,
    )

-- The byte goes out at once.
direct :
    (u : Uart) (ch : ℕ)
    → IsUart u
    → ltb (length (to_send u)) 511 ≡ true
    → is_empty u.tx_buffer ≡ true
    → Writes u ch (write u true ch)
unfolding write
direct u ch v room clear =
    let nothing : to_send u ≡ [] =
      nothing_of (to_send u) (sym (is_empty-contents buffer_size u.tx_buffer v.tx_ring) ∙ clear) in
    (
      true,
      u,
      ch ∷ [],
      rw (is_full-contents buffer_size u.tx_buffer v.tx_ring, room, clear) refl,
      v,
      refl,
      sym room,
      rw nothing refl,
    )

pub write_lem : (u : Uart) (udre0 : Bool) (ch : ℕ) → IsUart u → Writes u ch (write u udre0 ch)
unfolding write
write_lem u udre0 ch v = elim (Bool-cases (ltb (length (to_send u)) 511)) [
  | inr full ↦ (
    false,
    u,
    [],
    rw (is_full-contents buffer_size u.tx_buffer v.tx_ring, full) refl,
    v,
    refl,
    sym full,
    append-nil (to_send u),
  )
  | inl room ↦ elim (Bool-cases udre0) [
    | inr busy ↦ buffered u udre0 ch v room (rw busy refl)
    | inl ready ↦ elim (Bool-cases (is_empty u.tx_buffer)) [
      | inl clear ↦ subst (λ f. Writes u ch (write u f ch)) (sym ready) (direct u ch v room clear)
      | inr waiting ↦ buffered u udre0 ch v room (rw (ready, waiting) refl)
    ]
  ]
]

-- What a pop says of the queue, by what was read.
pub pop_cases :
    (q q' : List ℕ) (item : Option ℕ)
    → (item, q') ≡ pop q
    → ((q ≡ []) × (q' ≡ [])) ⊎ ((x : ℕ) × (item ≡ some x) × (q ≡ x ∷ q'))
pop_cases [] q' item e = inl (refl, ap (λ p. p.1) e)
pop_cases (x ∷ q) q' item e = inr (x, ap (λ p. p.0) e, ap (λ l. x ∷ l) (sym (ap (λ p. p.1) e)))

pub waiting : (size : ℕ) (b : Cbuffer) → IsRing size b → is_empty b ≡ false → contents size b ≢ []
waiting size b v e nothing =
    cc (e, is_empty-contents size b v, ap (λ q. length q == 0) nothing, refl_zero)
  where
    refl_zero : (0 == 0) ≡ true
    refl_zero = refl
