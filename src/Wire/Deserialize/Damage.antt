-- ===== src/Wire/Deserialize/Damage.antt =====
-- Frames that were damaged on the way: one byte of the payload, or the magic number.
use cg2111a_final_project.Base.{
  Bool-cases, ◌==◌, ltb, ltb→lt, ltb→le, if◌then◌else◌, ℕ, ◌+◌, ◌≤◌, ◌<◌, ◌^◌, ◌≡◌, ◌≢◌, refl, sym,
  List, ◌∷◌, ◌++◌, none, some, arith, length, take, drop, u32, Option-cases, get_elem?,
  get_elem?-lt, u8, bit_xor, inl, inr, zero, suc, ne→==, length-append, length-drop, take-append,
  take_all, append_assoc, u32_bytes, length-u32_bytes,
}
use cg2111a_final_project.Wire.Frame.{
  Comms, IsComms, magic_number, max_data_size, bytes_of_comms, checksum_from, serialize,
}
use cg2111a_final_project.Wire.Frame.Checksum.{xor_all, AllBytes, xor_all_detects}
use cg2111a_final_project.Wire.Frame.Layout.{comms_of_bytes-bytes_of_comms}
use cg2111a_final_project.Wire.Frame.Encode.{
  serialize_lem, checksum_from_front, copy_front_fits, copy_front_faults,
}
use cg2111a_final_project.Wire.Assemble.{packet_ok, packet_bad, packet_checksum_bad}
use cg2111a_final_project.Wire.Deserialize.{open_frame}
use cg2111a_final_project.Wire.Deserialize.RoundTrip.{open_frame_lem}

module _ (stack : Comms) (pre post : List ℕ) where
  -- The frame of the payload `pre ++ x ∷ post`, with `z` in the place of `x`.
  abbrev with_byte : ℕ → ℕ → Comms
  with_byte x z =
      let size = length (pre ++ x ∷ post) in
      record {
        magic = magic_number;
        data_size = u32 size;
        buffer = (pre ++ z ∷ post) ++ drop size stack.buffer;
        checksum = xor_all 0 (pre ++ x ∷ post);
        dummy = stack.dummy;
      }

  abbrev before : ℕ → List ℕ
  before x = u32_bytes magic_number ++ (u32_bytes (u32 (length (pre ++ x ∷ post))) ++ pre)

  abbrev after : ℕ → List ℕ
  after x =
      let size = length (pre ++ x ∷ post) in
      post ++ (drop size stack.buffer ++ (xor_all 0 (pre ++ x ∷ post) ∷ stack.dummy))

  bytes_with_byte : (x z : ℕ) → bytes_of_comms (with_byte x z) ≡ before x ++ z ∷ after x
  unfolding bytes_of_comms
  bytes_with_byte x z = simp append_assoc

  same_length : (x z : ℕ) → length (pre ++ z ∷ post) ≡ length (pre ++ x ∷ post)
  same_length x z = omega (arith, length-append pre (z ∷ post), length-append pre (x ∷ post))

  with_byte-IsComms :
      (x z : ℕ) → IsComms stack → length (pre ++ x ∷ post) ≤ max_data_size → IsComms (with_byte x z)
  with_byte-IsComms x z v h = record {
    magic_word = omega arith;
    size_word = omega arith;
    buffer_fits = omega (
      arith,
      length-append (pre ++ z ∷ post) (drop (length (pre ++ x ∷ post)) stack.buffer),
      length-drop (length (pre ++ x ∷ post)) stack.buffer,
      same_length x z,
      v.buffer_fits,
    );
    dummy_fits = v.dummy_fits;
  }

-- One damaged byte in a payload of at most 128 bytes that the object has room for is noticed:
-- `serialize` puts the payload's byte `x` behind the eight bytes of the header and the bytes
-- before it, and the frame with another byte `y` in its place is PACKET_CHECKSUM_BAD and leaves
-- the caller's object alone. The bytes behind `x` are bytes, too.
pub open_frame_damaged :
    (stack : Comms) (pre post output : List ℕ) (x y : ℕ)
    → IsComms stack
    → length (pre ++ x ∷ post) ≤ max_data_size
    → length (pre ++ x ∷ post) ≤ length output
    → AllBytes post
    → x < 2 ^ 8
    → y < 2 ^ 8
    → x ≢ y
    → (front back : List ℕ) × (serialize stack (pre ++ x ∷ post) (length (pre ++ x ∷ post))
        ≡ some (front ++ x ∷ back))
      × (length front ≡ 8 + length pre)
      × (open_frame (front ++ y ∷ back) output ≡ some (packet_checksum_bad, output))
open_frame_damaged stack pre post output x y v h k bytes hx hy ne =
    (before stack pre post x, after stack pre post x, sent, placed, refused)
  where
    size : ℕ
    size = length (pre ++ x ∷ post)

    sent :
        serialize stack (pre ++ x ∷ post) size
        ≡ some (before stack pre post x ++ x ∷ after stack pre post x)
    sent = rw (
      serialize_lem stack (pre ++ x ∷ post) size v h (omega arith),
      take_all size (pre ++ x ∷ post) (omega arith),
      bytes_with_byte stack pre post x x,
    )

    placed : length (before stack pre post x) ≡ 8 + length pre
    placed = omega (
      arith,
      length-append (u32_bytes magic_number) (u32_bytes (u32 size) ++ pre),
      length-append (u32_bytes (u32 size)) pre,
      length-u32_bytes magic_number,
      length-u32_bytes (u32 size),
    )

    refused :
        open_frame (before stack pre post x ++ y ∷ after stack pre post x) output
        ≡ some (packet_checksum_bad, output)
    refused = rw (
      ← bytes_with_byte stack pre post x y,
      open_frame_lem (with_byte stack pre post x y) output
          (with_byte-IsComms stack pre post x y v h) refl (omega arith) (omega arith),
      word,
      cut,
      ne→== _ _ (xor_all_detects pre post 0 y x (omega arith) hy hx (λ e. ne (sym e)) bytes),
    )
      where
        word : u32 size ≡ size
        word = omega arith

        cut : take size ((pre ++ y ∷ post) ++ drop size stack.buffer) ≡ pre ++ y ∷ post
        cut =
            take-append (pre ++ y ∷ post) (drop size stack.buffer) size
              (omega (arith, same_length stack pre post x y))

checksum_from_overruns :
    (n i : ℕ) (xs : List ℕ) (c : ℕ)
    → length xs < i + n
    → i ≤ length xs
    → checksum_from n i xs c ≡ none
unfolding checksum_from
checksum_from_overruns zero i xs c h k = absurd (omega arith)
checksum_from_overruns (suc n) i xs c h k = elim (Option-cases (get_elem? xs i)) [
  | inl out ↦ rw out
  | inr (b, e) ↦
      rw e (
        checksum_from_overruns n (i + 1) xs (u8 (bit_xor c b)) (omega arith)
          (get_elem?-lt xs i b e))
]

-- What `deserialize` makes of a whole frame, on every branch: PACKET_BAD without the magic number; a read
-- out of bounds for a length above the buffer's 128 bytes; PACKET_CHECKSUM_BAD when the checksum is not
-- that of the payload; a write out of bounds when the payload is longer than the caller's object; and
-- otherwise PACKET_OK, with the payload in front of what the object held. The object is left alone when a
-- frame is bad.
pub open_frame_total :
    (c : Comms) (output : List ℕ)
    → IsComms c
    → open_frame (bytes_of_comms c) output ≡ (
        if c.magic == magic_number
        then (if ltb max_data_size c.data_size
            then none
            else (if xor_all 0 (take c.data_size c.buffer) == c.checksum
                then (if ltb (length output) c.data_size
                    then none
                    else some (packet_ok, take c.data_size c.buffer ++ drop c.data_size output))
                else some (packet_checksum_bad, output)))
        else some (packet_bad, output))
unfolding open_frame
open_frame_total c output v =
    rw (comms_of_bytes-bytes_of_comms c v) (elim (Bool-cases (c.magic == magic_number)) [
      | inr wrong ↦ rw wrong refl
      | inl right ↦ elim (Bool-cases (ltb max_data_size c.data_size)) [
        | inl long ↦
            rw
              (
                right,
                long,
                checksum_from_overruns c.data_size 0 c.buffer 0
                    (omega (arith, v.buffer_fits, ltb→lt _ _ long)) (omega arith),
              )
              refl
        | inr short ↦
            rw
              (
                right,
                short,
                checksum_from_front c.data_size c.buffer
                    (omega (arith, v.buffer_fits, ltb→le _ _ short)),
              )
              (elim (Bool-cases (xor_all 0 (take c.data_size c.buffer) == c.checksum)) [
                | inr damaged ↦ rw damaged refl
                | inl whole ↦ elim (Bool-cases (ltb (length output) c.data_size)) [
                  | inl small ↦
                      rw
                        (
                          whole,
                          small,
                          copy_front_faults output c.buffer c.data_size (ltb→lt _ _ small),
                        )
                        refl
                  | inr room ↦
                      rw
                        (
                          whole,
                          room,
                          copy_front_fits output c.buffer c.data_size (ltb→le _ _ room)
                              (omega (arith, v.buffer_fits, ltb→le _ _ short)),
                        )
                        refl
                ]
              ])
      ]
    ])
