-- ===== src/Wire/Frame/Layout.antt =====
-- The layout of `TComms` in memory: writing a frame out and casting it back.
use cg2111a_final_project.Base.{
  ◌≡◌, refl, ap, sym, ◌∙◌, ◌∷◌, ◌++◌, arith, length, take, drop, get_or, take-append, drop-append,
  length-append, u32_bytes, u32_of_bytes, length-u32_bytes, take_all, drop_add,
}
use cg2111a_final_project.Wire.Frame.{
  Comms, IsComms, frame_size, max_data_size, bytes_of_comms, comms_of_bytes,
}

-- A frame fills exactly PACKET_SIZE bytes.
pub length-bytes_of_comms : (c : Comms) → IsComms c → length (bytes_of_comms c) ≡ frame_size
unfolding bytes_of_comms
length-bytes_of_comms c v = omega (
  arith,
  length-append (u32_bytes c.magic) (u32_bytes c.data_size ++ (c.buffer ++ c.checksum ∷ c.dummy)),
  length-append (u32_bytes c.data_size) (c.buffer ++ c.checksum ∷ c.dummy),
  length-append c.buffer (c.checksum ∷ c.dummy),
  length-u32_bytes c.magic,
  length-u32_bytes c.data_size,
)

module _ (c : Comms) (v : IsComms c) where
  drop_8 : drop 8 (bytes_of_comms c) ≡ c.buffer ++ (c.checksum ∷ c.dummy)
  unfolding bytes_of_comms u32_bytes
  drop_8 = refl

  drop_136 : drop 136 (bytes_of_comms c) ≡ c.checksum ∷ c.dummy
  unfolding bytes_of_comms u32_bytes
  drop_136 = drop-append c.buffer (c.checksum ∷ c.dummy) 128 (sym v.buffer_fits)

  drop_137 : drop 137 (bytes_of_comms c) ≡ c.dummy
  drop_137 = sym (drop_add 136 1 (bytes_of_comms c)) ∙ ap (drop 1) drop_136

  -- The cast of the bytes of a frame whose arrays have their lengths and whose words are below 2^32
  -- gives that frame back.
  pub comms_of_bytes-bytes_of_comms : comms_of_bytes (bytes_of_comms c) ≡ c
  unfolding comms_of_bytes
  comms_of_bytes-bytes_of_comms = cc (magic, size, buffer, checksum, dummy)
    where
      magic : u32_of_bytes (take 4 (bytes_of_comms c)) ≡ c.magic
      magic = unfold bytes_of_comms u32_bytes u32_of_bytes in omega (arith, v.magic_word)

      size : u32_of_bytes (take 4 (drop 4 (bytes_of_comms c))) ≡ c.data_size
      size = unfold bytes_of_comms u32_bytes u32_of_bytes in omega (arith, v.size_word)

      buffer : take max_data_size (drop 8 (bytes_of_comms c)) ≡ c.buffer
      buffer =
          ap (take max_data_size) drop_8
          ∙ take-append c.buffer (c.checksum ∷ c.dummy) max_data_size (sym v.buffer_fits)

      checksum : get_or (drop 136 (bytes_of_comms c)) 0 0 ≡ c.checksum
      checksum = ap (λ l. get_or l 0 0) drop_136

      dummy : take 3 (drop 137 (bytes_of_comms c)) ≡ c.dummy
      dummy = ap (take 3) drop_137 ∙ take_all 3 c.dummy (omega (arith, v.dummy_fits))
