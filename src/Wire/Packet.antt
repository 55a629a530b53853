-- ===== src/Wire/Packet.antt =====
-- `TPacket` of packet.h and its object representation: 1 + 1 + 2 + 32 + 16 * 4 = 100 bytes.
use cg2111a_final_project.Base.{
  ℕ, zero, suc, ◌*◌, ◌^◌, ◌<◌, ◌≡◌, refl, sym, ap, ap₂, ◌∙◌, List, [], ◌∷◌, ◌++◌, arith, length,
  take, drop, get_or, take-append, drop-append, length-append, u32_bytes, u32_of_bytes,
  length-u32_bytes, u32_of_bytes-u32_bytes, append_assoc,
}

abbrev pub max_str_len : ℕ
max_str_len = 32

abbrev pub n_params : ℕ
n_params = 16

-- `sizeof(TPacket)`
abbrev pub packet_size : ℕ
packet_size = 100

-- A `char` is its byte.
pub record Packet : Type 0 where
  pub packet_type : ℕ
  pub command : ℕ
  pub dummy : List ℕ
  pub text : List ℕ
  pub params : List ℕ

-- The arrays have their declared lengths, and the numbers fit their types.
abbrev pub AllWords : List ℕ → Type 0
AllWords [] = Unit
AllWords (w ∷ ws) = (w < 2 ^ 32) × AllWords ws

pub record IsPacket (p : Packet) : Type 0 where
  pub dummy_fits : length p.dummy ≡ 2
  pub text_fits : length p.text ≡ max_str_len
  pub params_fit : length p.params ≡ n_params
  pub params_words : AllWords p.params

unfoldable pub words_bytes : List ℕ → List ℕ
words_bytes [] = []
words_bytes (w ∷ ws) = u32_bytes w ++ words_bytes ws

-- The first `n` words of an array of bytes.
unfoldable pub words_of_bytes : ℕ → List ℕ → List ℕ
words_of_bytes zero bs = []
words_of_bytes (suc n) bs = u32_of_bytes (take 4 bs) ∷ words_of_bytes n (drop 4 bs)

-- The bytes of a packet, as a `memcpy` from it reads them.
unfoldable pub bytes_of_packet : Packet → List ℕ
bytes_of_packet p = p.packet_type ∷ p.command ∷ (p.dummy ++ (p.text ++ words_bytes p.params))

-- The packet that an object of `packet_size` bytes holds.
unfoldable pub packet_of_bytes : List ℕ → Packet
packet_of_bytes bs = record {
  packet_type = get_or bs 0 0;
  command = get_or bs 1 0;
  dummy = take 2 (drop 2 bs);
  text = take max_str_len (drop 4 bs);
  params = words_of_bytes n_params (drop 36 bs);
}

pub length-words_bytes : (ws : List ℕ) → length (words_bytes ws) ≡ 4 * length ws
unfolding words_bytes
length-words_bytes [] = refl
length-words_bytes (w ∷ ws) =
    omega (
      arith,
      length-append (u32_bytes w) (words_bytes ws),
      length-u32_bytes w,
      length-words_bytes ws,
    )

pub words_of_bytes-words_bytes :
    (n : ℕ) (ws : List ℕ) → length ws ≡ n → AllWords ws → words_of_bytes n (words_bytes ws) ≡ ws
unfolding words_bytes words_of_bytes
words_of_bytes-words_bytes zero [] e h = refl
words_of_bytes-words_bytes zero (w ∷ ws) e h = absurd (omega arith)
words_of_bytes-words_bytes (suc n) [] e h = absurd (omega arith)
words_of_bytes-words_bytes (suc n) (w ∷ ws) e h =
    ap₂ ◌∷◌
      (ap u32_of_bytes (take-append (u32_bytes w) (words_bytes ws) 4 (sized w))
        ∙ u32_of_bytes-u32_bytes w h.0)
      (ap (words_of_bytes n) (drop-append (u32_bytes w) (words_bytes ws) 4 (sized w))
        ∙ words_of_bytes-words_bytes n ws (omega arith) h.1)
  where
    sized : (v : ℕ) → 4 ≡ length (u32_bytes v)
    sized v = omega (arith, length-u32_bytes v)

pub length-bytes_of_packet : (p : Packet) → IsPacket p → length (bytes_of_packet p) ≡ packet_size
unfolding bytes_of_packet
length-bytes_of_packet p v = omega (
  arith,
  length-append p.dummy (p.text ++ words_bytes p.params),
  length-append p.text (words_bytes p.params),
  length-words_bytes p.params,
)

-- The 100 bytes of a packet whose arrays have their lengths and whose parameters are below 2^32 read
-- back as that packet.
pub packet_of_bytes-bytes_of_packet :
    (p : Packet) → IsPacket p → packet_of_bytes (bytes_of_packet p) ≡ p
unfolding packet_of_bytes bytes_of_packet
packet_of_bytes-bytes_of_packet p v = cc (dummy_read, text_read, params_read)
  where
    rest : List ℕ
    rest = words_bytes p.params

    dummy_read : take 2 (p.dummy ++ (p.text ++ rest)) ≡ p.dummy
    dummy_read = take-append p.dummy (p.text ++ rest) 2 (sym v.dummy_fits)

    text_read : take max_str_len (drop 2 (p.dummy ++ (p.text ++ rest))) ≡ p.text
    text_read =
        ap (take max_str_len) (drop-append p.dummy (p.text ++ rest) 2 (sym v.dummy_fits))
        ∙ take-append p.text rest max_str_len (sym v.text_fits)

    params_read : words_of_bytes n_params (drop 34 (p.dummy ++ (p.text ++ rest))) ≡ p.params
    params_read =
        ap (λ l. words_of_bytes n_params (drop 34 l)) (sym (append_assoc p.dummy p.text rest))
        ∙ ap (words_of_bytes n_params)
            (drop-append (p.dummy ++ p.text) rest 34 (omega (arith, length-append p.dummy p.text)))
        ∙ words_of_bytes-words_bytes n_params p.params v.params_fit v.params_words
