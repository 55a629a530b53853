-- ===== src/Uart/Cbuffer.antt =====
-- Working/Alex-a/cbuffer.h: `CBuffer<uint8_t, size>`. `none` is an access outside the array; an index
-- stays below twice the size, so the 16-bit `int` of the Arduino does not overflow.
pub mod Index
pub mod Count
pub mod Queue
use cg2111a_final_project.Base.{
  ℕ, zero, suc, ◌+◌, ◌-◌, ◌%◌, ◌<◌, ◌≡◌, List, [], ◌∷◌, ◌++◌, Option, none, some, ◌>>=◌, Bool, true,
  false, length, get_elem?, get_or, store, leb, ◌==◌, if◌then◌else◌,
}

pub record Cbuffer : Type 0 where
  pub array : List ℕ
  pub head : ℕ
  pub tail : ℕ

unfoldable pub is_full : ℕ → Cbuffer → Bool
is_full size b = (b.head + 1) % size == b.tail

unfoldable pub is_empty : Cbuffer → Bool
is_empty b = b.head == b.tail

unfoldable pub write : ℕ → Cbuffer → ℕ → Option (Bool × Cbuffer)
write size b item =
    if is_full size b
    then some (false, b)
    else (let head = (b.head + 1) % size in
        store b.array head item >>= λ array. some (true, record b { array = array; head = head }))

-- The two assignments of `write`, for an interrupt that comes in between.
unfoldable pub advance_head : ℕ → Cbuffer → Cbuffer
advance_head size b = record b { head = (b.head + 1) % size }

unfoldable pub store_item : Cbuffer → ℕ → Option Cbuffer
store_item b item = store b.array b.head item >>= λ array. some (record b { array = array })

-- What is read, if there is something, and the buffer.
unfoldable pub read : ℕ → Cbuffer → Option (Option ℕ × Cbuffer)
read size b =
    if is_empty b
    then some (none, b)
    else (let tail = (b.tail + 1) % size in
        get_elem? b.array tail >>= λ item. some (some item, record b { tail = tail }))

-- The indices lie in the array.
pub record IsRing (size : ℕ) (b : Cbuffer) : Type 0 where
  pub array_fits : length b.array ≡ size
  pub head_in : b.head < size
  pub tail_in : b.tail < size

-- How many elements wait between the tail and the head.
abbrev pub count : ℕ → Cbuffer → ℕ
count size b = if leb b.tail b.head then b.head - b.tail else b.head + size - b.tail

-- The index that is `n` steps behind the one after `i`.
abbrev pub at : ℕ → ℕ → ℕ → ℕ
at size i n = (i + 1 + n) % size

-- `n` elements, from the index after `i` on.
abbrev pub collect : ℕ → List ℕ → ℕ → ℕ → List ℕ
collect size array i zero = []
collect size array i (suc n) = collect size array i n ++ get_or array (at size i n) 0 ∷ []

-- The elements in the order in which they will be read.
abbrev pub contents : ℕ → Cbuffer → List ℕ
contents size b = collect size b.array b.tail (count size b)
