-- ===== src/Wire/Deserialize/Split.antt =====
-- A frame that arrives in two reads.
use cg2111a_final_project.Base.{
  ℕ, ◌≤◌, ◌<◌, ◌≡◌, refl, ap, sym, ◌∙◌, List, [], ◌++◌, none, some, ◌>>=◌, arith, length, take,
  drop, length-append, le→leb, lt→leb, take_all, drop_all, some_injective,
}
use cg2111a_final_project.Wire.Frame.{Comms, IsComms, frame_size, max_data_size, serialize}
use cg2111a_final_project.Wire.Frame.Encode.{length-serialize}
use cg2111a_final_project.Wire.Assemble.{
  Assembler, Result, packet_ok, packet_bad, packet_checksum_bad, packet_complete, packet_incomplete,
}
use cg2111a_final_project.Wire.Assemble.Waiting.{IsAssembling, pending}
use cg2111a_final_project.Wire.Assemble.Fill.{absorb, seen}
use cg2111a_final_project.Wire.Assemble.Stream.{assemble_absorbs}
use cg2111a_final_project.Wire.Deserialize.{open_frame, on_result, deserialize}
use cg2111a_final_project.Wire.Deserialize.RoundTrip.{open_frame-serialize}

-- Inversion of `seen`: what `deserialize` makes of the result.
pub on_incomplete :
    (ra : Result × Assembler) (out waiting : List ℕ)
    → seen ra ≡ (packet_incomplete, none, waiting)
    → (on_result out ra ≡ some (packet_incomplete, out, ra.1)) × (pending ra.1 ≡ waiting)
unfolding on_result
on_incomplete (packet_incomplete, a) out waiting e = (refl, ap (λ t. t.2) e)
on_incomplete (packet_complete, a) out waiting e = cc
on_incomplete (packet_ok, a) out waiting e = cc
on_incomplete (packet_bad, a) out waiting e = cc
on_incomplete (packet_checksum_bad, a) out waiting e = cc

pub on_complete :
    (ra : Result × Assembler) (out frame waiting : List ℕ)
    → seen ra ≡ (packet_complete, some frame, waiting)
    → (on_result out ra ≡ (open_frame frame out >>= λ ro. some (ro.0, ro.1, ra.1)))
      × (pending ra.1 ≡ waiting)
unfolding on_result
on_complete (packet_complete, a) out frame waiting e = (
  ap (λ f. open_frame f out >>= λ ro. some (ro.0, ro.1, a)) (some_injective (ap (λ t. t.1) e)),
  ap (λ t. t.2) e,
)
on_complete (packet_incomplete, a) out frame waiting e = cc
on_complete (packet_ok, a) out frame waiting e = cc
on_complete (packet_bad, a) out frame waiting e = cc
on_complete (packet_checksum_bad, a) out frame waiting e = cc

-- A frame that `serialize` wrote of a payload of at most 128 bytes that source and object have
-- room for, and that arrives in two reads, the first shorter than a frame, at an assembler that
-- satisfies its invariant and has nothing pending: the first read is PACKET_INCOMPLETE and leaves
-- the caller's object alone, the second is PACKET_OK and copies the payload into it, and the
-- invariant holds and nothing is pending afterwards.
pub deserialize-serialize_split :
    (stack : Comms) (source output front back : List ℕ) (size : ℕ) (a : Assembler)
    → IsComms stack
    → size ≤ max_data_size
    → size ≤ length source
    → size ≤ length output
    → IsAssembling a
    → pending a ≡ []
    → serialize stack source size ≡ some (front ++ back)
    → length front < frame_size
    → (a1 : Assembler) × (a2 : Assembler) × (deserialize a front output
        ≡ some (packet_incomplete, output, a1))
      × (deserialize a1 back output ≡ some (packet_ok, take size source ++ drop size output, a2))
      × IsAssembling a2
      × (pending a2 ≡ [])
unfolding deserialize
deserialize-serialize_split stack source output front back size a v h k l w clear sent short =
    let (frame, sent', opened) = open_frame-serialize stack source output size v h k l in
    let same : frame ≡ front ++ back = some_injective (sym sent' ∙ sent) in
    let whole : length (front ++ back) ≡ frame_size =
      length-serialize stack source (front ++ back) size v h k sent in
    let (ra, e, kept, saw) = assemble_absorbs a front w (omega arith) in
    let (r1, p1) =
      on_incomplete ra output front
        (saw ∙ ap (λ p. absorb p front) clear ∙ rw (lt→leb frame_size (length front) short)) in
    let (rb, e2, kept2, saw2) =
      assemble_absorbs ra.1 back kept (omega (arith, length-append front back, whole)) in
    let (r2, p2) = on_complete rb output (front ++ back) [] (
      saw2
      ∙ ap (λ p. absorb p back) p1
      ∙ rw (
        le→leb frame_size (length (front ++ back)) (omega (arith, whole)),
        take_all frame_size (front ++ back) (omega (arith, whole)),
        drop_all frame_size (front ++ back) (omega (arith, whole)),
      )) in
    (ra.1, rb.1, rw (e, r1), rw (e2, r2, ← same, opened), kept2, p2)
