-- ===== src/Nrng/Ranges.antt =====
-- `nrng_get_ranges` and `nrng_get_uids` of lib/nrng/src/nrng.c.
pub mod Mask
use uwb_core.Common.{
  ℕ, zero, suc, ◌+◌, ◌%◌, ◌^◌, Bool, true, false, ◌&&◌, List, [], ◌∷◌, ◌++◌, if◌then◌else◌, ◌==◌,
  u16,
}
use uwb_core.RngSlots.{and_bits, bit_index, slot_position}
use uwb_core.Nrng.{NrngFrame, Nrng, ss_nrng_final}

-- the frame of the node `i` of the request
unfoldable pub slot_frame : Nrng → ℕ → ℕ → NrngFrame
unfolding bit_index
slot_frame nrng base i =
    nrng.frames ((base + u16 (bit_index nrng.slot_mask (2 ^ i) slot_position)) % nrng.nframes)

-- whether it holds a response to the last request
unfoldable pub answered : Nrng → ℕ → ℕ → Bool
unfolding slot_frame and_bits
answered nrng base i =
    if and_bits 32 nrng.slot_mask (2 ^ i) == 0
    then false
    else (slot_frame nrng base i).code == ss_nrng_final
      && (slot_frame nrng base i).seq_num == nrng.seq_num

-- The first loop; a bit that is or-ed in was clear before.
unfoldable pub valid_mask : Nrng → ℕ → ℕ → ℕ
unfolding answered
valid_mask nrng base zero = 0
valid_mask nrng base (suc n) =
    let mask = valid_mask nrng base n in if answered nrng base n then mask + 2 ^ n else mask

-- The second loop, over the bits of the mask.
unfoldable pub outputs {ℓ} : {F : Type ℓ} → (NrngFrame → F) → Nrng → ℕ → ℕ → ℕ → List F
unfolding slot_frame and_bits
outputs to_meters nrng base mask zero = []
outputs to_meters nrng base mask (suc n) =
    let before = outputs to_meters nrng base mask n in
    if and_bits 32 mask (2 ^ n) == 0
    then before
    else before ++ to_meters (slot_frame nrng base n) ∷ []

-- The mask and the ranges, in metres by the floating-point functions of the source.
unfoldable pub nrng_get_ranges {ℓ} : {F : Type ℓ} → (NrngFrame → F) → Nrng → ℕ → ℕ → ℕ × List F
unfolding valid_mask outputs
nrng_get_ranges to_meters nrng nranges base =
    let mask = valid_mask nrng base nranges in (mask, outputs to_meters nrng base mask nranges)

-- The same text, the metres converted to integers of 16 bits.
unfoldable pub nrng_get_uids {ℓ} :
    {F : Type ℓ} → (F → ℕ) → (NrngFrame → F) → Nrng → ℕ → ℕ → ℕ × List ℕ
unfolding valid_mask outputs
nrng_get_uids to_u16 to_meters nrng nranges base =
    let mask = valid_mask nrng base nranges in
    (mask, outputs (λ f. to_u16 (to_meters f)) nrng base mask nranges)
