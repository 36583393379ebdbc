-- ===== src/Mpsc/Meta/Codec.antt =====
-- src/ds/ns_mpsc_record_ring.c: the fields of a header word come back as they were packed.
use nanosig.Base.{
  ℕ, ◌+◌, ◌*◌, ◌/◌, ◌%◌, ◌^◌, ◌<◌, ◌≡◌, refl, ◌∙◌, Bool, true, false, some, if◌then◌else◌, arith,
  u64_mod, IsPow2-pow, bit_and_mask, bit_or_fields,
}
use nanosig.Mpsc.Meta.{
  header_size, shr64, meta_encode, meta_encode_valid, meta_encode_fake, meta_is_valid, meta_is_fake,
  meta_stride, meta_padding, payload_size,
}

-- The word as a sum of its fields.
pub meta_encode_sum :
    (total padding : ℕ) (fake : Bool)
    → total < 2 ^ 32
    → padding < 2 ^ 8
    → meta_encode total padding fake
      ≡ total + padding * 2 ^ 32 + 2 ^ 40 + (if fake then 2 ^ 41 else 0)
unfolding meta_encode
meta_encode_sum total padding fake ht hp =
    let fit : total % 2 ^ 32 ≡ total = omega arith in
    let shift : padding % 2 ^ 8 * 2 ^ 32 % u64_mod ≡ padding * 2 ^ 32 = omega arith in
    rw (bit_and_mask total (IsPow2-pow 32), bit_and_mask padding (IsPow2-pow 8), fit, shift)
      (rw
        (
          bit_or_fields total padding (IsPow2-pow 32) ht,
          bit_or_fields (total + padding * 2 ^ 32) 1 (IsPow2-pow 40) (omega arith),
          bit_or_fields (total + padding * 2 ^ 32 + 2 ^ 40) 1 (IsPow2-pow 41) (omega arith),
        )
        (ground arith))

-- Each reading of a word, as arithmetic.
meta_fields :
    (meta : ℕ)
    → (meta_stride meta ≡ meta % 2 ^ 32)
      × (meta_padding meta ≡ meta / 2 ^ 32 % 2 ^ 8)
      × (meta_is_valid meta ≡ meta / 2 ^ 40 % 2)
      × (meta_is_fake meta ≡ meta / 2 ^ 41 % 2)
unfolding meta_stride meta_padding meta_is_valid meta_is_fake
meta_fields meta = (
  bit_and_mask meta (IsPow2-pow 32),
  bit_and_mask (shr64 meta 32) (IsPow2-pow 8),
  bit_and_mask (shr64 meta 40) (IsPow2-pow 1),
  bit_and_mask (shr64 meta 41) (IsPow2-pow 1),
)

-- What a header word says: a committed record of this stride and padding, or a fake record.
pub record Reads (meta stride padding fake : ℕ) : Type 0 where
  pub is_word : meta < 2 ^ 64
  pub is_committed : meta_is_valid meta ≡ 1
  pub is_fake : meta_is_fake meta ≡ fake
  pub stride_is : meta_stride meta ≡ stride
  pub padding_is : meta_padding meta ≡ padding

encode_Reads :
    (total padding : ℕ) (fake : Bool)
    → total < 2 ^ 32
    → padding < 2 ^ 8
    → Reads (meta_encode total padding fake) total padding (if fake then 1 else 0)
encode_Reads total padding fake ht hp = rw (meta_encode_sum total padding fake ht hp) (record {
  is_word = ground arith;
  is_committed = (meta_fields _).2 ∙ ground arith;
  is_fake = (meta_fields _).3 ∙ ground arith;
  stride_is = (meta_fields _).0 ∙ ground arith;
  padding_is = (meta_fields _).1 ∙ ground arith;
})

-- A header that is encoded for a committed record of a 32-bit stride and an 8-bit padding decodes
-- to just these: it is valid, not fake, and of that stride and padding.
pub meta_encode_valid-Reads :
    (total padding : ℕ)
    → total < 2 ^ 32
    → padding < 2 ^ 8
    → Reads (meta_encode_valid total padding) total padding 0
unfolding meta_encode_valid
meta_encode_valid-Reads total padding ht hp = encode_Reads total padding false ht hp

pub meta_encode_fake-Reads : (total : ℕ) → total < 2 ^ 32 → Reads (meta_encode_fake total) total 0 1
unfolding meta_encode_fake
meta_encode_fake-Reads total ht = encode_Reads total 0 true ht (omega arith)

-- The word 0 that marks a header uncommitted is not valid.
pub meta_zero : meta_is_valid 0 ≡ 0
unfolding meta_is_valid
meta_zero = refl

-- A stride that a word gives has 32 bits.
pub stride_fits : {meta stride padding fake : ℕ} → Reads meta stride padding fake → stride < 2 ^ 32
stride_fits {meta} rd = omega (arith, rd.stride_is, (meta_fields meta).0)

-- The payload is what the stride leaves after the header and the padding.
pub payload_size-Reads :
    {meta stride padding fake : ℕ} (size : ℕ)
    → Reads meta stride padding fake
    → stride ≡ header_size + size + padding
    → stride < 2 ^ 32
    → payload_size meta ≡ some size
unfolding payload_size
payload_size-Reads size rd e h = ground (arith, rd.stride_is, rd.padding_is)
