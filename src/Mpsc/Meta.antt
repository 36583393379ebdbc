-- ===== src/Mpsc/Meta.antt =====
-- src/ds/ns_mpsc_record_ring.c: the word that heads each record.
pub mod Codec
use Prim.Native.Nat.{bit_and, bit_or}
use nanosig.Base.{
  ℕ, ◌*◌, ◌/◌, ◌%◌, ◌^◌, Bool, true, false, Option, some, none, if◌then◌else◌, ltb, ◌||◌, sub64,
  u64_mod,
}

-- `sizeof(ns_mpsc_record_header_t)` and NS_MPSC_RECORD_RING_ALIGNMENT, both `sizeof(size_t)`.
abbrev pub header_size : ℕ
header_size = 8

abbrev pub alignment : ℕ
alignment = 8

abbrev pub stride_mask : ℕ
stride_mask = 0xffff_ffff

abbrev pub pad_mask : ℕ
pad_mask = 0xff

-- `x << k` of a `size_t`, and `x >> k`.
abbrev pub shl64 : ℕ → ℕ → ℕ
shl64 x k = x * 2 ^ k % u64_mod

abbrev pub shr64 : ℕ → ℕ → ℕ
shr64 x k = x / 2 ^ k

-- `ns_mpsc_meta_encode`.
pub meta_encode : ℕ → ℕ → Bool → ℕ
meta_encode total padding fake =
    let meta =
      bit_or (bit_or (bit_and total stride_mask) (shl64 (bit_and padding pad_mask) 32))
        (shl64 1 40) in
    if fake then bit_or meta (shl64 1 41) else meta

pub meta_encode_valid : ℕ → ℕ → ℕ
meta_encode_valid total padding = meta_encode total padding false

pub meta_encode_fake : ℕ → ℕ
meta_encode_fake total = meta_encode total 0 true

-- The C functions return the bit; every caller tests it.
pub meta_is_valid : ℕ → ℕ
meta_is_valid meta = bit_and (shr64 meta 40) 1

pub meta_is_fake : ℕ → ℕ
meta_is_fake meta = bit_and (shr64 meta 41) 1

pub meta_stride : ℕ → ℕ
meta_stride meta = bit_and meta stride_mask

pub meta_padding : ℕ → ℕ
meta_padding meta = bit_and (shr64 meta 32) pad_mask

-- `ns_mpsc_record_ring_payload_size`; `none` is its `false`.
pub payload_size : ℕ → Option ℕ
payload_size meta =
    if ltb (meta_stride meta) header_size
      || ltb (sub64 (meta_stride meta) header_size) (meta_padding meta)
    then none
    else some (sub64 (sub64 (meta_stride meta) header_size) (meta_padding meta))
