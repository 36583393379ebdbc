-- ===== src/Ringbuf/Read.antt =====
-- `ns_ringbuf_init`, the queries, `ns_ringbuf_read`, `ns_ringbuf_read_skip`, the two peeks and
-- `ns_ringbuf_clear`.
use nanosig.Base.{
  ℕ, ◌-◌, ◌%◌, ◌≤◌, ◌<◌, ◌≡◌, refl, ap, inl, inr, ◌⊎◌, ◌++◌, some, arith, lt_or_ge, [], length,
  take, drop, Bytes, pos, tabulate_ext, Status,
}
use nanosig.Ringbuf.{
  Ringbuf, max_size, init, total_size, readable, free_size, read, read_skip, clear, reset,
}
use nanosig.Ringbuf.Inv.{
  IsValid, contents, data_size_exact, data_space_exact, free_space_exact, length-contents,
}
use nanosig.Ringbuf.Taken.{
  advance_r, present, advance_r-IsValid, contents-advance_r, advance_r_zero, copy_out_eq,
}

-- `ns_ringbuf_init` takes exactly the sizes from 1 to UINT32_MAX / 3, each with its own error
-- outside; the ring that it makes, over storage of that size, is valid and empty.
pub init_lem :
    (old : Ringbuf) (storage : Bytes) (size : ℕ)
    → size ≤ length storage
    → ((size ≡ 0) × (init (some old) (some storage) size ≡ (Status.inval, some old)))
      ⊎ ((max_size < size) × (init (some old) (some storage) size ≡ (Status.param, some old)))
      ⊎ ((rb : Ringbuf) × (init (some old) (some storage) size ≡ (Status.ns_ok, some rb))
          × IsValid rb
          × (rb.size ≡ size)
          × (contents rb ≡ []))
unfolding init
init_lem old storage size h = elim (lt_or_ge max_size size) [
  | inl big ↦ inr (inl (big, ground arith))
  | inr small ↦ elim (lt_or_ge 0 size) [
    | inl some_bytes ↦ inr (
        inr (
          record { buf = storage; size = size; w = 0; r = 0 },
          ground arith,
          omega arith,
          refl,
          refl,
        ))
    | inr no_bytes ↦ inl (omega arith, ground arith)
  ]
]

-- On a valid ring the three sizes come back as they are, never cut by the conversion to `int32_t`:
-- the capacity, the readable bytes, and the rest.
pub sizes_exact :
    {rb : Ringbuf}
    → IsValid rb
    → (total_size (some rb) ≡ pos rb.size)
      × (readable (some rb) ≡ pos (length (contents rb)))
      × (free_size (some rb) ≡ pos (rb.size - length (contents rb)))
unfolding total_size readable free_size
sizes_exact {rb} v = ground (arith, data_size_exact v, free_space_exact v, length-contents rb)

-- `ns_ringbuf_read` on a valid ring, into a buffer with room for `len` bytes, takes as many bytes
-- as are there and asked for, and returns their number: the oldest bytes come to the front of the
-- buffer, whose rest stays, and leave the ring.
pub read_lem :
    {rb : Ringbuf} (out : Bytes) (len : ℕ)
    → IsValid rb
    → len ≤ length out
    → let n = present rb len in
      (rb' : Ringbuf) × (read (some rb) (some out) len
        ≡ (pos n, some rb', some (take n (contents rb) ++ drop n out)))
      × IsValid rb'
      × (rb'.size ≡ rb.size)
      × (contents rb' ≡ drop n (contents rb))
unfolding read
read_lem {rb} out len v h = (
  advance_r rb n,
  ground (
    arith,
    data_space_exact v,
    advance_r_zero v,
    copy_out_eq 0 (rb.r % rb.size) out n v (ap (λ q. q % rb.size) (omega arith)),
  ),
  advance_r-IsValid v n (omega arith),
  refl,
  contents-advance_r v n (omega arith),
)
  where
    n : ℕ
    n = present rb len

-- `ns_ringbuf_read_skip` on a valid ring drops as many of the oldest bytes as asked for and there,
-- and returns their number.
pub read_skip_lem :
    {rb : Ringbuf} (len : ℕ)
    → IsValid rb
    → (rb' : Ringbuf) × (read_skip (some rb) len ≡ (pos (present rb len), some rb'))
      × IsValid rb'
      × (rb'.size ≡ rb.size)
      × (contents rb' ≡ drop (present rb len) (contents rb))
unfolding read_skip
read_skip_lem {rb} len v = (
  advance_r rb (present rb len),
  ground (arith, data_space_exact v, advance_r_zero v),
  advance_r-IsValid v (present rb len) (omega arith),
  refl,
  contents-advance_r v (present rb len) (omega arith),
)

-- `ns_ringbuf_clear` and `ns_ringbuf_reset` leave a valid ring of the same storage with no byte.
pub clear_lem :
    {rb : Ringbuf}
    → IsValid rb
    → (rb' : Ringbuf) × (rb'' : Ringbuf) × (clear (some rb) ≡ some rb')
      × (reset (some rb) ≡ some rb'')
      × IsValid rb'
      × IsValid rb''
      × (rb'.size ≡ rb.size)
      × (rb''.size ≡ rb.size)
      × (contents rb' ≡ [])
      × (contents rb'' ≡ [])
unfolding clear reset
clear_lem {rb} v = (
  record rb { r = rb.w },
  record rb { w = 0; r = 0 },
  refl,
  refl,
  ground arith,
  ground arith,
  refl,
  refl,
  tabulate_ext _ 0 _ (λ i. i) (ground arith) (λ i hi. absurd (ground arith)),
  refl,
)
