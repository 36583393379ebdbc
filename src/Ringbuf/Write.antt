-- ===== src/Ringbuf/Write.antt =====
-- `ns_ringbuf_write`, `ns_ringbuf_draft_write` and `ns_ringbuf_write_skip` on a valid ring.
use nanosig.Base.{
  ℕ, ◌+◌, ◌-◌, ◌%◌, ◌≤◌, ◌<◌, ◌≡◌, refl, ◌∙◌, ap, ◌++◌, some, min, arith, length, take, drop,
  take_exact, length-take, memcpy_zero, sub32, if◌then◌else◌, ◌==◌, Bytes, pos, add32, status_code,
  Status,
}
use nanosig.Ringbuf.{Ringbuf, copy_in, write, draft_write, write_skip}
use nanosig.Ringbuf.Inv.{IsValid, used, contents, free_space_exact}
use nanosig.Ringbuf.Place.{
  with_buf, advance_w, staged, advance_w-IsValid, copied-IsValid, contents-copied, staged-copied,
  contents-advance_w, advance_w_zero,
}

-- How many of len bytes fit.
abbrev pub fitting : Ringbuf → ℕ → ℕ
fitting rb len = min len (rb.size - used rb)

copy_in_zero : (rb : Ringbuf) (p : ℕ) (src : Bytes) → copy_in rb p src 0 ≡ rb.buf
unfolding copy_in
copy_in_zero rb p src =
    ground (arith, memcpy_zero rb.buf p src 0, memcpy_zero rb.buf p src (sub32 rb.size p))

-- The ring that `ns_ringbuf_write` leaves.
abbrev written : Ringbuf → Bytes → ℕ → Ringbuf
written rb src n = advance_w (with_buf rb (copy_in rb (rb.w % rb.size) src n)) n

written_zero : {rb : Ringbuf} (src : Bytes) → IsValid rb → written rb src 0 ≡ rb
written_zero {rb} src v =
    ap (λ b. advance_w (with_buf rb b) 0) (copy_in_zero rb (rb.w % rb.size) src) ∙ advance_w_zero v

write_eq :
    {rb : Ringbuf} (src : Bytes) (len : ℕ)
    → IsValid rb
    → write (some rb) (some src) len
      ≡ (pos (fitting rb len), some (written rb src (fitting rb len)))
unfolding write
write_eq {rb} src len v = ground (arith, free_space_exact v, written_zero src v)

contents-written :
    {rb : Ringbuf} (src : Bytes) (n : ℕ) (v : IsValid rb)
    → n ≤ rb.size - used rb
    → n ≤ length src
    → contents (written rb src n) ≡ contents rb ++ take n src
contents-written {rb} src n v h hs =
    contents-advance_w (copied-IsValid v p src 0 n) n h
    ∙ ap (◌++◌ (contents (with_buf rb (copy_in rb p src n))))
        (ap (take n) (staged-copied v p src 0 n start (omega arith) hs) ∙ take_exact n _ _ count)
    ∙ ap (λ c. c ++ take n src) (contents-copied v p src 0 n start (omega arith))
  where
    p : ℕ
    p = rb.w % rb.size

    start : p ≡ (rb.w + 0) % rb.size
    start = ap (λ q. q % rb.size) (omega arith)

    count : n ≡ length (take n src)
    count = omega (arith, length-take n src)

-- `ns_ringbuf_write` on a valid ring, with `len` bytes in `src`, takes as many bytes as fit and
-- returns their number; the ring stays valid and of its size, and holds what it held followed by
-- those bytes.
pub write_lem :
    {rb : Ringbuf} (src : Bytes) (len : ℕ)
    → IsValid rb
    → len ≤ length src
    → (rb' : Ringbuf) × (write (some rb) (some src) len ≡ (pos (fitting rb len), some rb'))
      × IsValid rb'
      × (rb'.size ≡ rb.size)
      × (contents rb' ≡ contents rb ++ take (fitting rb len) src)
write_lem {rb} src len v h = (
  written rb src n,
  write_eq src len v,
  advance_w-IsValid (copied-IsValid v (rb.w % rb.size) src 0 n) n (omega arith),
  refl,
  contents-written src n v (omega arith) (omega arith),
)
  where
    n : ℕ
    n = fitting rb len

-- `ns_ringbuf_write_skip` on a valid ring publishes as many of the free bytes as asked for and
-- free, from the write position on, and returns their number.
pub write_skip_lem :
    {rb : Ringbuf} (len : ℕ)
    → IsValid rb
    → (rb' : Ringbuf) × (write_skip (some rb) len ≡ (pos (fitting rb len), some rb'))
      × IsValid rb'
      × (rb'.size ≡ rb.size)
      × (contents rb' ≡ contents rb ++ take (fitting rb len) (staged rb))
unfolding write_skip
write_skip_lem {rb} len v = (
  advance_w rb (fitting rb len),
  ground (arith, free_space_exact v, advance_w_zero v),
  advance_w-IsValid v (fitting rb len) (omega arith),
  refl,
  contents-advance_w v (fitting rb len) (omega arith),
)

-- `ns_ringbuf_draft_write` on a valid ring, at an offset inside the free bytes and with `len` bytes
-- in `src`: it writes as many bytes as fit behind the offset and returns their number; the readable
-- bytes stay, and of the free bytes exactly those from the offset on become the source's.
pub draft_write_lem :
    {rb : Ringbuf} (offset : ℕ) (src : Bytes) (len : ℕ)
    → IsValid rb
    → offset < rb.size - used rb
    → len ≤ length src
    → let n = min len (rb.size - used rb - offset) in
      (rb' : Ringbuf) × (draft_write (some rb) offset (some src) len ≡ (pos n, some rb'))
      × IsValid rb'
      × (contents rb' ≡ contents rb)
      × (staged rb' ≡ take offset (staged rb) ++ (take n src ++ drop (offset + n) (staged rb)))
unfolding draft_write
draft_write_lem {rb} offset src len v ho h = (
  with_buf rb (copy_in rb p src n),
  ground (
    arith,
    free_space_exact v,
    copy_in_zero rb p src,
    copy_in_zero rb (add32 rb.w offset % rb.size) src,
    ap (λ q. copy_in rb (q % rb.size) src n) exact,
  ),
  copied-IsValid v p src offset n,
  contents-copied v p src offset n refl (omega arith),
  staged-copied v p src offset n refl (omega arith) (omega arith),
)
  where
    n : ℕ
    n = min len (rb.size - used rb - offset)

    p : ℕ
    p = (rb.w + offset) % rb.size

    exact : add32 rb.w offset ≡ rb.w + offset
    exact = omega arith

-- On a valid ring an offset at or past the free bytes gives NS_E_RANGE, unless no byte is asked
-- for, which gives 0; the ring is left as it was.
pub draft_write_range :
    {rb : Ringbuf} (offset : ℕ) (src : Bytes) (len : ℕ)
    → IsValid rb
    → rb.size - used rb ≤ offset
    → draft_write (some rb) offset (some src) len
      ≡ (if len == 0 then pos 0 else status_code Status.range, some rb)
unfolding draft_write
draft_write_range {rb} offset src len v h = ground (arith, free_space_exact v)
