-- ===== src/Ringbuf/Inv.antt =====
-- The representation invariant of `ns_ringbuf_t`, and the bytes that a ring holds.
use nanosig.Base.{
  ℕ, ◌+◌, ◌-◌, ◌*◌, ◌%◌, ◌≤◌, ◌<◌, ◌≡◌, inl, inr, ◌&&◌, if◌then◌else◌, ltb, leb, leb-false, le→leb,
  lt_or_ge, arith, length, tabulate, Bytes, byte_at, pos, sub32, mod_small, mod_over,
  mod_wrap_twice, memcpy, byte_at-memcpy, length-memcpy, length-tabulate,
}
use nanosig.Ringbuf.{Ringbuf, max_size, copy_in, copy_out, data_size, free_space, data_space}

-- The readable bytes, by exact numbers.
abbrev pub used : Ringbuf → ℕ
used rb = if leb rb.r rb.w then rb.w - rb.r else rb.size * 2 - (rb.r - rb.w)

pub record IsValid (rb : Ringbuf) : Type 0 where
  pub storage : rb.size ≤ length rb.buf
  pub nonempty : 0 < rb.size
  pub small : rb.size ≤ max_size
  pub w_in : rb.w < rb.size * 2
  pub r_in : rb.r < rb.size * 2
  pub fits : used rb ≤ rb.size

-- The readable bytes, oldest first.
abbrev pub contents : Ringbuf → Bytes
contents rb = tabulate (used rb) (λ i. byte_at rb.buf ((rb.r + i) % rb.size))

pub length-contents : (rb : Ringbuf) → length (contents rb) ≡ used rb
length-contents rb = length-tabulate (used rb) _

-- Nothing wraps: the machine arithmetic gives the exact numbers.
pub data_size_exact : {rb : Ringbuf} → IsValid rb → data_size rb.size rb.w rb.r ≡ pos (used rb)
unfolding data_size
data_size_exact v = ground arith

pub data_space_exact : {rb : Ringbuf} → IsValid rb → data_space rb ≡ used rb
unfolding data_space
data_space_exact v = ground (arith, data_size_exact v)

pub free_space_exact : {rb : Ringbuf} → IsValid rb → free_space rb ≡ rb.size - used rb
unfolding free_space
free_space_exact v = ground (arith, data_size_exact v)

-- The next write goes `used` bytes behind the next read, modulo the size.
pub write_position :
    {rb : Ringbuf} (i : ℕ) → IsValid rb → (rb.w + i) % rb.size ≡ (rb.r + (used rb + i)) % rb.size
write_position {rb} i v = ground (arith, mod_wrap_twice (rb.w + i) (rb.r + (used rb + i)) rb.size)

-- One byte of the storage after `copy_in`.
byte_at-copy_in :
    (rb : Ringbuf) (p : ℕ) (src : Bytes) (n j : ℕ)
    → IsValid rb
    → p < rb.size
    → n ≤ rb.size
    → j < rb.size
    → byte_at (copy_in rb p src n) j ≡ (
        if leb p j && ltb j (p + n)
        then byte_at src (j - p)
        else if ltb (j + rb.size) (p + n)
        then byte_at src (j + rb.size - p)
        else byte_at rb.buf j)
unfolding copy_in
byte_at-copy_in rb p src n j v hp hn hj =
    let first : sub32 rb.size p ≡ rb.size - p = omega arith in
    rw first (elim (lt_or_ge (rb.size - p) n) [
      | inl over ↦ rw (leb-false n (rb.size - p) over) (
          ground (
            arith,
            first,
            length-memcpy rb.buf p src 0 (rb.size - p),
            byte_at-memcpy rb.buf p src 0 (rb.size - p) j,
            byte_at-memcpy (memcpy rb.buf p src 0 (rb.size - p)) 0 src (rb.size - p)
                (n - (rb.size - p)) j,
          ))
      | inr fit ↦
          rw (le→leb n (rb.size - p) fit) (ground (arith, byte_at-memcpy rb.buf p src 0 n j))
    ])

-- From the start position on the storage holds the source's bytes, round the end.
pub copy_in_new :
    (rb : Ringbuf) (p : ℕ) (src : Bytes) (n i : ℕ)
    → IsValid rb
    → p < rb.size
    → n ≤ rb.size
    → i < n
    → byte_at (copy_in rb p src n) ((p + i) % rb.size) ≡ byte_at src i
copy_in_new rb p src n i v hp hn hi = elim (lt_or_ge (p + i) rb.size) [
  | inl before ↦
      rw (mod_small (p + i) rb.size before) (ground (arith, byte_at-copy_in rb p src n (p + i)))
  | inr after ↦
      rw (mod_over (p + i) rb.size after (omega arith))
        (ground (arith, byte_at-copy_in rb p src n (p + i - rb.size)))
]

-- The other bytes are as they were.
pub copy_in_old :
    (rb : Ringbuf) (p : ℕ) (src : Bytes) (n i : ℕ)
    → IsValid rb
    → p < rb.size
    → n ≤ i
    → i < rb.size
    → byte_at (copy_in rb p src n) ((p + i) % rb.size) ≡ byte_at rb.buf ((p + i) % rb.size)
copy_in_old rb p src n i v hp hn hi = elim (lt_or_ge (p + i) rb.size) [
  | inl before ↦
      rw (mod_small (p + i) rb.size before) (ground (arith, byte_at-copy_in rb p src n (p + i)))
  | inr after ↦
      rw (mod_over (p + i) rb.size after (omega arith))
        (ground (arith, byte_at-copy_in rb p src n (p + i - rb.size)))
]

pub length-copy_in :
    (rb : Ringbuf) (p : ℕ) (src : Bytes) (n : ℕ) → length (copy_in rb p src n) ≡ length rb.buf
unfolding copy_in
length-copy_in rb p src n = ground (
  arith,
  length-memcpy rb.buf p src 0 n,
  length-memcpy rb.buf p src 0 (sub32 rb.size p),
  length-memcpy (memcpy rb.buf p src 0 (sub32 rb.size p)) 0 src (sub32 rb.size p)
      (sub32 n (sub32 rb.size p)),
)

-- One byte of the caller's buffer after `copy_out`.
pub byte_at-copy_out :
    (rb : Ringbuf) (p : ℕ) (out : Bytes) (n i : ℕ)
    → IsValid rb
    → p < rb.size
    → n ≤ rb.size
    → n ≤ length out
    → byte_at (copy_out rb p out n) i
      ≡ (if ltb i n then byte_at rb.buf ((p + i) % rb.size) else byte_at out i)
unfolding copy_out
byte_at-copy_out rb p out n i v hp hn ho =
    let first : sub32 rb.size p ≡ rb.size - p = omega arith in
    rw first (elim (lt_or_ge (rb.size - p) n) [
      | inl over ↦ rw (leb-false n (rb.size - p) over) (
          ground (
            arith,
            length-memcpy out 0 rb.buf p (rb.size - p),
            mod_small (p + i) rb.size,
            mod_over (p + i) rb.size,
            byte_at-memcpy out 0 rb.buf p (rb.size - p) i,
            byte_at-memcpy (memcpy out 0 rb.buf p (rb.size - p)) (rb.size - p) rb.buf 0
                (n - (rb.size - p)) i,
          ))
      | inr fit ↦
          rw (le→leb n (rb.size - p) fit)
            (ground (arith, mod_small (p + i) rb.size, byte_at-memcpy out 0 rb.buf p n i))
    ])

pub length-copy_out :
    (rb : Ringbuf) (p : ℕ) (out : Bytes) (n : ℕ) → length (copy_out rb p out n) ≡ length out
unfolding copy_out
length-copy_out rb p out n = ground (
  arith,
  length-memcpy out 0 rb.buf p n,
  length-memcpy out 0 rb.buf p (sub32 rb.size p),
  length-memcpy (memcpy out 0 rb.buf p (sub32 rb.size p)) (sub32 rb.size p) rb.buf 0
      (sub32 n (sub32 rb.size p)),
)
