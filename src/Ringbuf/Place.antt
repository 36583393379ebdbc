-- ===== src/Ringbuf/Place.antt =====
-- src/ds/ns_ringbuf.c: where copied bytes come to stand, and what moving the write position does.
use nanosig.Base.{
  ℕ, ◌+◌, ◌-◌, ◌*◌, ◌%◌, ◌≤◌, ◌<◌, ◌≡◌, refl, ◌∙◌, ap, ◌++◌, if◌then◌else◌, ltb, arith, length,
  take, drop, take-tabulate, drop-tabulate, tabulate, Bytes, byte_at, add32, mod-add, mod_small,
  mod_over, mod_wrap, ◌^◌, sym, tabulate-append, take-eq-tabulate, tabulate_ext,
}
use nanosig.Ringbuf.{Ringbuf, fix, copy_in}
use nanosig.Ringbuf.Inv.{
  IsValid, used, contents, write_position, copy_in_new, copy_in_old, length-copy_in,
}

-- The ring with other storage, and with the write position moved on by n.
abbrev pub with_buf : Ringbuf → Bytes → Ringbuf
with_buf rb b = record rb { buf = b }

abbrev pub advance_w : Ringbuf → ℕ → Ringbuf
advance_w rb n = record rb { w = fix rb (add32 rb.w n) }

-- Moving on by n does not wrap in 32 bits, and goes round at twice the size.
pub fix_exact :
    {rb : Ringbuf} (p n : ℕ)
    → IsValid rb
    → p < rb.size * 2
    → n ≤ rb.size
    → fix rb (add32 p n) ≡ (if ltb (p + n) (rb.size * 2) then p + n else p + n - rb.size * 2)
fix_exact {rb} p n v hp hn =
    let double : rb.size * 2 % 2 ^ 32 ≡ rb.size * 2 = omega arith in
    let sum : (p + n) % 2 ^ 32 ≡ p + n = omega arith in
    rw (double, sum)
      (ground (arith, mod_small (p + n) (rb.size * 2), mod_over (p + n) (rb.size * 2)))

module _ {rb : Ringbuf} (v : IsValid rb) (n : ℕ) (h : n ≤ rb.size - used rb) where
  pub used-advance_w : used (advance_w rb n) ≡ used rb + n
  used-advance_w = rw (fix_exact rb.w n v v.w_in (omega arith)) (ground arith)

  pub advance_w-IsValid : IsValid (advance_w rb n)
  advance_w-IsValid = record {
    storage = v.storage;
    nonempty = v.nonempty;
    small = v.small;
    w_in = rw (fix_exact rb.w n v v.w_in (omega arith)) (ground arith);
    r_in = v.r_in;
    fits = omega (arith, used-advance_w);
  }

-- The free bytes, in the order in which `ns_ringbuf_write_skip` publishes them.
abbrev pub staged : Ringbuf → Bytes
staged rb = tabulate (rb.size - used rb) (λ i. byte_at rb.buf ((rb.w + i) % rb.size))

-- n bytes of `src` copied in at o bytes behind the write position.
module _ {rb : Ringbuf} (v : IsValid rb) (p : ℕ) (src : Bytes) (o n : ℕ) where
  pub copied-IsValid : IsValid (with_buf rb (copy_in rb p src n))
  copied-IsValid = record {
    storage = omega (arith, length-copy_in rb p src n);
    nonempty = v.nonempty;
    small = v.small;
    w_in = v.w_in;
    r_in = v.r_in;
    fits = v.fits;
  }

  module _ (start : p ≡ (rb.w + o) % rb.size) (h : o + n ≤ rb.size - used rb) where
    -- The place i bytes behind the start, counted from the read position.
    place : (i : ℕ) → (p + i) % rb.size ≡ (rb.r + (used rb + o + i)) % rb.size
    place i =
        ap (λ q. (q + i) % rb.size) start
        ∙ mod-add (rb.w + o) i rb.size
        ∙ ap (λ q. q % rb.size) (omega arith)
        ∙ write_position (o + i) v
        ∙ ap (λ q. q % rb.size) (omega arith)

    copied_new :
        (i : ℕ)
        → i < n
        → byte_at (copy_in rb p src n) ((rb.r + (used rb + o + i)) % rb.size) ≡ byte_at src i
    copied_new i hi = rw (← place i) (copy_in_new rb p src n i v (omega arith) (omega arith) hi)

    copied_behind :
        (k : ℕ)
        → used rb + o + n ≤ k
        → k < rb.size
        → byte_at (copy_in rb p src n) ((rb.r + k) % rb.size)
          ≡ byte_at rb.buf ((rb.r + k) % rb.size)
    copied_behind k hk hs =
        rw (ap (λ q. (rb.r + q) % rb.size) split ∙ sym (place (k - (used rb + o))))
          (copy_in_old rb p src n (k - (used rb + o)) v (omega arith) (omega arith) (omega arith))
      where
        split : k ≡ used rb + o + (k - (used rb + o))
        split = omega arith

    copied_before :
        (k : ℕ)
        → k < used rb + o
        → byte_at (copy_in rb p src n) ((rb.r + k) % rb.size)
          ≡ byte_at rb.buf ((rb.r + k) % rb.size)
    copied_before k hk = rw (sym round) (
        copy_in_old rb p src n (rb.size - (used rb + o) + k) v (omega arith) (omega arith)
          (omega arith))
      where
        round : (p + (rb.size - (used rb + o) + k)) % rb.size ≡ (rb.r + k) % rb.size
        round = place (rb.size - (used rb + o) + k) ∙ mod_wrap (rb.r + k) _ rb.size (omega arith)

    -- The readable bytes stay.
    pub contents-copied : contents (with_buf rb (copy_in rb p src n)) ≡ contents rb
    contents-copied = tabulate_ext _ _ _ _ refl (λ i hi. copied_before i (omega arith))

    -- Of the free bytes the n from the o-th on become the source's.
    pub staged-copied :
        n ≤ length src
        → staged (with_buf rb (copy_in rb p src n))
          ≡ take o (staged rb) ++ (take n src ++ drop (o + n) (staged rb))
    staged-copied hs =
        rw
          (
            take-tabulate o (rb.size - used rb) (free_byte rb.buf) (omega arith),
            take-eq-tabulate n src 0 hs,
            drop-tabulate (o + n) (rb.size - used rb) (free_byte rb.buf),
          )
          (tabulate-append _ o (rb.size - used rb - o) _ _ (λ i. free_byte new (o + i))
              (omega arith) kept_before (λ i hi. refl)
            ∙ ap (◌++◌ (tabulate o (free_byte rb.buf))) (
                tabulate-append _ n (rb.size - used rb - (o + n)) _ _ _ (omega arith) written
                  kept_behind))
      where
        new : Bytes
        new = copy_in rb p src n

        free_byte : Bytes → ℕ → ℕ
        free_byte b i = byte_at b ((rb.w + i) % rb.size)

        kept_before : (i : ℕ) → i < o → free_byte new i ≡ free_byte rb.buf i
        kept_before i hi = rw (write_position i v) (copied_before (used rb + i) (omega arith))

        written : (i : ℕ) → i < n → free_byte new (o + i) ≡ byte_at src i
        written i hi =
            rw (write_position (o + i) v)
              (ap (λ q. byte_at new ((rb.r + q) % rb.size)) (omega arith) ∙ copied_new i hi)

        kept_behind :
            (i : ℕ)
            → i < rb.size - used rb - (o + n)
            → free_byte new (o + (n + i)) ≡ free_byte rb.buf (o + n + i)
        kept_behind i hi =
            ap (free_byte new) {y = o + n + i} (omega arith)
            ∙ rw (write_position (o + n + i) v)
                (copied_behind (used rb + (o + n + i)) (omega arith) (omega arith))

-- Publishing n bytes moves them from the front of the free bytes to the end of the readable ones.
pub contents-advance_w :
    {rb : Ringbuf} (v : IsValid rb) (n : ℕ)
    → n ≤ rb.size - used rb
    → contents (advance_w rb n) ≡ contents rb ++ take n (staged rb)
contents-advance_w {rb} v n h =
    rw (take-tabulate n (rb.size - used rb) (λ i. byte_at rb.buf ((rb.w + i) % rb.size)) h) (
      tabulate-append _ (used rb) n _ _ _ (used-advance_w v n h) (λ i hi. refl)
        (λ i hi. ap (byte_at rb.buf) (sym (write_position i v))))

pub advance_w_zero : {rb : Ringbuf} → IsValid rb → advance_w rb 0 ≡ rb
advance_w_zero {rb} v = ground (arith, fix_exact rb.w 0 v)
