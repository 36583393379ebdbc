-- ===== src/Ringbuf/Taken.antt =====
-- src/ds/ns_ringbuf.c: what `copy_out` yields, and what moving the read position does.
use nanosig.Base.{
  ℕ, ◌+◌, ◌-◌, ◌*◌, ◌%◌, ◌≤◌, ◌<◌, ◌≡◌, ◌∙◌, sym, ap, inl, inr, ◌++◌, min, arith, ltb, ap₂, lt→ltb,
  if◌then◌else◌, lt_or_ge, mod-add, mod_wrap_twice, byte_at, add32, tabulate, length, take, drop,
  Bytes, tabulate_ext, tabulate-append, take-tabulate, drop-tabulate, eq-tabulate, drop-eq-tabulate,
  ltb-false,
}
use nanosig.Ringbuf.{Ringbuf, fix, copy_out}
use nanosig.Ringbuf.Inv.{IsValid, used, contents, byte_at-copy_out, length-copy_out}
use nanosig.Ringbuf.Place.{fix_exact}

abbrev pub advance_r : Ringbuf → ℕ → Ringbuf
advance_r rb n = record rb { r = fix rb (add32 rb.r n) }

-- How many of len bytes are there.
abbrev pub present : Ringbuf → ℕ → ℕ
present rb len = min len (used rb)

module _ {rb : Ringbuf} (v : IsValid rb) (n : ℕ) (h : n ≤ used rb) where
  pub used-advance_r : used (advance_r rb n) ≡ used rb - n
  used-advance_r = rw (fix_exact rb.r n v v.r_in (omega arith)) (ground arith)

  pub advance_r-IsValid : IsValid (advance_r rb n)
  advance_r-IsValid = record {
    storage = v.storage;
    nonempty = v.nonempty;
    small = v.small;
    w_in = v.w_in;
    r_in = rw (fix_exact rb.r n v v.r_in (omega arith)) (ground arith);
    fits = omega (arith, used-advance_r);
  }

  -- The read position may be taken before or after it goes round.
  position-advance_r : (i : ℕ) → ((advance_r rb n).r + i) % rb.size ≡ (rb.r + (n + i)) % rb.size
  position-advance_r i =
      rw (fix_exact rb.r n v v.r_in (omega arith)) (elim (lt_or_ge (rb.r + n) (rb.size * 2)) [
        | inl below ↦ rw (lt→ltb _ _ below) (ap (λ q. q % rb.size) (omega arith))
        | inr over ↦
            rw (ltb-false _ _ over)
              (sym (mod_wrap_twice (rb.r + n - rb.size * 2 + i) _ rb.size (omega arith)))
      ])

  pub contents-advance_r : contents (advance_r rb n) ≡ drop n (contents rb)
  contents-advance_r =
      tabulate_ext _ _ _ _ used-advance_r (λ i hi. ap (byte_at rb.buf) (position-advance_r i))
      ∙ sym (drop-tabulate n (used rb) _)

pub advance_r_zero : {rb : Ringbuf} → IsValid rb → advance_r rb 0 ≡ rb
advance_r_zero {rb} v = ground (arith, fix_exact rb.r 0 v)

-- What `copy_out` leaves in the caller's buffer when it starts o bytes behind the read position.
pub copy_out_eq :
    {rb : Ringbuf} (o p : ℕ) (out : Bytes) (n : ℕ)
    → IsValid rb
    → p ≡ (rb.r + o) % rb.size
    → o + n ≤ used rb
    → n ≤ length out
    → copy_out rb p out n ≡ take n (drop o (contents rb)) ++ drop n out
copy_out_eq {rb} o p out n v start h ho =
    eq-tabulate (copy_out rb p out n) 0 (length out) (sym (length-copy_out rb p out n))
    ∙ tabulate-append (length out) n (length out - n) _ _ _ (omega arith) taken kept
    ∙ ap₂ ◌++◌ (sym source) (sym (drop-eq-tabulate n out 0))
  where
    p_in : p < rb.size
    p_in = omega (arith, v.nonempty)

    byte :
        (i : ℕ)
        → byte_at (copy_out rb p out n) i
          ≡ (if ltb i n then byte_at rb.buf ((p + i) % rb.size) else byte_at out i)
    byte i = byte_at-copy_out rb p out n i v p_in (omega arith) ho

    taken :
        (i : ℕ)
        → i < n
        → byte_at (copy_out rb p out n) i ≡ byte_at rb.buf ((rb.r + (o + i)) % rb.size)
    taken i hi =
        byte i
        ∙ rw (lt→ltb i n hi, start, mod-add (rb.r + o) i rb.size)
            (ap (λ q. byte_at rb.buf (q % rb.size)) (omega arith))

    kept :
        (i : ℕ) → i < length out - n → byte_at (copy_out rb p out n) (n + i) ≡ byte_at out (n + i)
    kept i hi = byte (n + i) ∙ rw (ltb-false (n + i) n (omega arith))

    source :
        take n (drop o (contents rb))
        ≡ tabulate n (λ i. byte_at rb.buf ((rb.r + (o + i)) % rb.size))
    source =
        ap (take n) (drop-tabulate o (used rb) _) ∙ take-tabulate n (used rb - o) _ (omega arith)
