-- ===== src/Ringbuf/Peek.antt =====
-- `ns_ringbuf_peek` and `ns_ringbuf_peek_copy`.
use nanosig.Base.{
  ℕ, ◌+◌, ◌-◌, ◌%◌, ◌≤◌, ◌<◌, ◌≡◌, refl, ◌∙◌, sym, ap, inl, inr, ◌⊎◌, ◌++◌, Option, some, none, min,
  arith, ltb, ◌==◌, if◌then◌else◌, ◌||◌, lt_or_ge, byte_at, add32, length, take, drop, Bytes, pos,
  sub32, take_exact, length-take, length-drop, mod_small, drop-tabulate, take-tabulate,
  tabulate_ext, drop-eq-tabulate, mod-add,
}
use nanosig.Ringbuf.{Ringbuf, inside, copied, Peeked, peek, peek_copy}
use nanosig.Ringbuf.Inv.{IsValid, used, contents, data_space_exact, length-contents}
use nanosig.Ringbuf.Taken.{copy_out_eq}

-- The bytes that the caller reads through the pointer that came back.
abbrev pub shown : Ringbuf → Peeked → Option Bytes
shown rb pk = elim pk.view [
  | none ↦ none
  | some (inside p) ↦ elim pk.len [ none ↦ none | some n ↦ some (take n (drop p rb.buf)) ]
  | some copied ↦ elim pk.out [
    | none ↦ none
    | some out ↦ elim pk.len [ none ↦ none | some n ↦ some (take n out) ]
  ]
]

-- A run of bytes that does not go round the end lies in the storage as it stands.
run_in_place :
    {rb : Ringbuf} (o p n : ℕ)
    → IsValid rb
    → p ≡ (rb.r + o) % rb.size
    → o + n ≤ used rb
    → p + n ≤ rb.size
    → take n (drop p rb.buf) ≡ take n (drop o (contents rb))
run_in_place {rb} o p n v start h fit =
    ap (take n) (drop-eq-tabulate p rb.buf 0)
    ∙ take-tabulate n (length rb.buf - p) _ (omega (arith, v.storage))
    ∙ tabulate_ext n n _ _ refl same
    ∙ sym (take-tabulate n (used rb - o) _ (omega arith))
    ∙ ap (take n) (sym (drop-tabulate o (used rb) _))
  where
    same : (i : ℕ) → i < n → byte_at rb.buf (p + i) ≡ byte_at rb.buf ((rb.r + (o + i)) % rb.size)
    same i hi = ap (byte_at rb.buf) (
        sym (mod_small (p + i) rb.size (omega arith))
        ∙ ap (λ q. (q + i) % rb.size) start
        ∙ mod-add (rb.r + o) i rb.size
        ∙ ap (λ q. q % rb.size) (omega arith))

-- `ns_ringbuf_peek` on a valid ring, for `len` bytes from `offset` on that are there, and with room
-- for them in the caller's buffer: the pointer that comes back shows at least `len` bytes, as many
-- as `*len` says then, and these are the ring's bytes from `offset` on.
pub peek_lem :
    {rb : Ringbuf} (offset : ℕ) (out : Bytes) (len : ℕ)
    → IsValid rb
    → offset < used rb
    → offset + len ≤ used rb
    → len ≤ length out
    → let pk = peek (some rb) offset (some out) (some len) in
      (n : ℕ) × (pk.len ≡ some n)
      × (len ≤ n)
      × (offset + n ≤ used rb)
      × (shown rb pk ≡ some (take n (drop offset (contents rb))))
unfolding peek
peek_lem {rb} offset out len v ho h room = elim (lt_or_ge (rb.size - p) len) [
  | inl round ↦ (
    len,
    ground (arith, data_space_exact v, exact, first),
    omega arith,
    h,
    ground (
      arith,
      data_space_exact v,
      exact,
      first,
      copy_out_eq offset p out len v refl,
      take_exact len (take len (drop offset (contents rb))) (drop len out),
      length-take len (drop offset (contents rb)),
      length-drop offset (contents rb),
      length-contents rb,
    ),
  )
  | inr straight ↦ (
    min (rb.size - p) (used rb - offset),
    ground (arith, data_space_exact v, exact, first),
    omega arith,
    omega arith,
    ground (
      arith,
      data_space_exact v,
      exact,
      first,
      run_in_place offset p (min (rb.size - p) (used rb - offset)) v refl,
    ),
  )
]
  where
    p : ℕ
    p = (rb.r + offset) % rb.size

    exact : add32 rb.r offset % rb.size ≡ p
    exact = ap (λ q. q % rb.size) (omega arith)

    first : sub32 rb.size p ≡ rb.size - p
    first = omega arith

-- For bytes that are not all there `ns_ringbuf_peek` gives NULL and writes nothing.
pub peek-none :
    {rb : Ringbuf} (offset : ℕ) (out : Bytes) (len : ℕ)
    → IsValid rb
    → (used rb ≤ offset) ⊎ (used rb < offset + len)
    → peek (some rb) offset (some out) (some len)
      ≡ record { view = none; out = some out; len = some len }
unfolding peek
peek-none {rb} offset out len v h = ground (arith, data_space_exact v)

-- `ns_ringbuf_peek_copy` on a valid ring copies exactly `len` bytes from `offset` on to the front
-- of the caller's buffer if they are all there, and otherwise returns 0 and writes nothing.
pub peek_copy_lem :
    {rb : Ringbuf} (offset : ℕ) (out : Bytes) (len : ℕ)
    → IsValid rb
    → len ≤ length out
    → peek_copy (some rb) offset (some out) len ≡ (
        if len == 0 || ltb (used rb) (offset + len)
        then (pos 0, some out)
        else (pos len, some (take len (drop offset (contents rb)) ++ drop len out)))
unfolding peek_copy
peek_copy_lem {rb} offset out len v room = elim (lt_or_ge offset (used rb)) [
  | inl there ↦
      let exact : add32 rb.r offset % rb.size ≡ (rb.r + offset) % rb.size =
        ap (λ q. q % rb.size) (omega arith) in
      ground (arith, data_space_exact v, exact, copy_out_eq offset _ out len v exact)
  | inr past ↦ ground (arith, data_space_exact v)
]
