-- ===== src/Ringbuf/Client.antt =====
-- A client of the byte ring, and the bounded queue of bytes that it sees.
use nanosig.Base.{
  ℕ, ◌+◌, ◌-◌, ◌≡◌, refl, ◌∙◌, ap, ap₂, ◌++◌, Option, some, none, min, arith, ltb, ◌==◌,
  if◌then◌else◌, ◌||◌, List, [], ◌∷◌, length, take, drop, replicate, length-replicate, Bytes, ℤ,
  pos,
}
use nanosig.Ringbuf.{Ringbuf, write, read, read_skip, peek_copy, readable, clear}
use nanosig.Ringbuf.Inv.{IsValid, contents, length-contents}
use nanosig.Ringbuf.Write.{write_lem}
use nanosig.Ringbuf.Read.{read_lem, read_skip_lem, clear_lem, sizes_exact}
use nanosig.Ringbuf.Peek.{peek_copy_lem}

-- A call of the client. `get` and `look` hand over a buffer of zeros of the length asked for.
pub data Op : Type 0 where
  put : Bytes → Op
  get : ℕ → Op
  discard : ℕ → Op
  look : ℕ → ℕ → Op
  ask wipe : Op

-- The `int32_t` that comes back, and the client's buffer after the call.
abbrev pub Reply : Type 0
Reply = ℤ × Option Bytes

abbrev pub zeros : ℕ → Bytes
zeros n = replicate n 0

-- One call of the source's functions.
unfoldable pub call : Option Ringbuf → Op → Reply × Option Ringbuf
call rb (put src) = let (n, rb') = write rb (some src) (length src) in ((n, none), rb')
call rb (get len) = let (n, rb', out) = read rb (some (zeros len)) len in ((n, out), rb')
call rb (discard len) = let (n, rb') = read_skip rb len in ((n, none), rb')
call rb (look offset len) = (peek_copy rb offset (some (zeros len)) len, rb)
call rb ask = ((readable rb, none), rb)
call rb wipe = ((pos 0, none), clear rb)

pub run : Option Ringbuf → List Op → List Reply
run rb [] = []
run rb (op ∷ ops) = let (reply, rb') = call rb op in reply ∷ run rb' ops

-- The same calls on a queue of at most `cap` bytes, oldest first.
module _ (cap : ℕ) where
  unfoldable pub queue_call : Bytes → Op → Reply × Bytes
  queue_call q (put src) =
      let n = min (length src) (cap - length q) in ((pos n, none), q ++ take n src)
  queue_call q (get len) =
      let n = min len (length q) in ((pos n, some (take n q ++ drop n (zeros len))), drop n q)
  queue_call q (discard len) = let n = min len (length q) in ((pos n, none), drop n q)
  queue_call q (look offset len) = (
    if len == 0 || ltb (length q) (offset + len)
        then (pos 0, some (zeros len))
        else (pos len, some (take len (drop offset q) ++ drop len (zeros len))),
    q,
  )
  queue_call q ask = ((pos (length q), none), q)
  queue_call q wipe = ((pos 0, none), [])

  unfoldable pub queue_run : Bytes → List Op → List Reply
  queue_run q [] = []
  queue_run q (op ∷ ops) = let (reply, q') = queue_call q op in reply ∷ queue_run q' ops

-- One call on a valid ring: its reply is the queue's, and the ring that it leaves is valid, of the
-- same size, and holds the queue's bytes.
call-Refines :
    {rb : Ringbuf} (op : Op)
    → IsValid rb
    → (rb' : Ringbuf) × (call (some rb) op ≡ ((queue_call rb.size (contents rb) op).0, some rb'))
      × IsValid rb'
      × (rb'.size ≡ rb.size)
      × (contents rb' ≡ (queue_call rb.size (contents rb) op).1)
unfolding call queue_call
call-Refines {rb} (put src) v =
    let (rb', e, v', s, c) = write_lem src (length src) v (omega arith) in
    (rb', rw (e, length-contents rb), v', s, rw length-contents c)
call-Refines {rb} (get len) v =
    let (rb', e, v', s, c) =
      read_lem (zeros len) len v (omega (arith, length-replicate {A = ℕ} len 0)) in
    (rb', rw (e, length-contents rb), v', s, rw length-contents c)
call-Refines {rb} (discard len) v =
    let (rb', e, v', s, c) = read_skip_lem len v in
    (rb', rw (e, length-contents rb), v', s, rw length-contents c)
call-Refines {rb} (look offset len) v = (
  rb,
  rw (
    peek_copy_lem offset (zeros len) len v (omega (arith, length-replicate {A = ℕ} len 0)),
    length-contents rb,
  ),
  v,
  refl,
  refl,
)
call-Refines {rb} ask v = (rb, rw ((sizes_exact v).1), v, refl, refl)
call-Refines {rb} wipe v =
    let (rb', _, e, _, v', _, s, _, c, _) = clear_lem v in (rb', rw e, v', s, c)

-- No sequence of calls tells a valid ring from the bounded queue of the bytes that it holds.
pub run_refines :
    (ops : List Op) {rb : Ringbuf}
    → IsValid rb
    → run (some rb) ops ≡ queue_run rb.size (contents rb) ops
unfolding run queue_run
run_refines [] v = refl
run_refines (op ∷ ops) v =
    let (rb', e, v', s, c) = call-Refines op v in
    ap₂ ◌∷◌ (ap (λ z. z.0) e)
      (ap (λ z. run z.1 ops) e ∙ run_refines ops v' ∙ ap₂ (λ k q. queue_run k q ops) s c)
