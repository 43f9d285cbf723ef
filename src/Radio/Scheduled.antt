-- ===== src/Radio/Scheduled.antt =====
-- Messages over the radio, processed by several goroutines.
use mathlib.Core.List.{Perm, append_assoc}
use mathlib.Core.List.Perm
use embd_project.Prelude.{
  ℕ, zero, suc, ◌≡◌, ◌≤◌, refl, sym, ap, ◌∙◌, subst, Bool, List, [], ◌∷◌, ◌++◌, length,
  length-append, some, ltb, All, arith, flatten, inl, inr, Bool-cases, Option-cases,
}
use embd_project.Message.{Message}
use embd_project.Convert.{Bytes}
use embd_project.Radio.{Wire, new_hook}
use embd_project.Radio.Frames.{receives}
use embd_project.Radio.Workers.{Pool, start_pool, Turn, takes, puts, pick, take_frame, turn, turns}
use embd_project.Radio.Exchange.{Lossless, Survives, AllSent, AllRead, receives-sent}

pick-Perm :
    (i : ℕ) (ms : List Message) (m : Message) (others : List Message)
    → pick i ms ≡ some (m, others)
    → Perm (m ∷ others) ms
unfolding pick
pick-Perm i [] m others e = cc
pick-Perm zero (x ∷ ms) m others e = rw (first, second) (Perm.refl (x ∷ ms))
  where
    first : m ≡ x
    first = ground (arith, e)

    second : others ≡ ms
    second = ground (arith, e)
pick-Perm (suc i) (x ∷ ms) m others e = elim (Option-cases (pick i ms)) [
  | inl h ↦ absurd (ground (arith, h, e))
  | inr (q, h) ↦
      let same : m ≡ q.0 = ground (arith, h, e) in
      let left : others ≡ x ∷ q.1 = ground (arith, h, e) in
      rw (same, left) (Perm.trans (Perm.swap x q.0 q.1) (Perm.cons x (pick-Perm i ms q.0 q.1 h)))
]

-- All the messages are there: sent, held, or still in frames.
record Kept (w : Wire) (ms : List Message) (p : Pool) : Type 0 where
  rest : List Message
  unread : AllRead w p.frames rest
  all : Perm (p.sent ++ (p.held ++ rest)) ms

take_frame-Kept :
    (w : Wire) (workers : ℕ) (ms : List Message) (fs : List Bytes) (rest : List Message) (p : Pool)
    → p.frames ≡ fs
    → AllRead w fs rest
    → Perm (p.sent ++ (p.held ++ rest)) ms
    → (p' : Pool) × (take_frame w workers fs p ≡ some p') × Kept w ms p'
unfolding take_frame
take_frame-Kept w workers ms [] rest p e r a =
    (p, refl, record { rest = rest; unread = rw e r; all = a })
take_frame-Kept w workers ms (f ∷ fs) [] p e r a = absurd r
take_frame-Kept w workers ms (f ∷ fs) (m ∷ rest) p e (read, r) a =
    elim (Bool-cases (ltb (length p.held) workers)) [
      | inl h ↦ (
        record p { frames = fs; held = p.held ++ m ∷ [] },
        rw (h, read) refl,
        record {
          rest = rest;
          unread = r;
          all = subst (λ l. Perm (p.sent ++ l) ms) (sym (append_assoc p.held (m ∷ []) rest)) a;
        },
      )
      | inr h ↦ (p, rw h refl, record { rest = m ∷ rest; unread = rw e (read, r); all = a })
    ]

turn-Kept :
    (w : Wire) (workers : ℕ) (ms : List Message) (t : Turn) (p : Pool)
    → Kept w ms p
    → (p' : Pool) × (turn w workers t p ≡ some p') × Kept w ms p'
unfolding turn
turn-Kept w workers ms takes p k =
    take_frame-Kept w workers ms p.frames k.rest p refl k.unread k.all
turn-Kept w workers ms (puts i) p k = elim (Option-cases (pick i p.held)) [
  | inl h ↦ (p, rw (turn, h) refl, k)
  | inr ((m, others), h) ↦ (
    record p { held = others; sent = p.sent ++ m ∷ [] },
    rw (turn, h) refl,
    record {
      rest = k.rest;
      unread = k.unread;
      all = rw (append_assoc p.sent (m ∷ []) (others ++ k.rest)) (
          Perm.trans
            (Perm.append_left p.sent (Perm.append_right k.rest (pick-Perm i p.held m others h)))
            k.all);
    },
  )
]

turns-Kept :
    (w : Wire) (workers : ℕ) (ms : List Message) (ts : List Turn) (p : Pool)
    → Kept w ms p
    → (p' : Pool) × (turns w workers ts p ≡ some p') × Kept w ms p'
unfolding turns
turns-Kept w workers ms [] p k = (p, refl, k)
turns-Kept w workers ms (t ∷ ts) p k =
    let (q, e, k') = turn-Kept w workers ms t p k in
    let (r, e', k'') = turns-Kept w workers ms ts q k' in (r, rw (turns, e) e', k'')

-- Messages that are sent one after the other reach a receiver however the radio cuts up the stream of
-- their bytes, and nothing is left in its buffer. After any schedule of any number of goroutines in
-- `processFrames` none of them has panicked, and the messages that are on `messageChan`, those that
-- goroutines hold and those of the frames which are left are together the messages that were sent,
-- each as often as it was sent, but in any order. Protobuf must read back what it wrote, COBS must
-- give back the bytes of these messages, and each must be short enough for its length to be a uint16.
pub turns-receives :
    (w : Wire) (write : ℕ → Bytes → Bool) (address : ℕ) (ms : List Message)
    (outs reads : List Bytes) (workers : ℕ) (ts : List Turn)
    → Lossless w
    → All (Survives w) ms
    → AllSent w write address ms outs
    → flatten reads ≡ flatten outs
    → (p : Pool) × (rest : List Message) × (turns w workers ts
          (start_pool (receives reads new_hook).frames)
        ≡ some p)
      × AllRead w p.frames rest
      × Perm (p.sent ++ (p.held ++ rest)) ms
      × ((receives reads new_hook).buf ≡ [])
turns-receives w write address ms outs reads workers ts law fits e cut =
    let (fs, read, left) = receives-sent w write address ms outs reads law fits e cut in
    let (p, ran, k) =
      turns-Kept w workers ms ts (start_pool outs)
        (record { rest = ms; unread = read; all = Perm.refl ms }) in
    (p, k.rest, rw fs ran, k.unread, k.all, left)

-- As `Kept`, in order, with one goroutine.
record Ordered (w : Wire) (ms : List Message) (p : Pool) : Type 0 where
  rest : List Message
  unread : AllRead w p.frames rest
  one : length p.held ≤ 1
  all : p.sent ++ (p.held ++ rest) ≡ ms

take_frame-Ordered :
    (w : Wire) (ms : List Message) (fs : List Bytes) (rest : List Message) (p : Pool)
    → p.frames ≡ fs
    → AllRead w fs rest
    → length p.held ≤ 1
    → p.sent ++ (p.held ++ rest) ≡ ms
    → (p' : Pool) × (take_frame w 1 fs p ≡ some p') × Ordered w ms p'
unfolding take_frame
take_frame-Ordered w ms [] rest p e r one a =
    (p, refl, record { rest = rest; unread = rw e r; one = one; all = a })
take_frame-Ordered w ms (f ∷ fs) [] p e r one a = absurd r
take_frame-Ordered w ms (f ∷ fs) (m ∷ rest) p e (read, r) one a =
    elim (Bool-cases (ltb (length p.held) 1)) [
      | inl h ↦ (
        record p { frames = fs; held = p.held ++ m ∷ [] },
        rw (h, read) refl,
        record {
          rest = rest;
          unread = r;
          one = rw (length-append p.held (m ∷ [])) (ground (arith, h));
          all = ap (λ l. p.sent ++ l) (append_assoc p.held (m ∷ []) rest) ∙ a;
        },
      )
      | inr h ↦
          (p, rw h refl, record { rest = m ∷ rest; unread = rw e (read, r); one = one; all = a })
    ]

put-Ordered :
    (w : Wire) (ms : List Message) (i : ℕ) (held : List Message) (p : Pool)
    → p.held ≡ held
    → Ordered w ms p
    → (p' : Pool) × (turn w 1 (puts i) p ≡ some p') × Ordered w ms p'
unfolding turn pick
put-Ordered w ms i [] p e k = (p, rw e refl, k)
put-Ordered w ms zero (m ∷ []) p e k = (
  record p { held = []; sent = p.sent ++ m ∷ [] },
  rw e refl,
  record {
    rest = k.rest;
    unread = k.unread;
    one = omega arith;
    all = append_assoc p.sent (m ∷ []) k.rest ∙ subst (λ l. p.sent ++ (l ++ k.rest) ≡ ms) e k.all;
  },
)
put-Ordered w ms (suc i) (m ∷ []) p e k = (p, rw e refl, k)
put-Ordered w ms i (m ∷ m' ∷ more) p e k = absurd (omega (arith, subst (λ l. length l ≤ 1) e k.one))

turns-Ordered :
    (w : Wire) (ms : List Message) (ts : List Turn) (p : Pool)
    → Ordered w ms p
    → (p' : Pool) × (turns w 1 ts p ≡ some p') × Ordered w ms p'
unfolding turns turn
turns-Ordered w ms [] p k = (p, refl, k)
turns-Ordered w ms (takes ∷ ts) p k =
    let (q, e, k') = take_frame-Ordered w ms p.frames k.rest p refl k.unread k.one k.all in
    let (r, e', k'') = turns-Ordered w ms ts q k' in (r, rw (turns, turn, e) e', k'')
turns-Ordered w ms (puts i ∷ ts) p k =
    let (q, e, k') = put-Ordered w ms i p.held p refl k in
    let (r, e', k'') = turns-Ordered w ms ts q k' in (r, rw (turns, e) e', k'')

-- With one goroutine in `processFrames`, as at a child of the network, the messages arrive also in the
-- order in which they were sent, after any schedule: those on `messageChan`, then one that may be held,
-- then those of the frames which are left. The conditions are those on protobuf, COBS and the length.
pub turns-in_order :
    (w : Wire) (write : ℕ → Bytes → Bool) (address : ℕ) (ms : List Message)
    (outs reads : List Bytes) (ts : List Turn)
    → Lossless w
    → All (Survives w) ms
    → AllSent w write address ms outs
    → flatten reads ≡ flatten outs
    → (p : Pool) × (rest : List Message) × (turns w 1 ts
          (start_pool (receives reads new_hook).frames)
        ≡ some p)
      × AllRead w p.frames rest
      × (p.sent ++ (p.held ++ rest) ≡ ms)
      × (length p.held ≤ 1)
turns-in_order w write address ms outs reads ts law fits e cut =
    let (fs, read, left) = receives-sent w write address ms outs reads law fits e cut in
    let (p, ran, k) =
      turns-Ordered w ms ts (start_pool outs)
        (record { rest = ms; unread = read; one = omega arith; all = refl }) in
    (p, k.rest, rw fs ran, k.unread, k.all, k.one)
