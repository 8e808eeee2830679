-- ===== src/Buffer/Queue.antt =====
-- The buffer of mac/chatkit/cim/base/buffer.h as a queue of bytes: any sequence of its operations.
use coffee_chat_desktop.Prelude.{
  ℕ, ◌+◌, ◌*◌, ◌≤◌, ◌<◌, ◌≡◌, refl, ap, ap₂, ◌∙◌, List, [], ◌∷◌, ◌++◌, length, take, drop, Outcome,
  ok, ◌>>=◌, Returns, Returns-bind, Returns-mono, Returns-both, size_mod, arith,
}
use coffee_chat_desktop.Buffer.{Buffer, create, write, skip, truncate, reset, length_of}
use coffee_chat_desktop.Buffer.Read.{next, next_all}
use coffee_chat_desktop.Buffer.Valid.{IsValid, contents, create_lem}
use coffee_chat_desktop.Buffer.Contents.{
  Holds, write_lem, skip_lem, truncate_lem, next_lem, reset_lem,
}

pub data Op : Type 0 where
  writes : List ℕ → Op
  skips truncates takes : ℕ → Op
  resets : Op

-- The abstract queue: what an operation hands out, and what is left.
abbrev pub queue_step : Op → List ℕ → List ℕ × List ℕ
queue_step (writes d) q = ([], q ++ d)
queue_step (skips n) q = ([], drop n q)
queue_step (truncates n) q = ([], take n q)
queue_step (takes n) q = (take n q, drop n q)
queue_step resets q = ([], [])

abbrev pub queue_run : List Op → List ℕ → List (List ℕ) × List ℕ
queue_run [] q = ([], q)
queue_run (op ∷ ops) q =
    let (out, q') = queue_step op q in let (outs, q'') = queue_run ops q' in (out ∷ outs, q'')

-- The same calls on a buffer.
unfoldable pub apply : Op → Buffer → Outcome (List ℕ × Buffer)
apply (writes d) b = do b' ← write b d; ok ([], b')
apply (skips n) b = do b' ← skip b n; ok ([], b')
apply (truncates n) b = ok ([], truncate b n)
apply (takes n) b = next b n
apply resets b = ok ([], reset b)

unfoldable pub run : List Op → Buffer → Outcome (List (List ℕ) × Buffer)
run [] b = ok ([], b)
run (op ∷ ops) b = do (out, b') ← apply op b; (outs, b'') ← run ops b'; ok (out ∷ outs, b'')

-- How large a buffer of at most `size` bytes may get.
abbrev grown : Op → ℕ → ℕ
grown (writes d) size = size * 2 + length d
grown op size = size

-- The sizes that the operations compute with stay below 2^64.
abbrev IsSmall : Op → ℕ → Type 0
IsSmall (writes d) size = size * 2 + length d < size_mod
IsSmall (truncates n) size = size + n < size_mod
IsSmall op size = Unit {0}

abbrev pub AreSmall : List Op → ℕ → Type 0
AreSmall [] size = Unit {0}
AreSmall (op ∷ ops) size = IsSmall op size × AreSmall ops (grown op size)

abbrev Follows : List ℕ × List ℕ → ℕ → List ℕ × Buffer → Type 0
Follows (out, q) size (out', b) = (out' ≡ out) × Holds q b × (b.capacity ≤ size)

truncate-capacity : (b : Buffer) (n : ℕ) → (truncate b n).capacity ≡ b.capacity
unfolding truncate
truncate-capacity b n = ground arith

reset-capacity : (b : Buffer) → (reset b).capacity ≡ b.capacity
unfolding reset truncate
reset-capacity b = ground arith

next-capacity :
    (b : Buffer) (n : ℕ) → IsValid b → Returns (next b n) (λ r. r.1.capacity ≡ b.capacity)
unfolding next next_all length_of reset truncate
next-capacity b n v = ground arith

-- What the lemmas on single operations say, for a buffer that holds `q`.
hold :
    (f : List ℕ → List ℕ) (q : List ℕ) (b b' : Buffer)
    → contents b ≡ q
    → Holds (f (contents b)) b'
    → Holds (f q) b'
hold f q b b' e h = record { valid = h.valid; held = h.held ∙ ap f e }

apply_lem :
    (op : Op) (size : ℕ) (q : List ℕ) (b : Buffer)
    → Holds q b
    → b.capacity ≤ size
    → IsSmall op size
    → Returns (apply op b) (Follows (queue_step op q) (grown op size))
unfolding apply
apply_lem (writes d) size q b h le small =
    Returns-bind _ (Follows (queue_step (writes d) q) (grown (writes d) size)) (write b d) _
      (write_lem b d h.valid (omega (arith, le, small)))
      (λ b' w. (refl, hold (λ l. l ++ d) q b b' h.held w.0, omega (arith, w.1, le)))
apply_lem (skips n) size q b h le small =
    Returns-bind _ (Follows (queue_step (skips n) q) size) (skip b n) _ (skip_lem b n h.valid)
      (λ b' w. (refl, hold (drop n) q b b' h.held w.0, omega (arith, w.1, le)))
apply_lem (truncates n) size q b h le small = (
  refl,
  hold (take n) q b (truncate b n) h.held
      (truncate_lem b n h.valid (omega (arith, le, small, h.valid.order, h.valid.fits))),
  omega (arith, truncate-capacity b n, le),
)
apply_lem (takes n) size q b h le small =
    Returns-mono _ (Follows (queue_step (takes n) q) size) (next b n)
      (Returns-both _ _ (next b n) (next_lem b n h.valid) (next-capacity b n h.valid))
      (λ r w.
        (w.0.0 ∙ ap (take n) h.held, hold (drop n) q b r.1 h.held w.0.1, omega (arith, w.1, le)))
apply_lem resets size q b h le small =
    (refl, reset_lem b h.valid, omega (arith, reset-capacity b, le))

run_from :
    (ops : List Op) (size : ℕ) (q : List ℕ) (b : Buffer)
    → Holds q b
    → b.capacity ≤ size
    → AreSmall ops size
    → Returns (run ops b) (λ r. (r.0 ≡ (queue_run ops q).0) × Holds (queue_run ops q).1 r.1)
unfolding run
run_from [] size q b h le small = (refl, h)
run_from (op ∷ ops) size q b h le small =
    let (out, q') = queue_step op q in
    Returns-bind (Follows (queue_step op q) (grown op size)) _ (apply op b) _
      (apply_lem op size q b h le small.0)
      (λ r f.
        Returns-bind
          (λ s.
            (s.0 ≡ (queue_run ops (queue_step op q).1).0)
            × Holds (queue_run ops (queue_step op q).1).1 s.1)
          _ (run ops r.1) _ (run_from ops (grown op size) (queue_step op q).1 r.1 f.1 f.2 small.1)
          (λ s g. (ap₂ (λ x xs. x ∷ xs) f.0 g.0, g.1)))

-- A new buffer behaves as a queue of bytes, whatever sequence of writes, skips, truncations, reads
-- of a number of bytes and resets is done to it, as long as its sizes stay below 2^64: no assert
-- fails, each operation hands out what the queue hands out, and the buffer holds what the queue
-- holds.
pub run_lem :
    (initial reserved : ℕ) (ops : List Op)
    → reserved + initial < size_mod
    → AreSmall ops (reserved + initial)
    → Returns (create initial reserved) (λ b.
      Returns (run ops b) (λ r. (r.0 ≡ (queue_run ops []).0) × Holds (queue_run ops []).1 r.1))
run_lem initial reserved ops h small =
    Returns-mono _ _ (create initial reserved) (create_lem initial reserved h) (λ b c.
      run_from ops (reserved + initial) [] b (record { valid = c.0; held = c.1 })
        (omega (arith, c.2)) small)
