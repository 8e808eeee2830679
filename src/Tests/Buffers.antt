-- ===== src/Tests/Buffers.antt =====
-- Runs of the operations of mac/chatkit/cim/base/buffer.h on a buffer that holds "ABC".
use coffee_chat_desktop.Prelude.{◌≡◌, ◌≤◌, refl, [], ◌∷◌, arith, Returns, ◌>>=◌}
use coffee_chat_desktop.Buffer.{Buffer, write, skip, ensure_writable_bytes, append_int64}
use coffee_chat_desktop.Buffer.Read.{read_int64}
use coffee_chat_desktop.Buffer.Valid.{IsValid}
use coffee_chat_desktop.Buffer.Grow.{MakesRoom, ensure_writable_bytes_lem}
use coffee_chat_desktop.Buffer.{create}
use coffee_chat_desktop.Buffer.Queue.{writes, takes, skips, run, run_lem}
use coffee_chat_desktop.Buffer.Contents.{Holds, write_lem}
use coffee_chat_desktop.Buffer.Integers.{Reads, read_int64-append_int64}

abbrev sample : Buffer
sample = record {
  buffer = 0 ∷ 0 ∷ 0 ∷ 0 ∷ 65 ∷ 66 ∷ 67 ∷ 0 ∷ 0 ∷ [];
  capacity = 9;
  read_index = 4;
  write_index = 7;
  reserved_prepend_size = 2;
}

sample-IsValid : IsValid sample
sample-IsValid = record {
  storage = refl;
  order = omega arith;
  fits = omega arith;
  prepend_fits = omega arith;
  small = omega arith;
}

abbrev drained : Buffer
drained = record sample { read_index = 7 }

drained-IsValid : IsValid drained
drained-IsValid = record {
  storage = refl;
  order = omega arith;
  fits = omega arith;
  prepend_fits = omega arith;
  small = omega arith;
}

write_lem_example :
    Returns
      (write sample (1 ∷ 2 ∷ 3 ∷ []))
      (λ b'. Holds (65 ∷ 66 ∷ 67 ∷ 1 ∷ 2 ∷ 3 ∷ []) b' × (b'.capacity ≤ 21))
write_lem_example = write_lem sample (1 ∷ 2 ∷ 3 ∷ []) sample-IsValid (omega arith)

ensure_writable_bytes_lem_example : Returns (ensure_writable_bytes sample 40) (MakesRoom sample 40)
ensure_writable_bytes_lem_example = ensure_writable_bytes_lem sample 40 sample-IsValid (omega arith)

read_int64-append_int64_example :
    Returns (do b' ← append_int64 sample 258; b'' ← skip b' 3; read_int64 b'') (Reads 258 [])
read_int64-append_int64_example =
    read_int64-append_int64 sample 258 sample-IsValid (omega arith) (omega arith)

-- A write, a read, and a write that makes the buffer grow.
run_lem_example : Returns (create 4 2) (λ b.
    Returns
      (run (writes (1 ∷ 2 ∷ 3 ∷ []) ∷ takes 2 ∷ writes (4 ∷ 5 ∷ 6 ∷ []) ∷ skips 1 ∷ []) b)
      (λ r. (r.0 ≡ [] ∷ (1 ∷ 2 ∷ []) ∷ [] ∷ [] ∷ []) × Holds (4 ∷ 5 ∷ 6 ∷ []) r.1))
run_lem_example =
    run_lem 4 2 (writes (1 ∷ 2 ∷ 3 ∷ []) ∷ takes 2 ∷ writes (4 ∷ 5 ∷ 6 ∷ []) ∷ skips 1 ∷ [])
      (omega arith) (omega arith, (tt, (omega arith, (tt, tt))))
