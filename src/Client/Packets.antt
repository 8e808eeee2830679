-- ===== src/Client/Packets.antt =====
-- The packets of the protocol: sixteen bytes of header in network order, and the body.
use coffee_chat_desktop.Prelude.{
  ℕ, ◌+◌, ◌^◌, ◌≤◌, ◌<◌, ◌≡◌, ap, ◌∙◌, List, [], ◌++◌, length, size_mod, arith, Returns,
  Returns-bind, Returns-mono, length-append,
}
use coffee_chat_desktop.Buffer.{
  Buffer, create, write, cheap_prepend_size, append_int32, append_int16, fill_at_write_begin,
  write_bytes,
}
use coffee_chat_desktop.Buffer.Bytes.{be_bytes}
use coffee_chat_desktop.Buffer.Valid.{room, create_lem}
use coffee_chat_desktop.Buffer.Contents.{Holds, write_fits, write_bytes-fill}
use coffee_chat_desktop.Client.{header_size, protocol_version}
use coffee_chat_desktop.Client.Frame.{build_frame, frame_len}

-- The header of a packet of `len` bytes.
abbrev pub header_bytes : ℕ → ℕ → ℕ → List ℕ
header_bytes len cmd seq =
    be_bytes 4 len
    ++ (be_bytes 2 protocol_version
        ++ (be_bytes 2 0 ++ (be_bytes 2 0 ++ (be_bytes 2 cmd ++ (be_bytes 2 seq ++ be_bytes 2 0)))))

abbrev pub packet : ℕ → ℕ → List ℕ → List ℕ
packet cmd seq body = header_bytes (header_size + length body) cmd seq ++ body

-- The buffer holds `bytes`, and the rest of its `total` bytes is room.
record Filling (total : ℕ) (bytes : List ℕ) (b : Buffer) : Type 0 where
  holds : Holds bytes b
  left : room b + length bytes ≡ total

fill :
    (total : ℕ) (bytes d : List ℕ) (b : Buffer)
    → Filling total bytes b
    → length bytes + length d ≤ total
    → Returns (write b d) (Filling total (bytes ++ d))
fill total bytes d b f h =
    Returns-mono _ (Filling total (bytes ++ d)) (write b d)
      (write_fits b d f.holds.valid (omega (arith, f.left)))
      (λ b' w. record {
        holds = record { valid = w.0.valid; held = w.0.held ∙ ap (λ l. l ++ d) f.holds.held };
        left = omega (arith, f.left, w.2, length-append bytes d);
      })

start :
    (total : ℕ)
    → total + 8 < size_mod
    → Returns (create total cheap_prepend_size) (Filling total [])
start total h =
    Returns-mono _ (Filling total []) (create total cheap_prepend_size)
      (create_lem total cheap_prepend_size (omega arith))
      (λ b c. record { holds = record { valid = c.0; held = c.1 }; left = omega (arith, c.2) })

finish_frame :
    (total : ℕ) (bytes body : List ℕ) (b : Buffer)
    → Filling total bytes b
    → length bytes + length body ≤ total
    → Returns (write_bytes (fill_at_write_begin b body) (length body)) (Holds (bytes ++ body))
finish_frame total bytes body b f h =
    Returns-mono _ (Holds (bytes ++ body)) (write_bytes (fill_at_write_begin b body) (length body))
      (write_bytes-fill b body f.holds.valid (omega (arith, f.left)))
      (λ b' w. record { valid = w.0.valid; held = w.0.held ∙ ap (λ l. l ++ body) f.holds.held })

-- `send` builds the packet of its message: sixteen bytes of header in network order and the body,
-- of up to 2^31 bytes. No assert of the buffer fails.
pub build_frame_lem :
    (cmd seq : ℕ) (body : List ℕ)
    → header_size + length body < 2 ^ 31
    → Returns (build_frame cmd seq body) (Holds (packet cmd seq body))
unfolding build_frame append_int32 append_int16
build_frame_lem cmd seq body h =
    let n = header_size + length body in
    let e : frame_len body ≡ n = omega arith in
    let d : ℕ → List ℕ = be_bytes 2 in
    let s0 : List ℕ = be_bytes 4 n in
    rw e (
      Returns-bind _ (Holds (packet cmd seq body)) _ _ (start n (omega arith)) (λ b0 f0.
        Returns-bind _ (Holds (packet cmd seq body)) _ _ (fill n [] s0 b0 f0 (omega arith))
          (λ b1 f1.
            Returns-bind _ (Holds (packet cmd seq body)) _ _ (fill n s0 (d 1) b1 f1 (omega arith))
              (λ b2 f2.
                Returns-bind _ (Holds (packet cmd seq body)) _ _
                  (fill n (s0 ++ d 1) (d 0) b2 f2 (omega arith))
                  (λ b3 f3.
                    Returns-bind _ (Holds (packet cmd seq body)) _ _
                      (fill n (s0 ++ (d 1 ++ d 0)) (d 0) b3 f3 (omega arith))
                      (λ b4 f4.
                        Returns-bind _ (Holds (packet cmd seq body)) _ _
                          (fill n (s0 ++ (d 1 ++ (d 0 ++ d 0))) (d cmd) b4 f4 (omega arith))
                          (λ b5 f5.
                            Returns-bind _ (Holds (packet cmd seq body)) _ _
                              (fill n (s0 ++ (d 1 ++ (d 0 ++ (d 0 ++ d cmd)))) (d seq) b5 f5
                                (omega arith))
                              (λ b6 f6.
                                Returns-bind _ (Holds (packet cmd seq body)) _ _
                                  (fill n (s0 ++ (d 1 ++ (d 0 ++ (d 0 ++ (d cmd ++ d seq))))) (d 0)
                                    b6 f6 (omega arith))
                                  (λ b7 f7.
                                    finish_frame n (header_bytes n cmd seq) body b7 f7
                                      (omega arith))))))))))
