-- ===== src/Tunnel/Secure/Write.antt =====
-- SecureConn.Write: what it puts on the stream.
use mathlib.Core.List.{append-nil, append_assoc}
use chameleon_protocol.Base.{
  ℕ, zero, suc, ◌+◌, ◌^◌, ◌%◌, ◌≤◌, ◌<◌, ◌≡◌, refl, sym, ap, ◌∙◌, List, [], ◌∷◌, ◌++◌, length, take,
  drop, arith, Option, none, some, ok, length-append, All, min, take-append-drop, length-take,
  length-drop, Option-cases, inl, inr,
}
use chameleon_protocol.Base.Bytes.{Bytes, put_uint32}
use chameleon_protocol.Crypto.{Aead, AeadLaws, seal_frame}
use chameleon_protocol.Io.{IoError, Writer, write_full}
use chameleon_protocol.Io.Writing.{write_full-done, write_full-willing}
use chameleon_protocol.Tunnel.Secure.{
  max_plain_frame, max_cipher_frame, SecureError, Outgoing, then_write, write_sealed, send_sealed,
  write_chunk, write_chunks, write,
}
use chameleon_protocol.Tunnel.Secure.Frames.{sealed, frame, Carries, ended, framed, length-sealed}

module _ (a : Aead) where
  abbrev pub Sized : Bytes → Type 0
  Sized nonce = length nonce ≡ a.nonce_size

  abbrev pub sent : Outgoing → Bytes
  sent c = c.writer.sent

  then_write-done :
      (r : Option IoError × Writer) (s : Bytes)
      → (then_write a r s).0 ≡ none
      → (r.0 ≡ none) × ((then_write a r s).1.sent ≡ r.1.sent ++ s)
  unfolding then_write
  then_write-done (none, w) s h = (refl, write_full-done w s h)
  then_write-done (some e, w) s h = cc

  write_sealed-done :
      (s : Bytes) (w : Writer)
      → length s < 2 ^ 32
      → (write_sealed a s w).0 ≡ none
      → (write_sealed a s w).1.sent ≡ w.sent ++ (put_uint32 (length s) ++ s)
  unfolding write_sealed
  write_sealed-done s w small h =
      let header = put_uint32 (length s % 2 ^ 32) in
      let low : length s % 2 ^ 32 ≡ length s = omega arith in
      let (fine, out) = then_write-done (write_full w header) s h in
      out
      ∙ ap (λ t. t ++ s) (write_full-done w header fine)
      ∙ append_assoc w.sent header s
      ∙ ap (λ n. w.sent ++ (put_uint32 n ++ s)) low

  send_sealed-done :
      (s : Bytes) (w : Writer) (nonces : List Bytes)
      → length s ≤ max_cipher_frame
      → (send_sealed a (ok s) w nonces).0 ≡ none
      → ((write_sealed a s w).0 ≡ none)
        × ((send_sealed a (ok s) w nonces).1.writer ≡ (write_sealed a s w).1)
        × ((send_sealed a (ok s) w nonces).1.nonces ≡ nonces)
  unfolding send_sealed
  send_sealed-done s w nonces le h = ground arith

  write_chunk-done :
      (chunk : Bytes) (w : Writer) (nonces : List Bytes)
      → AeadLaws a
      → length chunk ≤ max_plain_frame
      → All Sized nonces
      → (write_chunk a chunk (record { writer = w; nonces = nonces })).0 ≡ none
      → (nonce : Bytes) × Sized nonce
        × (sent (write_chunk a chunk (record { writer = w; nonces = nonces })).1
            ≡ w.sent ++ frame a nonce chunk)
        × All Sized (write_chunk a chunk (record { writer = w; nonces = nonces })).1.nonces
  unfolding write_chunk seal_frame
  write_chunk-done chunk w [] laws le sized h = unfold send_sealed in cc
  write_chunk-done chunk w (nonce ∷ nonces) laws le (here, rest) h =
      let s = sealed a nonce chunk in
      let size = length-sealed a nonce chunk laws here in
      let (fine, writer_is, nonces_are) =
        send_sealed-done s w nonces (omega (arith, laws.small, size)) h in
      (
        nonce,
        here,
        ap (λ (v : Writer). v.sent) writer_is
            ∙ write_sealed-done s w (omega (arith, laws.small, size)) fine,
        rw nonces_are rest,
      )

  abbrev chunk_size : Bytes → ℕ
  chunk_size p = min (length p) max_plain_frame

  write_chunks-step :
      (fuel b : ℕ) (p : Bytes) (written : ℕ) (c : Outgoing)
      → (write_chunk a (take (chunk_size (b ∷ p)) (b ∷ p)) c).0 ≡ none
      → write_chunks a (suc fuel) (b ∷ p) written c
        ≡ write_chunks a fuel
            (drop (chunk_size (b ∷ p)) (b ∷ p))
            (written + chunk_size (b ∷ p))
            (write_chunk a (take (chunk_size (b ∷ p)) (b ∷ p)) c).1
  unfolding write_chunks
  write_chunks-step fuel b p written c e = rw (e, write_chunks)

  write_chunks-stop :
      (fuel b : ℕ) (p : Bytes) (written : ℕ) (c : Outgoing) (e : SecureError)
      → (write_chunk a (take (chunk_size (b ∷ p)) (b ∷ p)) c).0 ≡ some e
      → (write_chunks a (suc fuel) (b ∷ p) written c).0.0 ≡ some e
  unfolding write_chunks
  write_chunks-stop fuel b p written c e h = rw (h, write_chunks)

  -- What a run of the loop from `c` to `r` has done when it reports no error.
  pub record Delivered (p : Bytes) (written : ℕ) (c : Outgoing)
      (r : (Option SecureError × ℕ) × Outgoing) : Type 0 where
    pub stream : Bytes
    pub carries : Carries a stream p
    pub out : sent r.1 ≡ sent c ++ stream
    pub count : r.0.1 ≡ written + length p

  Delivered-cons :
      (nonce chunk rest p : Bytes) (written : ℕ) (c c1 : Outgoing)
      (r : (Option SecureError × ℕ) × Outgoing)
      → Sized nonce
      → 0 < length chunk
      → length chunk ≤ max_plain_frame
      → chunk ++ rest ≡ p
      → sent c1 ≡ sent c ++ frame a nonce chunk
      → Delivered rest (written + length chunk) c1 r
      → Delivered p written c r
  Delivered-cons nonce chunk rest p written c c1 r here ne le whole out d = record {
    stream = frame a nonce chunk ++ d.stream;
    carries = rw whole at (framed nonce chunk here ne le d.carries);
    out =
        d.out ∙ ap (λ t. t ++ d.stream) out ∙ append_assoc (sent c) (frame a nonce chunk) d.stream;
    count = omega (arith, d.count, ap length whole, length-append chunk rest);
  }

  write_chunks-Delivered :
      (fuel : ℕ) (p : Bytes) (written : ℕ) (c : Outgoing)
      → AeadLaws a
      → length p ≤ fuel
      → All Sized c.nonces
      → (write_chunks a fuel p written c).0.0 ≡ none
      → Delivered p written c (write_chunks a fuel p written c)
  write_chunks-Delivered zero [] written c laws le sized h =
      unfold write_chunks in
      record { stream = []; carries = ended; out = sym (append-nil (sent c)); count = omega arith }
  write_chunks-Delivered zero (b ∷ p) written c laws le sized h = absurd (omega arith)
  write_chunks-Delivered (suc fuel) [] written c laws le sized h =
      unfold write_chunks in
      record { stream = []; carries = ended; out = sym (append-nil (sent c)); count = omega arith }
  write_chunks-Delivered (suc fuel) (b ∷ p) written c laws le sized h =
      elim (Option-cases (write_chunk a (take (chunk_size (b ∷ p)) (b ∷ p)) c).0) [
        | inr (e, bad) ↦ let stopped = write_chunks-stop fuel b p written c e bad in cc
        | inl fine ↦
            let n = chunk_size (b ∷ p) in
            let chunk = take n (b ∷ p) in
            let c1 = (write_chunk a chunk c).1 in
            let step = write_chunks-step fuel b p written c fine in
            let len : length chunk ≡ n = omega (arith, length-take n (b ∷ p)) in
            let (nonce, here, out, sized1) =
              write_chunk-done chunk c.writer c.nonces laws (omega arith) sized fine in
            let rest =
              write_chunks-Delivered fuel (drop n (b ∷ p)) (written + n) c1 laws
                (omega (arith, length-drop n (b ∷ p))) sized1
                (ap (λ (r : (Option SecureError × ℕ) × Outgoing). r.0.0) (sym step) ∙ h) in
            rw step (
              Delivered-cons nonce chunk (drop n (b ∷ p)) (b ∷ p) written c c1 _ here (omega arith)
                (omega arith) (take-append-drop n (b ∷ p)) out (rw len rest))
      ]

  -- A Write that reports no error has put frames on the stream that carry exactly `p`, behind what
  -- was there, and its count is the length of `p`. The cipher
  -- is a lawful one and every nonce drawn is of its size.
  pub write-Delivered :
      (p : Bytes) (c : Outgoing)
      → AeadLaws a
      → All Sized c.nonces
      → (write a p c).0.0 ≡ none
      → Delivered p 0 c (write a p c)
  unfolding write
  write-Delivered p c laws sized h =
      write_chunks-Delivered (length p) p 0 c laws (omega arith) sized h

  -- A writer that takes everything, and enough nonces.
  pub record Ready (n : ℕ) (c : Outgoing) : Type 0 where
    pub willing : c.writer.answers ≡ []
    pub supply : n ≤ length c.nonces

  then_write-willing :
      (r : Option IoError × Writer) (s : Bytes)
      → r.0 ≡ none
      → r.1.answers ≡ []
      → ((then_write a r s).0 ≡ none) × ((then_write a r s).1.answers ≡ [])
  unfolding then_write
  then_write-willing (none, w) s h e = write_full-willing w s e
  then_write-willing (some x, w) s h e = cc

  send_sealed-willing :
      (s : Bytes) (w : Writer) (nonces : List Bytes)
      → length s ≤ max_cipher_frame
      → w.answers ≡ []
      → ((send_sealed a (ok s) w nonces).0 ≡ none)
        × ((send_sealed a (ok s) w nonces).1.writer.answers ≡ [])
        × ((send_sealed a (ok s) w nonces).1.nonces ≡ nonces)
  unfolding send_sealed write_sealed
  send_sealed-willing s w nonces le e =
      let (fine, still) = write_full-willing w (put_uint32 (length s % 2 ^ 32)) e in
      let (done, after) =
        then_write-willing (write_full w (put_uint32 (length s % 2 ^ 32))) s fine still in
      ground arith

  write_chunk-willing :
      (chunk : Bytes) (w : Writer) (nonces : List Bytes) (n : ℕ)
      → AeadLaws a
      → length chunk ≤ max_plain_frame
      → All Sized nonces
      → Ready (suc n) (record { writer = w; nonces = nonces })
      → ((write_chunk a chunk (record { writer = w; nonces = nonces })).0 ≡ none)
        × Ready n (write_chunk a chunk (record { writer = w; nonces = nonces })).1
  unfolding write_chunk seal_frame
  write_chunk-willing chunk w [] n laws le sized ready = absurd (omega (arith, ready.supply))
  write_chunk-willing chunk w (nonce ∷ nonces) n laws le (here, rest) ready =
      let s = sealed a nonce chunk in
      let size = length-sealed a nonce chunk laws here in
      let (fine, still, same) =
        send_sealed-willing s w nonces (omega (arith, laws.small, size)) ready.willing in
      (fine, record { willing = still; supply = rw same (omega (arith, ready.supply)) })

  write_chunks-willing :
      (fuel : ℕ) (p : Bytes) (written : ℕ) (c : Outgoing)
      → AeadLaws a
      → All Sized c.nonces
      → Ready fuel c
      → (write_chunks a fuel p written c).0.0 ≡ none
  write_chunks-willing zero p written c laws sized ready = unfold write_chunks in refl
  write_chunks-willing (suc fuel) [] written c laws sized ready = unfold write_chunks in refl
  write_chunks-willing (suc fuel) (b ∷ p) written c laws sized ready =
      let n = chunk_size (b ∷ p) in
      let chunk = take n (b ∷ p) in
      let le : length chunk ≤ max_plain_frame = omega (arith, length-take n (b ∷ p)) in
      let (fine, ready1) = write_chunk-willing chunk c.writer c.nonces fuel laws le sized ready in
      let (_, _, _, sized1) = write_chunk-done chunk c.writer c.nonces laws le sized fine in
      rw (write_chunks-step fuel b p written c fine) (
        write_chunks-willing fuel (drop n (b ∷ p)) (written + n) (write_chunk a chunk c).1 laws
          sized1 ready1)

  -- Write succeeds on a writer that takes every slice, with a nonce
  -- for every byte at hand. The cipher is a lawful one and the nonces are of its size.
  pub write-willing :
      (p : Bytes) (c : Outgoing)
      → AeadLaws a
      → All Sized c.nonces
      → c.writer.answers ≡ []
      → length p ≤ length c.nonces
      → (write a p c).0.0 ≡ none
  unfolding write
  write-willing p c laws sized willing supply =
      write_chunks-willing (length p) p 0 c laws sized
        (record { willing = willing; supply = supply })
