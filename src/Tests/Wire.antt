-- ===== src/Tests/Wire.antt =====
-- Frames, datagrams, hellos and the secure stream at concrete inputs, with a toy AEAD that puts one
-- byte before the plain text.
use chameleon_protocol.Base.{
  ◌+◌, ◌<◌, ◌≤◌, ◌≡◌, refl, arith, [], ◌∷◌, ◌++◌, Option, none, some, ok, err, ◌>>=◌, length, take,
  drop,
}
use chameleon_protocol.Base.Int.{pos}
use chameleon_protocol.Base.Bytes.{Bytes, codes}
use chameleon_protocol.Crypto.{Aead, AeadLaws, seal_frame}
use chameleon_protocol.Io.{wrote, write_full}
use chameleon_protocol.Frame.{bad_original_length, frame_magic, encode_frame, decode_frame}
use chameleon_protocol.Frame.RoundTrip.{decode_frame_sound, decode_frame-encode_frame}
use chameleon_protocol.Tunnel.Datagram.{
  max_datagram_plain, encode_datagram_frame, decode_datagram_frame,
}
use chameleon_protocol.Tunnel.Datagram.RoundTrip.{
  decode_datagram_frame-encode_datagram_frame, encode_datagram_frame-decode_datagram_frame,
}
use chameleon_protocol.Net.HostPort.{split_host_port}
use chameleon_protocol.Net.Text.{trim_space}
use chameleon_protocol.Net.Number.{atoi}
use chameleon_protocol.Tunnel.Destination.{validate_destination}
use chameleon_protocol.Tunnel.Secure.{Incoming, Outgoing, write, write_chunk}
use chameleon_protocol.Tunnel.Secure.Frames.{ended}
use chameleon_protocol.Tunnel.Secure.Read.{Holds}
use chameleon_protocol.Tunnel.Secure.Channel.{read_all, read_all-write}

abbrev pub toy : Aead
toy = record {
  nonce_size = 2;
  overhead = 1;
  seal = λ nonce plain. 7 ∷ plain;
  unseal = λ nonce sealed. unsealed sealed;
}
  where
    unsealed : Bytes → Option Bytes
    unsealed [] = none
    unsealed (b ∷ plain) = some plain

pub toy-AeadLaws : AeadLaws toy
toy-AeadLaws = record {
  unseal_seal = λ nonce plain. refl;
  length_seal = λ nonce plain. omega arith;
  small = omega arith;
}

abbrev pub site : Bytes
site = codes "a.b:80"

pub site_valid : validate_destination site ≡ ok tt
unfolding validate_destination split_host_port trim_space atoi
site_valid = refl

abbrev two_bytes : Bytes
two_bytes = 9 ∷ 8 ∷ []

abbrev small_frame : Bytes
small_frame = codes "CHLM" ++ (1 ∷ 0 ∷ 0 ∷ 1 ∷ 0 ∷ 0 ∷ 0 ∷ 1 ∷ 0 ∷ 0 ∷ 0 ∷ 2 ∷ 9 ∷ 8 ∷ [])

small_frame_decodes : decode_frame small_frame ≡ ok (9 ∷ [])
unfolding decode_frame
small_frame_decodes = refl

decode_frame_sound_example :
    (take 4 small_frame ≡ frame_magic)
    × (0 < 1)
    × (1 + 16 ≤ 18)
    × (9 ∷ [] ≡ take 1 (drop 16 small_frame))
decode_frame_sound_example = decode_frame_sound small_frame (9 ∷ []) small_frame_decodes

decode_frame-encode_frame_example :
    (encode_frame (codes "gaming") (9 ∷ 8 ∷ []) (pos 1) >>= λ frame.
    decode_frame (frame ++ (3 ∷ [])))
    ≡ ok (9 ∷ [])
decode_frame-encode_frame_example =
    decode_frame-encode_frame (codes "gaming") (9 ∷ 8 ∷ []) (3 ∷ []) 1 (omega arith) (omega arith)
      (omega arith)

three_refused : encode_frame (codes "http3") (9 ∷ 8 ∷ []) (pos 3) ≡ err bad_original_length
unfolding encode_frame
three_refused = refl

abbrev datagram : Bytes
datagram = 1 ∷ 0 ∷ 6 ∷ (site ++ (5 ∷ 4 ∷ []))

datagram_encodes : encode_datagram_frame site (5 ∷ 4 ∷ []) ≡ ok datagram
unfolding encode_datagram_frame validate_destination split_host_port trim_space atoi
datagram_encodes = refl

datagram_decodes : decode_datagram_frame datagram ≡ ok (site, 5 ∷ 4 ∷ [])
unfolding decode_datagram_frame validate_destination split_host_port trim_space atoi
datagram_decodes = refl

decode_datagram_frame-encode_datagram_frame_example :
    (decode_datagram_frame datagram ≡ ok (site, 5 ∷ 4 ∷ []))
    × (length datagram ≤ max_datagram_plain)
decode_datagram_frame-encode_datagram_frame_example =
    decode_datagram_frame-encode_datagram_frame site (5 ∷ 4 ∷ []) datagram datagram_encodes

encode_datagram_frame-decode_datagram_frame_example :
    encode_datagram_frame site (5 ∷ 4 ∷ []) ≡ ok datagram
encode_datagram_frame-decode_datagram_frame_example =
    encode_datagram_frame-decode_datagram_frame datagram site (5 ∷ 4 ∷ []) (ground arith)
      (omega arith) datagram_decodes

-- A writer that takes one byte, and then whatever it is given.
abbrev start : Outgoing
start = record {
  writer = record { sent = []; answers = wrote 1 ∷ [] };
  nonces = (1 ∷ 2 ∷ []) ∷ (3 ∷ 4 ∷ []) ∷ [];
}

abbrev willing : Outgoing
willing = record {
  writer = record { sent = []; answers = [] };
  nonces = (1 ∷ 2 ∷ []) ∷ (3 ∷ 4 ∷ []) ∷ [];
}

write_done : (write toy two_bytes start).0.0 ≡ none
unfolding write write_chunk write_full seal_frame
write_done = refl

read_all-write_example :
    read_all toy 3 1 (record { stream = (write toy two_bytes start).1.writer.sent; pending = [] })
    ≡ some (ok two_bytes)
read_all-write_example =
    read_all-write toy two_bytes start 1 toy-AeadLaws (refl, (refl, tt)) refl write_done
      (omega arith)

abbrev pending : Incoming
pending = record { stream = []; pending = two_bytes }

pending-Holds : Holds toy pending two_bytes
pending-Holds = record { payload = []; carries = ended; whole = refl }

abbrev drained : Incoming
drained = record { stream = []; pending = [] }
