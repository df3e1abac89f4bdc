-- ===== src/Router/Frame.antt =====
-- backend/api/RequestHandler.cpp: theorems on the binary message of a capture.
use everest_ui.Base.{
  ℕ, zero, suc, ◌+◌, ◌*◌, ◌/◌, ◌%◌, ◌^◌, ◌<◌, Bool, [], ◌∷◌, ◌++◌, if◌then◌else◌, ◌≡◌, refl, ◌∙◌,
  arith, take, drop,
}
use everest_ui.Base.Text.{Text, codes}
use everest_ui.Router.Respond.{big_endian, frame}

-- The value of bytes, the greatest first, behind those already read.
abbrev pub from_bytes : ℕ → Text → ℕ
from_bytes acc [] = acc
from_bytes acc (b ∷ bs) = from_bytes (acc * 256 + b) bs

abbrev pub power : ℕ → ℕ
power zero = 1
power (suc n) = power n * 256

from_bytes-append :
    (acc : ℕ) (xs : Text) (b : ℕ) → from_bytes acc (xs ++ (b ∷ [])) ≡ from_bytes acc xs * 256 + b
from_bytes-append acc [] b = refl
from_bytes-append acc (x ∷ xs) b = from_bytes-append (acc * 256 + x) xs b

from_bytes-big_endian : (n v : ℕ) → v < power n → from_bytes 0 (big_endian n v) ≡ v
unfolding big_endian
from_bytes-big_endian zero v h = omega arith
from_bytes-big_endian (suc n) v h =
    let rest = from_bytes-big_endian n (v / 256) (omega arith) in
    from_bytes-append 0 (big_endian n (v / 256)) (v % 256) ∙ omega arith

-- A reader of the message: the bytes at the places of the layout.
abbrev pub magic_of : Text → Text
magic_of = take 4

abbrev pub version_of : Text → Text
version_of m = take 1 (drop 4 m)

abbrev pub final_of : Text → Text
final_of m = take 1 (drop 5 m)

abbrev pub client_of : Text → ℕ
client_of m = from_bytes 0 (take 8 (drop 8 m))

abbrev pub sequence_of : Text → ℕ
sequence_of m = from_bytes 0 (take 4 (drop 16 m))

abbrev pub payload_of : Text → Text
payload_of = drop 20

-- What the reader finds is what the frame was made of.
pub record IsRead (client sequence : ℕ) (final : Bool) (payload m : Text) : Type 0 where
  pub magic : magic_of m ≡ codes "PCAP"
  pub version : version_of m ≡ 1 ∷ []
  pub last : final_of m ≡ (if final then 1 else 0) ∷ []
  pub request : client_of m ≡ client
  pub number : sequence_of m ≡ sequence
  pub rest : payload_of m ≡ payload

-- A message with a payload of any length reads back as its request, its sequence, its flag and its
-- payload, if the request id fits in 64 bits and the sequence in 32.
pub frame-IsRead :
    (client sequence : ℕ) (final : Bool) (payload : Text)
    → client < 2 ^ 64
    → sequence < 2 ^ 32
    → IsRead client sequence final payload (frame client sequence final payload)
unfolding frame big_endian
frame-IsRead client sequence final payload small_client small_sequence = record {
  magic = refl;
  version = refl;
  last = refl;
  request = from_bytes-big_endian 8 client small_client;
  number = from_bytes-big_endian 4 sequence small_sequence;
  rest = refl;
}
