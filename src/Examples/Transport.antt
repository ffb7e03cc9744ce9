-- ===== src/Examples/Transport.antt =====
-- The theorems on messages and on their fragments at concrete inputs, where their hypotheses hold.
use abacuscm.Prelude.{
  ℕ, zero, suc, ◌+◌, ◌-◌, ◌/◌, ◌^◌, ◌<◌, ◌≡◌, refl, ap, true, false, Option, none, some, List, [],
  ◌∷◌, arith, if◌then◌else◌, length, Bytes, nat_order, bytes_order, find,
}
use abacuscm.Wire.{Load, loaded, put_word}
use abacuscm.Wire.Small.{store_start_stop, MsgStartStop, load_start_stop}
use abacuscm.Message.{
  Message, Services, made, built, build_blob, blob_bytes, make_blob, make_message, send_all,
  sent_to, set_message_id, zeros, fresh,
}
use abacuscm.Message.RoundTrip.{IsSendable, build_blob-blob_bytes}
use abacuscm.Message.Codecs.{start_stop_codec, IsStartStop, start_stop_codec-IsLawful}
use abacuscm.UdpMessenger.{num_fragments}
use abacuscm.UdpMessenger.Frames.{clamp_fragment_size}
use abacuscm.UdpMessenger.Receive.{Environment, Receiver, or_new, server_fragments, get_message}
use abacuscm.UdpMessenger.Reassembly.{arrived, member}
use abacuscm.UdpMessenger.Gather.{InRange}
use abacuscm.UdpMessenger.Packets.{IsCipher}
use abacuscm.UdpMessenger.Delivery.{delivered}
use abacuscm.UdpMessenger.Transfer.{frames, get_message-fragments, make_message-get_message}

-- A message whose content is its bytes.
abbrev raw : Message Bytes
raw = record {
  server_id = 1;
  message_id = 5;
  time = 1000;
  message_type_id = 6;
  payload = some (zeros 300);
  signature = some (zeros 128);
  blob = none;
  content = zeros 300;
}

abbrev raw_load : Bytes → Load Bytes
raw_load b = loaded b 0

abbrev raw_functors : List (ℕ × (Bytes → Load Bytes))
raw_functors = (6, raw_load) ∷ []

length-zeros_300 : length (zeros 300) ≡ 300
unfolding zeros
length-zeros_300 = refl

raw-IsSendable : IsSendable raw (zeros 128) (zeros 300)
unfolding zeros
raw-IsSendable = record {
  small_server_id = omega arith;
  small_message_id = omega arith;
  small_time = omega arith;
  small_type_id = omega arith;
  signature_is = refl;
  payload_is = refl;
  signed = refl;
  payload_some = omega arith;
}

find_raw : find 6 raw_functors ≡ some raw_load
unfolding find
find_raw = refl

abbrev raw_blob : Bytes
raw_blob = blob_bytes raw (zeros 128) (zeros 300)

build_blob-blob_bytes_example :
    build_blob raw_functors raw_blob ≡ built (record raw { blob = some raw_blob })
build_blob-blob_bytes_example =
    build_blob-blob_bytes raw_functors raw_load raw (zeros 128) (zeros 300) 0 raw-IsSendable
      find_raw refl

abbrev plain : Bytes → Option Bytes
plain b = some b

plain-IsCipher : IsCipher plain plain
plain-IsCipher = record { encrypts = λ b h. (b, refl, refl, omega arith) }

abbrev receiver : Receiver
receiver = record {
  messenger = record { init_delay = 500; min_delay = 100; max_delay = 100000; backoffmap = [] };
  fragments = [];
  notices = [];
}

abbrev raw_environment : Environment Bytes
raw_environment = record {
  decrypt = plain;
  checksum_seed = 7;
  has_message = λ server id. false;
  functors = raw_functors;
}

nothing : find 5 (server_fragments 1 receiver) ≡ none
unfolding find server_fragments or_new
nothing = refl

raw_length : length raw_blob ≡ 444
unfolding blob_bytes put_word zeros
raw_length = refl

-- The blob goes into three fragments.
raw_parts : (len : ℕ) → len ≡ 444 → num_fragments (clamp_fragment_size 200) len ≡ 3
unfolding num_fragments clamp_fragment_size
raw_parts len h = rw h refl

raw_few :
    (len : ℕ) → len ≡ 444 → (len + clamp_fragment_size 200 - 1) / clamp_fragment_size 200 < 2 ^ 15
unfolding clamp_fragment_size
raw_few len h = rw h (omega arith)

-- The last fragment comes first, and one of them twice.
abbrev raw_order : List ℕ
raw_order = 3 ∷ 1 ∷ 3 ∷ 2 ∷ []

in_range : (n : ℕ) → n ≡ 3 → InRange n raw_order
in_range n h = (
  (omega arith, omega arith),
  ((omega arith, omega arith), ((omega arith, omega arith), ((omega arith, omega arith), tt))),
)

get_message-fragments_example :
    delivered (
      get_message raw_environment
        (frames raw_environment plain 1 5 200 plain-IsCipher
          (omega arith)
          (omega arith)
          refl
          raw_blob
          raw_order)
        receiver)
    ≡ (if arrived (num_fragments (clamp_fragment_size 200) (length raw_blob)) raw_order
        then some (record raw { blob = some raw_blob })
        else none)
get_message-fragments_example =
    get_message-fragments raw_environment plain 1 5 200 plain-IsCipher (omega arith) (omega arith)
      refl raw_blob (record raw { blob = some raw_blob }) raw_order receiver
      (omega (arith, raw_length)) (raw_few (length raw_blob) raw_length)
      (build_blob-blob_bytes raw_functors raw_load raw (zeros 128) (zeros 300) 0 raw-IsSendable
        find_raw refl)
      nothing
      (in_range (num_fragments (clamp_fragment_size 200) (length raw_blob))
        (raw_parts (length raw_blob) raw_length))

abbrev services : Services MsgStartStop
services = record {
  codec = start_stop_codec;
  allocated = zeros;
  own_id = 1;
  now = 1000;
  put_local_message = λ m. some 5;
  remote_servers = 2 ∷ 3 ∷ [];
  send_message = λ server b. true;
}

length-zeros_of : (n : ℕ) → length (zeros n) ≡ n
unfolding zeros
length-zeros_of zero = refl
length-zeros_of (suc n) = ap suc (length-zeros_of n)

abbrev start : MsgStartStop
start = record { group_id = 2; time = 1234567; action = 1 }

start-IsStartStop : IsStartStop start
start-IsStartStop = (omega arith, omega arith, omega arith)

abbrev functors : List (ℕ × (Bytes → Load MsgStartStop))
functors = (6, load_start_stop) ∷ []

find_start_stop : find 6 functors ≡ some load_start_stop
unfolding find
find_start_stop = refl

abbrev environment : Environment MsgStartStop
environment = record {
  decrypt = plain;
  checksum_seed = 7;
  has_message = λ server id. false;
  functors = functors;
}

-- The message that is made, with its 156 bytes.
abbrev start_bytes : Bytes
start_bytes = put_word 2 (put_word 1234567 (put_word 1 []))

abbrev unsent : Message MsgStartStop
unsent = record {
  server_id = 1;
  message_id = 5;
  time = 1000;
  message_type_id = 6;
  payload = some start_bytes;
  signature = some (zeros 128);
  blob = none;
  content = start;
}

abbrev start_blob : Bytes
start_blob = blob_bytes unsent (zeros 128) start_bytes

abbrev sent_message : Message MsgStartStop
sent_message = record unsent { blob = some start_blob }

making : make_message services (fresh 6 start) ≡ made sent_message (2 ∷ 3 ∷ [])
unfolding make_message fresh send_all make_blob set_message_id zeros sent_to store_start_stop
    put_word
making = refl

start_length : length start_blob ≡ 156
unfolding blob_bytes put_word zeros
start_length = refl

-- A message of 156 bytes is one fragment.
start_parts : (len : ℕ) → len ≡ 156 → num_fragments (clamp_fragment_size 1000) len ≡ 1
unfolding num_fragments clamp_fragment_size
start_parts len h = rw h refl

start_few :
    (len : ℕ) → len ≡ 156 → (len + clamp_fragment_size 1000 - 1) / clamp_fragment_size 1000 < 2 ^ 15
unfolding clamp_fragment_size
start_few len h = rw h (omega arith)

single_range : (n : ℕ) → n ≡ 1 → InRange n (1 ∷ 1 ∷ [])
single_range n h = ((omega arith, omega arith), ((omega arith, omega arith), tt))

single_arrived : (n : ℕ) → n ≡ 1 → arrived n (1 ∷ 1 ∷ []) ≡ true
unfolding arrived member
single_arrived n h = rw h refl

make_message-get_message_example :
    (delivered (
        get_message environment
          (frames environment plain 1 5 1000 plain-IsCipher
            (omega arith)
            (omega arith)
            refl
            start_blob
            (1 ∷ 1 ∷ []))
          receiver)
      ≡ some sent_message)
    × (sent_message.content ≡ start)
    × (sent_message.server_id ≡ 1)
    × (sent_message.message_id ≡ 5)
make_message-get_message_example =
    make_message-get_message environment plain 1 5 1000 plain-IsCipher (omega arith) (omega arith)
      refl services 6 IsStartStop start sent_message (2 ∷ 3 ∷ []) start_blob (1 ∷ 1 ∷ []) receiver
      start_stop_codec-IsLawful start-IsStartStop length-zeros_of (λ m. refl) refl
      (λ e. omega (arith, e)) (omega arith) (omega arith) find_start_stop making refl
      (start_few (length start_blob) start_length) nothing
      (single_range (num_fragments (clamp_fragment_size 1000) (length start_blob))
        (start_parts (length start_blob) start_length))
      (single_arrived (num_fragments (clamp_fragment_size 1000) (length start_blob))
        (start_parts (length start_blob) start_length))
