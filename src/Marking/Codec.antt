-- ===== src/Marking/Codec.antt =====
-- The codec of mark messages.
use abacuscm.Prelude.{
  ◌+◌, ◌-◌, ◌%◌, ◌^◌, ◌<◌, ◌≡◌, refl, ◌≢◌, none, [], arith, length, Bytes, nat_order, bytes_order,
}
use abacuscm.Wire.{refused}
use abacuscm.Message.{Codec}
use abacuscm.Message.Replication.{IsLawful}
use abacuscm.Message.Codecs.{lawful}
use abacuscm.Marking.{MarkMessage, files_size, storage_required, store, load}
use abacuscm.Marking.RoundTrip.{IsMark, load-store_mark}

abbrev pub mark_codec : Codec MarkMessage
mark_codec = record { storage_required = storage_required; store = store; load = load }

load_mark-nil : load [] ≡ refused
unfolding load
load_mark-nil = refl

store_mark_total :
    (m : MarkMessage) (old : Bytes)
    → IsMark m
    → length old ≡ storage_required m
    → store m old ≢ none
unfolding store storage_required
store_mark_total m old w h e =
    let z : (20 + length m.comment + 1 + files_size m.files) % 2 ^ 32
        ≡ 20 + length m.comment + 1 + files_size m.files =
      omega (arith, w.small_size) in
    ground (arith, z)

small_mark : (m : MarkMessage) → IsMark m → storage_required m < 2 ^ 32 - 1
unfolding storage_required
small_mark m w = omega (arith, w.small_size)

-- The codec of mark messages obeys the laws that sending a message asks for.
pub mark_codec-IsLawful : IsLawful mark_codec IsMark
mark_codec-IsLawful =
    lawful mark_codec IsMark small_mark load_mark-nil store_mark_total
      (λ m old buf w h e. load-store_mark m old buf w h e)
