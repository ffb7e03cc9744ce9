-- ===== src/Marking.antt =====
-- `MarkMessage` of src/act_mark.C: the result of a submission and the files of the marker, as they
-- travel between servers. A load is given the length of the buffer as its size, and `fault` is a
-- read past its end.
pub mod Files
pub mod Safety
pub mod RoundTrip
pub mod Codec
use abacuscm.Prelude.{
  ℕ, zero, suc, ◌+◌, ◌-◌, ◌*◌, ◌/◌, ◌%◌, ◌^◌, ◌≤◌, ◌<◌, String, ◌≡◌, refl, sym, ap, ◌∙◌, subst, ◌≢◌,
  ◌↔◌, ◌⊎◌, inl, inr, Bool, true, false, not, ◌&&◌, ◌||◌, Option, none, some, List, [], ◌∷◌, ◌++◌,
  map, append-nil, append_assoc, arith, ltb, leb, ◌==◌, if◌then◌else◌, ltb→lt, lt→ltb, leb→le,
  ==_iff, ==_refl, ==_ne, Bool-cases, Option-cases, ◌>>=◌, length, take, drop, length-append,
  take-length_append, take-length, take-append_ge, take-append_le, drop-length_append,
  take-append_drop, length-take, length-drop, All, All-append, list-cases, Bytes, codes, eq_bytes,
  lt_bytes, Lacks, eq_bytes_refl, eq_bytes→eq, eq_bytes_iff, lt_bytes-asymm, lt_bytes_irrefl,
  lt_bytes_trans, lt_bytes-connex, StrictOrder, nat_order, bytes_order, same, find, put, erase,
  same_refl, same→eq, find-put, find-erase, Below, IsSorted, All-put, put-Below, put-IsSorted,
  erase-IsSorted,
}
use abacuscm.Wire.{Load, fault, refused, loaded, put_word, with_word, check_string_terms, c_string}

-- `MarkMessage::File`, whose `len` is the length of its data.
pub record File : Type 0 where
  pub name : Bytes
  pub content : Bytes

pub record MarkMessage : Type 0 where
  pub submission_id : ℕ
  pub marker : ℕ
  pub result : ℕ
  pub time : ℕ
  pub server_id : ℕ
  pub comment : Bytes
  pub files : List File

-- `addFile`
unfoldable pub add_file : Bytes → Bytes → MarkMessage → MarkMessage
add_file name bytes m = record m { files = m.files ++ record { name = name; content = bytes } ∷ [] }

-- The loop of `storageRequired`.
unfoldable pub files_size : List File → ℕ
files_size [] = 0
files_size (f ∷ fs) = length f.name + 1 + 4 + length f.content + files_size fs

unfoldable pub storage_required : MarkMessage → ℕ
storage_required m = (20 + length m.comment + 1 + files_size m.files) % 2 ^ 32

-- `strcpy(pos, s.c_str()); pos += strlen(pos) + 1;` on the bytes from `pos` on, followed by what `k`
-- makes of the rest.
unfoldable pub put_text : Bytes → (Bytes → Bytes) → Bytes → Bytes
put_text [] k old = 0 ∷ k (drop 1 old)
put_text (c ∷ s) k old = if c == 0 then 0 ∷ k (drop 1 old) else c ∷ put_text s k (drop 1 old)

unfoldable pub store_files : List File → Bytes → Bytes
store_files [] old = old
store_files (f ∷ fs) old =
    put_text f.name
      (λ rest.
        put_word (length f.content)
          (f.content ++ store_files fs (drop (4 + length f.content) rest)))
      old

-- `store` on a buffer that holds `old`: `none` where it writes past its end.
unfoldable pub store : MarkMessage → Bytes → Option Bytes
store m old =
    if ltb (length old) (20 + length m.comment + 1 + files_size m.files)
    then none
    else some (
        put_word m.submission_id (
          put_word m.marker (
            put_word m.result (
              put_word m.time
                (put_word m.server_id (put_text m.comment (store_files m.files) (drop 20 old)))))))

-- `_files.push_back(tmp)` in front of what the next rounds add.
unfoldable pub push_file : File → Load (List File) → Load (List File)
push_file f fault = fault
push_file f refused = refused
push_file f (loaded fs used) = loaded (f ∷ fs) used

-- The loop of `load`: `size` bytes are left at `pos`, `used` are behind. Each round eats at least five
-- bytes, so the fuel is the size (`Marking.Safety`).
unfoldable pub load_files : ℕ → ℕ → Bytes → ℕ → Load (List File)
load_files zero size pos used = fault
load_files (suc fuel) size pos used = elim (leb size 4) [
  | true ↦ loaded [] used
  | false ↦ elim (check_string_terms (size - 4) 1 pos) [
    | none ↦ fault
    | some false ↦ loaded [] used
    | some true ↦ elim (c_string pos) [
      | none ↦ fault
      | some name ↦ with_word (drop (length name + 1) pos) (λ len data'.
          let left : ℕ = size - (length name + 1) - 4 in
          elim (ltb left len) [
            | true ↦ refused
            | false ↦ elim (ltb (length data') len) [
              | true ↦ fault
              | false ↦
                  push_file (record { name = name; content = take len data' })
                    (load_files fuel (left - len) (drop len data')
                      (used + (length name + 1) + 4 + len))
            ]
          ])
    ]
  ]
]

-- The end of `load`, with the files.
unfoldable pub with_files : ℕ → ℕ → ℕ → ℕ → ℕ → Bytes → Load (List File) → Load MarkMessage
with_files sid marker result t srv comment fault = fault
with_files sid marker result t srv comment refused = refused
with_files sid marker result t srv comment (loaded fs used) =
    loaded
      (record {
        submission_id = sid;
        marker = marker;
        result = result;
        time = t;
        server_id = srv;
        comment = comment;
        files = fs;
      })
      used

-- `load` behind the five words.
unfoldable pub load_comment : ℕ → ℕ → ℕ → ℕ → ℕ → ℕ → Bytes → Load MarkMessage
load_comment size sid marker result t srv pos = elim (check_string_terms size 1 pos) [
  | none ↦ fault
  | some false ↦ refused
  | some true ↦ elim (c_string pos) [
    | none ↦ fault
    | some comment ↦
        let left : ℕ = size - (length comment + 1) in
        with_files sid marker result t srv comment
          (load_files (suc left) left (drop (length comment + 1) pos) (20 + (length comment + 1)))
  ]
]

unfoldable pub load : Bytes → Load MarkMessage
load buf =
    if ltb (length buf) 20
    then refused
    else with_word buf (λ sid p1. with_word p1 (λ marker p2. with_word p2 (λ result p3.
      with_word p3 (λ t p4.
        with_word p4 (λ srv p5. load_comment (length buf - 20) sid marker result t srv p5)))))
