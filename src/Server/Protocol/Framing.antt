-- ===== src/Server/Protocol/Framing.antt =====
-- Messages come off a stream as they were put on it.
use fxi.Base.{
  ℕ, ◌%◌, ◌^◌, ◌≡◌, ◌<◌, refl, sym, subst, arith, Option, none, some, List, [], ◌∷◌, ◌++◌, length,
  append_assoc, leb, ltb, true, false, if◌then◌else◌, Bool-cases, inl, inr,
}
use fxi.Base.Keys.{find}
use fxi.Index.Documents.{to_le}
use fxi.Index.Documents.Stored.{read_le-to_le}
use fxi.Query.Text.{Str, str_eq, codes}
use fxi.Server.Protocol.{
  Json, ReadError, ReadResult, max_message, each_value, id_field, tagged_message, request_id_only,
  parsed, read_exact, write_bytes, write_message_with_id, read_message_with_id,
}

read_exact-append :
    (bytes rest : List ℕ) → read_exact (length bytes) (bytes ++ rest) ≡ some (bytes, rest)
unfolding read_exact
read_exact-append [] rest = refl
read_exact-append (b ∷ bytes) rest = rw (read_exact-append bytes rest) refl

-- What write_message_with_id puts on an empty stream.
abbrev pub frame : List ℕ → List ℕ
frame bytes = to_le 4 (length bytes % 2 ^ 32) ++ bytes

module _ {M : Type 0} (json : Json M) where
  open json use {Value, to_fields, from_fields, print, parse, reread}

  write-frame :
      (msg : M) (id : Option Str) (bytes written : List ℕ)
      → print (tagged_message json msg id) ≡ some bytes
      → write_message_with_id json [] msg id ≡ some written
      → written ≡ frame bytes
  unfolding write_message_with_id
  write-frame msg id bytes written made w =
      let done : some (frame bytes) ≡ some written =
        subst (λ o. write_bytes json [] o ≡ some written) made w in
      ground arith

  -- The string that stands under the id's key in the fields as they are parsed again.
  request_id-tagged :
      (fields : List (Str × Value)) (id : Option Str)
      → find (codes "request_id") fields ≡ none
      → request_id_only json (some (each_value reread (fields ++ id_field json id))) ≡ id
  request_id-tagged [] none h = refl
  request_id-tagged [] (some id) h = json.as_str-reread id
  request_id-tagged ((key, v) ∷ fields) id h =
      elim (Bool-cases (str_eq.beq (codes "request_id") key)) [
        | inl same ↦ absurd (ground arith)
        | inr other ↦ rw other (request_id-tagged fields id (ground arith))
      ]

  -- What a client gets that is sent these fields with this id.
  abbrev pub delivered : Option M → Option Str → List ℕ → ReadResult M
  delivered none id rest = ReadResult.failed ReadError.invalid_data
  delivered (some msg) id rest = ReadResult.message msg id rest

  parsed-delivered :
      (o : Option M) (id : Option Str) (bytes rest : List ℕ)
      → request_id_only json (parse bytes) ≡ id
      → parsed json o bytes rest ≡ delivered o id rest
  parsed-delivered none id bytes rest h = refl
  parsed-delivered (some msg) id bytes rest h = rw h refl

  -- Let the fields of a message, with its id if it has one, be printed as fewer than 2^32 bytes, and
  -- let none of its own fields be called request_id. If it is written to a stream and read from it,
  -- with more bytes behind it, then up to 100 MB exactly its own bytes are taken off the stream, and
  -- the reader gets the message that its fields give after they are printed and parsed, together
  -- with the id that it was sent with, or an error if these fields give no message; above 100 MB it
  -- is refused as too large. This rests on the law that parsing keeps printed keys and strings.
  pub read_message-write_message :
      (msg : M) (id : Option Str) (bytes written rest : List ℕ)
      → print (tagged_message json msg id) ≡ some bytes
      → find (codes "request_id") (to_fields msg) ≡ none
      → length bytes < 2 ^ 32
      → write_message_with_id json [] msg id ≡ some written
      → read_message_with_id json (written ++ rest) ≡ (
          if leb (length bytes) max_message
          then delivered
              (from_fields (each_value reread (to_fields msg ++ id_field json id)))
              id
              rest
          else ReadResult.failed ReadError.too_large)
  unfolding read_message_with_id
  read_message-write_message msg id bytes written rest made unnamed small w =
      let is : written ≡ frame bytes = write-frame msg id bytes written made w in
      let fits : length bytes % 2 ^ 32 ≡ length bytes = omega arith in
      let count = read_le-to_le 4 (length bytes) (bytes ++ rest) (omega arith) in
      let shape = append_assoc (to_le 4 (length bytes)) bytes rest in
      let again = json.parse-print (tagged_message json msg id) bytes made in
      let with_id = request_id-tagged (to_fields msg) id unnamed in
      let body = read_exact-append bytes rest in
      let fields = each_value reread (tagged_message json msg id) in
      let got =
        parsed-delivered (from_fields fields) id bytes rest
          (subst (λ o. request_id_only json o ≡ id) (sym again) with_id) in
      elim (Bool-cases (ltb max_message (length bytes))) [
        | inl over ↦
            let large : leb (length bytes) max_message ≡ false = ground arith in
            rw (is, fits, shape, count, over, large) refl
        | inr fine ↦
            let within : leb (length bytes) max_message ≡ true = ground arith in
            rw (is, fits, shape, count, fine, within, body, again) got
      ]
