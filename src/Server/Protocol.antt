-- ===== src/Server/Protocol.antt =====
-- src/server/protocol.rs: messages on a stream, each behind its length.
pub mod Framing
mod Runs
use fxi.Base.{
  ℕ, zero, suc, ◌+◌, ◌*◌, ◌%◌, ◌^◌, ◌≡◌, Option, none, some, List, [], ◌∷◌, ◌++◌, length, ltb,
  if◌then◌else◌,
}
use fxi.Base.Keys.{find}
use fxi.Index.Documents.{to_le, read_le}
use fxi.Query.Text.{Str, str_eq, codes}

abbrev pub each_value : {V : Type 0} → (V → V) → List (Str × V) → List (Str × V)
each_value f [] = []
each_value f ((key, v) ∷ fields) = (key, f v) ∷ each_value f fields

-- The `serde_json` package, and what its derived code makes of the messages of one type: the fields
-- of a message, and a message of fields. Fields that are printed are parsed again under the same
-- keys, in their order. A value may change on the way, as some floats do, but not a string.
pub record Json (M : Type 0) : Type 1 where
  pub Value : Type 0
  pub string : Str → Value
  pub as_str : Value → Option Str
  pub to_fields : M → List (Str × Value)
  pub from_fields : List (Str × Value) → Option M
  pub print : List (Str × Value) → Option (List ℕ)
  pub parse : List ℕ → Option (List (Str × Value))
  pub reread : Value → Value
  pub as_str-reread : (s : Str) → as_str (reread (string s)) ≡ some s
  pub parse-print :
      (fields : List (Str × Value)) (bytes : List ℕ)
      → print fields ≡ some bytes
      → parse bytes ≡ some (each_value reread fields)

pub data ReadError : Type 0 where
  unexpected_eof too_large invalid_data : ReadError

-- A message, its id and what is left of the stream; or an error.
pub data ReadResult (M : Type 0) : Type 0 where
  message : M → Option Str → List ℕ → ReadResult M
  failed : ReadError → ReadResult M

abbrev pub max_message : ℕ
max_message = 100 * 1024 * 1024

-- read_exact of a buffer
unfoldable pub read_exact : ℕ → List ℕ → Option (List ℕ × List ℕ)
read_exact zero bytes = some ([], bytes)
read_exact (suc n) [] = none
read_exact (suc n) (b ∷ bytes) = elim (read_exact n bytes) [
  | none ↦ none
  | some (buf, rest) ↦ some (b ∷ buf, rest)
]

module _ {M : Type 0} (json : Json M) where
  open json use {Value, string, as_str, to_fields, from_fields, print, parse}

  -- The field that is skipped if there is no id.
  abbrev pub id_field : Option Str → List (Str × Value)
  id_field none = []
  id_field (some id) = (codes "request_id", string id) ∷ []

  -- A TaggedMessage: the fields of the message, flattened, and the id.
  abbrev pub tagged_message : M → Option Str → List (Str × Value)
  tagged_message msg id = to_fields msg ++ id_field id

  abbrev pub write_bytes : List ℕ → Option (List ℕ) → Option (List ℕ)
  write_bytes writer none = none
  write_bytes writer (some bytes) = some (writer ++ (to_le 4 (length bytes % 2 ^ 32) ++ bytes))

  -- What the stream holds afterwards; none where the message has no serialization.
  unfoldable pub write_message_with_id : List ℕ → M → Option Str → Option (List ℕ)
  write_message_with_id writer msg id = write_bytes writer (print (tagged_message msg id))

  abbrev pub string_or_none : Option Value → Option Str
  string_or_none none = none
  string_or_none (some v) = as_str v

  -- A RequestIdOnly, with no id for bytes that it cannot be read from.
  abbrev pub request_id_only : Option (List (Str × Value)) → Option Str
  request_id_only none = none
  request_id_only (some fields) = string_or_none (find (codes "request_id") fields)

  abbrev pub from_parsed : Option (List (Str × Value)) → Option M
  from_parsed none = none
  from_parsed (some fields) = from_fields fields

  abbrev pub parsed : Option M → List ℕ → List ℕ → ReadResult M
  parsed none buf rest = ReadResult.failed ReadError.invalid_data
  parsed (some msg) buf rest = ReadResult.message msg (request_id_only (parse buf)) rest

  abbrev pub with_body : Option (List ℕ × List ℕ) → ReadResult M
  with_body none = ReadResult.failed ReadError.unexpected_eof
  with_body (some (buf, rest)) = parsed (from_parsed (parse buf)) buf rest

  abbrev pub with_length : Option (ℕ × List ℕ) → ReadResult M
  with_length none = ReadResult.failed ReadError.unexpected_eof
  with_length (some (len, rest)) =
      if ltb max_message len
      then ReadResult.failed ReadError.too_large
      else with_body (read_exact len rest)

  unfoldable pub read_message_with_id : List ℕ → ReadResult M
  unfolding read_le read_exact
  read_message_with_id reader = with_length (read_le 4 reader)
