-- ===== src/Server/Protocol/Runs.antt =====
-- A run of the framing of src/server/protocol.rs, and its theorem at a concrete input.
use fxi.Base.{ℕ, zero, suc, ◌≡◌, refl, ap, arith, Option, none, some, List, [], ◌∷◌, ◌++◌, subst}
use fxi.Base.Keys.{find}
use fxi.Index.Documents.{to_le}
use fxi.Query.Text.{Str, str_eq, codes}
use fxi.Server.Protocol.{Json, ReadResult, each_value, write_message_with_id, read_message_with_id}
use fxi.Server.Protocol.Framing.{read_message-write_message}

-- Fields that are texts, each text with a 0 behind it and its characters above 0: no JSON, but with
-- the laws of a serializer.
abbrev put_text : Str → List ℕ → List ℕ
put_text [] rest = 0 ∷ rest
put_text (c ∷ s) rest = suc c ∷ put_text s rest

abbrev print_fields : List (Str × Str) → List ℕ
print_fields [] = []
print_fields ((key, v) ∷ fields) = put_text key (put_text v (print_fields fields))

abbrev onto_first : ℕ → List Str → List Str
onto_first c [] = (c ∷ []) ∷ []
onto_first c (s ∷ ss) = (c ∷ s) ∷ ss

abbrev texts : List ℕ → List Str
texts [] = []
texts (zero ∷ bytes) = [] ∷ texts bytes
texts (suc c ∷ bytes) = onto_first c (texts bytes)

abbrev in_pairs : List Str → List (Str × Str)
in_pairs [] = []
in_pairs (key ∷ []) = []
in_pairs (key ∷ v ∷ ss) = (key, v) ∷ in_pairs ss

texts-put_text : (s : Str) (rest : List ℕ) → texts (put_text s rest) ≡ s ∷ texts rest
texts-put_text [] rest = refl
texts-put_text (c ∷ s) rest = ap (onto_first c) (texts-put_text s rest)

in_pairs-print_fields :
    (fields : List (Str × Str))
    → in_pairs (texts (print_fields fields)) ≡ each_value (λ v. v) fields
in_pairs-print_fields [] = refl
in_pairs-print_fields ((key, v) ∷ fields) =
    let after = put_text v (print_fields fields) in
    rw (texts-put_text key after, texts-put_text v (print_fields fields))
      (ap (λ more. (key, v) ∷ more) (in_pairs-print_fields fields))

parse_lem :
    (fields : List (Str × Str)) (bytes : List ℕ)
    → some (print_fields fields) ≡ some bytes
    → some (in_pairs (texts bytes)) ≡ some (each_value (λ v. v) fields)
parse_lem fields bytes made =
    let is : print_fields fields ≡ bytes = ground arith in
    ap some (
      subst (λ b. in_pairs (texts b) ≡ each_value (λ v. v) fields) is
        (in_pairs-print_fields fields))

abbrev number_of : Option Str → Option ℕ
number_of none = none
number_of (some []) = none
number_of (some (n ∷ s)) = some n

-- The messages are numbers, in the field n.
abbrev numbers : Json ℕ
numbers = record {
  Value = Str;
  string = λ s. s;
  as_str = λ v. some v;
  to_fields = λ m. (codes "n", m ∷ []) ∷ [];
  from_fields = λ fields. number_of (find (codes "n") fields);
  print = λ fields. some (print_fields fields);
  parse = λ bytes. some (in_pairs (texts bytes));
  reread = λ v. v;
  as_str-reread = λ s. refl;
  parse-print = parse_lem;
}

abbrev some_bytes : List ℕ
some_bytes =
    111 ∷ 0 ∷ 43 ∷ 0 ∷ 115 ∷ 102 ∷ 114 ∷ 118 ∷ 102 ∷ 116 ∷ 117 ∷ 96 ∷ 106 ∷ 101 ∷ 0 ∷ 8 ∷ 0 ∷ []

abbrev some_frame : List ℕ
some_frame = 17 ∷ 0 ∷ 0 ∷ 0 ∷ some_bytes

some_frame_written : write_message_with_id numbers [] 42 (some (7 ∷ [])) ≡ some some_frame
unfolding write_message_with_id to_le
some_frame_written = refl

read_message-write_message_example :
    read_message_with_id numbers (some_frame ++ (9 ∷ []))
    ≡ ReadResult.message 42 (some (7 ∷ [])) (9 ∷ [])
read_message-write_message_example =
    read_message-write_message numbers 42 (some (7 ∷ [])) some_bytes some_frame (9 ∷ []) refl refl
      (omega arith) some_frame_written
