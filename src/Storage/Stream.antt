-- ===== src/Storage/Stream.antt =====
-- Stream identifiers and XADD: stream.go. `strconv.ParseInt` is `parse_int` of Storage/IntSet, and
-- `strconv.FormatInt` is `format_int`; `sequence + 1` wraps as an int64 does.
pub mod Ascending
use runedb.Base.{
  ℕ, zero, suc, ◌+◌, ◌-◌, ◌^◌, ◌==◌, Bool, true, false, not, ◌&&◌, ◌||◌, Option, none, some, List,
  [], ◌∷◌, ◌++◌, Bytes, if◌then◌else◌, equal_bytes, is_empty, Result, ok, err, ◌>>=◌,
}
use runedb.Base.Int.{ℤ, pos, negsuc, ltb_ℤ, eqb_ℤ, min_int64}
use runedb.Protocol.Number.{format_int}
use runedb.Storage.IntSet.{parse_int}

pub record StreamId : Type 0 where
  pub milliseconds : ℤ
  pub sequence : ℤ

pub record StreamRecord : Type 0 where
  pub id : StreamId
  pub id_text : Bytes
  pub values : List Bytes

pub record StreamValue : Type 0 where
  pub entries : List StreamRecord
  pub last_id : StreamId
  pub has_entries : Bool

-- ErrInvalidStreamID and ErrStreamIDTooSmall
pub data StreamError : Type 0 where
  invalid_id : StreamError
  id_too_small : StreamError

abbrev pub new_stream : StreamValue
new_stream = record {
  entries = [];
  last_id = record { milliseconds = pos 0; sequence = pos 0 };
  has_entries = false;
}

-- z + 1 on an int64
unfoldable pub succ_int64 : ℤ → ℤ
succ_int64 (pos n) = if n == 2 ^ 63 - 1 then min_int64 else pos (n + 1)
succ_int64 (negsuc zero) = pos 0
succ_int64 (negsuc (suc n)) = negsuc n

unfoldable pub next_auto_id : StreamValue → ℤ → StreamId
unfolding succ_int64
next_auto_id s now =
    if not s.has_entries
    then record { milliseconds = now; sequence = pos 0 }
    else if ltb_ℤ now s.last_id.milliseconds
    then record { milliseconds = s.last_id.milliseconds; sequence = succ_int64 s.last_id.sequence }
    else if eqb_ℤ now s.last_id.milliseconds
    then record { milliseconds = now; sequence = succ_int64 s.last_id.sequence }
    else record { milliseconds = now; sequence = pos 0 }

unfoldable pub compare_stream_ids : StreamId → StreamId → ℤ
compare_stream_ids left right =
    if ltb_ℤ left.milliseconds right.milliseconds
    then negsuc 0
    else if ltb_ℤ right.milliseconds left.milliseconds
    then pos 1
    else if ltb_ℤ left.sequence right.sequence
    then negsuc 0
    else if ltb_ℤ right.sequence left.sequence
    then pos 1
    else pos 0

-- `streamID.String`
abbrev pub id_string : StreamId → Bytes
id_string id = format_int id.milliseconds ++ b'-' ∷ format_int id.sequence

-- strings.Cut(raw, "-")
abbrev pub cut : Bytes → Option (Bytes × Bytes)
cut [] = none
cut (c ∷ raw) =
    let rest = cut raw in
    if c == b'-'
    then some ([], raw)
    else elim rest [ none ↦ none | some (before, after) ↦ some (c ∷ before, after) ]

-- strings.Contains(raw, "-")
abbrev pub has_dash : Bytes → Bool
has_dash [] = false
has_dash (c ∷ raw) = c == b'-' || has_dash raw

-- `parseNonNegativeStreamInt`
unfoldable pub parse_non_negative_stream_int : Bytes → Result StreamError ℤ
parse_non_negative_stream_int raw = elim (parse_int raw) [
  | none ↦ err invalid_id
  | some value ↦ if ltb_ℤ value (pos 0) then err invalid_id else ok value
]

unfoldable pub parse_stream_add_id : Bytes → Result StreamError StreamId
unfolding parse_non_negative_stream_int
parse_stream_add_id raw = elim (cut raw) [
  | none ↦ err invalid_id
  | some (milliseconds_part, sequence_part) ↦
      if is_empty milliseconds_part || (is_empty sequence_part || has_dash sequence_part)
      then err invalid_id
      else parse_non_negative_stream_int milliseconds_part >>= λ milliseconds.
          parse_non_negative_stream_int sequence_part >>= λ sequence.
          ok (record { milliseconds = milliseconds; sequence = sequence })
]

-- `parseStreamReadID`
unfoldable pub parse_stream_read_id : Bytes → StreamId → Result StreamError StreamId
unfolding parse_stream_add_id parse_non_negative_stream_int
parse_stream_read_id raw latest =
    if equal_bytes raw (b'$' ∷ []) then ok latest else elim (cut raw) [
      | none ↦ parse_non_negative_stream_int raw >>= λ milliseconds.
          ok (record { milliseconds = milliseconds; sequence = pos 0 })
      | some parts ↦ parse_stream_add_id raw
    ]

-- `ValidateXAddID`: none is no error.
unfoldable pub validate_x_add_id : Bytes → Option StreamError
unfolding parse_stream_add_id parse_non_negative_stream_int
validate_x_add_id raw =
    if equal_bytes raw (b'*' ∷ [])
    then none
    else elim (parse_stream_add_id raw) [ ok id ↦ none | err e ↦ some e ]

-- The entry is admitted.
abbrev pub append_record : StreamId → List Bytes → StreamValue → StreamValue × Bytes
append_record id values s = (
  record {
    entries = s.entries ++ (record { id = id; id_text = id_string id; values = values }) ∷ [];
    last_id = id;
    has_entries = true;
  },
  id_string id,
)

-- The identifier of the new entry, the first half of `add`.
unfoldable pub admitted_id : Bytes → ℤ → StreamValue → Result StreamError StreamId
unfolding next_auto_id parse_stream_add_id compare_stream_ids
admitted_id raw now s =
    if equal_bytes raw (b'*' ∷ [])
    then ok (next_auto_id s now)
    else parse_stream_add_id raw >>= λ id.
        if s.has_entries && not (ltb_ℤ (pos 0) (compare_stream_ids id s.last_id))
        then err id_too_small
        else ok id

-- `add`
unfoldable pub add_record :
    Bytes → List Bytes → ℤ → StreamValue → Result StreamError (StreamValue × Bytes)
unfolding admitted_id
add_record raw values now s = admitted_id raw now s >>= λ id. ok (append_record id values s)
