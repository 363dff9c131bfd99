-- ===== src/Postgres/Wal.antt =====
-- internal/postgresql/utils.go: log positions as text, WAL file names, and whether a position is
-- still covered by the files of a server.
pub mod Order
pub mod RoundTrip
use hysteron.Base.{
  Text, Bool, true, false, not, Option, some, none, ℕ, zero, suc, ◌+◌, ◌*◌, ◌/◌, ◌%◌, ◌^◌, ◌&&◌,
  ◌||◌, List, [], ◌∷◌, ◌++◌, leb, ◌==◌, if◌then◌else◌, length, text_lt,
}
use hysteron.Postgres.Hex.{hex_fixed, hex_upper, parse_uint32}

-- `strings.Split(s, "/")`, the parts so far and the current one in `cur`.
unfoldable pub split_slash : Text → Text → List Text
split_slash [] cur = cur ∷ []
split_slash (c ∷ s) cur =
    let cut = cur ∷ split_slash s [] in
    let keep = split_slash s (cur ++ c ∷ []) in if c == b'/' then cut else keep

two_parts : List Text → Option ℕ
two_parts (a ∷ b ∷ []) = elim (parse_uint32 a) [
  | none ↦ none
  | some hi ↦ elim (parse_uint32 b) [ none ↦ none | some lo ↦ some (hi * 2 ^ 32 + lo) ]
]
two_parts _ = none

-- `PGLsnToInt`; an error is `none`. The shifted high part and the low part share no bit, so `|`
-- is `+`.
unfoldable pub pg_lsn_to_int : Text → Option ℕ
unfolding two_parts split_slash
pg_lsn_to_int lsn = two_parts (split_slash lsn [])

-- `IntToPGLSN`
unfoldable pub int_to_pg_lsn : ℕ → Text
int_to_pg_lsn lsn = hex_upper (lsn / 2 ^ 32) ++ (b'/' ∷ hex_upper (lsn % 2 ^ 32))

is_wal_char : ℕ → Bool
is_wal_char c = leb b'0' c && leb c b'9' || leb b'A' c && leb c b'F'

all_wal_chars : Text → Bool
unfolding is_wal_char
all_wal_chars [] = true
all_wal_chars (c ∷ s) = if is_wal_char c then all_wal_chars s else false

-- `IsWalFileName`
unfoldable pub is_wal_file_name : Text → Bool
unfolding all_wal_chars
is_wal_file_name name = if length name == 24 then all_wal_chars name else false

-- `WalSegSize`
abbrev pub wal_seg_size : ℕ
wal_seg_size = 16 * 1024 * 1024

-- `XlogPosToWalFileNameNoTimeline`
unfoldable pub xlog_pos_to_wal_file_name_no_timeline : ℕ → ℕ → Text
xlog_pos_to_wal_file_name_no_timeline xlog_pos seg_size =
    let id = xlog_pos / 2 ^ 32 % 2 ^ 32 in
    let offset = xlog_pos % 2 ^ 32 in
    let seg = offset / seg_size in hex_fixed 8 id ++ hex_fixed 8 seg

-- `name[8:24]` of a name of 24 bytes.
drop_timeline : ℕ → Text → Text
drop_timeline zero name = name
drop_timeline (suc n) [] = []
drop_timeline (suc n) (c ∷ name) = drop_timeline n name

-- `WalFileNameNoTimeLine`; "bad wal file name" is `none`.
unfoldable pub wal_file_name_no_timeline : Text → Option Text
unfolding is_wal_file_name drop_timeline
wal_file_name_no_timeline name = if is_wal_file_name name then some (drop_timeline 8 name) else none

is_empty : Text → Bool
is_empty [] = true
is_empty _ = false

-- `IsRequiredWalAvailable`; an error is `none`.
unfoldable pub is_required_wal_available : ℕ → Text → ℕ → Option Bool
unfolding is_empty
is_required_wal_available required_xlog_pos oldest_wal_file seg_size =
    if is_empty oldest_wal_file
    then some true
    else elim (wal_file_name_no_timeline oldest_wal_file) [
      | none ↦ none
      | some older ↦
          some
            (not (text_lt (xlog_pos_to_wal_file_name_no_timeline required_xlog_pos seg_size) older))
    ]
