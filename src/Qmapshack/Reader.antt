-- ===== src/Qmapshack/Reader.antt =====
-- `QtReader` of server/qmapshack/decode.rs: a cursor over the bytes. The text that `context` adds
-- to an error is left out: an error is the check that failed.
use gps_trips.Prelude.{
  ℕ, zero, suc, ◌+◌, ◌-◌, ◌^◌, ◌%◌, List, [], ◌∷◌, Option, none, some, Bool, true, false, ◌||◌,
  ◌==◌, leb, if◌then◌else◌, String, length, take, drop,
}
use gps_trips.Prelude.Int.{ℤ, pos, negsuc}
use gps_trips.Qmapshack.Words.{from_le_bytes, from_be_bytes, from_word}
use gps_trips.Qmapshack.Utf16.{from_utf16}
use gps_trips.Qmapshack.Crates.{TimeCrate, BytesCrate}

pub data DecodeError : Type 0 where
  -- offset, bytes wanted, bytes left
  truncated : ℕ → ℕ → ℕ → DecodeError
  -- a version, a type id or a kind that is not the one expected
  unsupported : String → ℕ → DecodeError
  index_out_of_range : ℤ → ℕ → DecodeError
  missing : String → DecodeError
  unaccounted : ℕ → DecodeError
  odd_length : ℕ → DecodeError
  invalid : String → DecodeError
  bad_magic : List ℕ → DecodeError
  too_short : DecodeError
  -- declared, inflated
  wrong_size : ℕ → ℕ → DecodeError
  not_decoded : String → DecodeError
  panicked : DecodeError

pub data Result {ℓ} (A : Type ℓ) : Type ℓ where
  ok : A → Result A
  err : DecodeError → Result A

pub record QtReader : Type 0 where
  pub bytes : List ℕ
  pub pos : ℕ

abbrev pub Reader {ℓ} : Type ℓ → Type ℓ
Reader A = QtReader → Result (A × QtReader)

abbrev pub continue {ℓ κ} :
    {A : Type ℓ} {B : Type κ} → Result (A × QtReader) → (A → Reader B) → Result (B × QtReader)
continue (ok (a, r)) f = f a r
continue (err e) f = err e

infixl 5 ◌>>=◌ ◌>>◌
unfoldable pub ◌>>=◌ {ℓ κ} : {A : Type ℓ} {B : Type κ} → Reader A → (A → Reader B) → Reader B
◌>>=◌ m f r = continue (m r) f

abbrev pub ◌>>◌ {ℓ κ} : {A : Type ℓ} {B : Type κ} → Reader A → Reader B → Reader B
m >> n = m >>= λ _. n

unfoldable pub pure {ℓ} : {A : Type ℓ} → A → Reader A
pure a r = ok (a, r)

unfoldable pub ensure : Bool → DecodeError → Reader (Unit {0})
ensure true e r = ok (tt, r)
ensure false e r = err e

-- `.context(…)?` on an `Option`
unfoldable pub require {ℓ} : {A : Type ℓ} → Option A → DecodeError → Reader A
require none e r = err e
require (some a) e r = ok (a, r)

-- `for _ in 0..n { xs.push(m?) }`
unfoldable pub repeat {ℓ} : {A : Type ℓ} → ℕ → Reader A → Reader (List A)
repeat zero m = pure []
repeat (suc n) m = do x ← m; xs ← repeat n m; pure (x ∷ xs)

unfoldable pub remaining : QtReader → ℕ
remaining r = length r.bytes - r.pos

unfoldable pub raw : ℕ → Reader (List ℕ)
unfolding remaining
raw n r =
    if leb n (remaining r)
    then ok (take n (drop r.pos r.bytes), record r { pos = r.pos + n })
    else err (truncated r.pos n (remaining r))

-- `self.raw(1)?[0]`: `raw 1` returns one byte.
head_or_zero : List ℕ → ℕ
head_or_zero [] = 0
head_or_zero (b ∷ bs) = b

unfoldable pub u8 : Reader ℕ
unfolding head_or_zero
u8 = do bytes ← raw 1; pure (head_or_zero bytes)

unfoldable pub i16 : Reader ℤ
i16 = do bytes ← raw 2; pure (from_word (2 ^ 15) (from_le_bytes bytes))

unfoldable pub u32 : Reader ℕ
u32 = do bytes ← raw 4; pure (from_le_bytes bytes)

unfoldable pub i32 : Reader ℤ
i32 = do bytes ← raw 4; pure (from_word (2 ^ 31) (from_le_bytes bytes))

unfoldable pub u64 : Reader ℕ
u64 = do bytes ← raw 8; pure (from_le_bytes bytes)

unfoldable pub i64 : Reader ℤ
i64 = do bytes ← raw 8; pure (from_word (2 ^ 63) (from_le_bytes bytes))

unfoldable pub f64 : Reader ℕ
f64 = do bytes ← raw 8; pure (from_le_bytes bytes)

-- `as_chunks::<2>()`, each pair read lowest byte first.
unfoldable pub units_of : List ℕ → List ℕ
units_of [] = []
units_of (a ∷ []) = []
units_of (a ∷ b ∷ rest) = from_le_bytes (a ∷ b ∷ []) ∷ units_of rest

-- What follows the length in `qstring`.
unfoldable pub string_body : ℕ → Reader (Option (List ℕ))
unfolding units_of
string_body len = do
  ensure (len % 2 == 0) (odd_length len)
  bytes ← raw len
  s ← require (from_utf16 (units_of bytes)) (invalid "UTF-16")
  pure (some s)

unfoldable pub qstring : Reader (Option (List ℕ))
unfolding string_body
qstring = do len ← u32; if len == 0xffff_ffff then pure none else string_body len

unfoldable pub qbytearray : Reader (List ℕ)
qbytearray = do len ← u32; if len == 0xffff_ffff then pure [] else raw len

-- `i32::try_from`
unfoldable pub to_i32 : ℤ → Option ℤ
to_i32 (pos n) = if leb (2 ^ 31) n then none else some (pos n)
to_i32 (negsuc n) = if leb (2 ^ 31) n then none else some (negsuc n)

-- `jd == i64::MIN`
unfoldable pub is_i64_min : ℤ → Bool
is_i64_min (pos n) = false
is_i64_min (negsuc n) = n == 2 ^ 63 - 1

unfoldable pub is_null_time : ℤ → ℕ → Bool
unfolding is_i64_min
is_null_time jd ms = is_i64_min jd || ms == 0xffff_ffff

module _ (T : TimeCrate) where
  unfoldable pub offset_payload : ℕ → Reader ℤ
  offset_payload spec =
      if spec == 0 || spec == 1
      then pure (pos 0)
      else if spec == 2
      then i32
      else (λ r. err (unsupported "QDateTime spec" spec))

  unfoldable pub date_time : ℤ → ℕ → ℤ → Reader T.OffsetDateTime
  date_time jd ms offset_secs = do
    day ← require (to_i32 jd) (invalid "julian day out of range")
    date ← require (T.from_julian_day day) (invalid "julian day")
    let time = T.midnight_plus_ms ms
    utc_offset ← require (T.from_whole_seconds offset_secs) (invalid "UTC offset")
    pure (T.to_utc (T.assume_offset date time utc_offset))

  unfoldable pub qdatetime : Reader (Option T.OffsetDateTime)
  unfolding offset_payload date_time to_i32
  qdatetime = do
    jd ← i64
    ms ← u32
    spec ← u8
    offset_secs ← offset_payload spec
    if is_null_time jd ms then pure none else do t ← date_time jd ms offset_secs; pure (some t)

-- `quncompress`
unfoldable pub quncompress : BytesCrate → List ℕ → Result (List ℕ)
quncompress B framed =
    if leb (length framed) 4 then err too_short else elim (B.inflate (drop 4 framed)) [
      | none ↦ err (invalid "zlib stream")
      | some out ↦
          let declared = from_be_bytes (take 4 framed) in
          if length out == declared then ok out else err (wrong_size declared (length out))
    ]
