-- ===== src/Qmapshack/Qtstream.antt =====
-- `QtWriter` of server/qmapshack/qtstream.rs. A method takes the writer and returns it grown; two
-- calls in a row are joined by `▸`. A 64-bit float is its bit pattern.
use gps_trips.Prelude.{ℕ, ◌+◌, ◌-◌, ◌*◌, ◌^◌, ◌%◌, List, [], ◌∷◌, ◌++◌, Option, none, some, length}
use gps_trips.Prelude.Int.{ℤ, negsuc}
use gps_trips.Qmapshack.Words.{le_bytes, be_bytes_u32, to_word}
use gps_trips.Qmapshack.Utf16.{encode_utf16}
use gps_trips.Qmapshack.Crates.{TimeCrate, BytesCrate}

abbrev pub null_length : ℕ
null_length = 0xffff_ffff

pub record QtWriter : Type 0 where
  pub buf : List ℕ

abbrev pub Writer : Type 0
Writer = QtWriter → QtWriter

infixr 4 ◌▸◌
unfoldable pub ◌▸◌ : Writer → Writer → Writer
◌▸◌ f g w = g (f w)

unfoldable pub nothing : Writer
nothing w = w

-- `for x in xs { … }`
unfoldable pub for_each {ℓ} : {A : Type ℓ} → (A → Writer) → List A → Writer
unfolding ◌▸◌ nothing
for_each f [] = nothing
for_each f (x ∷ xs) = f x ▸ for_each f xs

abbrev pub fresh : QtWriter
fresh = record { buf = [] }

unfoldable pub raw : List ℕ → Writer
raw bytes w = record w { buf = w.buf ++ bytes }

unfoldable pub u8 : ℕ → Writer
u8 v w = record w { buf = w.buf ++ v ∷ [] }

unfoldable pub i16 : ℤ → Writer
i16 v w = record w { buf = w.buf ++ le_bytes 2 (to_word (2 ^ 15) v) }

unfoldable pub u32 : ℕ → Writer
u32 v w = record w { buf = w.buf ++ le_bytes 4 v }

unfoldable pub i32 : ℤ → Writer
i32 v w = record w { buf = w.buf ++ le_bytes 4 (to_word (2 ^ 31) v) }

unfoldable pub u64 : ℕ → Writer
u64 v w = record w { buf = w.buf ++ le_bytes 8 v }

unfoldable pub i64 : ℤ → Writer
i64 v w = record w { buf = w.buf ++ le_bytes 8 (to_word (2 ^ 63) v) }

unfoldable pub f64 : ℕ → Writer
f64 v w = record w { buf = w.buf ++ le_bytes 8 v }

unfoldable pub push_unit : ℕ → Writer
push_unit unit w = record w { buf = w.buf ++ le_bytes 2 unit }

-- `as u32` keeps the length modulo 2^32.
unfoldable pub qstring : Option (List ℕ) → Writer
unfolding push_unit
qstring none = u32 null_length
qstring (some s) =
    let units = encode_utf16 s in u32 (length units * 2 % 2 ^ 32) ▸ for_each push_unit units

unfoldable pub qbytearray : List ℕ → Writer
qbytearray bytes = u32 (length bytes % 2 ^ 32) ▸ raw bytes

module _ (T : TimeCrate) where
  time_of_day : T.OffsetDateTime → ℕ
  time_of_day utc =
      (T.hour utc * 3600 + T.minute utc * 60 + T.second utc) * 1000 + T.millisecond utc

  unfoldable pub qdatetime : Option T.OffsetDateTime → Writer
  unfolding time_of_day
  qdatetime none = i64 (negsuc (2 ^ 63 - 1)) ▸ u32 null_length ▸ u8 0
  qdatetime (some t) =
      let utc = T.to_utc t in i64 (T.to_julian_day utc) ▸ u32 (time_of_day utc) ▸ u8 1

-- 4 bytes, highest first, of the length, then the zlib stream.
unfoldable pub qcompress : BytesCrate → List ℕ → List ℕ
qcompress B bytes = be_bytes_u32 (length bytes % 2 ^ 32) ++ B.deflate bytes
