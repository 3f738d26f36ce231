-- ===== src/Wire.antt =====
-- The canonical serialisation codec: include/amarian/util/serialize.hpp and src/util/serialize.cpp.
-- A `Reader` keeps the bytes not yet consumed in place of a buffer and a position; a `Writer` only
-- ever appends, so that each of its methods is the list of bytes which it appends.
pub mod Rules
pub mod Integers
pub mod CompactSize
pub mod ByteString
pub mod Sequences
pub mod Failure
pub mod Codec
use amarian_amr.Base.{
  ℕ, zero, suc, ◌+◌, ◌*◌, ◌/◌, ◌-◌, ◌^◌, Bool, true, false, not, ◌||◌, Option, none, some, List, [],
  ◌∷◌, ◌++◌, ltb, leb, ◌==◌, if◌then◌else◌, length, take, drop, concat_map, nat_eq,
}
use amarian_amr.Base.Bytes.{le_bytes, le_value}
use amarian_amr.Base.Int.{ℤ, pos, negsuc}

abbrev pub size_max : ℕ
size_max = 2 ^ 64 - 1

-- Writer.

unfoldable pub write_u8 : ℕ → List ℕ
write_u8 v = le_bytes 1 v

unfoldable pub write_u16 : ℕ → List ℕ
write_u16 v = le_bytes 2 v

unfoldable pub write_u32 : ℕ → List ℕ
write_u32 v = le_bytes 4 v

unfoldable pub write_u64 : ℕ → List ℕ
write_u64 v = le_bytes 8 v

-- `static_cast<uint64_t>` of an `int64_t`, and back.
unfoldable pub to_u64 : ℤ → ℕ
to_u64 (pos n) = n
to_u64 (negsuc n) = 2 ^ 64 - suc n

unfoldable pub from_u64 : ℕ → ℤ
from_u64 v = if ltb v (2 ^ 63) then pos v else negsuc (2 ^ 64 - v - 1)

unfoldable pub write_i64 : ℤ → List ℕ
write_i64 v = write_u64 (to_u64 v)

unfoldable pub compact_size_len : ℕ → ℕ
compact_size_len v =
    if ltb v 0xfd then 1 else if leb v 0xffff then 3 else if leb v 0xffff_ffff then 5 else 9

unfoldable pub write_compact_size : ℕ → List ℕ
write_compact_size v =
    if ltb v 0xfd
    then write_u8 v
    else if leb v 0xffff
    then write_u8 0xfd ++ write_u16 v
    else if leb v 0xffff_ffff
    then write_u8 0xfe ++ write_u32 v
    else write_u8 0xff ++ write_u64 v

unfoldable pub write_byte_string : List ℕ → List ℕ
write_byte_string bytes = write_compact_size (length bytes) ++ bytes

-- Reader.

pub record Reader : Type 0 where
  pub rest : List ℕ
  pub ok : Bool

-- `Reader(bytes)`.
abbrev pub at : List ℕ → Reader
at bytes = record { rest = bytes; ok = true }

-- `none` is the answer `false`; an out parameter is the value of `some`.
abbrev pub Read : Type 0 → Type 0
Read A = Reader → Option A × Reader

abbrev pub and_then : {A B : Type 0} → Option A × Reader → (A → Read B) → Option B × Reader
and_then (none, r) f = (none, r)
and_then (some a, r) f = f a r

infixl 5 ◌>>=◌ ◌>>◌
abbrev pub ◌>>=◌ : {A B : Type 0} → Read A → (A → Read B) → Read B
◌>>=◌ m f r = and_then (m r) f

abbrev pub ◌>>◌ : {B : Type 0} → Read (Unit {0}) → Read B → Read B
m >> k = m >>= λ _. k

abbrev pub return : {A : Type 0} → A → Read A
return a r = (some a, r)

abbrev pub remaining : Reader → ℕ
remaining r = if r.ok then length r.rest else 0

-- `Fail()`, and `return false`.
abbrev pub fail : {A : Type 0} → Read A
fail r = (none, record r { ok = false })

-- A check that fails the reader.
abbrev pub require : Bool → Read (Unit {0})
require true = return tt
require false = fail

unfoldable pub finish : Reader → Reader
finish r = if length r.rest == 0 then r else record r { ok = false }

unfoldable pub consume : ℕ → Read (List ℕ)
consume count r =
    if not r.ok || ltb (length r.rest) count
    then (none, record r { ok = false })
    else (some (take count r.rest), record r { rest = drop count r.rest })

unfoldable pub read_le : ℕ → Read ℕ
read_le width = do raw ← consume width; return (le_value raw)

abbrev pub read_u8 : Read ℕ
read_u8 = read_le 1

abbrev pub read_u16 : Read ℕ
read_u16 = read_le 2

abbrev pub read_u32 : Read ℕ
read_u32 = read_le 4

abbrev pub read_u64 : Read ℕ
read_u64 = read_le 8

unfoldable pub read_i64 : Read ℤ
read_i64 = do raw ← read_u64; return (from_u64 raw)

-- `TryNarrow<size_t>` of a `uint64_t`, where `size_t` has 64 bits.
unfoldable pub try_narrow : ℕ → Option ℕ
try_narrow v = if ltb size_max v then none else some v

abbrev pub narrowed : Option ℕ → Read ℕ
narrowed none = fail
narrowed (some n) = return n

-- A value of `width` bytes, refused where a shorter form could have held it: below `least`.
unfoldable pub read_wide : ℕ → ℕ → Read ℕ
read_wide width least = do wide ← read_le width; require (not (ltb wide least)); return wide

-- The value that a tag announces.
unfoldable pub read_tagged : ℕ → Read ℕ
unfolding read_wide
read_tagged tag =
    if ltb tag 0xfd
    then return tag
    else if tag == 0xfd
    then read_wide 2 0xfd
    else if tag == 0xfe
    then read_wide 4 (0xffff + 1)
    else read_wide 8 (0xffff_ffff + 1)

-- No more elements than the bytes left over can hold.
unfoldable pub bounded : ℕ → ℕ → Read ℕ
bounded min_element_bytes value r =
    if ltb (remaining r / min_element_bytes) value then fail r else (some value, r)

unfoldable pub read_compact_size : ℕ → Read ℕ
read_compact_size min_element_bytes = do
  require (not (min_element_bytes == 0))
  tag ← read_u8
  value ← read_tagged tag
  bounded min_element_bytes value

unfoldable pub read_byte_string : ℕ → Read (List ℕ)
read_byte_string max_len = do
  len ← read_compact_size 1
  require (not (ltb max_len len))
  count ← narrowed (try_narrow len)
  consume count

-- A count of elements, at most `max` of them: `ReadCount` of src/primitives/transaction.cpp, which
-- the other `Deserialize` functions repeat in place.
unfoldable pub read_count : ℕ → ℕ → Read ℕ
read_count max min_element_bytes = do
  count ← read_compact_size min_element_bytes
  require (not (ltb max count))
  narrowed (try_narrow count)

module _ {A : Type 0} where
  -- The loop of a `Deserialize` over the elements of a vector.
  unfoldable pub read_many : ℕ → Read A → Read (List A)
  read_many zero read = return []
  read_many (suc n) read = do x ← read; xs ← read_many n read; return (x ∷ xs)

  unfoldable pub read_sequence : ℕ → ℕ → Read A → Read (List A)
  read_sequence max min_element_bytes read = do
    count ← read_count max min_element_bytes
    read_many count read

  -- A count and the elements behind it.
  unfoldable pub write_sequence : (A → List ℕ) → List A → List ℕ
  write_sequence write xs = write_compact_size (length xs) ++ concat_map write xs
