-- ===== src/Uuid.antt =====
-- `UUIDHelper::uuid` of mqcommon/mq_helper.hpp. The eight random numbers are an argument, and so is
-- the value of the static counter.
pub mod Distinct
use bitmq.Base.{
  ℕ, zero, suc, ◌+◌, ◌-◌, ◌*◌, ◌/◌, ◌%◌, ◌^◌, Bool, true, false, ◌||◌, List, [], ◌∷◌, ◌++◌, Bytes,
  codes, nat_eq, ltb, if◌then◌else◌,
}

abbrev pub hex_digit : ℕ → ℕ
hex_digit n = if ltb n 10 then b'0' + n else b'a' + (n - 10)

-- `setw(2) << setfill('0') << hex` of a number below 256
abbrev pub hex_byte : ℕ → Bytes
hex_byte n = hex_digit (n / 16) ∷ hex_digit (n % 16) ∷ []

-- The first loop, from round `i` on: a dash stands behind the fourth, sixth and eighth number.
unfoldable pub random_part : List ℕ → ℕ → Bytes
random_part [] i = []
random_part (n ∷ numbers) i =
    let dash = if nat_eq i 3 || nat_eq i 5 || nat_eq i 7 then codes "-" else [] in
    hex_byte n ++ (dash ++ random_part numbers (i + 1))

-- The second loop: `rounds` is `i + 1`, and a dash stands behind the second byte.
unfoldable pub counter_part : ℕ → ℕ → Bytes
counter_part zero num = []
counter_part (suc i) num =
    let dash = if nat_eq i 6 then codes "-" else [] in
    hex_byte (num / 2 ^ (i * 8) % 256) ++ (dash ++ counter_part i num)

unfoldable pub uuid : List ℕ → ℕ → Bytes
unfolding random_part counter_part
uuid numbers num = random_part numbers 0 ++ counter_part 8 num
