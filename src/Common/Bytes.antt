-- ===== src/Common/Bytes.antt =====
-- Little-endian numbers in lists of bytes.
use nova_robotics_drone_cont.Common.{
  ℕ, zero, suc, ◌+◌, ◌-◌, ◌*◌, ◌/◌, ◌%◌, ◌^◌, ◌<◌, ◌≡◌, List, [], ◌∷◌, arith, Bool, true, false,
  ◌&&◌, ltb, leb, ◌==◌, if◌then◌else◌,
}

abbrev pub le : ℕ → ℕ → List ℕ
le zero n = []
le (suc w) n = n % 256 ∷ le w (n / 256)

abbrev pub of_le : List ℕ → ℕ
of_le [] = 0
of_le (b ∷ bs) = b + 256 * of_le bs

pub of_le-le_2 : (n : ℕ) → n < 2 ^ 16 → of_le (le 2 n) ≡ n
of_le-le_2 n h = omega arith

pub of_le-le_4 : (n : ℕ) → n < 2 ^ 32 → of_le (le 4 n) ≡ n
of_le-le_4 n h = omega arith

-- How many more bytes a code point of UTF-8 wants, and the range of the next.
pub record Wanted : Type 0 where
  pub more : ℕ
  pub low : ℕ
  pub high : ℕ
  pub good : Bool

abbrev between : ℕ → ℕ → ℕ → Bool
between lo b hi = leb lo b && leb b hi

abbrev want : ℕ → ℕ → ℕ → Wanted
want more low high = record { more = more; low = low; high = high; good = true }

abbrev first_byte : ℕ → Wanted
first_byte b =
    if ltb b 0x80
    then want 0 0 0
    else (if between 0xC2 b 0xDF
        then want 1 0x80 0xBF
        else (if b == 0xE0
            then want 2 0xA0 0xBF
            else (if b == 0xED
                then want 2 0x80 0x9F
                else (if between 0xE1 b 0xEF
                    then want 2 0x80 0xBF
                    else (if b == 0xF0
                        then want 3 0x90 0xBF
                        else (if between 0xF1 b 0xF3
                            then want 3 0x80 0xBF
                            else (if b == 0xF4
                                then want 3 0x80 0x8F
                                else record { more = 0; low = 0; high = 0; good = false })))))))

abbrev next_byte : Wanted → ℕ → Wanted
next_byte w b =
    if w.more == 0
    then first_byte b
    else record { more = w.more - 1; low = 0x80; high = 0xBF; good = between w.low b w.high }

abbrev utf8_from : Wanted → List ℕ → Bool
utf8_from w [] = w.more == 0
utf8_from w (b ∷ bs) = let w' = next_byte w b in w'.good && utf8_from w' bs

-- Whether `decode("utf-8")` accepts the bytes.
unfoldable pub is_utf8 : List ℕ → Bool
is_utf8 bs = utf8_from (want 0 0 0) bs
