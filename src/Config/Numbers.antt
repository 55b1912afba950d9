-- ===== src/Config/Numbers.antt =====
-- Go's `strconv.Atoi` and a number of milliseconds as a `time.Duration`, on 64 bits; and an `int32`
-- counter, as IntegrationTests/scenario has it.
use Prim.Native.Char.{Char, code}
use grpc_api_gateway_session.Prelude.{
  ℕ, zero, suc, ◌+◌, ◌-◌, ◌*◌, ◌%◌, ◌≡◌, refl, String, Bool, ◌&&◌, Option, none, some, ℤ, pos,
  negsuc, leb, nat_eq, if◌then◌else◌,
}

is_digit : Char → Bool
is_digit c = leb b'0' (code c) && leb (code c) b'9'

-- The digits of a text behind a number that was read.
digits_from : ℕ → String → Option ℕ
digits_from n String.[] = some n
digits_from n (String.◌∷◌ c s) =
    let rest = digits_from (n * 10 + (code c - b'0')) s in if is_digit c then rest else none

digits : String → Option ℕ
digits String.[] = none
digits (String.◌∷◌ c s) = digits_from 0 (String.◌∷◌ c s)

abbrev pub int_max : ℕ
int_max = 9223372036854775807

in_range : Option ℕ → Option ℤ
in_range none = none
in_range (some n) = if leb n int_max then some (pos n) else none

negated : Option ℕ → Option ℤ
negated none = none
negated (some zero) = some (pos 0)
negated (some (suc n)) = if leb n int_max then some (negsuc n) else none

-- `none` is an error: no number, or one that does not fit.
unfoldable pub atoi : String → Option ℤ
unfolding digits digits_from is_digit in_range negated
atoi String.[] = none
atoi (String.◌∷◌ c s) =
    if nat_eq (code c) b'-'
    then negated (digits s)
    else if nat_eq (code c) b'+'
    then in_range (digits s)
    else in_range (digits (String.◌∷◌ c s))

-- A number modulo 2^64, read as a signed one.
signed_64 : ℕ → ℤ
signed_64 m = if leb m int_max then pos m else negsuc (18446744073709551615 - m)

-- An `int32` that has counted up from zero.
unfoldable pub int_32 : ℕ → ℤ
int_32 n = let m = n % 4294967296 in if leb m 2147483647 then pos m else negsuc (4294967295 - m)

-- `time.Duration(ms) * time.Millisecond`
unfoldable pub milliseconds : ℤ → ℤ
unfolding signed_64
milliseconds (pos n) = signed_64 ((n * 1000000) % 18446744073709551616)
milliseconds (negsuc n) =
    let m = ((n + 1) * 1000000) % 18446744073709551616 in
    if nat_eq m 0 then pos 0 else signed_64 (18446744073709551616 - m)

atoi_test : atoi "-42" ≡ some (negsuc 41)
unfolding atoi
atoi_test = refl

atoi_overflow_test : atoi "9223372036854775808" ≡ none
unfolding atoi
atoi_overflow_test = refl

milliseconds_test : milliseconds (negsuc 1) ≡ negsuc 1999999
unfolding milliseconds
milliseconds_test = refl
