-- ===== src/Text/Utf8.antt =====
-- Go's conversion of a text to its bytes: UTF-8.
use Prim.Native.Char.{code}
use grpc_api_gateway_session.Prelude.{
  ℕ, ◌+◌, ◌/◌, ◌%◌, ◌≡◌, refl, String, List, [], ◌∷◌, ◌++◌, ltb, if◌then◌else◌,
}

-- The bytes of a code point.
encode_rune : ℕ → List ℕ
encode_rune c =
    if ltb c 0x80
    then c ∷ []
    else if ltb c 0x800
    then (0xc0 + c / 64) ∷ (0x80 + c % 64) ∷ []
    else if ltb c 0x10000
    then (0xe0 + c / 4096) ∷ (0x80 + c / 64 % 64) ∷ (0x80 + c % 64) ∷ []
    else (0xf0 + c / 262144) ∷ (0x80 + c / 4096 % 64) ∷ (0x80 + c / 64 % 64) ∷ (0x80 + c % 64) ∷ []

-- `[]byte(s)`
unfoldable pub bytes_of : String → List ℕ
unfolding encode_rune
bytes_of String.[] = []
bytes_of (String.◌∷◌ c s) = encode_rune (code c) ++ bytes_of s

bytes_of_test : bytes_of "é€" ≡ 0xc3 ∷ 0xa9 ∷ 0xe2 ∷ 0x82 ∷ 0xac ∷ []
unfolding bytes_of
bytes_of_test = refl
