-- ===== src/Tests/Codes.antt =====
-- A base64, a JSON and a clock that are small enough to compute with, and keep the promises that the
-- token code relies on.
use Prim.Native.Char.{Char, code}
use mathlib.Core.Option
use mathlib.Core.Option.{some-injective}
use grpc_api_gateway_session.Prelude.{
  ℕ, zero, suc, ◌+◌, ◌≡◌, refl, ap, subst, String, Bool, true, ◌&&◌, Option, none, some, [], ◌∷◌,
  ◌++◌, ◌==◌, eq_iff, nat_eq, ltb, if◌then◌else◌, arith, Bool-cases, inl, inr,
}
use grpc_api_gateway_session.Text.{Lacks}
use grpc_api_gateway_session.Token.{Bytes, TokenClaims, Codecs, dot}
use grpc_api_gateway_session.Token.Verify.{RoundTrips}

abbrev mark : Char
mark = "b"

abbrev unit : Char
unit = "a"

-- A byte in unary.
abbrev units : ℕ → String → String
units zero s = s
units (suc n) s = String.◌∷◌ unit (units n s)

abbrev encode : Bytes → String
encode [] = ""
encode (n ∷ ns) = units n (String.◌∷◌ mark (encode ns))

abbrev decode_from : ℕ → String → Option Bytes
decode_from n String.[] = if nat_eq n 0 then some [] else none
decode_from n (String.◌∷◌ c s) =
    if nat_eq (code c) b'b'
    then Option.map (λ ns. n ∷ ns) (decode_from 0 s)
    else decode_from (suc n) s

-- The claims of the user in a session.
abbrev pub claims_in : (session : String) → TokenClaims
claims_in session = record {
  login = "ann";
  role = "user";
  session_id = session;
  expires_at = "ten";
  issued_at = "two";
}

abbrev pub ann : TokenClaims
ann = claims_in "s1"

abbrev is_in : (session : String) → TokenClaims → Bool
is_in session c =
    c.login == "ann"
    && c.role == "user"
    && c.session_id == session
    && c.expires_at == "ten"
    && c.issued_at == "two"

abbrev of_bytes : (session : String) → Bytes → Option TokenClaims
of_bytes session [] = none
of_bytes session (n ∷ []) = if nat_eq n 7 then some (claims_in session) else none
of_bytes session (n ∷ m ∷ ns) = none

abbrev hour : ℕ → String
hour t = if nat_eq t 2 then "two" else if nat_eq t 10 then "ten" else "late"

-- Codes for the one session.
abbrev pub codes_in : (session : String) → Codecs
codes_in session = record {
  Time = ℕ;
  after = λ now t. ltb t now;
  format = hour;
  parse = λ s. if s == "ten" then some 10 else none;
  marshal = λ c. if is_in session c then some (7 ∷ []) else none;
  unmarshal = of_bytes session;
  base64_encode = encode;
  base64_decode = decode_from 0;
  hmac_sha256 = λ secret payload. secret ++ payload;
}

abbrev pub small : Codecs
small = codes_in "s1"

decode-units :
    (n k : ℕ) (s : String)
    → decode_from k (units n (String.◌∷◌ mark s))
      ≡ Option.map (λ ns. (k + n) ∷ ns) (decode_from 0 s)
decode-units zero k s = ap (λ m. Option.map (λ ns. m ∷ ns) (decode_from 0 s)) (omega arith)
decode-units (suc n) k s =
    rw (decode-units n (suc k) s)
      (ap (λ m. Option.map (λ ns. m ∷ ns) (decode_from 0 s)) (omega arith))

decode-encode : (b : Bytes) → decode_from 0 (encode b) ≡ some b
decode-encode [] = refl
decode-encode (n ∷ ns) =
    rw (decode-units n 0 (encode ns), decode-encode ns) (ap (λ m. some (m ∷ ns)) (omega arith))

units-Lacks : (n : ℕ) (s : String) → Lacks (code dot) s → Lacks (code dot) (units n s)
units-Lacks zero s h = h
units-Lacks (suc n) s h = (refl, units-Lacks n s h)

encode-Lacks : (b : Bytes) → Lacks (code dot) (encode b)
encode-Lacks [] = tt
encode-Lacks (n ∷ ns) = units-Lacks n _ (refl, encode-Lacks ns)

in-path : (session : String) (c : TokenClaims) → is_in session c ≡ true → claims_in session ≡ c
in-path session c h =
    let login : "ann" ≡ c.login = ground (arith, eq_iff c.login "ann") in
    let role : "user" ≡ c.role = ground (arith, eq_iff c.role "user") in
    let here : session ≡ c.session_id = ground (arith, eq_iff c.session_id session) in
    let expires : "ten" ≡ c.expires_at = ground (arith, eq_iff c.expires_at "ten") in
    let issued : "two" ≡ c.issued_at = ground (arith, eq_iff c.issued_at "two") in
    rw (login, role, here, expires, issued) refl

marshal-of_bytes :
    (session : String) (c : TokenClaims) (b : Bytes)
    → (if is_in session c then some (7 ∷ []) else none) ≡ some b
    → of_bytes session b ≡ some c
marshal-of_bytes session c b h = elim (Bool-cases (is_in session c)) [
  | inr q ↦ absurd (cc (rw q at h))
  | inl q ↦
      subst (λ b. of_bytes session b ≡ some c) (some-injective _ b (rw q at h))
        (ap some (in-path session c q))
]

pub codes_in-RoundTrips : (session : String) → RoundTrips (codes_in session)
codes_in-RoundTrips session = record {
  base64 = decode-encode;
  base64-Lacks = encode-Lacks;
  json = marshal-of_bytes session;
}

pub small-RoundTrips : RoundTrips small
small-RoundTrips = codes_in-RoundTrips "s1"
