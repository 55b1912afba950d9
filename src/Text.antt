-- ===== src/Text.antt =====
-- What the program uses of Go's `strings`. A text is a list of code points; `strings.HasPrefix` is
-- the library's `starts_with`, and `len` counts the bytes of the UTF-8. `strings.ToLower` is given
-- for ASCII letters, which is what gRPC metadata keys are made of; other letters are left alone.
pub mod Utf8
use Prim.Native.Char.{Char, code}
use Prim.Native.String
use mathlib.Core.Option
use mathlib.Core.Option.{some-injective}
use text.Mathlib.TextLemmas.{nil-append, cons-append}
use text.Mathlib.TextEquality.{Char-path}
use grpc_api_gateway_session.Prelude.{
  ℕ, suc, ◌≡◌, refl, String, Bool, false, ◌&&◌, ◌||◌, leb, nat_eq, if◌then◌else◌, List, [], ◌∷◌,
  Option, none, some, zero, ap, arith, Bool-cases, Option-cases, subst, inl, inr,
}

-- `unicode.IsSpace`
pub is_space : Char → Bool
is_space ch =
    let c = code ch in
    (leb 9 c && leb c 13)
    || nat_eq c 32
    || nat_eq c 0x85
    || nat_eq c 0xa0
    || nat_eq c 0x1680
    || (leb 0x2000 c && leb c 0x200a)
    || nat_eq c 0x2028
    || nat_eq c 0x2029
    || nat_eq c 0x202f
    || nat_eq c 0x205f
    || nat_eq c 0x3000

trim_left : String → String
trim_left String.[] = String.[]
trim_left (String.◌∷◌ c s) = let rest = trim_left s in if is_space c then rest else String.◌∷◌ c s

-- A character before a text whose spaces on the right are gone.
keep_left : Char → String → String
keep_left c String.[] = if is_space c then String.[] else String.◌∷◌ c String.[]
keep_left c (String.◌∷◌ d s) = String.◌∷◌ c (String.◌∷◌ d s)

trim_right : String → String
trim_right String.[] = String.[]
trim_right (String.◌∷◌ c s) = keep_left c (trim_right s)

-- `strings.TrimSpace`
unfoldable pub trim_space : String → String
unfolding is_space trim_left keep_left trim_right
trim_space s = trim_right (trim_left s)

abbrev lower_letters : List (ℕ × Char)
lower_letters =
    (b'A', "a")
    ∷ (b'B', "b")
    ∷ (b'C', "c")
    ∷ (b'D', "d")
    ∷ (b'E', "e")
    ∷ (b'F', "f")
    ∷ (b'G', "g")
    ∷ (b'H', "h")
    ∷ (b'I', "i")
    ∷ (b'J', "j")
    ∷ (b'K', "k")
    ∷ (b'L', "l")
    ∷ (b'M', "m")
    ∷ (b'N', "n")
    ∷ (b'O', "o")
    ∷ (b'P', "p")
    ∷ (b'Q', "q")
    ∷ (b'R', "r")
    ∷ (b'S', "s")
    ∷ (b'T', "t")
    ∷ (b'U', "u")
    ∷ (b'V', "v")
    ∷ (b'W', "w")
    ∷ (b'X', "x")
    ∷ (b'Y', "y")
    ∷ (b'Z', "z")
    ∷ []

lower_in : List (ℕ × Char) → Char → Char
lower_in [] c = c
lower_in ((upper, small) ∷ table) c = if nat_eq (code c) upper then small else lower_in table c

-- `strings.ToLower`
unfoldable pub to_lower : String → String
unfolding lower_in
to_lower String.[] = String.[]
to_lower (String.◌∷◌ c s) = String.◌∷◌ (lower_in lower_letters c) (to_lower s)

-- `s[0] == b`, false on the empty text.
unfoldable pub begins_with : ℕ → String → Bool
begins_with b String.[] = false
begins_with b (String.◌∷◌ c s) = nat_eq (code c) b

-- `strings.HasSuffix(s, suffix)` and `strings.TrimSuffix(s, suffix)` for a suffix of one character.
ends_with : ℕ → String → Bool
ends_with b String.[] = false
ends_with b (String.◌∷◌ c String.[]) = nat_eq (code c) b
ends_with b (String.◌∷◌ c (String.◌∷◌ d s)) = ends_with b (String.◌∷◌ d s)

-- The text without its last character.
drop_last : String → String
drop_last String.[] = String.[]
drop_last (String.◌∷◌ c String.[]) = String.[]
drop_last (String.◌∷◌ c (String.◌∷◌ d s)) = String.◌∷◌ c (drop_last (String.◌∷◌ d s))

unfoldable pub trim_suffix : ℕ → String → String
unfolding ends_with drop_last
trim_suffix b s = if ends_with b s then drop_last s else s

trim_space_test : trim_space " \t a b\n " ≡ "a b"
unfolding trim_space
trim_space_test = refl

to_lower_test : to_lower "Session-ID" ≡ "session-id"
unfolding to_lower
to_lower_test = refl

trim_suffix_test : trim_suffix b'*' "/a/*" ≡ "/a/"
unfolding trim_suffix
trim_suffix_test = refl

-- `strings.Cut(s, sep)` at the first place of a one-character separator.
cut : ℕ → String → Option (String × String)
cut b String.[] = none
cut b (String.◌∷◌ c s) =
    if nat_eq (code c) b
    then some (String.[], s)
    else Option.map (λ (p : String × String). (String.◌∷◌ c p.0, p.1)) (cut b s)

-- `strings.SplitN(s, sep, n + 1)`
unfoldable pub split_n : ℕ → ℕ → String → List String
unfolding cut
split_n zero b s = s ∷ []
split_n (suc n) b s = elim (cut b s) [ none ↦ s ∷ [] | some (a, r) ↦ a ∷ split_n n b r ]

-- No character of the text is `b`.
abbrev pub Lacks : ℕ → String → Type 0
Lacks b String.[] = Unit
Lacks b (String.◌∷◌ c s) = (nat_eq (code c) b ≡ false) × Lacks b s

cut-Lacks : (b : ℕ) (s : String) → Lacks b s → cut b s ≡ none
unfolding cut
cut-Lacks b String.[] h = refl
cut-Lacks b (String.◌∷◌ c s) (p, h) = rw (p, cut-Lacks b s h) refl

cut-append :
    (d : Char) (s t : String)
    → Lacks (code d) s
    → cut (code d) (String.◌++◌ s (String.◌∷◌ d t)) ≡ some (s, t)
unfolding cut
cut-append d String.[] t h = rw (nil-append (String.◌∷◌ d t)) (ground arith)
cut-append d (String.◌∷◌ c s) t (p, h) =
    rw (cons-append c s (String.◌∷◌ d t)) (rw (p, cut-append d s t h) refl)

-- Two parts without the separator, joined by it, are split into the two parts.
pub split_n-append :
    (d : Char) (s t : String)
    → Lacks (code d) s
    → Lacks (code d) t
    → split_n 2 (code d) (String.◌++◌ s (String.◌∷◌ d t)) ≡ s ∷ t ∷ []
unfolding split_n
split_n-append d s t hs ht = ground (arith, cut-append d s t hs, cut-Lacks (code d) t ht)

-- The two sides of a cut, joined again, are the text.
abbrev IsCutOf : Char → String → String × String → Type 0
IsCutOf d s p = (s ≡ String.◌++◌ p.0 (String.◌∷◌ d p.1)) × Lacks (code d) p.0

cut-some : (d : Char) (s : String) (p : String × String) → cut (code d) s ≡ some p → IsCutOf d s p
unfolding cut
cut-some d String.[] p e = cc
cut-some d (String.◌∷◌ c s) p e = elim (Bool-cases (nat_eq (code c) (code d))) [
  | inl same ↦ subst (IsCutOf d (String.◌∷◌ c s)) (some-injective _ p (rw (same, cut) at e)) (
    rw (nil-append (String.◌∷◌ d s)) (ap (λ x. String.◌∷◌ x s) (Char-path c d (ground arith))),
    tt,
  )
  | inr other ↦
      let (q, found, joined) =
        (Option.map-eq-some_iff _ (cut (code d) s)).0 (rw (other, cut) at e) in
      let (glued, lacks) = cut-some d s q found in
      subst (IsCutOf d (String.◌∷◌ c s)) joined
        (rw (cons-append c q.0 (String.◌∷◌ d q.1)) (ap (String.◌∷◌ c) glued), (other, lacks))
]

cut-none : (b : ℕ) (s : String) → cut b s ≡ none → Lacks b s
unfolding cut
cut-none b String.[] e = tt
cut-none b (String.◌∷◌ c s) e = elim (Bool-cases (nat_eq (code c) b)) [
  | inl same ↦ absurd (cc (rw (same, cut) at e))
  | inr other ↦
      (other, cut-none b s ((Option.map-eq-none_iff _ (cut b s)).0 (rw (other, cut) at e)))
]

-- A text that is split into two parts is the two parts with one separator between them.
pub split_n-two :
    (d : Char) (s p q : String)
    → split_n 2 (code d) s ≡ p ∷ q ∷ []
    → (s ≡ String.◌++◌ p (String.◌∷◌ d q)) × Lacks (code d) p × Lacks (code d) q
unfolding split_n
split_n-two d s p q e = elim (Option-cases (cut (code d) s)) [
  | inl h ↦ absurd (cc (rw (h, split_n) at e))
  | inr (ar, h) ↦ elim (Option-cases (cut (code d) ar.1)) [
    | inr (br, k) ↦ absurd (cc (rw (h, k, split_n) at e))
    | inl k ↦
        let (glued, lacks) = cut-some d s ar h in
        let same : ar.0 ∷ ar.1 ∷ [] ≡ p ∷ q ∷ [] = rw (h, k, split_n) at e in
        let left : ar.0 ≡ p = cc in
        let right : ar.1 ≡ q = cc in rw (← left, ← right) (glued, lacks, cut-none (code d) ar.1 k)
  ]
]
