-- ===== src/Tests/Discovery.antt =====
-- The discoverer service over a small Redis, and the gateway that asks it.
use Prim.Native.String
use Prim.Native.Char.{Char, code}
use mathlib.Core.List.{Memᴰ}
use text.Mathlib.TextLemmas.{nil-append, cons-append}
use grpc_api_gateway_session.Text.{Lacks}
use grpc_api_gateway_session.Prelude.{◌||◌, ◌∙◌, ok-injective}
use grpc_api_gateway_session.Prelude.{
  is_positive, ℕ, ◌≡◌, refl, ap, subst, String, Bool, true, false, ◌&&◌, Option, none, some, List,
  [], ◌∷◌, ok, ℤ, pos, negsuc, ◌==◌, eq_iff, eq_refl, nat_eq, lookup, insert, lookup-insert, arith,
  if◌then◌else◌, Bool-cases, inl, inr,
}
use mathlib.Core.Option.{some-injective}
use grpc_api_gateway_session.Token.{Bytes}
use grpc_api_gateway_session.Domain.{ServiceInstance}
use grpc_api_gateway_session.Discoverer.{MyError}
use grpc_api_gateway_session.Discoverer.Cache.{Redis, generate_key, write_value}
use grpc_api_gateway_session.Discoverer.Server.{
  Instance, InstanceInfo, register_instance, from_register_request, is_zero,
}
use grpc_api_gateway_session.Discoverer.Listing.{
  seen_by_gateway, IsSeen, seen_by_gateway_lem, as_seen,
}
use grpc_api_gateway_session.Discoverer.Registration.{
  KeepsWrites, IsPlain, register_instance-seen_by_gateway,
}

abbrev is_empty : String → Bool
is_empty String.[] = true
is_empty (String.◌∷◌ c s) = false

-- Some end of the text passes.
abbrev some_end : (String → Bool) → String → Bool
some_end f String.[] = f String.[]
some_end f (String.◌∷◌ c s) = f (String.◌∷◌ c s) || some_end f s

abbrev first_and_rest : (Char → Bool) → (String → Bool) → String → Bool
first_and_rest t f String.[] = false
first_and_rest t f (String.◌∷◌ c s) = t c && f s

-- A pattern of Redis, of whose special characters only the star and the question mark are so here.
matches : String → String → Bool
matches String.[] = is_empty
matches (String.◌∷◌ c p) =
    if nat_eq (code c) b'*'
    then some_end (matches p)
    else if nat_eq (code c) b'?'
    then first_and_rest (λ d. true) (matches p)
    else first_and_rest (λ d. nat_eq (code c) (code d)) (matches p)

matching : String → List (String × Bytes) → List String
unfolding matches
matching pattern [] = []
matching pattern ((k, b) ∷ m) =
    let rest = matching pattern m in if matches pattern k then k ∷ rest else rest

abbrev table : Redis
table = record {
  State = List (String × Bytes);
  set = λ k b duration m. (none, insert k b m);
  del = λ k m. (none, m);
  keys = λ pattern m. ok (matching pattern m);
  get = lookup;
}

some_end-is_empty : (s : String) → some_end is_empty s ≡ true
some_end-is_empty String.[] = refl
some_end-is_empty (String.◌∷◌ c s) = some_end-is_empty s

star-matches : (s : String) → matches "*" s ≡ true
unfolding matches
star-matches s = some_end-is_empty s

plain-matches :
    (start rest : String)
    → Lacks b'*' start
    → Lacks b'?' start
    → matches (String.◌++◌ start "*") (String.◌++◌ start rest) ≡ true
unfolding matches
plain-matches String.[] rest h g =
    ap (λ (p : String). matches p (String.◌++◌ "" rest)) (nil-append "*")
    ∙ ap (matches "*") (nil-append rest)
    ∙ star-matches rest
plain-matches (String.◌∷◌ c s) rest (star, h) (one, g) =
    ap (λ (p : String). matches p (String.◌++◌ (String.◌∷◌ c s) rest)) (cons-append c s "*")
    ∙ ap (matches (String.◌∷◌ c (String.◌++◌ s "*"))) (cons-append c s rest)
    ∙ rw (star, one, matches) (ground (arith, plain-matches s rest h g))

insert-Memᴰ :
    (pattern k : String) (b : Bytes) (m : List (String × Bytes))
    → matches pattern k ≡ true
    → Memᴰ k (matching pattern (insert k b m))
unfolding insert matching
insert-Memᴰ pattern k b [] h = rw (h, matching) (Memᴰ.head refl)
insert-Memᴰ pattern k b ((j, c) ∷ m) h = elim (Bool-cases (j == k)) [
  | inl e ↦ rw (e, insert, matching, h) (Memᴰ.head refl)
  | inr e ↦ elim (Bool-cases (matches pattern j)) [
    | inl q ↦ rw (e, insert, matching, q) (Memᴰ.tail (insert-Memᴰ pattern k b m h))
    | inr q ↦ rw (e, insert, matching, q) (insert-Memᴰ pattern k b m h)
  ]
]

lookup-insert_same :
    (k : String) (b : Bytes) (m : List (String × Bytes)) → lookup k (insert k b m) ≡ some b
lookup-insert_same k b m = rw (lookup-insert k k b m, eq_refl k) refl

table-KeepsWrites : KeepsWrites table
table-KeepsWrites = record {
  get_set = λ k b ttl s s' e.
      subst (λ m. lookup k m ≡ some b) (ap (λ p. p.1) e) (lookup-insert_same k b s);
  keys_set = λ start rest b duration s s' ks plain e answered.
      let key = String.◌++◌ start rest in
      let pattern = String.◌++◌ start "*" in
      let kept : Memᴰ key (matching pattern s') =
        subst (λ m. Memᴰ key (matching pattern m)) (ap (λ p. p.1) e)
          (insert-Memᴰ pattern key b s (plain-matches start rest plain.0 plain.1)) in
      subst (Memᴰ key) (ok-injective answered) kept;
}

abbrev first : Instance
first = record {
  instance_id = "i1";
  service_type = "grpc";
  ipv4 = "10.0.0.1";
  port = pos 9000;
  timestamp = "now";
  ttl_ms = pos 5000;
}

abbrev is_pos : ℕ → ℤ → Bool
is_pos n (pos m) = nat_eq n m
is_pos n (negsuc m) = false

is_pos-path : (n : ℕ) (z : ℤ) → is_pos n z ≡ true → pos n ≡ z
is_pos-path n (pos m) h = ap pos (ground arith)
is_pos-path n (negsuc m) h = cc

-- A JSON that knows one instance.
abbrev is_first : Instance → Bool
is_first i =
    i.instance_id == "i1"
    && i.service_type == "grpc"
    && i.ipv4 == "10.0.0.1"
    && is_pos 9000 i.port
    && i.timestamp == "now"
    && is_pos 5000 i.ttl_ms

abbrev marshal : Instance → Option Bytes
marshal i = if is_first i then some (1 ∷ []) else none

abbrev unmarshal : Bytes → Option Instance
unmarshal [] = none
unmarshal (n ∷ ns) = some first

is_first-path : (i : Instance) → is_first i ≡ true → first ≡ i
is_first-path i h =
    let id : "i1" ≡ i.instance_id = ground (arith, eq_iff i.instance_id "i1") in
    let kind : "grpc" ≡ i.service_type = ground (arith, eq_iff i.service_type "grpc") in
    let address : "10.0.0.1" ≡ i.ipv4 = ground (arith, eq_iff i.ipv4 "10.0.0.1") in
    let port : pos 9000 ≡ i.port = is_pos-path 9000 i.port (ground arith) in
    let time : "now" ≡ i.timestamp = ground (arith, eq_iff i.timestamp "now") in
    let ttl : pos 5000 ≡ i.ttl_ms = is_pos-path 5000 i.ttl_ms (ground arith) in
    rw (id, kind, address, port, time, ttl) refl

unmarshal-marshal :
    (i : Instance) (bytes : Bytes) → marshal i ≡ some bytes → unmarshal bytes ≡ some i
unmarshal-marshal i bytes h = elim (Bool-cases (is_first i)) [
  | inr q ↦ absurd (cc (rw q at h))
  | inl q ↦
      subst (λ b. unmarshal b ≡ some i) (some-injective _ bytes (rw q at h))
        (ap some (is_first-path i q))
]

-- The body is the listing itself.
abbrev render : List InstanceInfo → List InstanceInfo
render infos = infos

abbrev render_error : MyError → List InstanceInfo
render_error e = []

abbrev parse : List InstanceInfo → Option (Option (List InstanceInfo))
parse infos = some (some infos)

abbrev stored : List (String × Bytes)
stored = ("svc:i1", 1 ∷ []) ∷ []

svc-IsPlain : IsPlain "svc"
svc-IsPlain = (
  (refl, (refl, (refl, tt))),
  (refl, (refl, (refl, tt))),
  (refl, (refl, (refl, tt))),
  (refl, (refl, (refl, tt))),
)

register_test : register_instance true table "svc" marshal unmarshal (ok first) [] ≡ (none, stored)
unfolding register_instance from_register_request write_value generate_key insert is_zero
    is_positive
register_test = refl

-- Another key does not match.
matching_test : matching "svc:*" (("other:i2", 2 ∷ []) ∷ stored) ≡ "svc:i1" ∷ []
unfolding matching
matching_test = refl

keys_test : matching "svc:*" stored ≡ "svc:i1" ∷ []
unfolding matching
keys_test = refl

register_instance-seen_by_gateway_example :
    (listed : List ServiceInstance) × (seen_by_gateway true table "svc" marshal unmarshal render
        render_error parse stored
      ≡ ok listed)
    × Memᴰ (as_seen first) listed
register_instance-seen_by_gateway_example =
    register_instance-seen_by_gateway true table "svc" marshal unmarshal render render_error parse
      first [] stored ("svc:i1" ∷ []) table-KeepsWrites svc-IsPlain unmarshal-marshal
      (λ infos. refl) register_test (ap ok keys_test)

seen_by_gateway_lem_example :
    IsSeen true table "svc" marshal unmarshal render render_error parse stored
      (ok (matching "svc:*" stored))
      (seen_by_gateway true table "svc" marshal unmarshal render render_error parse stored)
seen_by_gateway_lem_example =
    seen_by_gateway_lem true table "svc" marshal unmarshal render render_error parse stored
      (λ infos. refl)
