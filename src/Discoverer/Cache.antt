-- ===== src/Discoverer/Cache.antt =====
-- MyDiscoverer/adapters/myredis/cache.go over a Redis client: its state, and for each command the new
-- state or the text of an error. `get` has none for a missing key and for an error, which the code
-- treats alike. `time.Duration(ttlMs) * time.Millisecond` wraps at 64 bits, and what Redis makes of
-- the duration is its own.
use Prim.Native.Char.{code}
use Prim.Native.String
use grpc_api_gateway_session.Prelude.{
  String, Bool, Option, none, some, List, [], ◌∷◌, Result, ok, err, ℤ, nat_eq, if◌then◌else◌,
}
use grpc_api_gateway_session.Config.Numbers.{milliseconds}
use grpc_api_gateway_session.Token.{Bytes}
use grpc_api_gateway_session.Discoverer.{
  Fault, other, err_internal_server_error, err_entity_not_found, new_error,
}

pub record Redis : Type 1 where
  pub State : Type 0
  pub set : (key : String) → Bytes → (duration : ℤ) → State → Option String × State
  pub del : (key : String) → State → Option String × State
  pub keys : (pattern : String) → State → Result String (List String)
  pub get : (key : String) → State → Option Bytes

-- `strings.TrimPrefix(s, p)` where `strings.HasPrefix(s, p)`.
unfoldable pub cut_prefix : String → String → Option String
cut_prefix String.[] s = some s
cut_prefix (String.◌∷◌ c p) String.[] = none
cut_prefix (String.◌∷◌ c p) (String.◌∷◌ d s) =
    let rest = cut_prefix p s in if nat_eq (code c) (code d) then rest else none

-- The keys without the prefix, of those that have it.
unfoldable pub strip_all : String → List String → List String
unfolding cut_prefix
strip_all p [] = []
strip_all p (k ∷ ks) = elim (cut_prefix p k) [
  | none ↦ strip_all p ks
  | some key ↦ key ∷ strip_all p ks
]

unfoldable pub generate_key : (prefix key : String) → String
generate_key prefix key = String.◌++◌ prefix (String.◌++◌ ":" key)

module _ (unwraps : Bool) (redis : Redis) (prefix : String) {T : Type 0}
    (marshal : T → Option Bytes) (unmarshal : Bytes → Option T) where
  unfoldable pub internal_error : String → String → Fault
  internal_error message text =
      new_error unwraps err_internal_server_error message (some (other text))

  unfoldable pub not_found : Fault
  not_found = new_error unwraps err_entity_not_found "Entity not found" none

  -- A command's end: `none` is a nil error.
  abbrev pub done : String → Option String × redis.State → Option Fault × redis.State
  done message (none, s) = (none, s)
  done message (some text, s) = (some (internal_error message text), s)

  unfoldable pub write_value : String → T → ℤ → redis.State → Option Fault × redis.State
  unfolding generate_key internal_error
  write_value key item ttl_ms s = elim (marshal item) [
    | none ↦ (some (internal_error "Redis marshal item error" "json"), s)
    | some bytes ↦
        done "Redis write key error"
          (redis.set (generate_key prefix key) bytes (milliseconds ttl_ms) s)
  ]

  unfoldable pub delete_value : String → redis.State → Option Fault × redis.State
  unfolding generate_key internal_error
  delete_value key s = done "Redis delete key error" (redis.del (generate_key prefix key) s)

  -- A value that cannot be got or read is passed over.
  unfoldable pub fetch : redis.State → String → Option T
  unfolding generate_key
  fetch s key = elim (redis.get (generate_key prefix key) s) [
    | none ↦ none
    | some bytes ↦ unmarshal bytes
  ]

  unfoldable pub fetch_all : redis.State → List String → List T
  unfolding fetch
  fetch_all s [] = []
  fetch_all s (key ∷ keys) = elim (fetch s key) [
    | none ↦ fetch_all s keys
    | some item ↦ item ∷ fetch_all s keys
  ]

  abbrev pub or_not_found : {A : Type 0} → List A → Result Fault (List A)
  or_not_found [] = err not_found
  or_not_found (x ∷ xs) = ok (x ∷ xs)

  abbrev pub fetch_listed : redis.State → List String → Result Fault (List T)
  fetch_listed s [] = err not_found
  fetch_listed s (k ∷ ks) = or_not_found (fetch_all s (strip_all (String.◌++◌ prefix ":") (k ∷ ks)))

  unfoldable pub list_all_values : redis.State → Result Fault (List T)
  unfolding internal_error not_found strip_all fetch_all
  list_all_values s = elim (redis.keys (String.◌++◌ prefix ":*") s) [
    | err text ↦ err (internal_error "Redis get keys error" text)
    | ok full_keys ↦ fetch_listed s full_keys
  ]
