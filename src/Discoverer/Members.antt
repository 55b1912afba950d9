-- ===== src/Discoverer/Members.antt =====
-- The instances that the cache lists: those under the keys that Redis gives.
use Prim.Native.String
use mathlib.Core.List.{Memᴰ}
use text.Mathlib.TextLemmas.{nil-append, cons-append, append_assoc}
use grpc_api_gateway_session.Prelude.{
  ◌≡◌, refl, ap, String, Bool, Option, some, List, [], ◌∷◌, ok, arith, Option-cases, inl, inr,
}
use grpc_api_gateway_session.Token.{Bytes}
use grpc_api_gateway_session.Discoverer.Cache.{
  Redis, cut_prefix, strip_all, generate_key, fetch, fetch_all, or_not_found, fetch_listed,
}
use grpc_api_gateway_session.Discoverer.Server.{Instance}

pub cut_prefix-append : (p s : String) → cut_prefix p (String.◌++◌ p s) ≡ some s
unfolding cut_prefix
cut_prefix-append String.[] s = ap some (nil-append s)
cut_prefix-append (String.◌∷◌ c p) s =
    rw (cons-append c p s) (ground (arith, cut_prefix-append p s))

pub strip_all-Memᴰ :
    (prefix key : String) (ks : List String)
    → Memᴰ (generate_key prefix key) ks
    → Memᴰ key (strip_all (String.◌++◌ prefix ":") ks)
unfolding strip_all generate_key
strip_all-Memᴰ prefix key [] m = elim m [ ]
strip_all-Memᴰ prefix key (k ∷ ks) (Memᴰ.head e) =
    let p = String.◌++◌ prefix ":" in
    let found : cut_prefix p k ≡ some key =
      rw (← e, ← append_assoc prefix ":" key) (cut_prefix-append p key) in
    rw (found, strip_all) (Memᴰ.head refl)
strip_all-Memᴰ prefix key (k ∷ ks) (Memᴰ.tail m) =
    let p = String.◌++◌ prefix ":" in
    elim (Option-cases (cut_prefix p k)) [
      | inl h ↦ rw (h, strip_all) (strip_all-Memᴰ prefix key ks m)
      | inr (k', h) ↦ rw (h, strip_all) (Memᴰ.tail (strip_all-Memᴰ prefix key ks m))
    ]

module _ (unwraps : Bool) (redis : Redis) (prefix : String) (marshal : Instance → Option Bytes)
    (unmarshal : Bytes → Option Instance) where
  abbrev pub all_readable : redis.State → List String → List Instance
  all_readable s ks =
      fetch_all unwraps redis prefix marshal unmarshal s (strip_all (String.◌++◌ prefix ":") ks)

  pub fetch_all-Memᴰ :
      (s : redis.State) (key : String) (item : Instance) (ks : List String)
      → fetch unwraps redis prefix marshal unmarshal s key ≡ some item
      → Memᴰ key ks
      → Memᴰ item (fetch_all unwraps redis prefix marshal unmarshal s ks)
  unfolding fetch_all
  fetch_all-Memᴰ s key item [] h m = elim m [ ]
  fetch_all-Memᴰ s key item (k ∷ ks) h (Memᴰ.head e) = rw (← e, h, fetch_all) (Memᴰ.head refl)
  fetch_all-Memᴰ s key item (k ∷ ks) h (Memᴰ.tail m) =
      elim (Option-cases (fetch unwraps redis prefix marshal unmarshal s k)) [
        | inl n ↦ rw (n, fetch_all) (fetch_all-Memᴰ s key item ks h m)
        | inr (x, n) ↦ rw (n, fetch_all) (Memᴰ.tail (fetch_all-Memᴰ s key item ks h m))
      ]

  or_not_found-Memᴰ :
      (item : Instance) (items : List Instance)
      → Memᴰ item items
      → or_not_found unwraps redis prefix marshal unmarshal items ≡ ok items
  or_not_found-Memᴰ item [] m = elim m [ ]
  or_not_found-Memᴰ item (x ∷ xs) m = refl

  pub fetch_listed-Memᴰ :
      (s : redis.State) (key : String) (item : Instance) (ks : List String)
      → fetch unwraps redis prefix marshal unmarshal s key ≡ some item
      → Memᴰ (generate_key prefix key) ks
      → fetch_listed unwraps redis prefix marshal unmarshal s ks ≡ ok (all_readable s ks)
  fetch_listed-Memᴰ s key item [] h m = elim m [ ]
  fetch_listed-Memᴰ s key item (k ∷ ks) h m =
      or_not_found-Memᴰ item _
        (fetch_all-Memᴰ s key item _ h (strip_all-Memᴰ prefix key (k ∷ ks) m))
