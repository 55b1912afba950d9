-- ===== src/Discoverer/Registration.antt =====
-- Registrations that end well, and the gateway that asks afterwards.
use Prim.Native.String
use Prim.Native.Char.{code}
use mathlib.Core.List.{Memᴰ}
use text.Mathlib.TextLemmas.{nil-append, cons-append, append_assoc}
use grpc_api_gateway_session.Prelude.{
  ℕ, nat_eq, sym, ◌∙◌, false, ◌≡◌, refl, ap, subst, String, Bool, Option, none, some, List, ok, ℤ,
  map,
}
use grpc_api_gateway_session.Text.{Lacks}
use grpc_api_gateway_session.Config.Numbers.{milliseconds}
use grpc_api_gateway_session.Token.{Bytes}
use grpc_api_gateway_session.Domain.{ServiceInstance}
use grpc_api_gateway_session.Discoverer.{MyError}
use grpc_api_gateway_session.Discoverer.Cache.{Redis, generate_key, fetch}
use grpc_api_gateway_session.Discoverer.Server.{
  Instance, InstanceInfo, to_instances_response, register_instance,
}
use grpc_api_gateway_session.Discoverer.Client.{to_service_instance}
use grpc_api_gateway_session.Discoverer.Reports.{IsRegistered, register_instance-IsRegistered}
use grpc_api_gateway_session.Discoverer.Members.{strip_all-Memᴰ, fetch_all-Memᴰ}
use grpc_api_gateway_session.Discoverer.Listing.{
  all_seen, seen_by_gateway, seen_by_gateway-all_seen, as_seen,
}

-- A text in which Redis, when it reads it as a pattern, finds none of its special characters.
abbrev pub IsPlain : String → Type 0
IsPlain p = Lacks b'*' p × Lacks b'?' p × Lacks b'[' p × Lacks b'\\' p

-- What the service relies on in Redis: a value that was set can be got at once, and its key is among
-- those that a pattern lists, if that is plain but for a star at its end and the key goes on from it.
pub record KeepsWrites (redis : Redis) : Type 0 where
  pub get_set :
      (key : String) (bytes : Bytes) (duration : ℤ) (s s' : redis.State)
      → redis.set key bytes duration s ≡ (none, s')
      → redis.get key s' ≡ some bytes
  pub keys_set :
      (start rest : String) (bytes : Bytes) (duration : ℤ) (s s' : redis.State) (ks : List String)
      → IsPlain start
      → redis.set (String.◌++◌ start rest) bytes duration s ≡ (none, s')
      → redis.keys (String.◌++◌ start "*") s' ≡ ok ks
      → Memᴰ (String.◌++◌ start rest) ks

map-Memᴰ : {A B : Type 0} (f : A → B) {x : A} {xs : List A} → Memᴰ x xs → Memᴰ (f x) (map f xs)
map-Memᴰ f (Memᴰ.head e) = Memᴰ.head (ap f e)
map-Memᴰ f (Memᴰ.tail m) = Memᴰ.tail (map-Memᴰ f m)

-- A plain prefix with its colon is plain.
with_colon :
    (b : ℕ) (p : String) → Lacks b p → nat_eq (code ":") b ≡ false → Lacks b (String.◌++◌ p ":")
with_colon b String.[] h c = subst (Lacks b) (sym (nil-append ":")) (c, tt)
with_colon b (String.◌∷◌ d p) (n, h) c =
    subst (Lacks b) (sym (cons-append d p ":")) (n, with_colon b p h c)

with_colon-IsPlain : (p : String) → IsPlain p → IsPlain (String.◌++◌ p ":")
with_colon-IsPlain p (star, one, set, quote) = (
  with_colon b'*' p star refl,
  with_colon b'?' p one refl,
  with_colon b'[' p set refl,
  with_colon b'\\' p quote refl,
)

module _ (unwraps : Bool) (redis : Redis) (prefix : String) (marshal : Instance → Option Bytes)
    (unmarshal : Bytes → Option Instance) where
  all_seen-Memᴰ :
      (s : redis.State) (req : Instance) (bytes : Bytes) (ks : List String)
      → redis.get (generate_key prefix req.instance_id) s ≡ some bytes
      → unmarshal bytes ≡ some req
      → Memᴰ (generate_key prefix req.instance_id) ks
      → Memᴰ (as_seen req) (all_seen unwraps redis prefix marshal unmarshal s ks)
  unfolding to_instances_response to_service_instance fetch
  all_seen-Memᴰ s req bytes ks got read m =
      let fetched : fetch unwraps redis prefix marshal unmarshal s req.instance_id ≡ some req =
        rw (got, fetch) read in
      map-Memᴰ to_service_instance (
        map-Memᴰ _ (
          fetch_all-Memᴰ unwraps redis prefix marshal unmarshal s req.instance_id req _ fetched
            (strip_all-Memᴰ prefix req.instance_id ks m)))

  -- If Redis keeps what is written, the prefix has no character that is special in a pattern, and the
  -- JSON of an instance and of the listing round-trips, then after a registration that ends well, and
  -- once Redis answers which keys there are, the gateway, when it asks the discoverer service, gets a
  -- list with that instance.
  pub register_instance-seen_by_gateway :
      {Body : Type 0} (render : List InstanceInfo → Body) (render_error : MyError → Body)
      (parse : Body → Option (Option (List InstanceInfo))) (req : Instance) (s s' : redis.State)
      (ks : List String)
      → KeepsWrites redis
      → IsPlain prefix
      → ((i : Instance) (bytes : Bytes) → marshal i ≡ some bytes → unmarshal bytes ≡ some i)
      → ((infos : List InstanceInfo) → parse (render infos) ≡ some (some infos))
      → register_instance unwraps redis prefix marshal unmarshal (ok req) s ≡ (none, s')
      → redis.keys (String.◌++◌ prefix ":*") s' ≡ ok ks
      → (listed : List ServiceInstance) × (seen_by_gateway unwraps redis prefix marshal unmarshal
            render render_error parse s'
          ≡ ok listed)
        × Memᴰ (as_seen req) listed
  unfolding generate_key
  register_instance-seen_by_gateway render render_error parse req s s' ks keeps plain json law ends
        answered =
      let (complete, (bytes, (made, stored))) : IsRegistered unwraps redis prefix marshal unmarshal
          req s (none, s') =
        subst (IsRegistered unwraps redis prefix marshal unmarshal req s) ends
          (register_instance-IsRegistered unwraps redis prefix marshal unmarshal req s) in
      let id = req.instance_id in
      let time = milliseconds req.ttl_ms in
      let key : String.◌++◌ (String.◌++◌ prefix ":") id ≡ generate_key prefix id =
        append_assoc prefix ":" id in
      let m : Memᴰ (generate_key prefix id) ks =
        subst (λ (k : String). Memᴰ k ks) key
          (keeps.keys_set (String.◌++◌ prefix ":") id bytes time s s' ks
            (with_colon-IsPlain prefix plain)
            (ap (λ (k : String). redis.set k bytes time s) key ∙ stored)
            (ap (λ (k : String). redis.keys k s') (append_assoc prefix ":" "*") ∙ answered)) in
      (
        all_seen unwraps redis prefix marshal unmarshal s' ks,
        seen_by_gateway-all_seen unwraps redis prefix marshal unmarshal render render_error parse s'
            ks law answered,
        all_seen-Memᴰ s' req bytes ks (keeps.get_set _ bytes time s s' stored) (json req bytes made)
            m,
      )
