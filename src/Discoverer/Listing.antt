-- ===== src/Discoverer/Listing.antt =====
-- What the gateway sees of the instances that are registered.
use Prim.Native.String
use Prim.Native.Char.{Char, code}
use mathlib.Core.Option.{some-injective}
use text.Mathlib.TextEquality.{Char-path}
use text.Mathlib.TextLemmas.{nil-append, cons-append, append_assoc}
use grpc_api_gateway_session.Prelude.{
  ◌≡◌, ◌≢◌, sym, ◌∙◌, nat_eq, Bool-cases, refl, ap, String, Bool, false, Option, none, some, List,
  [], ◌∷◌, Result, ok, err, map, arith, lookup, Result-cases, Option-cases, inl, inr,
}
use grpc_api_gateway_session.Token.{Bytes}
use grpc_api_gateway_session.Domain.{ServiceInstance}
use grpc_api_gateway_session.Discoverer.{
  Fault, HttpAnswer, no_content, json_error, MyError, error_handler, get_status_code, new_error,
}
use grpc_api_gateway_session.Discoverer.Cache.{
  Redis, cut_prefix, strip_all, generate_key, fetch, fetch_all, not_found, or_not_found,
  fetch_listed, list_all_values,
}
use grpc_api_gateway_session.Discoverer.Server.{
  Instance, InstanceInfo, to_instances_response, from_register_request, register_instance,
  bad_parameter, is_zero,
}
use grpc_api_gateway_session.Discoverer.Server
use grpc_api_gateway_session.Discoverer.Client.{
  HttpResponse, ClientError, returned_status, to_service_instance,
}
use grpc_api_gateway_session.Discoverer.Client
use grpc_api_gateway_session.Discoverer.Members.{cut_prefix-append, all_readable}

cut_prefix-some : (p s rest : String) → cut_prefix p s ≡ some rest → s ≡ String.◌++◌ p rest
unfolding cut_prefix
cut_prefix-some String.[] s rest h = some-injective s rest h ∙ sym (nil-append rest)
cut_prefix-some (String.◌∷◌ c p) String.[] rest h = cc
cut_prefix-some (String.◌∷◌ c p) (String.◌∷◌ d s) rest h =
    elim (Bool-cases (nat_eq (code c) (code d))) [
      | inr e ↦ absurd (cc (rw (e, cut_prefix) at h))
      | inl e ↦
          ap (λ (x : Char). String.◌∷◌ x s) (sym (Char-path c d (ground arith)))
          ∙ ap (λ (t : String). String.◌∷◌ c t) (cut_prefix-some p s rest (rw (e, cut_prefix) at h))
          ∙ sym (cons-append c p rest)
    ]

cut_prefix-none : (p s : String) → cut_prefix p s ≡ none → (rest : String) → s ≢ String.◌++◌ p rest
cut_prefix-none p s h rest e = cc (sym (cut_prefix-append p rest) ∙ sym (ap (cut_prefix p) e) ∙ h)

-- The instance as the gateway knows it.
abbrev pub as_seen : Instance → ServiceInstance
as_seen req = record {
  instance_id = req.instance_id;
  ipv4 = req.ipv4;
  port = req.port;
  assigned_client_session_id = "";
}

module _ (unwraps : Bool) (redis : Redis) (prefix : String) (marshal : Instance → Option Bytes)
    (unmarshal : Bytes → Option Instance) where
  -- All readable instances of these keys, as the gateway knows them.
  abbrev pub all_seen : redis.State → List String → List ServiceInstance
  all_seen s ks =
      map to_service_instance
        (to_instances_response (all_readable unwraps redis prefix marshal unmarshal s ks))

  -- The instances that stand under keys, as the gateway knows them.
  pub data Lists (s : redis.State) : List String → List ServiceInstance → Type 0 where
    no_more : Lists s [] []
    foreign :
        {k : String} {ks : List String} {listed : List ServiceInstance}
        → ((key : String) → k ≢ String.◌++◌ (String.◌++◌ prefix ":") key)
        → Lists s ks listed
        → Lists s (k ∷ ks) listed
    missing :
        {k : String} {ks : List String} {listed : List ServiceInstance}
        → redis.get k s ≡ none
        → Lists s ks listed
        → Lists s (k ∷ ks) listed
    unreadable :
        {k : String} {ks : List String} {listed : List ServiceInstance} (bytes : Bytes)
        → redis.get k s ≡ some bytes
        → unmarshal bytes ≡ none
        → Lists s ks listed
        → Lists s (k ∷ ks) listed
    readable :
        {k : String} {ks : List String} {listed : List ServiceInstance} (key : String)
        (bytes : Bytes) (i : Instance)
        → k ≡ String.◌++◌ (String.◌++◌ prefix ":") key
        → redis.get k s ≡ some bytes
        → unmarshal bytes ≡ some i
        → Lists s ks listed
        → Lists s (k ∷ ks) (as_seen i ∷ listed)

  all_seen-Lists : (s : redis.State) (ks : List String) → Lists s ks (all_seen s ks)
  unfolding strip_all fetch_all to_instances_response to_service_instance fetch generate_key
  all_seen-Lists s [] = no_more
  all_seen-Lists s (k ∷ ks) =
      let p = String.◌++◌ prefix ":" in
      let rest = all_seen-Lists s ks in
      elim (Option-cases (cut_prefix p k)) [
        | inl h ↦ rw (h, strip_all) (foreign (cut_prefix-none p k h) rest)
        | inr (key, h) ↦
            let split : k ≡ String.◌++◌ p key = cut_prefix-some p k key h in
            let same : generate_key prefix key ≡ k =
              sym (append_assoc prefix ":" key) ∙ sym split in
            elim (Option-cases (redis.get k s)) [
              | inl g ↦ rw (h, strip_all, fetch_all, fetch, same, g) (missing g rest)
              | inr (bytes, g) ↦ elim (Option-cases (unmarshal bytes)) [
                | inl u ↦
                    rw (h, strip_all, fetch_all, fetch, same, g, u) (unreadable bytes g u rest)
                | inr (i, u) ↦
                    rw (h, strip_all, fetch_all, fetch, same, g, u)
                      (readable key bytes i split g u rest)
              ]
            ]
      ]

  -- The body of an answer, as the server sends it and the gateway's client gets it.
  module _ {Body : Type 0} (render : List InstanceInfo → Body) (render_error : MyError → Body)
      (parse : Body → Option (Option (List InstanceInfo))) where
    abbrev send : Option HttpAnswer → HttpResponse Body
    send none = record { status_code = 200; reading = some (render []) }
    send (some (no_content n)) = record { status_code = n; reading = none }
    send (some (json_error n e)) = record { status_code = n; reading = some (render_error e) }

    abbrev pub serve : Result Fault (List InstanceInfo) → HttpResponse Body
    serve (ok infos) = record { status_code = 200; reading = some (render infos) }
    serve (err e) = send (error_handler unwraps false false e)

    abbrev pub seen_by_gateway : redis.State → Result ClientError (List ServiceInstance)
    seen_by_gateway s =
        Client.get_instances parse
          (some (serve (Server.get_instances unwraps redis prefix marshal unmarshal s)))

    abbrev served : Result Fault (List Instance) → Result ClientError (List ServiceInstance)
    served r = Client.get_instances parse (
        some (
          serve (
            Server.wrapping_list unwraps redis prefix marshal unmarshal
              "getInstances failed to list all instances from cache" r)))

    served-or_not_found :
        (items : List Instance)
        → ((infos : List InstanceInfo) → parse (render infos) ≡ some (some infos))
        → served (or_not_found unwraps redis prefix marshal unmarshal items)
          ≡ ok (map to_service_instance (to_instances_response items))
    unfolding Client.get_instances error_handler get_status_code new_error not_found lookup
        to_instances_response
    served-or_not_found [] law = refl
    served-or_not_found (x ∷ xs) law = rw (law (to_instances_response (x ∷ xs))) refl

    served-fetch_listed :
        (s : redis.State) (ks : List String)
        → ((infos : List InstanceInfo) → parse (render infos) ≡ some (some infos))
        → served (fetch_listed unwraps redis prefix marshal unmarshal s ks) ≡ ok (all_seen s ks)
    unfolding Client.get_instances error_handler get_status_code new_error not_found lookup
        to_instances_response strip_all fetch_all
    served-fetch_listed s [] law = refl
    served-fetch_listed s (k ∷ ks) law = served-or_not_found _ law

    pub seen_by_gateway-all_seen :
        (s : redis.State) (ks : List String)
        → ((infos : List InstanceInfo) → parse (render infos) ≡ some (some infos))
        → redis.keys (String.◌++◌ prefix ":*") s ≡ ok ks
        → seen_by_gateway s ≡ ok (all_seen s ks)
    unfolding Server.get_instances list_all_values
    seen_by_gateway-all_seen s ks law e =
        rw (e, Server.get_instances, list_all_values) (served-fetch_listed s ks law)

    seen_by_gateway-failed :
        (s : redis.State) (text : String)
        → redis.keys (String.◌++◌ prefix ":*") s ≡ err text
        → seen_by_gateway s ≡ err (returned_status 500)
    unfolding Server.get_instances list_all_values Client.get_instances error_handler
        get_status_code new_error lookup
    seen_by_gateway-failed s text e = rw (e, Server.get_instances, list_all_values) refl

    -- What the gateway gets when it asks the discoverer service, by what Redis answers.
    abbrev pub IsSeen :
        redis.State
        → Result String (List String)
        → Result ClientError (List ServiceInstance)
        → Type 0
    IsSeen s (err text) r = r ≡ err (returned_status 500)
    IsSeen s (ok ks) r = (listed : List ServiceInstance) × (r ≡ ok listed) × Lists s ks listed

    -- If the JSON of the listing round-trips, the gateway that asks the discoverer service gets an
    -- error exactly if Redis cannot list its keys. Otherwise it gets the instances that stand under
    -- the keys, in their order, and no others: one for each key that starts with the prefix and a
    -- colon and has a value that can be got and read.
    pub seen_by_gateway_lem :
        (s : redis.State)
        → ((infos : List InstanceInfo) → parse (render infos) ≡ some (some infos))
        → IsSeen s (redis.keys (String.◌++◌ prefix ":*") s) (seen_by_gateway s)
    seen_by_gateway_lem s law = elim (Result-cases (redis.keys (String.◌++◌ prefix ":*") s)) [
      | inl (text, e) ↦ rw e (seen_by_gateway-failed s text e)
      | inr (ks, e) ↦ rw e (all_seen s ks, seen_by_gateway-all_seen s ks law e, all_seen-Lists s ks)
    ]
