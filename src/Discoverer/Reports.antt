-- ===== src/Discoverer/Reports.antt =====
-- What a client of the discoverer service is told when a handler fails.
use Prim.Native.String
use grpc_api_gateway_session.Prelude.{
  is_positive, ℕ, ◌≡◌, refl, subst, if_rule, ◌⊎◌, inl, inr, String, Bool, false, Option, none, some,
  List, [], ◌∷◌, ◌==◌, Result, ok, err, lookup, ◌≢◌, suc, zero, ℤ, pos, negsuc, true, ap, sym, ltb,
  ◌∙◌, arith, eq_text, ne_text, Option-cases, Result-cases,
}
use grpc_api_gateway_session.Config.Numbers.{milliseconds}
use grpc_api_gateway_session.Token.{Bytes}
use grpc_api_gateway_session.Discoverer.{
  Fault, wrapped, err_bad_parameter, err_entity_not_found, err_internal_server_error, json_error,
  get_status_code, new_error, error_handler,
}
use grpc_api_gateway_session.Discoverer.Cache.{
  Redis, generate_key, internal_error, not_found, write_value, fetch_listed, or_not_found, done,
  list_all_values,
}
use grpc_api_gateway_session.Discoverer.Server.{
  Instance, from_register_request, bad_parameter, wrapping, wrapping_list, is_zero,
  register_instance, get_instances,
}

module _ (unwraps : Bool) where
  abbrev Reports : ℕ → String → String → Fault → Type 0
  Reports n code message e =
      error_handler unwraps false false e ≡ some (json_error n (code, message))

  -- A failure to list is an empty list, as 404, or one of Redis, as 500.
  abbrev pub IsListed : {A : Type 0} → Result Fault A → Type 0
  IsListed (ok a) = Unit
  IsListed (err e) =
      Reports 404 err_entity_not_found "Entity not found" e
      ⊎ Reports 500 err_internal_server_error "Redis get keys error" e

-- A request that can be registered.
abbrev pub IsComplete : Instance → Type 0
IsComplete req =
    (req.instance_id ≢ "")
    × (req.service_type ≢ "")
    × (req.ipv4 ≢ "")
    × (req.port ≢ pos 0)
    × ((n : ℕ) × (req.ttl_ms ≡ pos (suc n)))

-- What is missing from a request, and the message that names it.
abbrev pub Misses : Instance → String → Type 0
Misses req m =
    ((req.instance_id ≡ "") × (m ≡ "instance_id is required"))
    ⊎ (((req.service_type ≡ "") × (m ≡ "service_type is required"))
        ⊎ (((req.ipv4 ≡ "") × (m ≡ "ipv4 is required"))
            ⊎ (((req.port ≡ pos 0) × (m ≡ "port is required"))
                ⊎ (((n : ℕ) → req.ttl_ms ≢ pos (suc n)) × (m ≡ "ttl_ms is required")))))

zero_port : (z : ℤ) → is_zero z ≡ true → z ≡ pos 0
unfolding is_zero
zero_port (pos n) h = ap pos (ground arith)
zero_port (negsuc n) h = cc

other_port : (z : ℤ) → is_zero z ≡ false → z ≢ pos 0
unfolding is_zero
other_port z h e = cc (sym (rw e at h))

positive : (z : ℤ) → is_positive z ≡ true → (n : ℕ) × (z ≡ pos (suc n))
unfolding is_positive
positive (pos zero) h = cc
positive (pos (suc n)) h = (n, refl)
positive (negsuc n) h = cc

not_positive : (z : ℤ) → is_positive z ≡ false → (n : ℕ) → z ≢ pos (suc n)
unfolding is_positive
not_positive z h n e = let k : ltb 0 (suc n) ≡ false = sym (ap is_positive e) ∙ h in ground arith

module _ (unwraps : Bool) (redis : Redis) (prefix : String) (marshal : Instance → Option Bytes)
    (unmarshal : Bytes → Option Instance) where
  abbrev Listed : Result Fault (List Instance) → Type 0
  Listed r = IsListed unwraps (
      wrapping_list unwraps redis prefix marshal unmarshal
        "getInstances failed to list all instances from cache" r)

  or_not_found-IsListed :
      (items : List Instance) → Listed (or_not_found unwraps redis prefix marshal unmarshal items)
  unfolding error_handler get_status_code lookup new_error not_found
  or_not_found-IsListed [] = inl refl
  or_not_found-IsListed (x ∷ xs) = tt

  fetch_listed-IsListed :
      (s : redis.State) (keys : List String)
      → Listed (fetch_listed unwraps redis prefix marshal unmarshal s keys)
  unfolding error_handler get_status_code lookup new_error not_found
  fetch_listed-IsListed s [] = inl refl
  fetch_listed-IsListed s (k ∷ ks) = or_not_found-IsListed _

  -- The answer of the service to a request for the instances: they are listed, or the client is told
  -- that there are none, with 404, or that Redis failed, with 500.
  pub get_instances-IsListed :
      (s : redis.State) → IsListed unwraps (get_instances unwraps redis prefix marshal unmarshal s)
  unfolding get_instances list_all_values error_handler get_status_code lookup new_error
  get_instances-IsListed s = elim (Result-cases (redis.keys (String.◌++◌ prefix ":*") s)) [
    | inl (text, e) ↦ rw (e, get_instances, list_all_values) (inr refl)
    | inr (keys, e) ↦ rw (e, get_instances, list_all_values) (fetch_listed-IsListed s keys)
  ]

  abbrev conversion : String
  conversion = "registerInstance failed to convert request to instance"

  -- How the request is converted.
  abbrev IsConverted : Instance → Result Fault Instance → Type 0
  IsConverted req (ok i) = (i ≡ req) × IsComplete req
  IsConverted req (err e) =
      (m : String) × Misses req m × Reports unwraps 400 err_bad_parameter m (wrapped conversion e)

  from_register_request-IsConverted :
      (req : Instance) → IsConverted req (from_register_request unwraps req)
  unfolding from_register_request bad_parameter error_handler get_status_code lookup new_error
  from_register_request-IsConverted req =
      let P = IsConverted req in
      if_rule P (req.instance_id == "") _ _ (λ a. (_, inl (eq_text _ _ a, refl), refl))
        λ a.
          if_rule P (req.service_type == "") _ _ (λ b. (_, inr (inl (eq_text _ _ b, refl)), refl))
            λ b.
              if_rule P (req.ipv4 == "") _ _ (λ c. (_, inr (inr (inl (eq_text _ _ c, refl))), refl))
                λ c.
                  if_rule P (is_zero req.port) _ _
                    (λ d. (_, inr (inr (inr (inl (zero_port _ d, refl)))), refl))
                    λ d.
                      if_rule P (is_positive req.ttl_ms) (ok req) _
                        (λ e. (
                          refl,
                          (
                            ne_text _ _ a,
                            ne_text _ _ b,
                            ne_text _ _ c,
                            other_port _ d,
                            positive _ e,
                          ),
                        ))
                        λ e. (_, inr (inr (inr (inr (not_positive _ e, refl)))), refl)

  -- Redis was told to keep the bytes of the instance under the key of the cache, for its time to live
  -- in nanoseconds, and ended so.
  abbrev pub Writes : Instance → Bytes → redis.State → Option String × redis.State → Type 0
  Writes req bytes s r =
      (marshal req ≡ some bytes)
      × (redis.set (String.◌++◌ prefix (String.◌++◌ ":" req.instance_id)) bytes
            (milliseconds req.ttl_ms) s
          ≡ r)

  -- A request that ends well was complete, and was written. One that fails misses something, which
  -- the client is told with 400, and nothing has changed; or it was complete and the client is told
  -- with 500 that it could not be marshalled, and nothing has changed, or that Redis failed to write it.
  abbrev pub IsRegistered : Instance → redis.State → Option Fault × redis.State → Type 0
  IsRegistered req s (none, s') = IsComplete req × ((bytes : Bytes) × Writes req bytes s (none, s'))
  IsRegistered req s (some e, s') =
      ((s' ≡ s) × ((m : String) × Misses req m × Reports unwraps 400 err_bad_parameter m e))
      ⊎ (IsComplete req
          × (((s' ≡ s)
                × (marshal req ≡ none)
                × Reports unwraps 500 err_internal_server_error "Redis marshal item error" e)
              ⊎ ((bytes : Bytes) × (text : String) × Writes req bytes s (some text, s')
                  × Reports unwraps 500 err_internal_server_error "Redis write key error" e)))

  done-IsRegistered :
      (req : Instance) (s : redis.State) (bytes : Bytes) (r : Option String × redis.State)
      → IsComplete req
      → Writes req bytes s r
      → IsRegistered req s (
          wrapping unwraps redis prefix marshal unmarshal
            "registerInstance failed to write instance to cache"
            (done unwraps redis prefix marshal unmarshal "Redis write key error" r))
  unfolding internal_error error_handler get_status_code lookup new_error
  done-IsRegistered req s bytes (none, s') c w = (c, (bytes, w))
  done-IsRegistered req s bytes (some text, s') c w = inr (c, inr (bytes, text, w, refl))

  pub register_instance-IsRegistered :
      (req : Instance) (s : redis.State)
      → IsRegistered req s (register_instance unwraps redis prefix marshal unmarshal (ok req) s)
  unfolding register_instance write_value generate_key error_handler get_status_code lookup
      new_error
  register_instance-IsRegistered req s = elim (Result-cases (from_register_request unwraps req)) [
    | inl (e, h) ↦
        rw (h, register_instance)
          (inl (refl, subst (IsConverted req) h (from_register_request-IsConverted req)))
    | inr (i, h) ↦
        let (same, complete) = subst (IsConverted req) h (from_register_request-IsConverted req) in
        elim (Option-cases (marshal req)) [
          | inl n ↦
              rw (h, same, n, register_instance, write_value) (inr (complete, inl (refl, n, refl)))
          | inr (bytes, n) ↦
              rw (h, same, n, register_instance, write_value)
                (done-IsRegistered req s bytes _ complete (n, refl))
        ]
  ]
