-- ===== src/Scenarios/Streams/Reading.antt =====
-- What a stream was that the scenarios accept.
use grpc_api_gateway_session.Prelude.{
  ap, ℤ, pos, negsuc, ℕ, zero, suc, ◌+◌, ◌≤◌, ◌<◌, ◌≡◌, refl, sym, ◌∙◌, subst, ◌≢◌, ◌⊎◌, inl, inr,
  String, Bool, true, false, not, Option, none, some, ◌==◌, eq_iff, ok, nat_eq, leb, arith,
  if◌then◌else◌, Option-cases, Bool-cases, ok-injective,
}
use grpc_api_gateway_session.GrpcError.{Error}
use grpc_api_gateway_session.Config.Numbers.{int_32}
use grpc_api_gateway_session.Scenarios.{EchoReply, same_int}
use grpc_api_gateway_session.Scenarios.Streams.{
  Received, message, ended, failed, stream_faults, StreamResult, counted, interrupted,
  read_messages, subscribe_stream,
}

-- A message of the stream that is as it should be, but for its pod.
pub record IsExpected (value method : String) (number : ℕ) (r : EchoReply) : Type 0 where
  pub client_value : r.client_value ≡ value
  pub server_value : r.server_value ≡ "my_service"
  pub has_client_session : r.client_session_id ≢ ""
  pub has_server_session : r.server_session_id ≢ ""
  pub index : r.index ≡ int_32 number
  pub server_method : r.server_method ≡ method
  pub has_pod : r.pod_name ≢ ""

same_number : (a b : ℕ) → not (nat_eq a b) ≡ false → a ≡ b
same_number a b h = ground arith

same_int_path : (a b : ℤ) → not (same_int a b) ≡ false → a ≡ b
unfolding same_int
same_int_path (pos a) (pos b) h = ap pos (same_number a b h)
same_int_path (negsuc a) (negsuc b) h = ap negsuc (same_number a b h)
same_int_path (pos a) (negsuc b) h = cc
same_int_path (negsuc a) (pos b) h = cc

module _ (value method : String) (number : ℕ) (first_pod : String) (r : EchoReply) where
  faults-IsExpected :
      stream_faults value method number first_pod r ≡ none
      → IsExpected value method number r × ((first_pod ≡ "") ⊎ (r.pod_name ≡ first_pod))
  unfolding stream_faults
  faults-IsExpected h = (
    record {
      client_value = ground (arith, eq_iff r.client_value value);
      server_value = ground (arith, eq_iff r.server_value "my_service");
      has_client_session = ground (arith, eq_iff r.client_session_id "");
      has_server_session = ground (arith, eq_iff r.server_session_id "");
      index = same_int_path _ _ (ground arith);
      server_method = ground (arith, eq_iff r.server_method method);
      has_pod = ground (arith, eq_iff r.pod_name "");
    },
    ground (arith, eq_iff first_pod "", eq_iff r.pod_name first_pod),
  )

-- The pod of the stream behind a message.
pod_behind : String → EchoReply → String
pod_behind first_pod r = if first_pod == "" then r.pod_name else first_pod

module _ (first_pod : String) (r : EchoReply) (has_pod : r.pod_name ≢ "")
    (same : (first_pod ≡ "") ⊎ (r.pod_name ≡ first_pod)) where
  pod_behind_message : r.pod_name ≡ pod_behind first_pod r
  unfolding pod_behind
  pod_behind_message = ground (arith, eq_iff first_pod "")

  pod_behind_first : first_pod ≢ "" → pod_behind first_pod r ≡ first_pod
  unfolding pod_behind
  pod_behind_first h = ground (arith, eq_iff first_pod "")

module _ (count : ℕ) (first_pod : String) (res : StreamResult) where
  counted_ok :
      counted count first_pod ≡ ok res
      → (1 ≤ count) × (record { pod_name = first_pod; message_count = count } ≡ res)
  unfolding counted
  counted_ok h = elim (Bool-cases (nat_eq count 0)) [
    | inl e ↦ absurd (cc (rw e at h))
    | inr e ↦ (ground arith, ok-injective (rw e at h))
  ]

  interrupted_ok :
      (e : Error) (cancelled : Bool)
      → interrupted e cancelled count first_pod ≡ ok res
      → counted count first_pod ≡ ok res
  unfolding interrupted
  interrupted_ok e true h = elim (Bool-cases (leb 1 count)) [
    | inl p ↦ rw p at h
    | inr p ↦ absurd (cc (rw p at h))
  ]
  interrupted_ok e false h = elim (Bool-cases (leb 2 count)) [
    | inl p ↦ rw p at h
    | inr p ↦ absurd (cc (rw p at h))
  ]

module _ (recv : ℕ → Received) (value method : String) where
  -- A message of the stream is as it should be and comes from the pod.
  pub GivesFrom : String → ℕ → Type 0
  GivesFrom pod i =
      (r : EchoReply) × (recv i ≡ message r) × IsExpected value method i r × (r.pod_name ≡ pod)

  -- What the loop gives, from the messages so far on.
  IsRead : (left count : ℕ) → String → StreamResult → Type 0
  IsRead left count first_pod res =
      (1 ≤ res.message_count)
      × (count ≤ res.message_count)
      × (res.message_count ≤ left + count)
      × (first_pod ≢ "" → res.pod_name ≡ first_pod)
      × ((i : ℕ) → count ≤ i → i < res.message_count → GivesFrom res.pod_name i)

  counted-IsRead :
      (left count : ℕ) (first_pod : String) (res : StreamResult)
      → counted count first_pod ≡ ok res
      → IsRead left count first_pod res
  unfolding IsRead
  counted-IsRead left count first_pod res h =
      let (some_read, e) = counted_ok count first_pod res h in
      subst (IsRead left count first_pod) e
        (some_read, ground arith, ground arith, λ n. refl, λ i p q. absurd (ground arith))

  module _ (left count : ℕ) (first_pod : String) (res : StreamResult) where
    message-IsRead :
        (r : EchoReply)
        → recv count ≡ message r
        → IsExpected value method count r × ((first_pod ≡ "") ⊎ (r.pod_name ≡ first_pod))
        → IsRead left (suc count) (pod_behind first_pod r) res
        → IsRead (suc left) count first_pod res
    unfolding IsRead GivesFrom
    message-IsRead r e (x, same) (some_read, low, high, pod, all) =
        let here : r.pod_name ≡ pod_behind first_pod r =
          pod_behind_message first_pod r x.has_pod same in
        let res_pod : res.pod_name ≡ pod_behind first_pod r = pod (λ n. x.has_pod (here ∙ n)) in
        (
          some_read,
          ground arith,
          ground arith,
          λ n. res_pod ∙ pod_behind_first first_pod r x.has_pod same n,
          λ i p q. elim (Bool-cases (nat_eq count i)) [
            | inl y ↦
                subst (GivesFrom res.pod_name) (same_number count i (rw y refl))
                  (r, e, x, here ∙ sym res_pod)
            | inr y ↦ all i (ground arith) q
          ],
        )

    received-IsRead :
        ((pod : String)
          → read_messages recv value method left (suc count) pod ≡ ok res
          → IsRead left (suc count) pod res)
        → (x : Received) → recv count ≡ x
        → read_messages recv value method (suc left) count first_pod ≡ ok res
        → IsRead (suc left) count first_pod res
    unfolding read_messages pod_behind
    received-IsRead rest ended e h =
        counted-IsRead (suc left) count first_pod res (rw (e, read_messages) at h)
    received-IsRead rest (failed f cancelled) e h =
        counted-IsRead (suc left) count first_pod res
          (interrupted_ok count first_pod res f cancelled (rw (e, read_messages) at h))
    received-IsRead rest (message r) e h =
        elim (Option-cases (stream_faults value method count first_pod r)) [
          | inl p ↦
              message-IsRead r e (faults-IsExpected value method count first_pod r p)
                (rest (pod_behind first_pod r) (rw (e, p, read_messages) at h))
          | inr (f, p) ↦ absurd (cc (rw (e, p, read_messages) at h))
        ]

  read_messages-IsRead :
      (left count : ℕ) (first_pod : String) (res : StreamResult)
      → read_messages recv value method left count first_pod ≡ ok res
      → IsRead left count first_pod res
  unfolding read_messages
  read_messages-IsRead zero count first_pod res h = counted-IsRead 0 count first_pod res h
  read_messages-IsRead (suc left) count first_pod res h =
      received-IsRead left count first_pod res
        (λ pod g. read_messages-IsRead left (suc count) pod res g) (recv count) refl h

  -- A stream that is accepted gave from one to as many messages as were asked for, all of them as
  -- they should be, with indices that count up from zero as an `int32` does, and from the one pod that the result names.
  pub subscribe_stream-GivesFrom :
      (opening : Option Error) (max_messages : ℕ) (res : StreamResult)
      → subscribe_stream recv value method opening max_messages ≡ ok res
      → (1 ≤ res.message_count)
        × (res.message_count ≤ max_messages)
        × ((i : ℕ) → i < res.message_count → GivesFrom res.pod_name i)
  unfolding subscribe_stream IsRead
  subscribe_stream-GivesFrom (some e) max_messages res h = absurd (cc h)
  subscribe_stream-GivesFrom none max_messages res h =
      let (some_read, low, high, pod, all) = read_messages-IsRead max_messages 0 "" res h in
      (some_read, ground arith, λ i p. all i (ground arith) p)
