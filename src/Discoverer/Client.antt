-- ===== src/Discoverer/Client.antt =====
-- MyGateway/adapters/discoverer.go. What the HTTP client answers is an argument: a status with a
-- body, or an error; the JSON of the body is a parameter, in which a missing `instances` is `none`.
use grpc_api_gateway_session.Prelude.{
  ℕ, Option, none, some, List, [], Result, ok, err, map, nat_eq, if◌then◌else◌,
}
use grpc_api_gateway_session.Domain.{ServiceInstance}
use grpc_api_gateway_session.Discoverer.Server.{InstanceInfo}

-- `reading` is what `io.ReadAll` makes of the body.
pub record HttpResponse (Body : Type 0) : Type 0 where
  pub status_code : ℕ
  pub reading : Option Body

pub data ClientError : Type 0 where
  request_failed unreadable not_json missing_instances : ClientError
  returned_status : ℕ → ClientError

unfoldable pub to_service_instance : InstanceInfo → ServiceInstance
to_service_instance i = record {
  instance_id = i.instance_id;
  ipv4 = i.ipv4;
  port = i.port;
  assigned_client_session_id = "";
}

module _ {Body : Type 0} (parse : Body → Option (Option (List InstanceInfo))) where
  abbrev from_json : Option (Option (List InstanceInfo)) → Result ClientError (List ServiceInstance)
  from_json none = err not_json
  from_json (some none) = err missing_instances
  from_json (some (some infos)) = ok (map to_service_instance infos)

  abbrev from_body : Option Body → Result ClientError (List ServiceInstance)
  from_body none = err unreadable
  from_body (some body) = from_json (parse body)

  unfoldable pub get_instances :
      Option (HttpResponse Body) → Result ClientError (List ServiceInstance)
  unfolding to_service_instance
  get_instances none = err request_failed
  get_instances (some resp) =
      if nat_eq resp.status_code 404
      then ok []
      else if nat_eq resp.status_code 200
      then from_body resp.reading
      else err (returned_status resp.status_code)

-- `UnregisterInstance`: `none` is a nil error.
pub unregister_instance : {Body : Type 0} → Option (HttpResponse Body) → Option ClientError
unregister_instance none = some request_failed
unregister_instance (some resp) =
    if nat_eq resp.status_code 200 then none else some (returned_status resp.status_code)
