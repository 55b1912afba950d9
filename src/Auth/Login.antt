-- ===== src/Auth/Login.antt =====
-- Who can log in, what the token is good for at the gateway, and what a refused client sees.
use grpc_api_gateway_session.Prelude.{
  ◌≡◌, refl, sym, ◌∙◌, subst, ok-injective, ◌≢◌, ◌↔◌, String, true, false, Option, none, some, ◌==◌,
  eq_iff, Result, ok, err, arith, Result-cases, Bool-cases, Option-cases, inl, inr, ◌⊎◌,
  if◌then◌else◌, text-cases,
}
use grpc_api_gateway_session.GrpcError.{
  invalid_argument, permission_denied, internal, Error, status,
}
use grpc_api_gateway_session.Token.{Bytes, Codecs, validate_token}
use grpc_api_gateway_session.Token.Verify.{RoundTrips}
use grpc_api_gateway_session.Token.Validate.{validate_token-create_token}
use grpc_api_gateway_session.Auth.Jwt.{service_create_token}
use grpc_api_gateway_session.Auth.Jwt.Agreement.{jwt_agrees}
use grpc_api_gateway_session.Auth.{
  Fault, is_entity_not_found, unary_interceptor, User, LoginRequest, LoginResponse, issue,
  with_user, login,
}

module _ (lib : Codecs) (secret : Bytes) (add_expiry : lib.Time → lib.Time) where
  -- The request names a user with the right password, and the answer carries the user's role and a
  -- token for the session of the request.
  pub record IsGranted (store : String → Result Fault User) (now : lib.Time) (req : LoginRequest)
      (resp : LoginResponse lib.Time) : Type 0 where
    pub has_username : req.username ≢ ""
    pub has_session : req.session_id ≢ ""
    pub user : User
    pub stored : store req.username ≡ ok user
    pub password : user.password ≡ req.password
    pub made :
        service_create_token lib secret user.login user.role req.session_id resp.expires_at now
        ≡ some resp.token
    pub expires : resp.expires_at ≡ add_expiry now
    pub role : resp.role ≡ user.role

  issue-ok :
      (store : String → Result Fault User) (now : lib.Time) (req : LoginRequest) (user : User)
      (resp : LoginResponse lib.Time)
      → req.username ≢ ""
      → req.session_id ≢ ""
      → store req.username ≡ ok user
      → issue lib secret add_expiry req now user ≡ ok resp
      → IsGranted store now req resp
  unfolding issue
  issue-ok store now req user resp named bound stored h =
      elim (text-cases user.password req.password) [
        | inr (q, e) ↦ absurd (cc (rw (q, issue) at h))
        | inl (q, e) ↦
            elim (Option-cases (
              service_create_token lib secret user.login user.role req.session_id (add_expiry now)
                now)) [
                  | inl n ↦ absurd (cc (rw (q, n, issue) at h))
                  | inr (token, n) ↦
                      subst (IsGranted store now req) (ok-injective (rw (q, n, issue) at h))
                        (record {
                          has_username = named;
                          has_session = bound;
                          user = user;
                          stored = stored;
                          password = e;
                          made = n;
                          expires = refl;
                          role = refl;
                        })
                ]
      ]

  with_user-ok :
      (store : String → Result Fault User) (now : lib.Time) (req : LoginRequest)
      (resp : LoginResponse lib.Time)
      → req.username ≢ ""
      → req.session_id ≢ ""
      → with_user lib secret add_expiry req now (store req.username) ≡ ok resp
      → IsGranted store now req resp
  unfolding with_user
  with_user-ok store now req resp named bound h = elim (Result-cases (store req.username)) [
    | inr (user, e) ↦ issue-ok store now req user resp named bound e (rw (e, with_user) at h)
    | inl (e, p) ↦ elim (Bool-cases (is_entity_not_found e)) [
      | inl q ↦ absurd (cc (rw (p, with_user) at h))
      | inr q ↦ absurd (cc (rw (p, with_user) at h))
    ]
  ]

  login-IsGranted :
      (store : String → Result Fault User) (now : lib.Time) (req : LoginRequest)
      (resp : LoginResponse lib.Time)
      → login lib secret add_expiry store now (some req) ≡ ok resp
      → IsGranted store now req resp
  unfolding login
  login-IsGranted store now req resp h = elim (text-cases req.username "") [
    | inl (q, e) ↦ absurd (cc (rw (q, login) at h))
    | inr (q, e) ↦ elim (text-cases req.session_id "") [
      | inl (r, d) ↦ absurd (cc (rw (q, r, login) at h))
      | inr (r, d) ↦ with_user-ok store now req resp e d (rw (q, r, login) at h)
    ]
  ]

  IsGranted-login :
      (store : String → Result Fault User) (now : lib.Time) (req : LoginRequest)
      (resp : LoginResponse lib.Time)
      → IsGranted store now req resp
      → login lib secret add_expiry store now (some req) ≡ ok resp
  unfolding login with_user issue
  IsGranted-login store now req resp g =
      let named : (req.username == "") ≡ false =
        ground (arith, eq_iff req.username "", g.has_username) in
      let bound : (req.session_id == "") ≡ false =
        ground (arith, eq_iff req.session_id "", g.has_session) in
      let right : (g.user.password == req.password) ≡ true =
        (eq_iff g.user.password req.password).1 g.password in
      let made : service_create_token lib secret g.user.login g.user.role req.session_id
            (add_expiry now) now
          ≡ some resp.token =
        rw (← g.expires) g.made in
      rw (named, bound, g.stored, right, made, login, with_user, issue)
        (rw (← g.expires, ← g.role) refl)

  -- A login is granted exactly to a request with a user name, a session and the stored password of
  -- that user; the answer has the user's role and, expiring when it says, a token for that session.
  pub login_iff :
      (store : String → Result Fault User) (now : lib.Time) (req : LoginRequest)
      (resp : LoginResponse lib.Time)
      → (login lib secret add_expiry store now (some req) ≡ ok resp) ↔ IsGranted store now req resp
  login_iff store now req resp =
      (login-IsGranted store now req resp, IsGranted-login store now req resp)

  -- The token of a granted login passes at the gateway, under the same secret and until the expiry
  -- of the answer, for the session of the request and for no other.
  pub login-validate_token :
      (store : String → Result Fault User) (now later read : lib.Time) (req : LoginRequest)
      (resp : LoginResponse lib.Time) (session_id : String)
      → RoundTrips lib
      → lib.parse (lib.format resp.expires_at) ≡ some read
      → login lib secret add_expiry store now (some req) ≡ ok resp
      → validate_token lib secret later session_id resp.token
        ≡ (if lib.after later read then false else req.session_id == session_id)
  login-validate_token store now later read req resp session_id law times granted =
      let g = login-IsGranted store now req resp granted in
      validate_token-create_token lib g.user.login g.user.role req.session_id session_id
        resp.expires_at now read later secret resp.token law times
        (sym
            (jwt_agrees lib secret g.user.login g.user.role req.session_id resp.token
              resp.expires_at now).0
          ∙ g.made)

  -- What a refused client sees: the texts are the service's own, and so are the codes.
  abbrev pub IsRefusal : Error → Type 0
  IsRefusal (status invalid_argument m) = Unit
  IsRefusal (status permission_denied m) = m ≡ "invalid username or password"
  IsRefusal (status internal m) = (m ≡ "failed to get user") ⊎ (m ≡ "failed to create token")
  IsRefusal _ = ⊥

  abbrev pub IsAnswer : Result Error (LoginResponse lib.Time) → Type 0
  IsAnswer (ok resp) = Unit
  IsAnswer (err e) = IsRefusal e

  issue-IsAnswer :
      (req : LoginRequest) (now : lib.Time) (user : User)
      → IsAnswer (unary_interceptor (issue lib secret add_expiry req now user))
  unfolding issue unary_interceptor
  issue-IsAnswer req now user = elim (Bool-cases (user.password == req.password)) [
    | inr q ↦ rw (q, issue, unary_interceptor) refl
    | inl q ↦
        elim (Option-cases (
          service_create_token lib secret user.login user.role req.session_id (add_expiry now)
            now)) [
              | inl n ↦ rw (q, n, issue, unary_interceptor) (inr refl)
              | inr (token, n) ↦ rw (q, n, issue, unary_interceptor) tt
            ]
  ]

  with_user-IsAnswer :
      (req : LoginRequest) (now : lib.Time) (found : Result Fault User)
      → IsAnswer (unary_interceptor (with_user lib secret add_expiry req now found))
  unfolding with_user unary_interceptor
  with_user-IsAnswer req now (ok user) = issue-IsAnswer req now user
  with_user-IsAnswer req now (err e) = elim (Bool-cases (is_entity_not_found e)) [
    | inl q ↦ rw (q, with_user, unary_interceptor) refl
    | inr q ↦ rw (q, with_user, unary_interceptor) (inl refl)
  ]

  -- A refused client sees InvalidArgument, PermissionDenied with one text, or Internal with one of
  -- two; nothing of an inner error gets out.
  pub login-IsAnswer :
      (store : String → Result Fault User) (now : lib.Time) (req : Option LoginRequest)
      → IsAnswer (unary_interceptor (login lib secret add_expiry store now req))
  unfolding login unary_interceptor
  login-IsAnswer store now none = tt
  login-IsAnswer store now (some req) = elim (Bool-cases (req.username == "")) [
    | inl p ↦ rw (p, login, unary_interceptor) tt
    | inr p ↦ elim (Bool-cases (req.session_id == "")) [
      | inl q ↦ rw (p, q, login, unary_interceptor) tt
      | inr q ↦ rw (p, q, login) (with_user-IsAnswer req now (store req.username))
    ]
  ]

  -- An unknown user and a wrong password look the same to the client.
  pub login-unary_interceptor :
      (store changed : String → Result Fault User) (now : lib.Time) (req : LoginRequest) (e : Fault)
      (user : User)
      → store req.username ≡ err e
      → is_entity_not_found e ≡ true
      → changed req.username ≡ ok user
      → user.password ≢ req.password
      → unary_interceptor (login lib secret add_expiry store now (some req))
        ≡ unary_interceptor (login lib secret add_expiry changed now (some req))
  unfolding login with_user issue unary_interceptor
  login-unary_interceptor store changed now req e user absent code there wrong =
      let q : (user.password == req.password) ≡ false =
        ground (arith, eq_iff user.password req.password, wrong) in
      elim (Bool-cases (req.username == "")) [
        | inl p ↦ rw (p, login) refl
        | inr p ↦ elim (Bool-cases (req.session_id == "")) [
          | inl r ↦ rw (p, r, login) refl
          | inr r ↦ rw (p, r, absent, code, there, q, login, with_user, issue) refl
        ]
      ]
