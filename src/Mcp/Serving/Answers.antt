-- ===== src/Mcp/Serving/Answers.antt =====
-- internal/mcp/server.go: the answers to the lines of a session, and the requests that it sends.
use hermes_security_skills.Base.{
  Bool-cases, List, Option, Option-cases, Result, [], err, false, inl, inr, none, not, ok, refl,
  some, true, ◌&&◌, ◌∷◌, ◌≡◌,
}
use hermes_security_skills.Base.Text.{Text, codes, is_blank, is_empty, trim_space, ◌==◌}
use hermes_security_skills.Mcp.{Moment, RpcError, Server, World, parse_error}
use hermes_security_skills.Mcp.Calls.{tools_call}
use hermes_security_skills.Mcp.Calls.Licensed.{IsLicensed, tools_call-IsLicensed}
use hermes_security_skills.Mcp.Reading.{CallResult, EvidenceDir}
use hermes_security_skills.Mcp.Serving.{
  Request, Response, and_response, called_result, handle_line, handle_method, handle_request,
  is_notification, null_id, serve,
}

-- The answer to a line: none for a notification, which changes nothing; otherwise one that has the
-- id of the request, or null for a line that is no request.
abbrev pub IsAnswer : Option Request → Option Response × World → World → Type 0
IsAnswer none (response, w') w =
    (response ≡ some (record { response_id = null_id; outcome = err parse_error })) × (w' ≡ w)
IsAnswer (some r) (none, w') w = (is_notification r ≡ true) × (w' ≡ w)
IsAnswer (some r) (some response, w') w =
    (is_notification r ≡ false) × (response.response_id ≡ r.request_id)

handle_request-IsAnswer :
    (s : Server) (m : Moment) (events : EvidenceDir) (r : Request) (w : World)
    → IsAnswer (some r) (handle_request s m events r w) w
unfolding handle_request
handle_request-IsAnswer s m events r w = elim (Bool-cases (is_notification r)) [
  | inl e ↦ elim (Bool-cases (not (is_empty r.jsonrpc) && not (r.jsonrpc == codes "2.0"))) [
    | inl f ↦ rw (f, e, handle_request) (e, refl)
    | inr f ↦ rw (f, e, handle_request) (e, refl)
  ]
  | inr e ↦ elim (Bool-cases (not (is_empty r.jsonrpc) && not (r.jsonrpc == codes "2.0"))) [
    | inl f ↦ rw (f, e, handle_request) (e, refl)
    | inr f ↦ rw (f, e, handle_request) (e, refl)
  ]
]

-- A line that is no request is answered with a parse error and the id null, and changes nothing; a
-- notification is not answered and changes nothing, whatever its method; a request is answered, with
-- its id.
pub handle_line-IsAnswer :
    (decode : Text → Option Request) (s : Server) (m : Moment) (events : EvidenceDir) (line : Text)
    (w : World)
    → IsAnswer (decode line) (handle_line decode s m events line w) w
unfolding handle_line
handle_line-IsAnswer decode s m events line w = elim (Option-cases (decode line)) [
  | inl e ↦ rw (e, handle_line) (refl, refl)
  | inr (r, e) ↦ rw (e, handle_line) (handle_request-IsAnswer s m events r w)
]

-- What one line may send: nothing, or the request of a call that passed the checks of its moment.
abbrev pub LineJustified : Server → Moment → Option Request → World → World → Type 0
LineJustified s m none w v = v.sent ≡ w.sent
LineJustified s m (some r) w v = IsLicensed s m r.params w v

-- The world after one line of a session.
abbrev pub after_line :
    (Text → Option Request) → Server → Text × Moment × EvidenceDir → World → World
after_line decode s (line, m, events) w = elim (is_blank line) [
  | true ↦ w
  | false ↦ (handle_line decode s m events (trim_space line) w).1
]

-- Line by line, from the one world to the other: each line sends what it may send at its own moment
-- and with the approvals that the lines before it have left.
abbrev pub SendsJustified :
    (Text → Option Request) → Server → List (Text × Moment × EvidenceDir) → World → World → Type 0
SendsJustified decode s [] w w' = w' ≡ w
SendsJustified decode s ((line, m, events) ∷ rest) w w' =
    let v = after_line decode s (line, m, events) w in
    LineJustified s m (decode (trim_space line)) w v × SendsJustified decode s rest v w'

nothing_sent :
    (s : Server) (m : Moment) (asked : Option Request) (w : World) → LineJustified s m asked w w
nothing_sent s m none w = refl
nothing_sent s m (some r) w = inl refl

called_result-world : (p : Result RpcError CallResult × World) → (called_result p).1 ≡ p.1
called_result-world (err e, w) = refl
called_result-world (ok c, w) = refl

handle_method-justified :
    (s : Server) (m : Moment) (events : EvidenceDir) (r : Request) (w : World)
    → IsLicensed s m r.params w (handle_method s m events r w).1
unfolding handle_method
handle_method-justified s m events r w =
    let unchanged : IsLicensed s m r.params w w = inl refl in
    elim (Bool-cases (r.rpc_method == codes "initialize")) [
      | inl e ↦ rw (e, handle_method) unchanged
      | inr e ↦ elim (Bool-cases (r.rpc_method == codes "ping")) [
        | inl f ↦ rw (e, f, handle_method) unchanged
        | inr f ↦ elim (Bool-cases (r.rpc_method == codes "tools/list")) [
          | inl g ↦ rw (e, f, g, handle_method) unchanged
          | inr g ↦ elim (Bool-cases (r.rpc_method == codes "tools/call")) [
            | inr k ↦ rw (e, f, g, k, handle_method) unchanged
            | inl k ↦
                rw
                  (
                    e,
                    f,
                    g,
                    k,
                    handle_method,
                    called_result-world (tools_call s m events r.params w),
                  )
                  (tools_call-IsLicensed s m events r.params w)
          ]
        ]
      ]
    ]

handle_request-justified :
    (s : Server) (m : Moment) (events : EvidenceDir) (r : Request) (w : World)
    → IsLicensed s m r.params w (handle_request s m events r w).1
unfolding handle_request
handle_request-justified s m events r w =
    let unchanged : IsLicensed s m r.params w w = inl refl in
    elim (Bool-cases (not (is_empty r.jsonrpc) && not (r.jsonrpc == codes "2.0"))) [
      | inl f ↦ elim (Bool-cases (is_notification r)) [
        | inl e ↦ rw (f, e, handle_request) unchanged
        | inr e ↦ rw (f, e, handle_request) unchanged
      ]
      | inr f ↦ elim (Bool-cases (is_notification r)) [
        | inl e ↦ rw (f, e, handle_request) unchanged
        | inr e ↦ rw (f, e, handle_request) (handle_method-justified s m events r w)
      ]
    ]

handle_line-justified :
    (decode : Text → Option Request) (s : Server) (m : Moment) (events : EvidenceDir) (line : Text)
    (w : World)
    → LineJustified s m (decode line) w (handle_line decode s m events line w).1
unfolding handle_line
handle_line-justified decode s m events line w = elim (Option-cases (decode line)) [
  | inl e ↦ rw (e, handle_line) refl
  | inr (r, e) ↦ rw (e, handle_line) (handle_request-justified s m events r w)
]

and_response-world : (r : Option Response) (p : List Response × World) → (and_response r p).1 ≡ p.1
and_response-world none p = refl
and_response-world (some r) p = refl

-- Whatever lines a session reads, each line sends nothing or one request. A request that is sent goes
-- to the proxy's endpoint and is the call of that line, for a capability of the registry that is not
-- critical; it has passed the checks of scope and of the kill switch at the moment of the line, and its
-- action is automatic, or an approval that FindActive found among those left by the lines before was
-- consumed for it.
pub serve-IsJustified :
    (decode : Text → Option Request) (s : Server) (lines : List (Text × Moment × EvidenceDir))
    (w : World)
    → SendsJustified decode s lines w (serve decode s lines w).1
unfolding serve
serve-IsJustified decode s [] w = refl
serve-IsJustified decode s ((line, m, events) ∷ rest) w = elim (Bool-cases (is_blank line)) [
  | inl e ↦
      rw (e, serve, after_line)
        (nothing_sent s m (decode (trim_space line)) w, serve-IsJustified decode s rest w)
  | inr e ↦
      let after = handle_line decode s m events (trim_space line) w in
      rw (e, serve, after_line, and_response-world after.0 (serve decode s rest after.1))
        (
          handle_line-justified decode s m events (trim_space line) w,
          serve-IsJustified decode s rest after.1,
        )
]
