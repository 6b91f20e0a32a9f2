-- ===== src/Soap/Connected.antt =====
-- What a connection keeps of the tasks, and what it sends.
use architecture_course.Prelude.{
  ◌||◌, ◌&&◌, nat_eq, ℕ, Option, List, [], ◌∷◌, Bool, true, false, not, ◌≡◌, refl, map,
  if◌then◌else◌,
}
use architecture_course.Soap.Task.{Text}
use architecture_course.Soap.Manager.{TaskManager}
use architecture_course.Soap.Server.{Nodes}
use architecture_course.Soap.Serving.{IsKeyed, process_soap_message-IsServed}
use architecture_course.Soap.Connection.{
  Document, Parsed, parsed, broken, Method, get, post, other_method, HttpRequest, HttpResponse,
  Exchange, Closed, parse_soap_request, handle_soap_request, respond, handle_session,
}

abbrev pub is_post : Method → Bool
is_post post = true
is_post get = false
is_post other_method = false

abbrev pub expected_status : Method → ℕ
expected_status post = 200
expected_status get = 200
expected_status other_method = 400

-- The requests that are answered: up to the first that does not keep the connection alive, and before
-- the first whose response cannot be written.
abbrev pub answered : List Exchange → List HttpRequest
answered [] = []
answered (exchange ∷ rest) =
    let others = answered rest in
    if exchange.written
    then exchange.request ∷ (if exchange.request.keep_alive then others else [])
    else []

-- The requests that are carried out: those, and one whose response cannot be written.
abbrev pub received : List Exchange → List HttpRequest
received [] = []
received (exchange ∷ rest) =
    let others = received rest in
    exchange.request ∷ (if exchange.written && exchange.request.keep_alive then others else [])

-- Whether one of the requests does not keep the connection alive.
abbrev pub closing : List HttpRequest → Bool
closing [] = false
closing (req ∷ rest) = not req.keep_alive || closing rest

module _ {ℓ} {N : Type ℓ} (nodes : Nodes N) (load : Text → Parsed N) (save : Document → Text) where
  handle_soap_request-IsKeyed :
      (m : TaskManager) (soap_request : Text) (p : Parsed N)
      → parse_soap_request nodes load save soap_request ≡ p
      → IsKeyed m
      → IsKeyed (handle_soap_request nodes load save m soap_request).1
  unfolding handle_soap_request
  handle_soap_request-IsKeyed m soap_request (parsed document) e h =
      rw (handle_soap_request, e) ((process_soap_message-IsServed nodes m document).keyed h)
  handle_soap_request-IsKeyed m soap_request (broken description) e h =
      rw (handle_soap_request, e) h

  abbrev pub carry_out : HttpRequest → TaskManager → TaskManager
  carry_out req m =
      if is_post req.method then (handle_soap_request nodes load save m req.body).1 else m

  abbrev pub carry_out_all : List HttpRequest → TaskManager → TaskManager
  carry_out_all [] m = m
  carry_out_all (req ∷ rest) m = carry_out_all rest (carry_out req m)

  -- A connection that began with the tasks `m`, and what it left.
  pub record IsConnection (exchanges : List Exchange) (m : TaskManager) (c : Closed) : Type 0 where
    pub statuses :
        map (λ (r : HttpResponse). r.status) c.sent
        ≡ map (λ (r : HttpRequest). expected_status r.method) (answered exchanges)
    pub versions :
        map (λ (r : HttpResponse). r.version) c.sent
        ≡ map (λ (r : HttpRequest). r.version) (answered exchanges)
    pub closes : c.shut_down ≡ closing (answered exchanges)
    pub tasks : c.tasks ≡ carry_out_all (received exchanges) m
    pub keyed : IsKeyed m → IsKeyed c.tasks

  -- One response, and the tasks after it.
  record IsReply (req : HttpRequest) (m : TaskManager) (r : HttpResponse × TaskManager)
      : Type 0 where
    status : r.0.status ≡ expected_status req.method
    version : r.0.version ≡ req.version
    tasks : r.1 ≡ carry_out req m
    keyed : IsKeyed m → IsKeyed r.1

  module _ (wsdl_file : Option Text) where
    respond-IsReply :
        (m : TaskManager) (method : Method) (req : HttpRequest)
        → req.method ≡ method
        → IsReply req m (respond nodes load save wsdl_file m req)
    unfolding respond
    respond-IsReply m get req e =
        rw (respond, e) (record { status = cc; version = refl; keyed = λ h. h; tasks = cc })
    respond-IsReply m post req e =
        rw (respond, e)
          (record {
            status = cc;
            version = refl;
            keyed = handle_soap_request-IsKeyed m req.body _ refl;
            tasks = cc;
          })
    respond-IsReply m other_method req e =
        rw (respond, e) (record { status = cc; version = refl; keyed = λ h. h; tasks = cc })

    -- The first exchange, from what holds of the others.
    step-IsConnection :
        (keep_alive written : Bool) (method : Method) (version : ℕ) (body : Text) (m : TaskManager)
        (rest : List Exchange)
        → ((after : TaskManager)
            → IsConnection rest after (handle_session nodes load save wsdl_file after rest))
        → let req : HttpRequest = record {
          method = method;
          version = version;
          body = body;
          keep_alive = keep_alive;
        } in
          let exchange : Exchange = record { request = req; written = written } in
          IsConnection
            (exchange ∷ rest)
            m
            (handle_session nodes load save wsdl_file m (exchange ∷ rest))
    unfolding handle_session
    step-IsConnection keep_alive false method version body m rest h =
        let reply =
          respond-IsReply m method
            (record { method = method; version = version; body = body; keep_alive = keep_alive })
            refl in
        record {
          statuses = refl;
          versions = refl;
          closes = refl;
          keyed = reply.keyed;
          tasks = reply.tasks;
        }
    step-IsConnection false true method version body m rest h =
        let reply =
          respond-IsReply m method
            (record { method = method; version = version; body = body; keep_alive = false }) refl in
        record {
          statuses = rw (reply.status) refl;
          versions = rw (reply.version) refl;
          closes = refl;
          keyed = reply.keyed;
          tasks = reply.tasks;
        }
    step-IsConnection true true method version body m rest h =
        let req : HttpRequest = record {
          method = method;
          version = version;
          body = body;
          keep_alive = true;
        } in
        let reply = respond-IsReply m method req refl in
        let others = h (respond nodes load save wsdl_file m req).1 in
        record {
          statuses = rw (reply.status, others.statuses) refl;
          versions = rw (reply.version, others.versions) refl;
          closes = others.closes;
          keyed = λ k. others.keyed (reply.keyed k);
          tasks = rw⁻¹ reply.tasks others.tasks;
        }

    -- A connection is answered one response per request, in order, up to the first request that does
    -- not keep it alive and before the first response that cannot be written: the status is 400 for a
    -- method that is neither GET nor POST and else 200, the version is that of the request. The socket
    -- is shut down exactly if one of the requests answered does not keep it alive. The tasks are what
    -- the SOAP requests of the POSTs make of them one after the other, the one whose response is lost
    -- included; and if no id repeated and every task was stored under its id, that holds after.
    pub handle_session-IsConnection :
        (m : TaskManager) (exchanges : List Exchange)
        → IsConnection exchanges m (handle_session nodes load save wsdl_file m exchanges)
    unfolding handle_session
    handle_session-IsConnection m [] = record {
      statuses = refl;
      versions = refl;
      closes = refl;
      keyed = λ h. h;
      tasks = refl;
    }
    handle_session-IsConnection m (exchange ∷ rest) =
        let req = exchange.request in
        step-IsConnection req.keep_alive exchange.written req.method req.version req.body m rest
          (λ after. handle_session-IsConnection after rest)
