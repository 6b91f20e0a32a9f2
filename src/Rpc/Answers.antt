-- ===== src/Rpc/Answers.antt =====
-- `processRequest` on the server's registry: every request has one answer, with its id.
use architecture_course.Prelude.{
  string_eq, String, List, [], ◌∷◌, Bool, true, false, not, ◌||◌, ◌&&◌, ◌≡◌, refl, arith,
  Bool-cases, Option-cases, inl, inr, if◌then◌else◌,
}
use architecture_course.Prelude.Map.{lookup}
use architecture_course.Prelude.Map.Laws.{lookup-All}
use architecture_course.Rpc.Secrets.{DataStore, type_error}
use architecture_course.Rpc.Registry.{
  MethodInfo, get_error_message, get_method, has_method, method_not_found, invalid_request,
}
use architecture_course.Rpc.Session.{
  Json, Handler, Response, error_response, language_of, field_or_null, call_method, process_request,
  is_text, is_string, process_batch_request,
}
use architecture_course.Rpc.Explained.{
  IsAppError, IsAnswer, registry, in_english, english_known, english-IsAnswer, respond-IsAnswer,
  methods-IsAppError,
}

module _ {ℓ} {J : Type ℓ} (json : Json J) where
  open json use {null, is_object, has_key, field, text}

  -- The members that a request must have.
  abbrev pub is_request : J → Bool
  is_request q =
      is_object q
      && has_key "jsonrpc" q
      && is_text "2.0" (text (field "jsonrpc" q))
      && has_key "method" q
      && is_string (text (field "method" q))

  -- The id of the answer: the request's own, and null for one that has none or is not a request.
  abbrev pub answer_id : J → J
  answer_id q = if is_request q then field_or_null json (registry json) "id" q else null

  unknown-IsAnswer :
      (id : J) (language : String)
      → IsAnswer json id (
          error_response method_not_found
            (get_error_message method_not_found language (registry json))
            id)
  unknown-IsAnswer id language = record {
    identified = refl;
    explained = (
      english_known json method_not_found language (in_english json).0,
      λ other. absurd (other refl),
    );
  }

  call_method-IsAnswer :
      (s : DataStore) (id params : J) (name : String)
      → IsAnswer json id (call_method json (registry json) s id params name).0
  unfolding call_method has_method get_method
  call_method-IsAnswer s id params name =
      elim (Option-cases (language_of json (registry json) params)) [
        | inl e ↦ rw (e, call_method) (respond-IsAnswer json id type_error tt)
        | inr (language, e) ↦ elim (Option-cases (lookup name (registry json).methods)) [
          | inl f ↦ rw (e, f, call_method) (unknown-IsAnswer id language)
          | inr (method, f) ↦
              rw (e, f, call_method)
                (respond-IsAnswer json id (method.handler s params language).0 (
                  lookup-All
                    (λ (m : MethodInfo (Handler J DataStore)).
                      (s : DataStore) (params : J) (language : String)
                      → IsAppError (m.handler s params language).0)
                    name (registry json).methods (methods-IsAppError json) f s params language))
        ]
      ]

  pub process_request-IsAnswer :
      (s : DataStore) (q : J)
      → IsAnswer json (answer_id q) (process_request json (registry json) s q).0
  unfolding process_request
  process_request-IsAnswer s q = elim (Bool-cases (is_request q)) [
    | inr bad ↦
        let refused : not (is_object q)
              || not (has_key "jsonrpc" q)
              || not (is_text "2.0" (text (field "jsonrpc" q)))
              || not (has_key "method" q)
              || not (is_string (text (field "method" q)))
            ≡ true =
          ground arith in
        rw (bad, refused, process_request)
          (english-IsAnswer json null invalid_request
            (english_known json invalid_request "en-US" (in_english json).1.1.0))
    | inl good ↦
        let accepted : not (is_object q)
              || not (has_key "jsonrpc" q)
              || not (is_text "2.0" (text (field "jsonrpc" q)))
              || not (has_key "method" q)
              || not (is_string (text (field "method" q)))
            ≡ false =
          ground arith in
        elim (Option-cases (text (field "method" q))) [
          | inl e ↦ absurd (ground arith)
          | inr (name, e) ↦
              rw (good, accepted, e, process_request)
                (call_method-IsAnswer s (field_or_null json (registry json) "id" q)
                  (field_or_null json (registry json) "params" q) name)
        ]
  ]

  -- One answer for each request, in the same order.
  pub data Answered : List J → List (Response J) → Type ℓ where
    finished : Answered [] []
    answers :
        {q : J} {p : Response J} {qs : List J} {ps : List (Response J)}
        → IsAnswer json (answer_id q) p
        → Answered qs ps
        → Answered (q ∷ qs) (p ∷ ps)

  -- A batch is answered with one response for each of its requests, in their order, whatever the
  -- requests and the stored data are. Each response has the id of its request, and null where the
  -- request has none or lacks one of the required members. Each error has a registered message, never
  -- the text "Unknown error"; it is in English whatever language the request asks for, unless the error
  -- is that the method is unknown.
  pub process_batch_request-Answered :
      (s : DataStore) (qs : List J)
      → Answered qs (process_batch_request json (registry json) s qs).0
  unfolding process_batch_request
  process_batch_request-Answered s [] = finished
  process_batch_request-Answered s (q ∷ qs) =
      answers (process_request-IsAnswer s q)
        (process_batch_request-Answered (process_request json (registry json) s q).1 qs)
