-- ===== src/Soap/Connection.antt =====
-- soap_server.cpp: `HandleSession`, `HandleSOAPRequest` and the texts of the responses. The XML library
-- is two parameters: `load` parses a text, and `save` is the text of a document.
use architecture_course.Prelude.{
  nat_eq, ℕ, ◌+◌, ◌/◌, ◌%◌, String, Option, none, some, List, [], ◌∷◌, ◌++◌, Bool, true, false,
  if◌then◌else◌, ltb,
}
use architecture_course.Soap.Task.{Text, bytes, task_status_to_string, Task}
use architecture_course.Soap.File.{until_nul}
use architecture_course.Soap.Manager.{TaskManager}
use architecture_course.Soap.Server.{
  Nodes, Answer, task_response, delete_response, fault, process_soap_message,
}
use Prim.Native.Char.{code}

-- The bytes of a literal of Latin and Cyrillic letters, in UTF-8.
abbrev pub utf8_bytes : String → Text
utf8_bytes String.[] = []
utf8_bytes (String.◌∷◌ c s) =
    let rest = utf8_bytes s in
    if ltb (code c) 128 then code c ∷ rest else (192 + code c / 64) ∷ (128 + code c % 64) ∷ rest

-- A document of one element, which holds elements of a text each.
pub record Document : Type 0 where
  pub root : String
  pub elements : List (String × Text)

-- `set_value` takes a C string.
unfoldable pub create_xml_response : Task → Document
create_xml_response task = record {
  root = "Task";
  elements =
      ("TaskID", until_nul task.task_id)
      ∷ ("Title", until_nul task.title)
      ∷ ("Description", until_nul task.description)
      ∷ ("Status", until_nul (task_status_to_string task.status))
      ∷ [];
}

unfoldable pub create_delete_response : Bool → Document
create_delete_response success = record {
  root = "DeleteTaskResponse";
  elements = ("Success", bytes (if success then "true" else "false")) ∷ [];
}

abbrev pub envelope_start : String
envelope_start =
    "<?xml version=\"1.0\" encoding=\"UTF-8\"?>\n<soap:Envelope xmlns:soap=\"http://schemas.xmlsoap.org/soap/envelope/\">\n  <soap:Body>\n"

abbrev pub envelope_end : String
envelope_end = "  </soap:Body>\n</soap:Envelope>\n"

unfoldable pub create_soap_response : Text → Text
create_soap_response response_body =
    bytes envelope_start ++ (response_body ++ (bytes "\n" ++ bytes envelope_end))

unfoldable pub create_soap_fault : Text → Text → Text
create_soap_fault error_code error_message =
    bytes envelope_start
    ++ (bytes "    <soap:Fault>\n"
        ++ (bytes "      <faultcode>"
            ++ (error_code
                ++ (bytes "</faultcode>\n"
                    ++ (bytes "      <faultstring>"
                        ++ (error_message
                            ++ (bytes "</faultstring>\n"
                                ++ (bytes "    </soap:Fault>\n" ++ bytes envelope_end))))))))

-- What `load_string` makes of a text.
pub data Parsed {ℓ} (N : Type ℓ) : Type ℓ where
  parsed : N → Parsed N
  -- `result.description()`
  broken : Text → Parsed N

pub data Method : Type 0 where
  get post other_method : Method

pub record HttpRequest : Type 0 where
  pub method : Method
  pub version : ℕ
  pub body : Text
  pub keep_alive : Bool

pub record HttpResponse : Type 0 where
  pub status : ℕ
  pub version : ℕ
  pub content_type : String
  pub body : Text

-- A request that is read, and whether the write of its response succeeds.
pub record Exchange : Type 0 where
  pub request : HttpRequest
  pub written : Bool

-- What a connection leaves: the responses sent, whether it was shut down, and the tasks.
pub record Closed : Type 0 where
  pub sent : List HttpResponse
  pub shut_down : Bool
  pub tasks : TaskManager

abbrev pub wsdl_missing : Text
wsdl_missing =
    utf8_bytes
      "<?xml version=\"1.0\"?><wsdl:definitions xmlns:wsdl=\"http://schemas.xmlsoap.org/wsdl/\"><wsdl:message>WSDL доступен по адресу: taskmanagement.wsdl</wsdl:message></wsdl:definitions>"

module _ {ℓ} {N : Type ℓ} (nodes : Nodes N) (load : Text → Parsed N) (save : Document → Text) where
  -- The text of a response. `e.what()` is a C string.
  unfoldable pub answer_text : Answer → Text
  answer_text (task_response task) = create_soap_response (save (create_xml_response task))
  answer_text (delete_response success) =
      create_soap_response (save (create_delete_response success))
  answer_text (fault message) = create_soap_fault (bytes "SOAP-ENV:Server") (until_nul message)

  -- `load_string` takes a C string.
  unfoldable pub parse_soap_request : Text → Parsed N
  parse_soap_request soap_request = load (until_nul soap_request)

  unfoldable pub handle_soap_request : TaskManager → Text → Text × TaskManager
  handle_soap_request m soap_request = elim (parse_soap_request soap_request) [
    | parsed document ↦
        let (answer, after) = process_soap_message nodes m document in (answer_text answer, after)
    | broken description ↦
        (answer_text (fault (bytes "Failed to parse SOAP request: " ++ description)), m)
  ]

  module _ (wsdl_file : Option Text) where
    -- The response to a request. `wsdl_file` is the text of taskmanagement.wsdl, if it opens.
    unfoldable pub respond : TaskManager → HttpRequest → HttpResponse × TaskManager
    respond m req = elim req.method [
      | post ↦
          let (soap_response, after) = handle_soap_request m req.body in
          (
            record {
              status = 200;
              version = req.version;
              content_type = "text/xml; charset=utf-8";
              body = soap_response;
            },
            after,
          )
      | get ↦ (
        record {
          status = 200;
          version = req.version;
          content_type = "text/xml; charset=utf-8";
          body = elim wsdl_file [ some text ↦ text | none ↦ wsdl_missing ];
        },
        m,
      )
      | other_method ↦ (
        record {
          status = 400;
          version = req.version;
          content_type = "text/plain";
          body = bytes "Invalid request method";
        },
        m,
      )
    ]

    -- A read after the last request fails, as a failed write does: the loop ends by an exception.
    unfoldable pub handle_session : TaskManager → List Exchange → Closed
    handle_session m [] = record { sent = []; shut_down = false; tasks = m }
    handle_session m (exchange ∷ rest) =
        let (res, after) = respond m exchange.request in
        let others = handle_session after rest in
        if exchange.written
        then (if exchange.request.keep_alive
            then record others { sent = res ∷ others.sent }
            else record { sent = res ∷ []; shut_down = true; tasks = after })
        else record { sent = []; shut_down = false; tasks = after }
