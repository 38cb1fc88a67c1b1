-- ===== src/Msg/Tests.antt =====
-- The messages and the trimming of their texts on concrete inputs.
use Prim.Native.String.{◌++◌}
use se3313a_lab.Base.{String, ℕ, ◌≡◌, refl, none, some, ok, ◌>>=◌, ap, ◌∙◌, false}
use se3313a_lab.Boost.{Library}
use se3313a_lab.Boost.Sample
use se3313a_lab.Boost.Sample.{request, Tree, node, child, nil, sample}
use se3313a_lab.Msg.Json.{from, clean}
use se3313a_lab.Msg.Instance.{unknown_sender, get_or_throw}
use se3313a_lab.Msg.Instance
use se3313a_lab.Msg.AnyInstance.{AnyInstance, login_request, error_response, to_json}
use se3313a_lab.Msg.Printing.{print, from_json, request_login}
use se3313a_lab.Msg.Printing.RoundTrip.{from_json-print, to_json-fields}
use se3313a_lab.Msg.ErrorCode.{user_name_in_use, malformed_request_no_type}
use se3313a_lab.Msg.LoginRequest
use se3313a_lab.Msg.ErrorResponse
use se3313a_lab.Msg.ErrorResponse.{ErrorResponse}
use se3313a_lab.Msg.RequestVisitor
use se3313a_lab.Msg.RequestVisitor.Dispatch.{Answer, visit-Answer}
use se3313a_lab.Msg.ResponseVisitor
use se3313a_lab.Msg.ResponseVisitor.Dispatch as R
use se3313a_lab.Msg.ResponseVisitor.Dispatch.{visit_response-Answer}

clean_run : clean "{\"a\":1} \r\n\0\0" ≡ "{\"a\":1}"
unfolding clean
clean_run = refl

-- a library whose JSON reader knows no text
abbrev L : Library
L = sample (λ s. none)

abbrev refused : ErrorResponse ℕ
refused = ErrorResponse.error 5 "ann" user_name_in_use "Username in use."

-- a library whose JSON reader reads every text as one login request
abbrev hello : AnyInstance ℕ
hello = login_request (LoginRequest.login 2 "ann")

abbrev reads_hello : Library
reads_hello = sample (λ s. some (to_json L hello))

abbrev hello_body : String
hello_body =
    "{\"type\":\"ca.uwo.eng.se3313.lab4.network.request.LoginRequest\",\"object\":{\"datetime\":\"||\",\"sender\":\"ann\"}"

hello_tree : to_json L hello ≡ request LoginRequest.type "||" "ann"
unfolding to_json LoginRequest.to_json LoginRequest.sub_to_json Instance.to_json Instance.base_json
    Sample.strokes
hello_tree = Sample.put_child-request LoginRequest.type "||" "ann"

from_json-print_example :
    (from reads_hello (print reads_hello "" hello) >>= from_json reads_hello request_login)
    ≡ ok (some hello)
unfolding to_json LoginRequest.to_json LoginRequest.sub_to_json Instance.to_json Instance.base_json
from_json-print_example =
    from_json-print reads_hello hello hello_body tt
      (ap (Sample.write_json false) hello_tree
        ∙ Sample.write_json-request LoginRequest.type "||" "ann")
      refl

error_fields :
    (get_or_throw L "type" (to_json L (error_response refused)) ≡ ok ErrorResponse.type)
    × (get_or_throw L "object.sender" (to_json L (error_response refused)) ≡ ok "@server")
    × ((text : String) × (get_or_throw L "object.datetime" (to_json L (error_response refused))
          ≡ ok text)
        × ((before : ℕ) → Sample.size text ≡ 5))
error_fields = to_json-fields L (error_response refused)

-- a visitor that tells the sender
abbrev who : RequestVisitor.Visitor ℕ String
who = record {
  visit_login = λ m. m.sender;
  visit_message = λ m. m.sender;
  error = λ originator code text. originator;
}

visit-Answer_example :
    Answer L who
      (LoginRequest.to_json L (LoginRequest.login 3 "ann"))
      (RequestVisitor.visit L who (LoginRequest.to_json L (LoginRequest.login 3 "ann")))
visit-Answer_example = visit-Answer L who (LoginRequest.to_json L (LoginRequest.login 3 "ann"))

abbrev whose : ResponseVisitor.Visitor ℕ String
whose = record {
  visit_login = λ m. m.joining_username;
  visit_message = λ m. m.originator;
  error = λ originator code text. originator;
}

error_answer :
    ResponseVisitor.visit L whose (ErrorResponse.to_json L refused)
    ≡ ok (
        whose.error unknown_sender malformed_request_no_type
          ("Invalid object type tag specified (type=\"" ++ (ErrorResponse.type ++ "\")")))
error_answer = R.visit-error L whose refused
