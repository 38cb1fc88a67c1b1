-- ===== src/Server/Tests/Framing.antt =====
-- Two requests in one text on a concrete input: a reader that knows one text only.
use Prim.Native.String.{◌++◌}
use se3313a_lab.Base.{
  String, ◌≡◌, refl, ap, ◌≢◌, none, some, if◌then◌else◌, thrown, arith, size, size-append, text_eq,
  text_eq-ne, eq_iff, json_parser_error,
}
use se3313a_lab.Boost.{Library}
use se3313a_lab.Boost.Sample.{node, nil, sample}
use se3313a_lab.Server.{socket_event}
use se3313a_lab.Server.Faults.Framing.{RefusesMore, two_lines, two_requests_throw}
use se3313a_lab.Server.Tests.{server, call}

abbrev one_text : Library
one_text = sample (λ s. if text_eq s "{}" then some (node "" nil) else none)

longer : (first rest : String) → first ≡ "{}" → first ++ ("\n" ++ rest) ≢ "{}"
longer first rest e f =
    omega (arith, ap size e, ap size f, size-append first ("\n" ++ rest), size-append "\n" rest)

known : (first : String) (t : one_text.Tree) → one_text.read_json first ≡ some t → first ≡ "{}"
known first t e = ground (arith, eq_iff first "{}")

one_text-RefusesMore : RefusesMore one_text
one_text-RefusesMore first more t e =
    rw
      (text_eq-ne (first ++ ("\n" ++ (more ++ "}"))) "{}"
        (longer first (more ++ "}") (known first t e)))
      refl

two_requests_throw_example :
    socket_event one_text 1 (record call { received = some (two_lines "{}" "{") }) server
    ≡ thrown json_parser_error server
two_requests_throw_example =
    two_requests_throw one_text 1 (record call { received = some (two_lines "{}" "{") }) server "{}"
      "{" (node "" nil) refl refl one_text-RefusesMore refl
