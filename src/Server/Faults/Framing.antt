-- ===== src/Server/Faults/Framing.antt =====
-- Two requests that one ::recv brings.
use Prim.Native.String.{◌++◌}
use text.Mathlib.TextLemmas.{append_assoc}
use se3313a_lab.Base.{
  String, ℕ, ◌≡◌, refl, sym, ap, ◌∙◌, ◌≢◌, true, arith, size, size-append, none, some, throw,
  json_parser_error, thrown,
}
use se3313a_lab.Boost.{Library}
use se3313a_lab.Msg.Json.{from, clean}
use se3313a_lab.Msg.Json.Clean.{clean_framed}
use se3313a_lab.Net.World.{open_at}
use se3313a_lab.Server.{Server, SocketCall, socket_event}
use se3313a_lab.Server.Login.{socket_event-handle}
use se3313a_lab.Server.Faults.Requests.{handle-throw}

-- two lines, of which the second ends with a closing brace
abbrev pub two_lines : String → String → String
two_lines first second = first ++ ("\n" ++ (second ++ ("}" ++ "\n")))

two_lines-ne : (first second : String) → two_lines first second ≢ ""
two_lines-ne first second e = omega (
  arith,
  ap size e,
  size-append first ("\n" ++ (second ++ ("}" ++ "\n"))),
  size-append "\n" (second ++ ("}" ++ "\n")),
)

clean-two_lines :
    (first second : String) → clean (two_lines first second) ≡ first ++ ("\n" ++ (second ++ "}"))
clean-two_lines first second =
    ap clean (
      sym (
        append_assoc first ("\n" ++ second) ("}" ++ "\n")
        ∙ ap (◌++◌ first) (append_assoc "\n" second ("}" ++ "\n"))))
    ∙ clean_framed (first ++ ("\n" ++ second)) "" "" refl refl
    ∙ append_assoc first ("\n" ++ second) "}"
    ∙ ap (◌++◌ first) (append_assoc "\n" second "}")

module _ (L : Library) where
  open L use {Tree, Time}

  -- The reader refuses a JSON text that is followed by more text.
  abbrev pub RefusesMore : Type 0
  RefusesMore =
      (first more : String) (t : Tree)
      → L.read_json first ≡ some t
      → L.read_json (first ++ ("\n" ++ (more ++ "}"))) ≡ none

  from-two_lines :
      (first second : String) (t : Tree)
      → RefusesMore
      → L.read_json first ≡ some t
      → from L (two_lines first second) ≡ throw json_parser_error
  unfolding from
  from-two_lines first second t refuses e =
      rw (clean-two_lines first second, from) (rw (refuses first second t e) refl)

  -- If one ::recv on an open socket brings two lines, of which the first is a JSON text and the second
  -- ends with a closing brace, as when a client sends two requests before the server reads, the
  -- trimming leaves both in one text, and `onSocket` throws the exception of the reader, so that
  -- neither is answered. It is given that the reader refuses a JSON text that is followed by more text.
  pub two_requests_throw :
      (h : ℕ) (c : SocketCall Time) (s : Server Time) (first second : String) (t : Tree)
      → open_at s.world h ≡ true
      → c.received ≡ some (two_lines first second)
      → RefusesMore
      → L.read_json first ≡ some t
      → socket_event L h c s ≡ thrown json_parser_error s
  two_requests_throw h c s first second t o r refuses e =
      socket_event-handle L h c (two_lines first second) s o r (two_lines-ne first second)
      ∙ handle-throw L h c s (two_lines first second) json_parser_error
          (from-two_lines first second t refuses e)
