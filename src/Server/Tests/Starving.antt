-- ===== src/Server/Tests/Starving.antt =====
-- Two clients of which the first in the set talks in every round, on concrete inputs.
use se3313a_lab.Base.{ℕ, ◌≡◌, refl, none, some, [], ◌∷◌, done}
use se3313a_lab.Msg.MessageRequest
use se3313a_lab.Msg.MessageRequest.{MessageRequest}
use se3313a_lab.Server.{Server}
use se3313a_lab.Server.Listen.{Round, listen}
use se3313a_lab.Server.Faults.Starving.{
  Talks, Queued, rounds_of, responses_to, first_client_starves,
}
use se3313a_lab.Server.Tests.{server, call, message_of, message_text}

-- Both clients are ready.
abbrev both : Round ℕ
both = record {
  answers = record { eventfd = none; select = some (5 ∷ 6 ∷ []); kill_read = 0; stdin_read = none };
  call = call;
  accepted = none;
  errno = "";
}

abbrev hi : MessageRequest ℕ
hi = MessageRequest.message 3 "eve" "hi"

abbrev watching : Server ℕ
watching = record server { flex_waiter = record (server.flex_waiter) { kill_event_fd = some 4 } }

both-Talks : Talks message_of 6 4 (some 3) (both, hi)
both-Talks = record {
  ready = 5 ∷ 6 ∷ [];
  selected = refl;
  no_kill = refl;
  no_stdin = refl;
  no_master = refl;
  talker_ready = refl;
  text = "{}";
  received = refl;
  not_empty = λ e. cc;
  parses = message_text;
}

first_client_starves_example :
    (s : Server ℕ) × (listen message_of
        (λ hs. hs)
        (rounds_of message_of ((both, hi) ∷ (both, hi) ∷ []))
        watching
      ≡ done tt s)
    × Queued (responses_to message_of ((both, hi) ∷ (both, hi) ∷ [])) watching s
first_client_starves_example =
    first_client_starves message_of (λ hs. hs) 1 4 (0 ∷ []) ((both, hi) ∷ (both, hi) ∷ []) watching
      refl refl refl refl (both-Talks, (both-Talks, tt))
