-- ===== src/Server/Threads/Tests.antt =====
-- A run of the two threads: a client enters while the sender sleeps, and logs in as "ann" while it
-- has a round.
use se3313a_lab.Base.{
  arith, String, ℕ, Option, left, ◌≡◌, refl, true, some, List, [], ◌∷◌, ◌++◌, done, ok, size,
}
use se3313a_lab.Boost.{Library}
use se3313a_lab.Boost.Sample.{sample}
use se3313a_lab.Msg.Json.{from, clean, to_compact}
use se3313a_lab.Msg.Instance
use se3313a_lab.Msg.LoginRequest
use se3313a_lab.Msg.LoginResponse
use se3313a_lab.Msg.AnyInstance.{AnyInstance, login_response, to_json, get_type-of}
use se3313a_lab.Msg.RequestVisitor.Dispatch.{visit-login}
use se3313a_lab.Net.Socket.{read_vector, write}
use se3313a_lab.Server.Clients.{associate, name_in_use}
use se3313a_lab.Server.Login.{username-found}
use se3313a_lab.Net.World.{World}
use se3313a_lab.Net.SocketServer.{bind_to, accept}
use se3313a_lab.Net.FlexWaiter.{wait, dispatch, kill_event, first_ready, hold_event, add_socket}
use se3313a_lab.Server.Sample.{
  as_listed, world, ready, call, first, first-Legal, greeted, second, second-Legal,
}
use se3313a_lab.Server.{Server, start, send_all, visitor, visit_login, socket_event}
use se3313a_lab.Server.Invariant.{Inv}
use se3313a_lab.Server.Invariant.KillEvent.{waited}
use se3313a_lab.Server.Room.{Event, quiet, entered, named, announced, broadcast, RoomRun}
use se3313a_lab.Server.Room.Fifo.{announcements, broadcasts}
use se3313a_lab.Server.Threads.{
  MainAt, SenderAt, free, entering, sleeping, enters, heard, naming, resting, sending, Step, System,
  system, Run, here, follows, accepts, hears, replies, names, pushes, pushing, looks, begins, sends,
  clears, main_steps, hear, reply, conclude, settle, name_section, push_section,
}
use se3313a_lab.Server.Room.Names.{given, names_in, one_or_none}
use mathlib.Core.List.{Sublist}
use se3313a_lab.Server.Threads.Delivery.{texts_for, text_of}
use se3313a_lab.Server.Threads.Delivery.Pending.{pending_received}
use se3313a_lab.Server.Threads.Turns.{pending_broadcast}
use se3313a_lab.Server.Threads.Drain.{round_ends, swept}
use se3313a_lab.Server.Threads.Settled.{owed, announces}
use se3313a_lab.Server.Threads.Refines.{view}
use se3313a_lab.Server.Threads.Runs.{
  empty_room, Run-Inv, threads_refine_room, broadcast_in_order, names_announced,
}
use se3313a_lab.Server.Threads.Leads.{at_rest}
use se3313a_lab.Server.Threads.Rounds.{Started, Reach-Run}
use se3313a_lab.Server.Invariant.Tests.{no_json, greeted-Reach}
use se3313a_lab.Server.Threads.Sections.{sections, sections-socket_event}

abbrev pub ann : Library
ann = sample (λ s. some (LoginRequest.to_json no_json (LoginRequest.login 3 "ann")))

abbrev pub welcome : AnyInstance ℕ
welcome = login_response (LoginResponse.login 7 "ann")

abbrev pub opened : Server ℕ
opened = waited greeted.flex_waiter greeted

abbrev pub at : Server ℕ → MainAt ℕ → SenderAt ℕ → System ann
at = system ann

-- The connection is made while the sender looks at `killed`.
abbrev pub connected : Server ℕ
connected = record ready {
  flex_waiter = record (ready.flex_waiter) { kill_event_fd = some 4 };
  world = greeted.world;
}

pub connected-Step :
    Step ann as_listed (at ready free resting) quiet (at connected (entering 0) resting)
unfolding wait kill_event dispatch hold_event accept add_socket
connected-Step = main_steps (accepts first _ 0 greeted.world refl first-Legal refl refl) refl

pub greeted-Step :
    Step ann as_listed (at connected (entering 0) sleeping) (entered 0) (at greeted free sleeping)
unfolding add_socket
greeted-Step = main_steps (enters 0) refl

pub heard-Step :
    Step ann as_listed (at greeted free sleeping) quiet (at opened (heard 0 call "{}") sleeping)
unfolding wait kill_event dispatch first_ready hear read_vector hold_event
heard-Step = main_steps (hears second _ 0 opened _ refl second-Legal refl refl) refl

pub login_text : from ann "{}" ≡ ok (LoginRequest.to_json ann (LoginRequest.login 3 "ann"))
unfolding from clean LoginRequest.to_json LoginRequest.sub_to_json Instance.to_json
    Instance.base_json
login_text = refl

pub login_reply : reply ann 0 call "{}" opened ≡ done (naming 0 "ann" welcome) opened
unfolding reply conclude settle name_in_use visit_login
login_reply =
    rw (login_text, reply)
      (rw (visit-login ann (visitor 7 opened.sockets) (LoginRequest.login 3 "ann")) (
        rw (get_type-of ann welcome, conclude)
          (rw (username-found ann (LoginResponse.login 7 "ann"), settle) refl)))

-- The sender begins a round before the client has its name.
abbrev pub called : Server ℕ
called = name_section ann 0 "ann" opened

abbrev pub told : Server ℕ
told = push_section ann welcome (record called { message_queue = [] })

abbrev pub whole_text : World → ℕ → String → Option ℕ
whole_text w h text = some (size text)

abbrev pub wrote : World
wrote = left (send_all whole_text (to_compact ann (to_json ann welcome)) told.sockets told.world)

pub sent_all :
    send_all whole_text (to_compact ann (to_json ann welcome)) told.sockets told.world
    ≡ done tt wrote
unfolding send_all write associate hold_event
sent_all = refl

-- the events up to the point at which the login is queued
abbrev then : List (Event (AnyInstance ℕ)) → List (Event (AnyInstance ℕ))
then es =
    quiet
    ∷ quiet
    ∷ entered 0
    ∷ quiet
    ∷ quiet
    ∷ quiet
    ∷ named 0 "ann"
    ∷ quiet
    ∷ announced welcome
    ∷ es

abbrev round : List (Event (AnyInstance ℕ))
round = quiet ∷ quiet ∷ broadcast welcome ∷ []

abbrev events : List (Event (AnyInstance ℕ))
events = then round

abbrev pub last : System ann
last = at (record told { world = wrote }) free (sending [])

queued_run :
    (es : List (Event (AnyInstance ℕ))) (t : System ann)
    → Run ann as_listed (at told free resting) es t
    → Run ann as_listed (at ready free resting) (then es) t
queued_run es t more = follows connected-Step (
    follows (looks refl) (
      follows greeted-Step (
        follows heard-Step (
          follows (main_steps (replies 0 call "{}" opened _ login_reply) refl) (
            follows begins (
              follows (main_steps (names 0 "ann" welcome) refl)
                (follows clears (follows (main_steps (pushes welcome) refl) more))))))))

round_run : Run ann as_listed (at told free resting) round last
round_run = follows (looks refl) (follows begins (follows (sends whole_text wrote sent_all) here))

run : Run ann as_listed (at ready free resting) events last
run = queued_run round last round_run

pub is_started : start 3313 (some 3) true "" world ≡ done ready ready.world
unfolding start bind_to
is_started = refl

Run-Inv_example : Inv last.server
Run-Inv_example =
    Run-Inv ann as_listed (λ h hs. refl) 3313 3 "" world ready.world ready refl is_started last
      events run refl

threads_refine_room_example : RoomRun announces empty_room events (view ann last)
threads_refine_room_example =
    threads_refine_room ann as_listed (λ h hs. refl) 3313 3 "" world ready.world ready refl
      is_started last events run

broadcast_in_order_example : announcements events ≡ broadcasts events ++ (view ann last).pending
broadcast_in_order_example =
    broadcast_in_order ann as_listed (λ h hs. refl) 3313 3 "" world ready.world ready refl
      is_started last events run

heard_sections : sections ann (hear ann 0 call opened) ≡ socket_event ann 0 call opened
heard_sections = sections-socket_event ann 0 call opened

-- the rounds of the other tests, as a run of the two threads
greeted_run :
    (s : Server ℕ) × Started no_json as_listed s
    × ((es : List (Event (AnyInstance ℕ))) × Run no_json as_listed
          (at_rest no_json as_listed s)
          es
          (at_rest no_json as_listed greeted))
greeted_run = Reach-Run no_json as_listed greeted greeted-Reach refl

names_announced_example :
    given events ≡ names_in announces (announcements events) ++ one_or_none (owed last.main_at)
names_announced_example =
    names_announced ann as_listed (λ h hs. refl) 3313 3 "" world ready.world ready refl is_started
      last events run

-- the sender in the middle of a round, and the main thread that waits to queue another message
abbrev second_login : AnyInstance ℕ
second_login = login_response (LoginResponse.login 8 "bob")

round_ends_example :
    (es : List (Event (AnyInstance ℕ))) × Run ann as_listed
      (at told (pushing second_login) (sending (welcome ∷ [])))
      es
      (at
        (swept ann as_listed whole_text (λ w h text. refl) [] (welcome ∷ []) told)
        (pushing second_login)
        resting)
    × (broadcasts es ≡ welcome ∷ [])
unfolding hold_event associate
round_ends_example =
    round_ends ann as_listed whole_text (λ w h text. refl) told (pushing second_login)
      (sending (welcome ∷ [])) refl (refl, tt)

pending_broadcast_example :
    (rest : List (AnyInstance ℕ)) × (broadcasts round ≡ welcome ∷ [] ++ rest)
unfolding round_run
pending_broadcast_example =
    pending_broadcast ann as_listed (λ h hs. refl) 3313 3 "" world ready.world ready refl is_started
      (at told free resting) last (then []) round (queued_run [] (at told free resting) here)
      round_run (omega arith)

pending_received_example :
    (new : List String) × (texts_for 5 last.server.world.written ≡ [] ++ new)
    × Sublist (text_of ann welcome ∷ []) new
unfolding round_run associate hold_event
pending_received_example =
    pending_received ann as_listed (λ h hs. refl) 3313 3 "" world ready.world ready refl is_started
      (at told free resting) last (then []) round (queued_run [] (at told free resting) here)
      round_run (tt, (tt, ((λ w h text. refl), tt))) refl 0 refl
      ((λ e. cc), ((λ e. cc), ((λ e. cc), tt))) (omega arith)
