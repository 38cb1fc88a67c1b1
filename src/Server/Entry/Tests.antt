-- ===== src/Server/Entry/Tests.antt =====
-- A program that accepts one client and then reads "exit".
use se3313a_lab.Base.{
  Outcome, Fault, thrown, ap, mem, if◌then◌else◌, ℕ, ◌≡◌, refl, true, none, some, [], ◌∷◌, done,
  All, false,
}
use se3313a_lab.Net.World.{open_at}
use se3313a_lab.Net.SocketServer.{bind_to, accept}
use se3313a_lab.Net.FlexWaiter.{wait, dispatch, kill_event, hold_event, add_socket, first_ready}
use se3313a_lab.Server.{Server, start, socket_server_event}
use se3313a_lab.Server.Clients.{handles, associate, name_in_use}
use se3313a_lab.Server.Entry.{listens, tests, sends, run, main, destroy_server}
use se3313a_lab.Server.Entry.Release.{stop_releases}
use se3313a_lab.Net.FlexWaiter.{open_fds}
use se3313a_lab.Server.Entry.Exit.{exit_ends, exit_aborts}
use se3313a_lab.Server.Invariant.KillEvent.{waited}
use se3313a_lab.Server.Invariant.Tests.{no_json}
use se3313a_lab.Server.Listen.{Round, listen_round, notify, stop}
use se3313a_lab.Server.Threads.Tests.{ann, welcome, opened, whole_text, login_text}
use se3313a_lab.Server.Login.{login_accepted}
use se3313a_lab.Msg.LoginRequest
use se3313a_lab.Net.World.{World}
use se3313a_lab.Server.Sample.{as_listed, world, ready, call, first, second, greeted}

abbrev typed : Round ℕ
typed = record second {
  answers = record {
    eventfd = none;
    select = some (0 ∷ []);
    kill_read = 0;
    stdin_read = some "exit";
  };
}

exit_ends_example :
    (main no_json as_listed 3313
        (some 3)
        true
        ""
        (tests ∷ listens first ∷ listens typed ∷ listens second ∷ [])
        world
      ≡ done (some 0) (destroy_server (stop (waited greeted.flex_waiter greeted))))
    × All
        (λ h. open_at (destroy_server (stop (waited greeted.flex_waiter greeted))) h ≡ false)
        (handles greeted.sockets)
unfolding start bind_to run listen_round wait kill_event dispatch notify socket_server_event accept
    hold_event add_socket
exit_ends_example =
    exit_ends no_json as_listed 3313 3 "" world ready.world ready greeted
      (tests ∷ listens first ∷ []) true typed greeted.flex_waiter refl refl refl refl second []

-- The client has logged in as "ann", and the response is queued while the sender sleeps.
abbrev logged_in : Server ℕ
logged_in = record opened {
  sockets = associate opened.world 5 "ann" opened.sockets;
  message_queue = welcome ∷ [];
}

login_round : listen_round ann as_listed second greeted ≡ done tt logged_in
unfolding listen_round wait kill_event dispatch first_ready notify hold_event name_in_use associate
login_round =
    login_accepted ann 0 call "{}" (LoginRequest.login 3 "ann") opened refl refl (λ e. cc)
      login_text refl

login_turns :
    run ann as_listed false (tests ∷ listens first ∷ listens second ∷ []) ready
    ≡ done (false, true) logged_in
unfolding run listen_round wait kill_event dispatch notify socket_server_event accept hold_event
    add_socket
login_turns =
    ap
      (λ (o : Outcome (Server ℕ) (Unit {0})). elim o [
        | thrown e s ↦ thrown e s
        | done _ s ↦ run ann as_listed true [] s
      ])
      login_round

exit_aborts_example :
    (e : Fault) × (v : World) × (main ann as_listed 3313
        (some 3)
        true
        ""
        (tests ∷ listens first ∷ listens second ∷ listens typed ∷ sends whole_text ∷ [])
        world
      ≡ thrown e v)
unfolding start bind_to wait kill_event dispatch hold_event associate
exit_aborts_example =
    exit_aborts ann as_listed 3313 3 "" world ready.world ready logged_in
      (tests ∷ listens first ∷ listens second ∷ []) true typed logged_in.flex_waiter refl
      login_turns refl refl whole_text [] welcome [] (0, "ann") [] refl refl refl

-- The descriptor 3 of the listening socket, 4 of the kill event, and 5 of the client.
stop_releases_example : (destroy_server (stop greeted)).fds 3 ≡ (
    if mem 3 (4 ∷ open_fds greeted.world (handles greeted.sockets))
    then false
    else greeted.world.fds 3)
stop_releases_example = stop_releases greeted 4 3 refl (λ h m. m)
