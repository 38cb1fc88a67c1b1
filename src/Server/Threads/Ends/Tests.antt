-- ===== src/Server/Threads/Ends/Tests.antt =====
-- A run of the two threads in which a client leaves while its login is broadcast.
use se3313a_lab.Base.{
  ℕ, ◌≡◌, refl, false, some, List, [], ◌∷◌, Fault, thrown, inl, runtime_error, arith, size,
}
use se3313a_lab.Msg.AnyInstance.{AnyInstance, to_json}
use se3313a_lab.Msg.Json.{to_compact}
use se3313a_lab.Net.World.{World, set_open}
use se3313a_lab.Net.Socket.{read_vector, write}
use se3313a_lab.Net.SocketServer.{accept}
use se3313a_lab.Net.FlexWaiter.{
  wait, dispatch, kill_event, first_ready, hold_event, add_socket, the_set, open_fds,
}
use se3313a_lab.Server.{Server, send_all}
use se3313a_lab.Server.Clients.{associate}
use se3313a_lab.Server.Invariant.KillEvent.{Legal}
use se3313a_lab.Server.Listen.{Round}
use se3313a_lab.Server.Room.{Event, quiet, entered, named, announced}
use se3313a_lab.Server.Sample.{
  as_listed, world, ready, call, first, first-Legal, second, second-Legal, greeted,
}
use se3313a_lab.Server.Threads.{
  MainAt, SenderAt, free, closing, resting, sleeping, sending, Run, Step, here, follows, main_steps,
  looks, begins, clears, accepts, enters, hears, replies, names, pushes, hear,
}
use se3313a_lab.Server.Threads.Tests.{
  ann, welcome, opened, at, told, whole_text, login_reply, is_started,
}
use se3313a_lab.Server.Threads.Ends.{Ends, send_throws, Fair, CalmRun, Serves}
use se3313a_lab.Server.Threads.Ends.Race.{Races, ends_in_race, race_ends}
use se3313a_lab.Server.Threads.Ends.Progress.{main_goes_on}

-- The client's connection is reported and has been shut.
abbrev third : Round ℕ
third = record second { call = record call { received = some "" } }

third-Legal : Legal as_listed third told
unfolding kill_event hold_event the_set open_fds associate
third-Legal = record {
  fresh_event = λ fd n e. ground arith;
  fresh_client = λ fd k w e a. ground arith;
  asked = λ k w fds e s fd m. ground arith;
}

abbrev announcing : SenderAt ℕ
announcing = sending (welcome ∷ [])

abbrev left_behind : Server ℕ
left_behind = record told { world = set_open 0 false (hold_event told.flex_waiter told.world) }

abbrev events : List (Event (AnyInstance ℕ))
events =
    quiet
    ∷ quiet
    ∷ entered 0
    ∷ quiet
    ∷ quiet
    ∷ quiet
    ∷ named 0 "ann"
    ∷ quiet
    ∷ announced welcome
    ∷ quiet
    ∷ quiet
    ∷ quiet
    ∷ []

run : Run ann as_listed (at ready free resting) events (at left_behind (closing 0) announcing)
unfolding wait kill_event dispatch first_ready hear read_vector hold_event associate accept
    add_socket
run = follows (main_steps (accepts first _ 0 greeted.world refl first-Legal refl refl) refl) (
    follows (looks refl) (
      follows (main_steps (enters 0) refl) (
        follows (main_steps (hears second _ 0 opened _ refl second-Legal refl refl) refl) (
          follows (main_steps (replies 0 call "{}" opened _ login_reply) refl) (
            follows begins (
              follows (main_steps (names 0 "ann" welcome) refl) (
                follows clears (
                  follows (main_steps (pushes welcome) refl) (
                    follows (looks refl) (
                      follows begins (
                        follows
                          (main_steps (hears third _ 0 left_behind _ refl third-Legal refl refl)
                            refl)
                          here)))))))))))

sender-Ends :
    Ends ann as_listed
      (at left_behind (closing 0) announcing)
      (runtime_error "Can not write to closed socket.")
unfolding send_all write associate hold_event
sender-Ends = send_throws whole_text left_behind.world refl

run-Calm : CalmRun ann as_listed run
unfolding run
run-Calm =
    (tt, (tt, (tt, (("{}", refl), (tt, (tt, (tt, (tt, (tt, (tt, (tt, (("", refl), tt))))))))))))

sender-Fair : Fair ann as_listed sender-Ends
unfolding sender-Ends
sender-Fair w h text = (size text, refl)

ends_in_race_example : Races ann (at left_behind (closing 0) announcing)
ends_in_race_example =
    ends_in_race ann as_listed (λ h hs. refl) 3313 3 "" world ready.world ready refl is_started
      (at left_behind (closing 0) announcing) events run _ sender-Ends run-Calm sender-Fair refl

race_ends_example :
    (f : Fault) × (w : World) × (send_all whole_text
        (to_compact ann (to_json ann welcome))
        left_behind.sockets
        left_behind.world
      ≡ thrown f w)
race_ends_example =
    race_ends ann as_listed (λ h hs. refl) 3313 3 "" world ready.world ready refl is_started
      (at left_behind (closing 0) announcing) events run 0 refl welcome whole_text

-- After the client has entered, a round in which its login comes.
abbrev serving : Round ℕ
serving = record {
  answers = record {
    eventfd = some 9;
    select = some (5 ∷ []);
    kill_read = 8;
    stdin_read = some "hi";
  };
  call = call;
  accepted = some 6;
  errno = "";
}

serving-Legal : Legal as_listed serving greeted
unfolding kill_event hold_event the_set open_fds
serving-Legal = record {
  fresh_event = λ fd n e. ground arith;
  fresh_client = λ fd k w e a. ground arith;
  asked = λ k w fds e s fd m. ground arith;
}

serving-Serves : Serves serving
serving-Serves = record {
  event = 9;
  event_made = refl;
  ready = 5 ∷ [];
  selected = refl;
  kill_whole = inl refl;
  line = "hi";
  line_read = refl;
  line_fits = omega arith;
  client = 6;
  accepted = refl;
}

pub entered_run :
    Run ann as_listed
      (at ready free resting)
      (quiet ∷ quiet ∷ entered 0 ∷ [])
      (at greeted free sleeping)
unfolding wait kill_event dispatch hold_event accept add_socket
entered_run =
    follows (main_steps (accepts first _ 0 greeted.world refl first-Legal refl refl) refl)
      (follows (looks refl) (follows (main_steps (enters 0) refl) here))

entered_run-Calm : CalmRun ann as_listed entered_run
unfolding entered_run
entered_run-Calm = (tt, (tt, (tt, tt)))

main_goes_on_example :
    (x : Event (AnyInstance ℕ)) × (s : Server ℕ) × (p : MainAt ℕ) × Step ann as_listed
      (at greeted free sleeping)
      x
      (at s p sleeping)
main_goes_on_example =
    main_goes_on ann as_listed (λ h hs. refl) 3313 3 "" world ready.world ready refl is_started
      (at greeted free sleeping) (quiet ∷ quiet ∷ entered 0 ∷ []) entered_run entered_run-Calm refl
      tt refl serving serving-Legal serving-Serves ("{}", refl)
