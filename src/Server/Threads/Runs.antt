-- ===== src/Server/Threads/Runs.antt =====
-- The runs of the two threads from the start of the server.
use se3313a_lab.Base.{String, ℕ, ◌≡◌, refl, subst, true, false, none, some, List, [], ◌++◌, done}
use se3313a_lab.Boost.{Library}
use se3313a_lab.Msg.AnyInstance.{AnyInstance}
use se3313a_lab.Net.World.{World}
use se3313a_lab.Net.FlexWaiter.{stdin_fileno}
use se3313a_lab.Net.FlexWaiter.Dispatch.{Iterates}
use se3313a_lab.Server.{Server, start}
use se3313a_lab.Server.Invariant.{Inv}
use se3313a_lab.Server.Invariant.Reach.{start-fresh_server, started-Inv}
use se3313a_lab.Server.Room.{Room, Event, RoomRun}
use se3313a_lab.Server.Room.Fifo.{announcements, broadcasts, Fifo-RoomRun}
use se3313a_lab.Server.Threads.{free, resting, System, system, Run}
use se3313a_lab.Server.Threads.Settled.{announces, owed}
use se3313a_lab.Server.Room.Names.{given, names_in, one_or_none, given-RoomRun}
use se3313a_lab.Server.Threads.Good.{Good, Run-Good}
use se3313a_lab.Server.Threads.Refines.{view, Run-RoomRun}

-- the room without members
abbrev pub empty_room : {Message : Type 0} → Room Message
empty_room = record { members = λ j. none; owed = none; pending = [] }

module _ (L : Library) (order : List ℕ → List ℕ) (it : Iterates order) (port fd : ℕ)
    (errno : String) (w w' : World) (s : Server L.Time) where
  open L use {Time}

  module _ (held : w.fds stdin_fileno ≡ true)
      (e : start port (some fd) true errno w ≡ done s w') where
    pub started-Good : Good L order (system L s free resting)
    started-Good =
        subst (λ x. Good L order (system L x free resting))
          (start-fresh_server port fd errno w w' s e)
          (record { inv = λ k. started-Inv port fd w held; at = tt; lands = λ h e. cc })

    view-started : view L (system L s free resting) ≡ empty_room
    view-started =
        subst (λ x. view L (system L x free resting) ≡ empty_room)
          (start-fresh_server port fd errno w w' s e) refl

    -- A server that the two threads reach from the start, however the sections of a callback and
    -- the single broadcasts interleave, has the invariant unless it is stopped: its clients hold
    -- descriptors of their own that differ from those of standard input, of the listening socket
    -- and of the kill event, no two have the same username, and the waiter watches the sockets of
    -- the clients and no others. It is given that the process holds standard input at the start
    -- and that the iteration of a set visits its elements; what the system may answer is part of
    -- the steps.
    pub Run-Inv :
        (t : System L) (es : List (Event (AnyInstance Time)))
        → Run L order (system L s free resting) es t
        → t.server.killed ≡ false
        → Inv t.server
    Run-Inv t es run alive = (Run-Good L order it run started-Good).inv alive

    -- Every run of the two threads from the start of the server, however the sections of a
    -- callback and the single broadcasts interleave, is a run of a room that is empty at first,
    -- with the same events: clients enter and depart, a client is given a name only if no client
    -- has it, the response that gives it is announced before anyone else is given a name, and a
    -- broadcast takes the oldest announcement. It is given that the process holds standard input
    -- at the start and that the iteration of a set visits its elements; what the system may answer
    -- is part of the steps, which throw nothing.
    pub threads_refine_room :
        (t : System L) (es : List (Event (AnyInstance Time)))
        → Run L order (system L s free resting) es t
        → RoomRun announces empty_room es (view L t)
    threads_refine_room t es run =
        subst (λ r. RoomRun announces r es (view L t)) view-started
          (Run-RoomRun L order it run started-Good)

    -- In every run of the two threads from the start of the server, however they interleave, the
    -- messages that were queued are those that were broadcast, in the same order, followed by
    -- those that are still to be broadcast: none is lost, doubled or overtaken, also when it is
    -- queued around a round of the sender. It is given that the process holds standard input at
    -- the start and that the iteration of a set visits its elements; what the system may answer is
    -- part of the steps, which throw nothing.
    pub broadcast_in_order :
        (t : System L) (es : List (Event (AnyInstance Time)))
        → Run L order (system L s free resting) es t
        → announcements es ≡ broadcasts es ++ (view L t).pending
    broadcast_in_order t es run = Fifo-RoomRun announces (threads_refine_room t es run)

    -- In every run of the two threads from the start of the server, however they interleave, the
    -- names that were given to clients are those that the queued responses announce, in the same
    -- order, followed by the one whose response the main thread is about to queue, if there is
    -- one. It is given that the process holds standard input at the start and that the iteration
    -- of a set visits its elements; what the system may answer is part of the steps, which throw
    -- nothing.
    pub names_announced :
        (t : System L) (es : List (Event (AnyInstance Time)))
        → Run L order (system L s free resting) es t
        → given es ≡ names_in announces (announcements es) ++ one_or_none (owed t.main_at)
    names_announced t es run = given-RoomRun announces (threads_refine_room t es run)
