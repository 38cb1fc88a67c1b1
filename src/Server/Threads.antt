-- ===== src/Server/Threads.antt =====
-- The two threads of server/server/src/server.cpp with what they do between their locks: `onSocket`
-- and `onSocketServer` are cut into the sections that they make of `socketsLock` and
-- `messageQueueLock`, and a round of `sendMessages` into one step for each message, so that a
-- broadcast may fall between two sections.
pub mod Sections
pub mod Settled
pub mod Good
pub mod Members
pub mod Refines
pub mod Runs
pub mod Leads
pub mod Rounds
pub mod Drain
pub mod Ends
pub mod Delivery
pub mod Turns
pub mod Tests
use se3313a_lab.Base.{
  String, ℕ, Bool, true, false, ◌≡◌, Option, none, some, List, [], ◌∷◌, ◌++◌, if◌then◌else◌,
  text_eq, Except, ok, throw, null_dereference, Outcome, done, thrown,
}
use se3313a_lab.Boost.{Library}
use se3313a_lab.Msg.Json.{from, to_compact}
use se3313a_lab.Msg.Instance.{get_or_throw, property_type}
use se3313a_lab.Msg.LoginResponse
use se3313a_lab.Msg.ErrorResponse
use se3313a_lab.Msg.AnyInstance.{AnyInstance, login_response, to_json}
use se3313a_lab.Msg.RequestVisitor.{visit}
use se3313a_lab.Net.World.{World, fd_of}
use se3313a_lab.Net.Socket.{read_vector, write}
use se3313a_lab.Net.SocketServer.{accept}
use se3313a_lab.Net.FlexWaiter.{
  FlexWaiter, Activity, nothing, on_stdin, on_socket_server, on_socket, wait, add_socket,
}
use se3313a_lab.Server.{
  Server, SocketCall, Writes, visitor, in_world, is_zero, disconnect, send_all,
}
use se3313a_lab.Server.Clients.{Client, associate}
use se3313a_lab.Server.Invariant.KillEvent.{Legal, waited}
use se3313a_lab.Server.Listen.{Round, stop}
use se3313a_lab.Server.Room.{Event, quiet, entered, departed, named, announced, broadcast}

-- Where the main thread stands: in `wait` or before it, or in a callback before a section.
pub data MainAt (Time : Type 0) : Type 0 where
  free : MainAt Time
  -- with a new connection, before `sockets.push_back`
  entering : ℕ → MainAt Time
  -- before the loop that removes the client of a shut connection
  closing : ℕ → MainAt Time
  -- before `visit`, with the text received
  heard : ℕ → SocketCall Time → String → MainAt Time
  -- before the write of an error
  refusing : ℕ → SocketCall Time → AnyInstance Time → MainAt Time
  -- before the loop that associates the username with the client
  naming : ℕ → String → AnyInstance Time → MainAt Time
  -- before `messageQueue.push_back`
  pushing : AnyInstance Time → MainAt Time
  -- in `stop`, with `killed` set, before its section
  stopping : MainAt Time

-- Where the sender thread stands: before the test of `killed`, before its section of the queue, or in
-- it with the messages that are still to be written.
pub data SenderAt (Time : Type 0) : Type 0 where
  resting : SenderAt Time
  sleeping : SenderAt Time
  sending : List (AnyInstance Time) → SenderAt Time

module _ (L : Library) where
  open L use {Time}

  -- `onSocket` up to the test of `bytes_read`
  unfoldable pub hear : ℕ → SocketCall Time → Server Time → Outcome (Server Time) (MainAt Time)
  hear h c s = elim (read_vector c.received h "" s.world) [
    | thrown e w ↦ thrown e (record s { world = w })
    | done (bytes_read, contents) w ↦
        if is_zero bytes_read
        then done (closing h) (record s { world = w })
        else done (heard h c contents) (record s { world = w })
  ]

  -- `onSocket` from the type of the response to the next section, or to the write of an error
  unfoldable pub settle :
      ℕ
      → SocketCall Time
      → AnyInstance Time
      → String
      → Server Time
      → Outcome (Server Time) (MainAt Time)
  settle h c response type s =
      if text_eq type ErrorResponse.type
      then done (refusing h c response) s
      else if text_eq type LoginResponse.type
      then elim (get_or_throw L "object.joiningUsername" (to_json L response)) [
        | throw e ↦ thrown e s
        | ok username ↦ done (naming h username response) s
      ]
      else done (pushing response) s

  -- for what the visitor returned
  unfoldable pub conclude :
      ℕ
      → SocketCall Time
      → Option (AnyInstance Time)
      → Server Time
      → Outcome (Server Time) (MainAt Time)
  conclude h c none s = thrown null_dereference s
  conclude h c (some response) s = elim (get_or_throw L property_type (to_json L response)) [
    | throw e ↦ thrown e s
    | ok type ↦ settle h c response type s
  ]

  -- `onSocket` from the parse on: `visitLogin` has the section in which it looks for the username
  unfoldable pub reply :
      ℕ → SocketCall Time → String → Server Time → Outcome (Server Time) (MainAt Time)
  reply h c msg s = elim (from L msg) [
    | throw e ↦ thrown e s
    | ok parsed ↦ elim (visit L (visitor c.now s.sockets) parsed) [
      | throw e ↦ thrown e s
      | ok response ↦ conclude h c response s
    ]
  ]

  -- the section of `onSocketServer`
  abbrev pub enter_section : ℕ → Server Time → Server Time
  enter_section h s = record s {
    sockets = s.sockets ++ (h, "") ∷ [];
    flex_waiter = add_socket h s.flex_waiter;
  }

  -- the sections of `onSocket` that give a name and that queue the response
  abbrev pub name_section : ℕ → String → Server Time → Server Time
  name_section h username s = record s {
    sockets = associate s.world (fd_of s.world h) username s.sockets;
  }

  abbrev pub push_section : AnyInstance Time → Server Time → Server Time
  push_section response s = record s { message_queue = s.message_queue ++ response ∷ [] }

  -- The sender keeps the queue's mutex for its whole round, so that a push waits for its end.
  abbrev pub may_go : MainAt Time → SenderAt Time → Bool
  may_go (pushing m) (sending ms) = false
  may_go _ _ = true

  module _ (order : List ℕ → List ℕ) where
    -- A step of the main thread from the server `s`.
    pub data MainStep (s : Server Time)
        : MainAt Time → Event (AnyInstance Time) → Server Time → MainAt Time → Type 0 where
      waits :
          (r : Round Time) (w : FlexWaiter)
          → s.killed ≡ false
          → Legal order r s
          → wait order r.answers s.world s.flex_waiter ≡ done nothing w
          → MainStep s free quiet (waited w s) free
      reads_line :
          (r : Round Time) (w : FlexWaiter) (line : String)
          → s.killed ≡ false
          → Legal order r s
          → wait order r.answers s.world s.flex_waiter ≡ done (on_stdin line) w
          → text_eq line "exit" ≡ false
          → MainStep s free quiet (waited w s) free
      reads_exit :
          (r : Round Time) (w : FlexWaiter) (line : String)
          → s.killed ≡ false
          → Legal order r s
          → wait order r.answers s.world s.flex_waiter ≡ done (on_stdin line) w
          → text_eq line "exit" ≡ true
          → MainStep s free quiet (record (waited w s) { killed = true }) stopping
      stops : MainStep s stopping quiet (stop s) free
      accepts :
          (r : Round Time) (w : FlexWaiter) (h : ℕ) (net : World)
          → s.killed ≡ false
          → Legal order r s
          → wait order r.answers s.world s.flex_waiter ≡ done on_socket_server w
          → accept r.accepted r.errno (waited w s).world ≡ done h net
          → MainStep s free quiet (record (waited w s) { world = net }) (entering h)
      enters : (h : ℕ) → MainStep s (entering h) (entered h) (enter_section h s) free
      hears :
          (r : Round Time) (w : FlexWaiter) (h : ℕ) (s' : Server Time) (p : MainAt Time)
          → s.killed ≡ false
          → Legal order r s
          → wait order r.answers s.world s.flex_waiter ≡ done (on_socket h) w
          → hear h r.call (waited w s) ≡ done p s'
          → MainStep s free quiet s' p
      removes : (h : ℕ) → MainStep s (closing h) (departed h) (disconnect h s) free
      replies :
          (h : ℕ) (c : SocketCall Time) (text : String) (s' : Server Time) (p : MainAt Time)
          → reply h c text s ≡ done p s'
          → MainStep s (heard h c text) quiet s' p
      refuses :
          (h : ℕ) (c : SocketCall Time) (m : AnyInstance Time) (n : Option ℕ) (w : World)
          → write c.written h (to_compact L (to_json L m)) s.world ≡ done n w
          → MainStep s (refusing h c m) quiet (record s { world = w }) free
      names :
          (h : ℕ) (username : String) (m : AnyInstance Time)
          → MainStep s
              (naming h username m)
              (named h username)
              (name_section h username s)
              (pushing m)
      pushes : (m : AnyInstance Time) → MainStep s (pushing m) (announced m) (push_section m s) free

  pub record System : Type 0 where
    pub server : Server Time
    pub main_at : MainAt Time
    pub sender_at : SenderAt Time

  abbrev pub system : Server Time → MainAt Time → SenderAt Time → System
  system s p q = record { server = s; main_at = p; sender_at = q }

  -- A step of one of the threads that throws nothing.
  pub data Step (order : List ℕ → List ℕ)
      : System → Event (AnyInstance Time) → System → Type 0 where
    main_steps :
        {s s' : Server Time} {p p' : MainAt Time} {q : SenderAt Time} {e : Event (AnyInstance Time)}
        → MainStep order s p e s' p'
        → may_go p q ≡ true
        → Step order (system s p q) e (system s' p' q)
    looks :
        {s : Server Time} {p : MainAt Time}
        → s.killed ≡ false
        → Step order (system s p resting) quiet (system s p sleeping)
    begins :
        {s : Server Time} {p : MainAt Time}
        → Step order (system s p sleeping) quiet (system s p (sending s.message_queue))
    sends :
        {s : Server Time} {p : MainAt Time} {m : AnyInstance Time} {ms : List (AnyInstance Time)}
        (writes : Writes) (w : World)
        → send_all writes (to_compact L (to_json L m)) s.sockets s.world ≡ done tt w
        → Step order
            (system s p (sending (m ∷ ms)))
            (broadcast m)
            (system (record s { world = w }) p (sending ms))
    clears :
        {s : Server Time} {p : MainAt Time}
        → Step order
            (system s p (sending []))
            quiet
            (system (record s { message_queue = [] }) p resting)

  -- A run of the two threads with its events.
  pub data Run (order : List ℕ → List ℕ)
      : System → List (Event (AnyInstance Time)) → System → Type 0 where
    here : {t : System} → Run order t [] t
    follows :
        {t t' t'' : System} {e : Event (AnyInstance Time)} {es : List (Event (AnyInstance Time))}
        → Step order t e t'
        → Run order t' es t''
        → Run order t (e ∷ es) t''
