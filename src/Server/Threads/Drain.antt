-- ===== src/Server/Threads/Drain.antt =====
-- The round of the sender, from where it stands.
use se3313a_lab.Base.{String, ℕ, false, ◌≡◌, refl, sym, ap, List, [], ◌∷◌, ◌++◌, subst}
use mathlib.Core.List.{append-nil, append_assoc}
use se3313a_lab.Boost.{Library}
use se3313a_lab.Msg.Json.{to_compact}
use se3313a_lab.Msg.AnyInstance.{AnyInstance, to_json}
use se3313a_lab.Server.{Server, Writes}
use se3313a_lab.Server.Broadcast.{AllOpen, Accepts, add_log, copies, deliveries, send_all_open}
use se3313a_lab.Server.Room.{Event, quiet, broadcast}
use se3313a_lab.Server.Room.Fifo.{broadcasts}
use se3313a_lab.Server.Threads.{
  MainAt, SenderAt, resting, sending, system, begins, looks, sleeping, sends, clears, Run, here,
  follows,
}
use se3313a_lab.Server.Threads.Refines.{pending_of}

module _ (L : Library) (order : List ℕ → List ℕ) (writes : Writes) (whole : Accepts writes) where
  open L use {Time}

  -- one step for each message, and the end of the round
  abbrev round_events : List (AnyInstance Time) → List (Event (AnyInstance Time))
  round_events [] = quiet ∷ []
  round_events (m ∷ ms) = broadcast m ∷ round_events ms

  broadcasts-round_events : (ms : List (AnyInstance Time)) → broadcasts (round_events ms) ≡ ms
  broadcasts-round_events [] = refl
  broadcasts-round_events (m ∷ ms) = ap (◌∷◌ m) (broadcasts-round_events ms)

  -- the server when the messages are written, each once to each client, and the queue is cleared
  abbrev pub swept : List (ℕ × String) → List (AnyInstance Time) → Server Time → Server Time
  swept log ms s = record s {
    world = add_log s.world (log ++ deliveries L s.world ms s.sockets);
    message_queue = [];
  }

  round-Run :
      (ms : List (AnyInstance Time)) (p : MainAt Time) (s : Server Time) (log : List (ℕ × String))
      → AllOpen s.world s.sockets
      → Run L order
          (system L (record s { world = add_log s.world log }) p (sending ms))
          (round_events ms)
          (system L (swept log ms s) p resting)
  round-Run [] p s log o =
      subst
        (λ x.
          Run L order (system L (record s { world = add_log s.world log }) p (sending []))
            (quiet ∷ [])
            (system L (record s { world = add_log s.world x; message_queue = [] }) p resting))
        (sym (append-nil log)) (follows clears here)
  round-Run (m ∷ ms) p s log o =
      let text = to_compact L (to_json L m) in
      let more = copies s.world text s.sockets in
      follows (sends writes _ (send_all_open writes text s.sockets s.world log whole o)) (
        subst
          (λ x.
            Run L order
              (system L (record s { world = add_log s.world (log ++ more) }) p (sending ms))
              (round_events ms)
              (system L (record s { world = add_log s.world x; message_queue = [] }) p resting))
          (append_assoc log more (deliveries L s.world ms s.sockets))
          (round-Run ms p s (log ++ more) o))

  -- from the middle of a round
  sending-Run :
      (ms : List (AnyInstance Time)) (p : MainAt Time) (s : Server Time)
      → AllOpen s.world s.sockets
      → Run L order
          (system L s p (sending ms))
          (round_events ms)
          (system L (swept [] ms s) p resting)
  sending-Run ms p s o =
      subst
        (λ x.
          Run L order
            (system L (record s { world = record (s.world) { written = x } }) p (sending ms))
            (round_events ms) (system L (swept [] ms s) p resting))
        (append-nil s.world.written) (round-Run ms p s [] o)

  -- If the server is not killed, every client's socket is open and the system takes every text
  -- whole, the sender can come to the end of a round by steps of its own from wherever the two
  -- threads stand, also in the middle of a round and while the main thread waits to queue a
  -- response: every pending message is then broadcast in order and written once to each client,
  -- the queue is empty, and nothing else of the server has changed.
  pub round_ends :
      (s : Server Time) (p : MainAt Time) (q : SenderAt Time)
      → s.killed ≡ false
      → AllOpen s.world s.sockets
      → (es : List (Event (AnyInstance Time))) × Run L order
          (system L s p q)
          es
          (system L (swept [] (pending_of q s) s) p resting)
        × (broadcasts es ≡ pending_of q s)
  round_ends s p resting k o = (
    quiet ∷ quiet ∷ round_events s.message_queue,
    follows (looks k) (follows begins (sending-Run s.message_queue p s o)),
    broadcasts-round_events s.message_queue,
  )
  round_ends s p sleeping k o = (
    quiet ∷ round_events s.message_queue,
    follows begins (sending-Run s.message_queue p s o),
    broadcasts-round_events s.message_queue,
  )
  round_ends s p (sending ms) k o =
      (round_events ms, sending-Run ms p s o, broadcasts-round_events ms)
