-- ===== src/Server/Broadcast.antt =====
-- What `sendMessages` writes, and when it throws.
pub mod Parts
use se3313a_lab.Base.{
  String, ℕ, ◌≡◌, refl, sym, ap, ◌∙◌, true, some, List, [], ◌∷◌, ◌++◌, done, size, erase_from,
}
use mathlib.Core.List.{append_assoc, append-nil}
use se3313a_lab.Boost.{Library}
use se3313a_lab.Msg.Json.{to_compact}
use se3313a_lab.Msg.AnyInstance.{AnyInstance, to_json}
use se3313a_lab.Net.World.{World, fd_of, open_at}
use se3313a_lab.Net.Socket.{write}
use se3313a_lab.Net.Socket.Laws.{write_open}
use se3313a_lab.Server.{
  Server, Writes, send_all, send_queue, send_pending, clear_queue, send_messages,
}
use se3313a_lab.Server.Clients.{Client}

-- Every client's socket is open.
abbrev pub AllOpen : World → List Client → Type 0
AllOpen w [] = Unit {0}
AllOpen w ((h, name) ∷ cs) = (open_at w h ≡ true) × AllOpen w cs

-- one text for each client
abbrev pub copies : World → String → List Client → List (ℕ × String)
copies w text [] = []
copies w text ((h, name) ∷ cs) = (fd_of w h, text) ∷ copies w text cs

pub size-erase_from : (s : String) → erase_from (size s) s ≡ s
unfolding erase_from
size-erase_from String.[] = refl
size-erase_from (String.◌∷◌ c s) = ap (String.◌∷◌ c) (size-erase_from s)

-- The system takes every text whole.
abbrev pub Accepts : Writes → Type 0
Accepts writes = (w : World) (h : ℕ) (text : String) → writes w h text ≡ some (size text)

-- No ::write fails; how much of a text each takes is the system's choice, at each write anew.
abbrev pub Takes : Writes → Type 0
Takes writes = (w : World) (h : ℕ) (text : String) → (n : ℕ) × (writes w h text ≡ some n)

abbrev pub add_log : World → List (ℕ × String) → World
add_log w log = record w { written = w.written ++ log }

-- A write that the system takes whole.
write_whole :
    (writes : Writes) (text : String) (h : ℕ) (w : World) (log : List (ℕ × String))
    → Accepts writes
    → open_at w h ≡ true
    → write (writes (add_log w log) h text) h text (add_log w log)
      ≡ done (some (size text)) (add_log w (log ++ (fd_of w h, text) ∷ []))
write_whole writes text h w log accepts o =
    ap (λ a. write a h text (add_log w log)) (accepts (add_log w log) h text)
    ∙ write_open text h (size text) (add_log w log) o
    ∙ ap
        (λ (x : String).
          done (some (size text))
            (record w { written = (w.written ++ log) ++ (fd_of w h, x) ∷ [] }))
        (size-erase_from text)
    ∙ ap (λ (x : List (ℕ × String)). done (some (size text)) (record w { written = x }))
        (append_assoc w.written log ((fd_of w h, text) ∷ []))

pub send_all_open :
    (writes : Writes) (text : String) (cs : List Client) (w : World) (log : List (ℕ × String))
    → Accepts writes
    → AllOpen w cs
    → send_all writes text cs (add_log w log) ≡ done tt (add_log w (log ++ copies w text cs))
unfolding send_all
send_all_open writes text [] w log accepts o =
    ap (λ (x : List (ℕ × String)). done tt (add_log w x)) (sym (append-nil log))
send_all_open writes text ((h, name) ∷ cs) w log accepts (o, os) =
    rw (write_whole writes text h w log accepts o, send_all)
      (send_all_open writes text cs w (log ++ (fd_of w h, text) ∷ []) accepts os
        ∙ ap (λ (x : List (ℕ × String)). done tt (add_log w x))
            (append_assoc log ((fd_of w h, text) ∷ []) (copies w text cs)))

module _ (L : Library) where
  open L use {Time}

  -- every message of the queue for each client, oldest first
  abbrev pub deliveries : World → List (AnyInstance Time) → List Client → List (ℕ × String)
  deliveries w [] cs = []
  deliveries w (m ∷ ms) cs = copies w (to_compact L (to_json L m)) cs ++ deliveries w ms cs

  send_queue_open :
      (writes : Writes) (ms : List (AnyInstance Time)) (cs : List Client) (w : World)
      (log : List (ℕ × String))
      → Accepts writes
      → AllOpen w cs
      → send_queue L writes ms cs (add_log w log) ≡ done tt (add_log w (log ++ deliveries w ms cs))
  unfolding send_queue
  send_queue_open writes [] cs w log accepts o =
      ap (λ (x : List (ℕ × String)). done tt (add_log w x)) (sym (append-nil log))
  send_queue_open writes (m ∷ ms) cs w log accepts o =
      let text = to_compact L (to_json L m) in
      rw (send_all_open writes text cs w log accepts o, send_queue)
        (send_queue_open writes ms cs w (log ++ copies w text cs) accepts o
          ∙ ap (λ (x : List (ℕ × String)). done tt (add_log w x))
              (append_assoc log (copies w text cs) (deliveries w ms cs)))

  pending :
      (writes : Writes) (q : List (AnyInstance Time)) (s : Server Time)
      → s.message_queue ≡ q
      → send_pending L writes q s ≡ clear_queue L (send_queue L writes q s.sockets s.world) s
  unfolding send_pending send_queue
  pending writes [] s e =
      ap (λ (x : List (AnyInstance Time)). done tt (record s { message_queue = x })) e
  pending writes (m ∷ ms) s e = refl

  -- An empty queue is no special case.
  pub send_messages-clear_queue :
      (writes : Writes) (s : Server Time)
      → send_messages L writes s
        ≡ clear_queue L (send_queue L writes s.message_queue s.sockets s.world) s
  unfolding send_messages
  send_messages-clear_queue writes s = pending writes s.message_queue s refl

  -- If every client's socket is open and the system takes every text whole, a round writes each
  -- queued message once to each client, message by message in the order of the queue and client by
  -- client in the order of the vector, and empties the queue; nothing else of the server changes.
  pub send_messages_open :
      (writes : Writes) (s : Server Time)
      → Accepts writes
      → AllOpen s.world s.sockets
      → send_messages L writes s
        ≡ done tt (record s {
          world = add_log s.world (deliveries s.world s.message_queue s.sockets);
          message_queue = [];
        })
  send_messages_open writes s accepts o =
      send_messages-clear_queue writes s
      ∙ ap (λ x. clear_queue L x s)
          (ap
              (λ (x : List (ℕ × String)).
                send_queue L writes s.message_queue s.sockets (record (s.world) { written = x }))
              (sym (append-nil s.world.written))
            ∙ send_queue_open writes s.message_queue s.sockets s.world [] accepts o)
