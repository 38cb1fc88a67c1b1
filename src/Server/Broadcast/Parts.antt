-- ===== src/Server/Broadcast/Parts.antt =====
-- What `sendMessages` writes if the system takes texts in part.
use se3313a_lab.Base.{
  String, ℕ, ◌≡◌, refl, sym, ap, subst, ◌∙◌, some, List, [], ◌∷◌, ◌++◌, done, erase_from,
}
use mathlib.Core.List.{append_assoc, append-nil}
use se3313a_lab.Boost.{Library}
use se3313a_lab.Msg.Json.{to_compact}
use se3313a_lab.Msg.AnyInstance.{AnyInstance, to_json}
use se3313a_lab.Net.World.{World, fd_of}
use se3313a_lab.Net.Socket.{write}
use se3313a_lab.Net.Socket.Laws.{write_open}
use se3313a_lab.Server.{Server, Writes, send_all, send_queue, clear_queue, send_messages}
use se3313a_lab.Server.Clients.{Client}
use se3313a_lab.Server.Broadcast.{Takes, AllOpen, add_log, send_messages-clear_queue}

-- one text for each client, under the handle of its socket
abbrev pub copies_to : String → List Client → List (ℕ × String)
copies_to text [] = []
copies_to text ((h, name) ∷ cs) = (h, text) ∷ copies_to text cs

-- From the state `w`, each text is written in its turn to the socket of its handle, and the log has
-- its first n characters, where n is what ::write answers in the state of that moment.
abbrev pub Took : Writes → World → List (ℕ × String) → List (ℕ × String) → Type 0
Took writes w [] [] = Unit {0}
Took writes w [] (x ∷ due) = ⊥
Took writes w (x ∷ log) [] = ⊥
Took writes w ((fd, part) ∷ log) ((h, text) ∷ due) =
    (fd ≡ fd_of w h)
    × (n : ℕ) × (writes w h text ≡ some n)
    × (part ≡ erase_from n text)
    × Took writes (add_log w ((fd, part) ∷ [])) log due

add_log-append :
    (w : World) (log more : List (ℕ × String))
    → add_log (add_log w log) more ≡ add_log w (log ++ more)
add_log-append w log more =
    ap (λ (x : List (ℕ × String)). record w { written = x }) (append_assoc w.written log more)

AllOpen-log :
    (w : World) (log : List (ℕ × String)) (cs : List Client)
    → AllOpen w cs
    → AllOpen (add_log w log) cs
AllOpen-log w log [] o = tt
AllOpen-log w log ((h, name) ∷ cs) (o, os) = (o, AllOpen-log w log cs os)

Took-append :
    (writes : Writes) (w : World) (log more due due' : List (ℕ × String))
    → Took writes w log due
    → Took writes (add_log w log) more due'
    → Took writes w (log ++ more) (due ++ due')
Took-append writes w [] more [] due' p q =
    subst (λ x. Took writes x more due')
      (ap (λ (x : List (ℕ × String)). record w { written = x }) (append-nil w.written)) q
Took-append writes w [] more (y ∷ due) due' p q = elim p [ ]
Took-append writes w (x ∷ log) more [] due' p q = elim p [ ]
Took-append writes w ((fd, part) ∷ log) more (y ∷ due) due' (e, n, answered, same, p) q = (
  e,
  n,
  answered,
  same,
  Took-append writes (add_log w ((fd, part) ∷ [])) log more due due' p
      (subst (λ x. Took writes x more due') (sym (add_log-append w ((fd, part) ∷ []) log)) q),
)

send_all-Took :
    (writes : Writes) (text : String) (cs : List Client) (w : World)
    → Takes writes
    → AllOpen w cs
    → (log : List (ℕ × String)) × (send_all writes text cs w ≡ done tt (add_log w log))
      × Took writes w log (copies_to text cs)
unfolding send_all
send_all-Took writes text [] w takes o = (
  [],
  ap (λ (x : List (ℕ × String)). done tt (record w { written = x })) (sym (append-nil w.written)),
  tt,
)
send_all-Took writes text ((h, name) ∷ cs) w takes (o, os) =
    let (n, e) = takes w h text in
    let part : ℕ × String = (fd_of w h, erase_from n text) in
    let wrote : write (writes w h text) h text w ≡ done (some n) (add_log w (part ∷ [])) =
      ap (λ a. write a h text w) e ∙ write_open text h n w o in
    let (log, run, took) =
      send_all-Took writes text cs (add_log w (part ∷ [])) takes
        (AllOpen-log w (part ∷ []) cs os) in
    (
      part ∷ log,
      rw (wrote, send_all) (run ∙ ap (λ x. done tt x) (add_log-append w (part ∷ []) log)),
      (refl, n, e, refl, took),
    )

module _ (L : Library) where
  open L use {Time}

  -- every message of the queue for each client, oldest first, under the handles of the clients
  abbrev pub deliveries_to : List (AnyInstance Time) → List Client → List (ℕ × String)
  deliveries_to [] cs = []
  deliveries_to (m ∷ ms) cs = copies_to (to_compact L (to_json L m)) cs ++ deliveries_to ms cs

  send_queue-Took :
      (writes : Writes) (ms : List (AnyInstance Time)) (cs : List Client) (w : World)
      → Takes writes
      → AllOpen w cs
      → (log : List (ℕ × String)) × (send_queue L writes ms cs w ≡ done tt (add_log w log))
        × Took writes w log (deliveries_to ms cs)
  unfolding send_queue
  send_queue-Took writes [] cs w takes o = (
    [],
    ap (λ (x : List (ℕ × String)). done tt (record w { written = x })) (sym (append-nil w.written)),
    tt,
  )
  send_queue-Took writes (m ∷ ms) cs w takes o =
      let text = to_compact L (to_json L m) in
      let (first, run, took) = send_all-Took writes text cs w takes o in
      let (rest, run', took') =
        send_queue-Took writes ms cs (add_log w first) takes (AllOpen-log w first cs o) in
      (
        first ++ rest,
        rw (run, send_queue) (run' ∙ ap (λ x. done tt x) (add_log-append w first rest)),
        Took-append writes w first rest (copies_to text cs) (deliveries_to ms cs) took took',
      )

  -- If every client's socket is open and no ::write fails, a round writes each queued message once
  -- to each client, message by message in the order of the queue and client by client in the order
  -- of the vector, and of each text the log has the first n characters, where n is what ::write
  -- answers at that moment. It empties the queue all the same: what ::write did not take is never
  -- written. Nothing else of the server changes.
  pub send_messages-Took :
      (writes : Writes) (s : Server Time)
      → Takes writes
      → AllOpen s.world s.sockets
      → (log : List (ℕ × String)) × (send_messages L writes s
          ≡ done tt (record s { world = add_log s.world log; message_queue = [] }))
        × Took writes s.world log (deliveries_to s.message_queue s.sockets)
  send_messages-Took writes s takes o =
      let (log, run, took) = send_queue-Took writes s.message_queue s.sockets s.world takes o in
      (log, send_messages-clear_queue L writes s ∙ ap (λ x. clear_queue L x s) run, took)
