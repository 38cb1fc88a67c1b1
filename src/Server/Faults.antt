-- ===== src/Server/Faults.antt =====
-- What ends the server or starves its clients: exceptions that no one catches, a null pointer, and the
-- order in which a wait looks at what is ready.
pub mod Requests
pub mod Starving
pub mod Stdin
pub mod Framing
use se3313a_lab.Base.{
  All, Outcome-cases, String, ℕ, ◌≡◌, refl, sym, ap, subst, ◌∙◌, ◌≢◌, Bool, true, false, Option,
  none, some, List, [], ◌∷◌, ◌++◌, ◌==◌, ==_iff, ==_self, if◌then◌else◌, Except, ok, throw, Outcome,
  done, thrown, arith, Fault, runtime_error, null_dereference, json_parser_error, size, mem,
  Bool-cases, inl, inr, ◌⊎◌, Except-cases, text_eq,
}
use mathlib.Core.Bool.{false≢true}
use se3313a_lab.Boost.{Library}
use se3313a_lab.Msg.Json.{from, to_compact}
use se3313a_lab.Msg.Instance.{extract_from}
use se3313a_lab.Msg.LoginRequest
use se3313a_lab.Msg.LoginRequest.{LoginRequest}
use se3313a_lab.Msg.MessageRequest
use se3313a_lab.Msg.MessageRequest.{MessageRequest}
use se3313a_lab.Msg.AnyInstance.{AnyInstance, to_json}
use se3313a_lab.Msg.RequestVisitor.{visit}
use se3313a_lab.Msg.RequestVisitor.Dispatch.{
  Answer, logged_in, messaged, threw, untyped, visit-Answer,
}
use se3313a_lab.Net.World.{World, fd_of, open_at, set_open}
use se3313a_lab.Net.Socket.{write, close, read_vector}
use se3313a_lab.Server.{
  Server, Writes, send_all, send_queue, clear_queue, send_messages, SocketCall, visitor, answer,
  handle, socket_event,
}
use se3313a_lab.Server.Listen.{stop}
use se3313a_lab.Server.Clients.{Client, handles, close_all}
use se3313a_lab.Server.Login.{socket_event-handle}
use se3313a_lab.Server.Broadcast.{send_messages-clear_queue}

-- A write opens no socket.
write_keeps_closed :
    (a : Option ℕ) (j h : ℕ) (text : String) (w w' : World) (n : Option ℕ)
    → write a j text w ≡ done n w'
    → open_at w h ≡ false
    → open_at w' h ≡ false
unfolding write
write_keeps_closed a j h text w w' n e c = ground arith

pub write_closed :
    (a : Option ℕ) (h : ℕ) (text : String) (w : World)
    → open_at w h ≡ false
    → write a h text w ≡ thrown (runtime_error "Can not write to closed socket.") w
unfolding write
write_closed a h text w c = rw (c, write) refl

past_open :
    (a : Option ℕ) (j h : ℕ) (text name : String) (cs : List Client) (w w' : World) (n : Option ℕ)
    → write a j text w ≡ done n w'
    → mem h (handles ((j, name) ∷ cs)) ≡ true
    → open_at w h ≡ false
    → mem h (handles cs) ≡ true
past_open a j h text name cs w w' n p m c = elim (Bool-cases (j == h)) [
  | inl e ↦
      absurd (done-ne (sym p ∙ write_closed a j text w (ap (open_at w) ((==_iff j h).0 e) ∙ c)))
  | inr e ↦ rw e at m
]
  where
    done-ne :
        ◌≢◌ {A = Outcome World (Option ℕ)}
          (done n w')
          (thrown (runtime_error "Can not write to closed socket.") w)
    done-ne q = cc

-- A closed socket among the clients makes sending a text to all of them throw.
pub send_all_closed :
    (writes : Writes) (text : String) (cs : List Client) (w : World) (h : ℕ)
    → mem h (handles cs) ≡ true
    → open_at w h ≡ false
    → (e : Fault) × (w' : World) × (send_all writes text cs w ≡ thrown e w')
unfolding send_all
send_all_closed writes text [] w h m c = cc
send_all_closed writes text ((j, name) ∷ cs) w h m c =
    elim (Outcome-cases (write (writes w j text) j text w)) [
      | inr (e, w', p) ↦ (e, w', rw (p, send_all) refl)
      | inl (n, w', p) ↦
          let (e, w'', q) =
            send_all_closed writes text cs w' h
              (past_open (writes w j text) j h text name cs w w' n p m c)
              (write_keeps_closed (writes w j text) j h text w w' n p c) in
          (e, w'', rw (p, send_all) q)
    ]

close_keeps_closed : (j h : ℕ) (w : World) → open_at w h ≡ false → open_at (close j w) h ≡ false
unfolding close
close_keeps_closed j h w c = ground arith

close_closes : (h : ℕ) (w : World) → open_at (close h w) h ≡ false
unfolding close
close_closes h w = ground arith

close_all_keeps_closed :
    (cs : List Client) (h : ℕ) (w : World)
    → open_at w h ≡ false
    → open_at (close_all cs w) h ≡ false
unfolding close_all
close_all_keeps_closed [] h w c = c
close_all_keeps_closed ((j, name) ∷ cs) h w c =
    close_all_keeps_closed cs h (close j w) (close_keeps_closed j h w c)

pub close_all_closes :
    (cs : List Client) (h : ℕ) (w : World)
    → mem h (handles cs) ≡ true
    → open_at (close_all cs w) h ≡ false
unfolding close_all
close_all_closes [] h w m = cc
close_all_closes ((j, name) ∷ cs) h w m = elim (Bool-cases (j == h)) [
  | inl e ↦
      close_all_keeps_closed cs h (close j w)
        (subst (λ i. open_at (close j w) i ≡ false) ((==_iff j h).0 e) (close_closes j w))
  | inr e ↦ close_all_closes cs h (close j w) (rw e at m)
]

All-closed :
    (cs : List Client) (w : World)
    → ((h : ℕ) → mem h (handles cs) ≡ true → open_at w h ≡ false)
    → All (λ h. open_at w h ≡ false) (handles cs)
All-closed [] w f = tt
All-closed ((h, name) ∷ cs) w f =
    (f h (ground arith), All-closed cs w (λ j m. f j (ground (arith, m))))

-- `stop` closes the socket of every client.
pub stop-closes :
    {Time : Type 0} (s : Server Time)
    → All (λ h. open_at (stop s).world h ≡ false) (handles s.sockets)
unfolding stop
stop-closes s =
    All-closed s.sockets (close_all s.sockets s.world)
      (λ j listed. close_all_closes s.sockets j s.world listed)

module _ (L : Library) where
  open L use {Time}

  send_queue_closed :
      (writes : Writes) (m : AnyInstance Time) (ms : List (AnyInstance Time)) (cs : List Client)
      (w : World) (h : ℕ)
      → mem h (handles cs) ≡ true
      → open_at w h ≡ false
      → (e : Fault) × (w' : World) × (send_queue L writes (m ∷ ms) cs w ≡ thrown e w')
  unfolding send_queue
  send_queue_closed writes m ms cs w h listed c =
      let (e, w', p) = send_all_closed writes (to_compact L (to_json L m)) cs w h listed c in
      (e, w', rw (p, send_queue) refl)

  -- If a message is queued and a client in the vector has a closed socket, the next round of the
  -- sender throws.
  pub send_messages_closed :
      (writes : Writes) (s : Server Time) (m : AnyInstance Time) (ms : List (AnyInstance Time))
      (h : ℕ)
      → s.message_queue ≡ m ∷ ms
      → mem h (handles s.sockets) ≡ true
      → open_at s.world h ≡ false
      → (e : Fault) × (s' : Server Time) × (send_messages L writes s ≡ thrown e s')
  send_messages_closed writes s m ms h q listed c =
      let (e, w', p) = send_queue_closed writes m ms s.sockets s.world h listed c in
      (
        e,
        record s { world = w' },
        send_messages-clear_queue L writes s
            ∙ ap (λ x. clear_queue L x s) (ap (λ x. send_queue L writes x s.sockets s.world) q ∙ p),
      )

  -- If a client is connected and a message is queued, `stop` leaves the clients in the vector and
  -- the queue as it is, with every client's socket closed, and a round of the sender after it
  -- throws.
  pub stop_then_send :
      (writes : Writes) (s : Server Time) (m : AnyInstance Time) (ms : List (AnyInstance Time))
      (c : Client) (cs : List Client)
      → s.message_queue ≡ m ∷ ms
      → s.sockets ≡ c ∷ cs
      → ((stop s).sockets ≡ c ∷ cs)
        × ((stop s).message_queue ≡ m ∷ ms)
        × All (λ h. open_at (stop s).world h ≡ false) (handles s.sockets)
        × ((e : Fault) × (s' : Server Time) × (send_messages L writes (stop s) ≡ thrown e s'))
  unfolding stop
  stop_then_send writes s m ms (h, name) cs q k = (
    k,
    q,
    stop-closes s,
    send_messages_closed writes (stop s) m ms h q (first k)
        (close_all_closes s.sockets h s.world (first k)),
  )
    where
      first : s.sockets ≡ (h, name) ∷ cs → mem h (handles s.sockets) ≡ true
      first e = ap (λ x. mem h (handles x)) e ∙ ground arith
