-- ===== src/Server/Faults/Starving.antt =====
-- `listen` when the first client of the waiter's set has something to be read in every round.
use mathlib.Core.List.{append_assoc, append-nil}
use se3313a_lab.Base.{
  String, ℕ, ◌≡◌, refl, sym, ap, subst, ◌∙◌, ◌≢◌, true, false, Option, some, List, [], ◌∷◌, ◌++◌,
  ok, done, mem, All,
}
use se3313a_lab.Boost.{Library}
use se3313a_lab.Msg.Json.{from}
use se3313a_lab.Msg.MessageRequest
use se3313a_lab.Msg.MessageRequest.{MessageRequest}
use se3313a_lab.Msg.MessageResponse
use se3313a_lab.Msg.AnyInstance.{AnyInstance, message_response}
use se3313a_lab.Net.World.{World, fd_of, open_at}
use se3313a_lab.Net.FlexWaiter.{
  FlexWaiter, stdin_fileno, on_socket, wait, first_ready, master_ready, hold_event,
}
use se3313a_lab.Net.FlexWaiter.Dispatch.{wait-dispatch, dispatch_socket}
use se3313a_lab.Server.{Server}
use se3313a_lab.Server.Login.{message_accepted}
use se3313a_lab.Server.Invariant.KillEvent.{waited}
use se3313a_lab.Server.Entry.Exit.{after, listen_alive}
use se3313a_lab.Server.Faults.Stdin.{kill_event-held}
use se3313a_lab.Server.Listen.{Round, listen, listen_round, notify}

-- The queue has grown by `new`, and nobody was accepted or written to, and nobody has left.
pub record Queued {Time : Type 0} (new : List (AnyInstance Time)) (s s' : Server Time)
    : Type 0 where
  pub queue : s'.message_queue ≡ s.message_queue ++ new
  pub same_sockets : s'.sockets ≡ s.sockets
  pub same_heap : s'.world.heap ≡ s.world.heap
  pub same_next : s'.world.next ≡ s.world.next
  pub same_written : s'.world.written ≡ s.world.written
  pub same_killed : s'.killed ≡ s.killed
  pub same_waiter : s'.flex_waiter ≡ s.flex_waiter

hold_event-heap :
    (k : ℕ) (w : FlexWaiter) (net : World)
    → w.kill_event_fd ≡ some k
    → (hold_event w net).heap ≡ net.heap
unfolding hold_event
hold_event-heap k w net e = rw e refl

Queued-none : {Time : Type 0} (s : Server Time) → Queued [] s s
Queued-none s = record {
  queue = sym (append-nil s.message_queue);
  same_sockets = refl;
  same_heap = refl;
  same_next = refl;
  same_written = refl;
  same_killed = refl;
  same_waiter = refl;
}

abbrev queue_up : {Time : Type 0} → AnyInstance Time → Server Time → Server Time
queue_up x s = record s { message_queue = s.message_queue ++ x ∷ [] }

Queued-more :
    {Time : Type 0} (k : ℕ) (x : AnyInstance Time) (new : List (AnyInstance Time))
    (s s' : Server Time)
    → s.flex_waiter.kill_event_fd ≡ some k
    → Queued new (queue_up x (waited s.flex_waiter s)) s'
    → Queued (x ∷ new) s s'
unfolding hold_event
Queued-more k x new s s' e q = record {
  queue = q.queue ∙ append_assoc s.message_queue (x ∷ []) new;
  same_sockets = q.same_sockets;
  same_heap = q.same_heap ∙ hold_event-heap k s.flex_waiter s.world e;
  same_next = q.same_next ∙ rw e refl;
  same_written = q.same_written ∙ rw e refl;
  same_killed = q.same_killed;
  same_waiter = q.same_waiter;
}

module _ (L : Library) where
  open L use {Time}

  -- A round in which ::select reports the descriptor `fd` of a client, and neither the kill event
  -- `k` nor standard input nor the listening socket, and the client sends a message request. Any
  -- other clients may be ready as well.
  pub record Talks (fd k : ℕ) (master : Option ℕ) (x : Round Time × MessageRequest Time)
      : Type 0 where
    pub ready : List ℕ
    pub selected : x.0.answers.select ≡ some ready
    pub no_kill : mem k ready ≡ false
    pub no_stdin : mem stdin_fileno ready ≡ false
    pub no_master : master_ready master ready ≡ false
    pub talker_ready : mem fd ready ≡ true
    pub text : String
    pub received : x.0.call.received ≡ some text
    pub not_empty : text ≢ ""
    pub parses : from L text ≡ ok (MessageRequest.to_json L x.1)

  abbrev pub rounds_of : List (Round Time × MessageRequest Time) → List (Round Time)
  rounds_of [] = []
  rounds_of ((r, m) ∷ talk) = r ∷ rounds_of talk

  abbrev pub response_to : Round Time → MessageRequest Time → AnyInstance Time
  response_to r m = message_response (MessageResponse.message r.call.now m.sender m.content)

  abbrev pub responses_to : List (Round Time × MessageRequest Time) → List (AnyInstance Time)
  responses_to [] = []
  responses_to ((r, m) ∷ talk) = response_to r m ∷ responses_to talk

  module _ (order : List ℕ → List ℕ) (h k : ℕ) (rest : List ℕ) where
    front_ready :
        (net : World) (ready hs : List ℕ)
        → hs ≡ h ∷ rest
        → mem (fd_of net h) ready ≡ true
        → first_ready net ready hs ≡ on_socket h
    unfolding first_ready
    front_ready net ready hs e r = rw (e, first_ready) (rw r refl)

    wait-front :
        (r : Round Time) (w : FlexWaiter) (net : World) (ready : List ℕ)
        → w.kill_event_fd ≡ some k
        → order w.sockets ≡ h ∷ rest
        → r.answers.select ≡ some ready
        → mem k ready ≡ false
        → mem stdin_fileno ready ≡ false
        → master_ready w.master ready ≡ false
        → mem (fd_of net h) ready ≡ true
        → wait order r.answers net w ≡ done (on_socket h) w
    wait-front r w net [] e f s x y z t = cc
    wait-front r w net (fd ∷ fds) e f s x y z t =
        wait-dispatch order r.answers net w w k fd fds (kill_event-held r.answers.eventfd k w e) s
        ∙ dispatch_socket (order w.sockets) r.answers k (fd ∷ fds) net w h x y z
            (front_ready net (fd ∷ fds) (order w.sockets) f t)

    round-Talks :
        (r : Round Time) (m : MessageRequest Time) (s : Server Time)
        → s.flex_waiter.kill_event_fd ≡ some k
        → order s.flex_waiter.sockets ≡ h ∷ rest
        → open_at s.world h ≡ true
        → Talks (fd_of s.world h) k s.flex_waiter.master (r, m)
        → listen_round L order r s ≡ done tt (queue_up (response_to r m) (waited s.flex_waiter s))
    unfolding listen_round notify
    round-Talks r m s e f o v =
        rw
          (
            wait-front r s.flex_waiter s.world v.ready e f v.selected v.no_kill v.no_stdin
                v.no_master v.talker_ready,
            listen_round,
          )
          (message_accepted L h r.call v.text m (waited s.flex_waiter s)
            (ap (λ x. (x h).is_open) (hold_event-heap k s.flex_waiter s.world e) ∙ o) v.received
            v.not_empty v.parses)

    Talks-Queued :
        (fd : ℕ) (talk : List (Round Time × MessageRequest Time)) (s : Server Time)
        → s.killed ≡ false
        → s.flex_waiter.kill_event_fd ≡ some k
        → order s.flex_waiter.sockets ≡ h ∷ rest
        → open_at s.world h ≡ true
        → fd_of s.world h ≡ fd
        → All (Talks fd k s.flex_waiter.master) talk
        → (s' : Server Time) × (listen L order (rounds_of talk) s ≡ done tt s')
          × Queued (responses_to talk) s s'
    unfolding listen
    Talks-Queued fd [] s alive e f o p v = (s, refl, Queued-none s)
    Talks-Queued fd ((r, m) ∷ talk) s alive e f o p (v, vs) =
        let heap = hold_event-heap k s.flex_waiter s.world e in
        let s1 : Server Time = queue_up (response_to r m) (waited s.flex_waiter s) in
        let (s', run, q) =
          Talks-Queued fd talk s1 alive e f (ap (λ x. (x h).is_open) heap ∙ o)
            (ap (λ x. (x h).fd) heap ∙ p) vs in
        (
          s',
          listen_alive L order r (rounds_of talk) s alive
              ∙ ap (after L order (rounds_of talk)) (
                  round-Talks r m s e f o
                    (subst (λ d. Talks d k s.flex_waiter.master (r, m)) (sym p) v))
              ∙ run,
          Queued-more k (response_to r m) (responses_to talk) s s' e q,
        )

    -- If the server is not killed and has its kill event, and the socket that the iteration of the
    -- waiter's set visits first is open, then rounds in which that client sends a message request,
    -- and neither the kill event nor standard input nor the listening socket is ready, return,
    -- queue the responses to those requests in their order, and leave everyone else as they were,
    -- however many such rounds come and whoever else is ready: no other client is read.
    pub first_client_starves :
        (talk : List (Round Time × MessageRequest Time)) (s : Server Time)
        → s.killed ≡ false
        → s.flex_waiter.kill_event_fd ≡ some k
        → order s.flex_waiter.sockets ≡ h ∷ rest
        → open_at s.world h ≡ true
        → All (Talks (fd_of s.world h) k s.flex_waiter.master) talk
        → (s' : Server Time) × (listen L order (rounds_of talk) s ≡ done tt s')
          × Queued (responses_to talk) s s'
    first_client_starves talk s alive e f o v =
        Talks-Queued (fd_of s.world h) talk s alive e f o refl v
