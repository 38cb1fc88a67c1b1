-- ===== src/Server/Threads/Settled.antt =====
-- What `onSocket` does between two of its sections, as far as the clients and the queue go.
use se3313a_lab.Base.{
  String, ℕ, Bool, true, false, ◌≡◌, refl, subst, Option, none, some, List, if◌then◌else◌, Except,
  ok, throw, Outcome, done, thrown, left, mem,
}
use se3313a_lab.Boost.{Library}
use se3313a_lab.Msg.Json.{from}
use se3313a_lab.Msg.AnyInstance.{
  AnyInstance, login_request, message_request, login_response, message_response, error_response,
  get_type-of, type_of,
}
use se3313a_lab.Msg.RequestVisitor.{visit}
use se3313a_lab.Net.World.{World}
use se3313a_lab.Net.Socket.{read_vector}
use se3313a_lab.Server.{Server, SocketCall, visitor, is_zero}
use se3313a_lab.Server.Clients.{Client, handles}
use se3313a_lab.Server.Clients.Fds.{Like}
use se3313a_lab.Server.Names.{Unused}
use se3313a_lab.Server.Login.{username-found}
use se3313a_lab.Server.Invariant.{Inv, Inv-Like}
use se3313a_lab.Server.Invariant.Frame.{Like-read}
use se3313a_lab.Server.Invariant.Requests.{Vetted, visit-Vetted}
use se3313a_lab.Server.Threads.Members.{name_of}
use se3313a_lab.Server.Threads.{
  MainAt, free, entering, closing, heard, refusing, stopping, naming, pushing, hear, settle,
  conclude, reply,
}

module _ {Time : Type 0} where
  -- the name that a response gives to a client
  abbrev pub announces : AnyInstance Time → Option String
  announces (login_response m) = some m.joining_username
  announces _ = none

  -- the name that is given and still to be announced
  abbrev pub owed : MainAt Time → Option String
  owed (pushing m) = announces m
  owed _ = none

  -- the connection that is not yet in the vector
  abbrev pub arrival : MainAt Time → Option ℕ
  arrival (entering h) = some h
  arrival _ = none

  -- What the main thread relies on where it stands, given `killed` and the clients.
  abbrev pub At : MainAt Time → Bool → List Client → Type 0
  At free killed cs = Unit {0}
  At (entering h) killed cs = (killed ≡ false) × (name_of h cs ≡ none)
  At (closing h) killed cs = (killed ≡ false) × (mem h (handles cs) ≡ true)
  At (heard h c text) killed cs = (killed ≡ false) × (mem h (handles cs) ≡ true)
  At (refusing h c m) killed cs = (killed ≡ false) × (mem h (handles cs) ≡ true)
  At (naming h username m) killed cs =
      (killed ≡ false)
      × (mem h (handles cs) ≡ true)
      × Unused username cs
      × (announces m ≡ some username)
  At (pushing m) killed cs = killed ≡ false
  At stopping killed cs = killed ≡ true

  -- A part of `onSocket` between two sections leaves the clients and the queue.
  pub record Settled (s : Server Time) (p : MainAt Time) (s' : Server Time) : Type 0 where
    pub same_killed : s'.killed ≡ s.killed
    pub same_sockets : s'.sockets ≡ s.sockets
    pub same_queue : s'.message_queue ≡ s.message_queue
    pub keeps : Inv s → Inv s'
    pub at : At p s.killed s.sockets
    pub owes_none : owed p ≡ none
    pub brings_none : arrival p ≡ none

  abbrev WhenDone : Server Time → Outcome (Server Time) (MainAt Time) → Type 0
  WhenDone s (thrown e s') = Unit {0}
  WhenDone s (done p s') = Settled s p s'

  Settled-world :
      {s : Server Time} {w : World} {p : MainAt Time}
      → Like s.world w
      → At p s.killed s.sockets
      → owed p ≡ none
      → arrival p ≡ none
      → Settled s p (record s { world = w })
  Settled-world like at o a = record {
    same_killed = refl;
    same_sockets = refl;
    same_queue = refl;
    keeps = Inv-Like like;
    at = at;
    owes_none = o;
    brings_none = a;
  }

  stays_put :
      {s : Server Time} {p : MainAt Time}
      → At p s.killed s.sockets
      → owed p ≡ none
      → arrival p ≡ none
      → Settled s p s
  stays_put at o a = record {
    same_killed = refl;
    same_sockets = refl;
    same_queue = refl;
    keeps = λ v. v;
    at = at;
    owes_none = o;
    brings_none = a;
  }

module _ (L : Library) (h : ℕ) (c : SocketCall L.Time) where
  open L use {Tree, Time}

  hear-WhenDone :
      (s : Server Time)
      → s.killed ≡ false
      → mem h (handles s.sockets) ≡ true
      → WhenDone s (hear L h c s)
  unfolding hear
  hear-WhenDone s k m =
      read (read_vector c.received h "" s.world) (Like-read c.received h "" s.world)
    where
      told :
          (b : Bool) (text : String) (w : World)
          → Like s.world w
          → WhenDone s (
              if b
              then done (closing h) (record s { world = w })
              else done (heard h c text) (record s { world = w }))
      told true text w like = Settled-world like (k, m) refl refl
      told false text w like = Settled-world like (k, m) refl refl

      read :
          (o : Outcome World (Option ℕ × String))
          → Like s.world (left o)
          → WhenDone s (elim o [
            | thrown e w ↦ thrown e (record s { world = w })
            | done (bytes_read, contents) w ↦
                if is_zero bytes_read
                then done (closing h) (record s { world = w })
                else done (heard h c contents) (record s { world = w })
          ])
      read (thrown e w) like = tt
      read (done (n, text) w) like = told (is_zero n) text w like

  settle-WhenDone :
      (m : AnyInstance Time) (s : Server Time)
      → s.killed ≡ false
      → mem h (handles s.sockets) ≡ true
      → Vetted L s.sockets (ok (some m))
      → WhenDone s (settle L h c m (type_of m) s)
  unfolding settle
  settle-WhenDone (login_response m) s k l u =
      rw (username-found L m) (stays_put (k, l, u, refl) refl refl)
  settle-WhenDone (error_response m) s k l u = stays_put (k, l) refl refl
  settle-WhenDone (message_response m) s k l u = stays_put k refl refl
  settle-WhenDone (login_request m) s k l u = stays_put k refl refl
  settle-WhenDone (message_request m) s k l u = stays_put k refl refl

  conclude-WhenDone :
      (o : Option (AnyInstance Time)) (s : Server Time)
      → s.killed ≡ false
      → mem h (handles s.sockets) ≡ true
      → Vetted L s.sockets (ok o)
      → WhenDone s (conclude L h c o s)
  unfolding conclude
  conclude-WhenDone none s k l u = tt
  conclude-WhenDone (some m) s k l u = rw (get_type-of L m, conclude) (settle-WhenDone m s k l u)

  reply-WhenDone :
      (text : String) (s : Server Time)
      → s.killed ≡ false
      → mem h (handles s.sockets) ≡ true
      → WhenDone s (reply L h c text s)
  unfolding reply
  reply-WhenDone text s k l = parsed (from L text)
    where
      visited :
          (r : Except (Option (AnyInstance Time)))
          → Vetted L s.sockets r
          → WhenDone s (elim r [ throw f ↦ thrown f s | ok o ↦ conclude L h c o s ])
      visited (throw f) u = tt
      visited (ok o) u = conclude-WhenDone o s k l u

      parsed :
          (r : Except Tree)
          → WhenDone s (elim r [
            | throw f ↦ thrown f s
            | ok t ↦ elim (visit L (visitor c.now s.sockets) t) [
              | throw f ↦ thrown f s
              | ok o ↦ conclude L h c o s
            ]
          ])
      parsed (throw f) = tt
      parsed (ok t) =
          visited (visit L (visitor c.now s.sockets) t) (visit-Vetted L c.now s.sockets t)

  -- `onSocket` up to its first section, and from it to the next, on a client of the vector
  pub hear-Settled :
      (s s' : Server Time) (p : MainAt Time)
      → s.killed ≡ false
      → mem h (handles s.sockets) ≡ true
      → hear L h c s ≡ done p s'
      → Settled s p s'
  hear-Settled s s' p k m e = subst (WhenDone s) e (hear-WhenDone s k m)

  pub reply-Settled :
      (text : String) (s s' : Server Time) (p : MainAt Time)
      → s.killed ≡ false
      → mem h (handles s.sockets) ≡ true
      → reply L h c text s ≡ done p s'
      → Settled s p s'
  reply-Settled text s s' p k m e = subst (WhenDone s) e (reply-WhenDone text s k m)
