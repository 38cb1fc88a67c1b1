-- ===== src/Server/Threads/Ends/Shut.antt =====
-- The socket of a client that the main thread is about to take out of the vector.
use se3313a_lab.Base.{String, ℕ, ◌≡◌, sym, ap, ◌∙◌, List, done, left}
use se3313a_lab.Boost.{Library}
use se3313a_lab.Msg.AnyInstance.{AnyInstance, to_json}
use se3313a_lab.Msg.Json.{to_compact}
use se3313a_lab.Net.World.{World, open_at}
use se3313a_lab.Server.{Server, Writes, send_all}
use se3313a_lab.Server.Clients.{Client}
use se3313a_lab.Server.Invariant.KillEvent.{waited}
use se3313a_lab.Server.Room.{Event}
use se3313a_lab.Server.Threads.{
  MainAt, free, entering, closing, heard, refusing, stopping, naming, pushing, MainStep, waits,
  reads_line, reads_exit, stops, accepts, enters, hears, removes, replies, refuses, names, pushes,
  System, Step, main_steps, looks, begins, sends, clears, Run, here, follows,
}
use se3313a_lab.Server.Threads.Ends.Open.{send_all-shut}
use se3313a_lab.Server.Threads.Ends.Heard.{
  Replied, refused, named, pushed, ShutAt, hear-ShutAt, reply-Replied,
}

module _ {Time : Type 0} where
  Replied-ShutAt : (h : ℕ) (p : MainAt Time) (w : World) → Replied h p → ShutAt p w
  Replied-ShutAt h _ w refused = tt
  Replied-ShutAt h _ w named = tt
  Replied-ShutAt h _ w pushed = tt

module _ (L : Library) (order : List ℕ → List ℕ) where
  open L use {Time}

  MainStep-ShutAt :
      {s s' : Server Time} {p p' : MainAt Time} {e : Event (AnyInstance Time)}
      → MainStep L order s p e s' p'
      → ShutAt p' s'.world
  MainStep-ShutAt {s} (hears r w h s' p' k legal x y) = hear-ShutAt L h r.call (waited w s) s' p' y
  MainStep-ShutAt {s} (replies h c text s' p' y) =
      Replied-ShutAt h p' s'.world (reply-Replied L h c text s s' p' y).0
  MainStep-ShutAt (waits r w k legal x) = tt
  MainStep-ShutAt (reads_line r w line k legal x y) = tt
  MainStep-ShutAt (reads_exit r w line k legal x y) = tt
  MainStep-ShutAt stops = tt
  MainStep-ShutAt (accepts r w h net k legal x y) = tt
  MainStep-ShutAt (enters h) = tt
  MainStep-ShutAt (removes h) = tt
  MainStep-ShutAt (refuses h c m n w y) = tt
  MainStep-ShutAt (names h username m) = tt
  MainStep-ShutAt (pushes m) = tt

  ShutAt-send :
      (writes : Writes) (text : String) (cs : List Client) (p : MainAt Time) (w w' : World)
      → send_all writes text cs w ≡ done tt w'
      → ShutAt p w
      → ShutAt p w'
  ShutAt-send writes text cs (closing h) w w' e v =
      sym (ap (λ o. open_at (left o) h) e) ∙ send_all-shut writes text cs w h v
  ShutAt-send writes text cs free w w' e v = tt
  ShutAt-send writes text cs (entering h) w w' e v = tt
  ShutAt-send writes text cs (heard h c m) w w' e v = tt
  ShutAt-send writes text cs (refusing h c m) w w' e v = tt
  ShutAt-send writes text cs (naming h username m) w w' e v = tt
  ShutAt-send writes text cs (pushing m) w w' e v = tt
  ShutAt-send writes text cs stopping w w' e v = tt

  Step-ShutAt :
      {t t' : System L} {e : Event (AnyInstance Time)}
      → Step L order t e t'
      → ShutAt t.main_at t.server.world
      → ShutAt t'.main_at t'.server.world
  Step-ShutAt (main_steps x may) v = MainStep-ShutAt x
  Step-ShutAt (sends {s} {p} {m} writes w e) v =
      ShutAt-send writes (to_compact L (to_json L m)) s.sockets p s.world w e v
  Step-ShutAt (looks k) v = v
  Step-ShutAt begins v = v
  Step-ShutAt clears v = v

  -- While the main thread is about to take a client out, its socket is closed.
  pub Run-ShutAt :
      {t t' : System L} {es : List (Event (AnyInstance Time))}
      → Run L order t es t'
      → ShutAt t.main_at t.server.world
      → ShutAt t'.main_at t'.server.world
  Run-ShutAt here v = v
  Run-ShutAt (follows x run) v = Run-ShutAt run (Step-ShutAt x v)
