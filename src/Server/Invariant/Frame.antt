-- ===== src/Server/Invariant/Frame.antt =====
-- The operations that leave descriptors and sockets as they are, up to `_open`.
use se3313a_lab.Base.{
  String, ℕ, refl, Bool, true, false, Option, none, some, List, [], ◌∷◌, if◌then◌else◌, Outcome,
  done, thrown, left,
}
use se3313a_lab.Boost.{Library}
use se3313a_lab.Msg.AnyInstance.{AnyInstance, to_json}
use se3313a_lab.Msg.Json.{to_compact}
use se3313a_lab.Net.World.{World, open_at, set_open, fd_of-set_open}
use se3313a_lab.Net.Socket.{read_vector, write}
use se3313a_lab.Server.{Writes, send_all, send_queue}
use se3313a_lab.Server.Clients.{Client}
use se3313a_lab.Server.Clients.Fds.{Like, Like-refl, Like-trans}

pub Like-set_open : (h : ℕ) (b : Bool) (w : World) → Like w (set_open h b w)
Like-set_open h b w = record {
  same_fd = λ j. fd_of-set_open w h j b;
  same_next = refl;
  same_fds = λ d. refl;
}

branch :
    {A : Type 0} {w : World} (b : Bool) (x y : Outcome World A)
    → Like w (left x)
    → Like w (left y)
    → Like w (left (if b then x else y))
branch true x y p q = p
branch false x y p q = q

pub Like-read :
    (r : Option String) (h : ℕ) (vec : String) (w : World) → Like w (left (read_vector r h vec w))
unfolding read_vector
Like-read none h vec w = branch (open_at w h) _ _ (Like-set_open h false w) (Like-refl w)
Like-read (some String.[]) h vec w =
    branch (open_at w h) _ _ (Like-set_open h false w) (Like-refl w)
Like-read (some (String.◌∷◌ c s)) h vec w = branch (open_at w h) _ _ (Like-refl w) (Like-refl w)

pub Like-write :
    (a : Option ℕ) (h : ℕ) (text : String) (w : World) → Like w (left (write a h text w))
unfolding write
Like-write none h text w = branch (open_at w h) _ _ (Like-set_open h false w) (Like-refl w)
Like-write (some n) h text w = branch (open_at w h) _ _ (Like-log _) (Like-refl w)
  where
    Like-log : (log : List (ℕ × String)) → Like w (record w { written = log })
    Like-log log = record { same_fd = λ j. refl; same_next = refl; same_fds = λ d. refl }

-- A state that a call leaves is like the one before if each part of the call leaves such a state.
pub left-then :
    {A B : Type 0} {w : World} (o : Outcome World A) (k : A → World → Outcome World B)
    → Like w (left o)
    → ((a : A) (w' : World) → Like w w' → Like w (left (k a w')))
    → Like w (left (elim o [ done a w' ↦ k a w' | thrown e w' ↦ thrown e w' ]))
left-then (done a w') k p q = q a w' p
left-then (thrown e w') k p q = p

pub Like-send_all :
    (writes : Writes) (text : String) (cs : List Client) (w : World)
    → Like w (left (send_all writes text cs w))
unfolding send_all
Like-send_all writes text [] w = Like-refl w
Like-send_all writes text ((h, name) ∷ cs) w =
    left-then (write (writes w h text) h text w) _ (Like-write (writes w h text) h text w)
      λ n w' p. Like-trans p (Like-send_all writes text cs w')

pub Like-send_queue :
    (L : Library) (writes : Writes) (ms : List (AnyInstance L.Time)) (cs : List Client) (w : World)
    → Like w (left (send_queue L writes ms cs w))
unfolding send_queue
Like-send_queue L writes [] cs w = Like-refl w
Like-send_queue L writes (m ∷ ms) cs w =
    left-then (send_all writes (to_compact L (to_json L m)) cs w) _
      (Like-send_all writes (to_compact L (to_json L m)) cs w)
      λ n w' p. Like-trans p (Like-send_queue L writes ms cs w')
