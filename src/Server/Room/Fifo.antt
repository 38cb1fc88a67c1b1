-- ===== src/Server/Room/Fifo.antt =====
-- The announcements of a run of the room.
use mathlib.Core.List.{append_assoc, append-nil}
use se3313a_lab.Base.{String, ◌≡◌, sym, ap, ◌∙◌, Option, List, [], ◌∷◌, ◌++◌}
use se3313a_lab.Server.Room.{
  Room, Event, announced, broadcast, stays, enters, departs, takes_name, is_announced, is_broadcast,
  RoomRun, here, follows,
}

module _ {Message : Type 0} where
  -- what was announced, and what was broadcast, oldest first
  abbrev pub announcements : List (Event Message) → List Message
  announcements [] = []
  announcements (announced m ∷ es) = m ∷ announcements es
  announcements (_ ∷ es) = announcements es

  abbrev pub broadcasts : List (Event Message) → List Message
  broadcasts [] = []
  broadcasts (broadcast m ∷ es) = m ∷ broadcasts es
  broadcasts (_ ∷ es) = broadcasts es

  module _ (announces : Message → Option String) where
    pub Fifo-RoomRun :
        {r r' : Room Message} {es : List (Event Message)}
        → RoomRun announces r es r'
        → r.pending ++ announcements es ≡ broadcasts es ++ r'.pending
    Fifo-RoomRun {r} here = append-nil r.pending
    Fifo-RoomRun {r} (follows {r' = s} {es} (stays u o p) run) =
        ap (λ x. x ++ announcements es) (sym p) ∙ Fifo-RoomRun run
    Fifo-RoomRun {r} (follows {r' = s} {es} (enters o m u q p) run) =
        ap (λ x. x ++ announcements es) (sym p) ∙ Fifo-RoomRun run
    Fifo-RoomRun {r} (follows {r' = s} {es} (departs n o m u q p) run) =
        ap (λ x. x ++ announcements es) (sym p) ∙ Fifo-RoomRun run
    Fifo-RoomRun {r} (follows {r' = s} {es} (takes_name n o m f u q p) run) =
        ap (λ x. x ++ announcements es) (sym p) ∙ Fifo-RoomRun run
    Fifo-RoomRun {r} (follows {r' = s} {es} (is_announced {m} a u o p) run) =
        sym (append_assoc r.pending (m ∷ []) (announcements es))
        ∙ ap (λ x. x ++ announcements es) (sym p)
        ∙ Fifo-RoomRun run
    Fifo-RoomRun {r} (follows {r' = s} {es} (is_broadcast {m} u o p) run) =
        ap (λ x. x ++ announcements es) p ∙ ap (◌∷◌ m) (Fifo-RoomRun run)
