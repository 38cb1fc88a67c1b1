-- ===== src/Server/Room.antt =====
-- What the server promises to those who are connected: a room whose members may have a name, and
-- announcements that are broadcast in the order in which they were made. Descriptors, waiters, locks,
-- callbacks and the order of the members are left out.
pub mod Fifo
pub mod Names
use se3313a_lab.Base.{
  String, ℕ, ◌≡◌, ◌≢◌, Option, none, some, List, [], ◌∷◌, ◌++◌, ◌==◌, if◌then◌else◌,
}

-- The empty name of a new member stands for none. `owed` is a name that was given and is still to be
-- announced.
pub record Room (Message : Type 0) : Type 0 where
  pub members : ℕ → Option String
  pub owed : Option String
  pub pending : List Message

pub data Event (Message : Type 0) : Type 0 where
  quiet : Event Message
  entered : ℕ → Event Message
  departed : ℕ → Event Message
  named : ℕ → String → Event Message
  announced : Message → Event Message
  broadcast : Message → Event Message

module _ {Message : Type 0} (announces : Message → Option String) where
  -- A member `h` of the second room is `m`, and the others are those of the first.
  abbrev pub Changed : Room Message → ℕ → Option String → Room Message → Type 0
  Changed r h m r' = (j : ℕ) → r'.members j ≡ (if h == j then m else r.members j)

  abbrev pub Unchanged : Room Message → Room Message → Type 0
  Unchanged r r' = (j : ℕ) → r'.members j ≡ r.members j

  -- A name is given only to a member, and only if no member has it; it is announced before anything
  -- else happens in the room but broadcasts. A broadcast takes the oldest announcement.
  pub data RoomStep (r r' : Room Message) : Event Message → Type 0 where
    stays : Unchanged r r' → r'.owed ≡ r.owed → r'.pending ≡ r.pending → RoomStep r r' quiet
    enters :
        {h : ℕ}
        → r.owed ≡ none
        → r.members h ≡ none
        → Changed r h (some "") r'
        → r'.owed ≡ none
        → r'.pending ≡ r.pending
        → RoomStep r r' (entered h)
    departs :
        {h : ℕ} (name : String)
        → r.owed ≡ none
        → r.members h ≡ some name
        → Changed r h none r'
        → r'.owed ≡ none
        → r'.pending ≡ r.pending
        → RoomStep r r' (departed h)
    takes_name :
        {h : ℕ} {name : String} (before : String)
        → r.owed ≡ none
        → r.members h ≡ some before
        → ((j : ℕ) → r.members j ≢ some name)
        → Changed r h (some name) r'
        → r'.owed ≡ some name
        → r'.pending ≡ r.pending
        → RoomStep r r' (named h name)
    is_announced :
        {m : Message}
        → announces m ≡ r.owed
        → Unchanged r r'
        → r'.owed ≡ none
        → r'.pending ≡ r.pending ++ m ∷ []
        → RoomStep r r' (announced m)
    is_broadcast :
        {m : Message}
        → Unchanged r r'
        → r'.owed ≡ r.owed
        → r.pending ≡ m ∷ r'.pending
        → RoomStep r r' (broadcast m)

  -- A run of the room with its events.
  pub data RoomRun : Room Message → List (Event Message) → Room Message → Type 0 where
    here : {r : Room Message} → RoomRun r [] r
    follows :
        {r r' r'' : Room Message} {e : Event Message} {es : List (Event Message)}
        → RoomStep r r' e
        → RoomRun r' es r''
        → RoomRun r (e ∷ es) r''
