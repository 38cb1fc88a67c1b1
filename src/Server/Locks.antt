-- ===== src/Server/Locks.antt =====
-- The two mutexes of server/server/src/server.cpp and the two threads that take them: the main
-- thread in `listen` and the sender thread in `sendMessages`. Here a step is one lock, one unlock or
-- one move between them, so that the threads interleave inside their callbacks.
pub mod Exclusion
pub mod Deadlock
pub mod Ending
pub mod Tests
use se3313a_lab.Base.{ℕ, suc, ◌≡◌, Bool, true, false, Option, none, some}

pub data Thread : Type 0 where
  main sender : Thread

-- Where the main thread stands. The names with `at` stand before taking a lock.
pub data MainAt : Type 0 where
  -- the test of `killed` in `listen`, and inside `wait`
  looping waiting : MainAt
  -- `onSocket` for a shut connection
  at_erase erasing : MainAt
  -- `visitLogin`
  at_check checking : MainAt
  -- `onSocket` for an accepted login, and its end
  at_associate associating at_enqueue enqueueing pushed : MainAt
  -- `onSocketServer`
  at_accept accepting : MainAt
  -- `stop`
  at_stop stopping : MainAt
  returned : MainAt
  -- an exception has left `main`, which ends the process
  threw : MainAt

-- Where the sender thread stands; `between n` and the next two have n messages still to send. After
-- `messageQueue.clear()` it is `swept`.
pub data SenderAt : Type 0 where
  testing sleeping : SenderAt
  between at_write writing : ℕ → SenderAt
  swept : SenderAt
  ended : SenderAt
  -- an exception has left `sendMessages`, which ends the process
  broken : SenderAt

pub data Op : Type 0 where
  move set_killed lock_sockets unlock_sockets lock_queue unlock_queue push clear : Op

-- The owners of `socketsLock` and `messageQueueLock`, `killed`, and the size of `messageQueue`.
pub record Shared : Type 0 where
  pub sockets_lock : Option Thread
  pub queue_lock : Option Thread
  pub killed : Bool
  pub queued : ℕ

-- What an operation of a thread makes of them; a lock that is taken blocks the thread.
unfoldable pub perform : Thread → Op → Shared → Option Shared
perform t move s = some s
perform t set_killed s = some (record s { killed = true })
perform t lock_sockets s = elim s.sockets_lock [
  | none ↦ some (record s { sockets_lock = some t })
  | some u ↦ none
]
perform t unlock_sockets s = some (record s { sockets_lock = none })
perform t lock_queue s = elim s.queue_lock [
  | none ↦ some (record s { queue_lock = some t })
  | some u ↦ none
]
perform t unlock_queue s = some (record s { queue_lock = none })
perform t push s = some (record s { queued = suc s.queued })
perform t clear s = some (record s { queued = 0 })

-- The moves of the main thread, given `killed`.
pub data MainGoes (killed : Bool) : MainAt → Op → MainAt → Type 0 where
  go_on : killed ≡ false → MainGoes killed looping move waiting
  finish : killed ≡ true → MainGoes killed looping move returned
  timed_out : MainGoes killed waiting move looping
  shut : MainGoes killed waiting move at_erase
  erase : MainGoes killed at_erase lock_sockets erasing
  erased : MainGoes killed erasing unlock_sockets looping
  login_came : MainGoes killed waiting move at_check
  check : MainGoes killed at_check lock_sockets checking
  refused : MainGoes killed checking unlock_sockets looping
  accepted : MainGoes killed checking unlock_sockets at_associate
  associate : MainGoes killed at_associate lock_sockets associating
  associated : MainGoes killed associating unlock_sockets at_enqueue
  message_came : MainGoes killed waiting move at_enqueue
  enqueue : MainGoes killed at_enqueue lock_queue enqueueing
  push_back : MainGoes killed enqueueing push pushed
  enqueued : MainGoes killed pushed unlock_queue looping
  connection_came : MainGoes killed waiting move at_accept
  accept : MainGoes killed at_accept lock_sockets accepting
  accepted_client : MainGoes killed accepting unlock_sockets looping
  exit_came : MainGoes killed waiting set_killed at_stop
  stop : MainGoes killed at_stop lock_sockets stopping
  stopped : MainGoes killed stopping unlock_sockets looping
  -- `wait`, or a callback before it takes a lock, or, after `visitLogin`, the write of the error
  callback_throws : MainGoes killed waiting move threw
  refusal_throws : MainGoes killed checking unlock_sockets threw

-- The moves of the sender thread, given `killed` and the size of the queue. With the queue's lock it
-- takes the other lock for each message.
pub data SenderGoes (killed : Bool) (queued : ℕ) : SenderAt → Op → SenderAt → Type 0 where
  go_on : killed ≡ false → SenderGoes killed queued testing move sleeping
  finish : killed ≡ true → SenderGoes killed queued testing move ended
  wake : SenderGoes killed queued sleeping lock_queue (between queued)
  next_message : (n : ℕ) → SenderGoes killed queued (between (suc n)) move (at_write n)
  write_all : (n : ℕ) → SenderGoes killed queued (at_write n) lock_sockets (writing n)
  written_all : (n : ℕ) → SenderGoes killed queued (writing n) unlock_sockets (between n)
  -- the write to a closed socket, with both locks
  write_throws : (n : ℕ) → SenderGoes killed queued (writing n) move broken
  sweep : SenderGoes killed queued (between 0) clear swept
  cleared : SenderGoes killed queued swept unlock_queue testing

pub record System : Type 0 where
  pub main_at : MainAt
  pub sender_at : SenderAt
  pub shared : Shared

-- whether a thread has ended the process
abbrev pub main_threw : MainAt → Bool
main_threw threw = true
main_threw _ = false

abbrev pub sender_threw : SenderAt → Bool
sender_threw broken = true
sender_threw _ = false

-- A step of one of the threads, while the other has not ended the process.
pub data Step : System → System → Type 0 where
  main_steps :
      {p p' : MainAt} {r : SenderAt} {s s' : Shared} {o : Op}
      → MainGoes s.killed p o p'
      → perform main o s ≡ some s'
      → sender_threw r ≡ false
      → Step
          (record { main_at = p; sender_at = r; shared = s })
          (record { main_at = p'; sender_at = r; shared = s' })
  sender_steps :
      {p : MainAt} {r r' : SenderAt} {s s' : Shared} {o : Op}
      → SenderGoes s.killed s.queued r o r'
      → perform sender o s ≡ some s'
      → main_threw p ≡ false
      → Step
          (record { main_at = p; sender_at = r; shared = s })
          (record { main_at = p; sender_at = r'; shared = s' })

-- The threads when `start` has made the sender and calls `listen`.
abbrev pub initial : System
initial = record {
  main_at = looping;
  sender_at = testing;
  shared = record { sockets_lock = none; queue_lock = none; killed = false; queued = 0 };
}

pub data Reach : System → Type 0 where
  begun : Reach initial
  later : {s s' : System} → Reach s → Step s s' → Reach s'

-- Runs of so many steps.
pub data Steps : ℕ → System → System → Type 0 where
  stop_here : {s : System} → Steps 0 s s
  step_on : {n : ℕ} {s s' s'' : System} → Step s s' → Steps n s' s'' → Steps (suc n) s s''
