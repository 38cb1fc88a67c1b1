-- ===== src/Server/Locks/Ending.antt =====
-- The end of the two threads after `stop` has set `killed`.
use se3313a_lab.Base.{ℕ, ◌+◌, ◌*◌, ◌≡◌, Bool, true, false}
use se3313a_lab.Server.Locks.{
  MainAt, SenderAt, System, looping, at_stop, stopping, returned, testing, sleeping, between,
  at_write, writing, swept, ended, broken,
}

-- where the main thread may stand when the server is killed
abbrev leaving : MainAt → Bool
leaving looping = true
leaving at_stop = true
leaving stopping = true
leaving returned = true
leaving _ = false

abbrev Leaves : Bool → MainAt → Type 0
Leaves killed p = killed ≡ true → leaving p ≡ true

-- the steps that a killed server has still to make
abbrev main_left : MainAt → ℕ
main_left at_stop = 3
main_left stopping = 2
main_left looping = 1
main_left _ = 0

abbrev sender_left : SenderAt → ℕ → ℕ
sender_left sleeping queued = 4 + 3 * queued
sender_left (between n) queued = 3 + 3 * n
sender_left (at_write n) queued = 5 + 3 * n
sender_left (writing n) queued = 4 + 3 * n
sender_left swept queued = 2
sender_left testing queued = 1
sender_left ended queued = 0
sender_left broken queued = 0

abbrev pub steps_left : System → ℕ
steps_left s = main_left s.main_at + sender_left s.sender_at s.shared.queued
