-- ===== src/EventQueue.antt =====
-- What psi/include/psi/shared/ipc/space/EventRingBuffer.h promises: a bounded FIFO of messages.
use psi_shared.Base.{
  ℕ, List, [], ◌∷◌, ◌++◌, Option, none, some, Bool, true, false, ltb, ◌==◌, if◌then◌else◌, length,
}

-- The event's id and its payload.
abbrev pub Message : Type 0
Message = ℕ × List ℕ

abbrev pub Queue : Type 0
Queue = List Message

-- `room` is the number of messages that fit, `limit` the length of the longest payload.
unfoldable pub push : ℕ → ℕ → Message → Queue → Queue × Bool
push room limit m q =
    if ltb limit (length m.1)
    then (q, false)
    else (if length q == room then (q, false) else (q ++ m ∷ [], true))

unfoldable pub pop : Queue → Option Message × Queue
pop [] = (none, [])
pop (m ∷ q) = (some m, q)
