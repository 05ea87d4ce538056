-- ===== src/EventRing/Slot.antt =====
-- EventRingBuffer.h: what the three copies into a slot leave to be read from it.
use psi_shared.Base.{
  ℕ, ◌+◌, ◌≤◌, ◌<◌, ◌^◌, ◌≡◌, ◌∙◌, ap, ap₂, List, ◌++◌, append_assoc, arith, length, length-append,
  drop, read_at, write_at, write_at-write_at, length-write_at, drop-write_at, read_at_front,
  drop_front, to_bytes, of_bytes, length-to_bytes, of_bytes-to_bytes, length-take,
}
use psi_shared.EventQueue.{Message}
use psi_shared.EventRing.{header, fill_slot}

-- The message that a slot holds.
abbrev pub message_of : List ℕ → Message
message_of slot = (of_bytes (read_at slot 0 2), read_at slot header (of_bytes (read_at slot 2 2)))

pub length-fill_slot :
    (event_id : ℕ) (bytes : List ℕ) (sz : ℕ) (slot : List ℕ)
    → length (fill_slot event_id bytes sz slot) ≡ length slot
unfolding fill_slot
length-fill_slot event_id bytes sz slot = rw (length-write_at, length-write_at, length-write_at)

-- The three copies are one.
fill_slot-write_at :
    (event_id : ℕ) (bytes : List ℕ) (sz : ℕ) (slot : List ℕ)
    → fill_slot event_id bytes sz slot
      ≡ write_at slot 0 (to_bytes 2 event_id ++ (to_bytes 2 sz ++ read_at bytes 0 sz))
unfolding fill_slot
fill_slot-write_at event_id bytes sz slot =
    ap
      (λ at.
        write_at (write_at (write_at slot 0 (to_bytes 2 event_id)) 2 (to_bytes 2 sz)) at
          (read_at bytes 0 sz))
      (omega (arith, length-to_bytes 2 sz))
    ∙ write_at-write_at (write_at slot 0 (to_bytes 2 event_id)) 2 (to_bytes 2 sz)
        (read_at bytes 0 sz)
    ∙ ap
        (λ at.
          write_at (write_at slot 0 (to_bytes 2 event_id)) at (to_bytes 2 sz ++ read_at bytes 0 sz))
        (omega (arith, length-to_bytes 2 event_id))
    ∙ write_at-write_at slot 0 (to_bytes 2 event_id) (to_bytes 2 sz ++ read_at bytes 0 sz)

-- A slot that was filled holds the message, if it is long enough and `data` has `sz` bytes.
pub message_of-fill_slot :
    (event_id : ℕ) (bytes : List ℕ) (sz : ℕ) (slot : List ℕ)
    → event_id < 2 ^ 16
    → sz < 2 ^ 16
    → sz ≤ length bytes
    → header + sz ≤ length slot
    → message_of (fill_slot event_id bytes sz slot) ≡ (event_id, read_at bytes 0 sz)
message_of-fill_slot event_id bytes sz slot hid hsz hb hs =
    ap₂ (λ a b. (a, b)) (ap of_bytes at_id ∙ of_bytes-to_bytes 2 event_id hid)
      (ap (read_at filled header) (ap of_bytes at_sz ∙ of_bytes-to_bytes 2 sz hsz)
        ∙ read_at_front filled header sz payload rest payload_size after_sz)
  where
    filled : List ℕ
    filled = fill_slot event_id bytes sz slot

    payload : List ℕ
    payload = read_at bytes 0 sz

    payload_size : length payload ≡ sz
    payload_size = omega (arith, length-take sz bytes)

    encoded : List ℕ
    encoded = to_bytes 2 event_id ++ (to_bytes 2 sz ++ payload)

    rest : List ℕ
    rest = drop (0 + length encoded) slot

    fits : 0 + length encoded ≤ length slot
    fits = omega (
      arith,
      length-append (to_bytes 2 event_id) (to_bytes 2 sz ++ payload),
      length-append (to_bytes 2 sz) payload,
      length-to_bytes 2 event_id,
      length-to_bytes 2 sz,
      payload_size,
    )

    whole : drop 0 filled ≡ to_bytes 2 event_id ++ (to_bytes 2 sz ++ (payload ++ rest))
    whole =
        fill_slot-write_at event_id bytes sz slot
        ∙ drop-write_at slot 0 encoded fits
        ∙ append_assoc (to_bytes 2 event_id) (to_bytes 2 sz ++ payload) rest
        ∙ ap (λ t. to_bytes 2 event_id ++ t) (append_assoc (to_bytes 2 sz) payload rest)

    at_id : read_at filled 0 2 ≡ to_bytes 2 event_id
    at_id = read_at_front filled 0 2 (to_bytes 2 event_id) _ (length-to_bytes 2 event_id) whole

    after_id : drop 2 filled ≡ to_bytes 2 sz ++ (payload ++ rest)
    after_id =
        drop_front filled 0 2 (to_bytes 2 event_id) _ (omega (arith, length-to_bytes 2 event_id))
          whole

    at_sz : read_at filled 2 2 ≡ to_bytes 2 sz
    at_sz = read_at_front filled 2 2 (to_bytes 2 sz) _ (length-to_bytes 2 sz) after_id

    after_sz : drop header filled ≡ payload ++ rest
    after_sz =
        drop_front filled 2 4 (to_bytes 2 sz) _ (omega (arith, length-to_bytes 2 sz)) after_id
