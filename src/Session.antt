-- ===== src/Session.antt =====
-- crates/ud-net/src/session.rs: the queues of a connection, `writer_loop` and `reader_loop`. The cipher is
-- snow's, and a parameter, as is the JSON library. Each round of a loop is a step of its own, so that
-- the tasks may come in any order.
pub mod Wire
pub mod Delivery
pub mod Draining
pub mod Endings
pub mod Handshake
use uniondesk.Common.{
  ℕ, zero, suc, ◌+◌, ◌%◌, ◌^◌, Bool, true, false, not, Option, none, some, List, [], ◌∷◌, ◌++◌, ◌⊎◌,
  inl, inr, ltb, length, if◌then◌else◌,
}
use uniondesk.Protocol.{Message}
use uniondesk.Codec.{
  Bytes, Outgoing, outgoing_message, outgoing_chunk, CodecError, Json, encode_inner, decode_inner,
  write_record, read_record,
}
use uniondesk.Engine.Dispatch.{Incoming}

-- `StatelessTransportState`: `write_message` of one side and `read_message` of the other, by nonce.
pub record Cipher : Type 0 where
  pub write_message : ℕ → Bytes → Option Bytes
  pub read_message : ℕ → Bytes → Option Bytes

abbrev pub urgent_queue : ℕ
urgent_queue = 2048

abbrev pub normal_queue : ℕ
normal_queue = 256

-- The writing side: its nonce, what it has put on the wire, its queues, whether the connection is cancelled
-- and whether the loop still runs. `sent` keeps the items that went out, oldest first.
pub record Writer : Type 0 where
  pub nonce : ℕ
  pub wire : Bytes
  pub urgent : List Outgoing
  pub normal : List Outgoing
  pub is_cancelled : Bool
  pub is_running : Bool
  pub sent : List Outgoing

-- `build`: the channels are empty and both nonces start at 0.
abbrev pub new_writer : Writer
new_writer = record {
  nonce = 0;
  wire = [];
  urgent = [];
  normal = [];
  is_cancelled = false;
  is_running = true;
  sent = [];
}

-- `try_send_urgent`: false when the queue is full or the loop is gone.
unfoldable pub try_send_urgent : Message → Writer → Bool × Writer
try_send_urgent m s =
    if not s.is_running
    then (false, s)
    else if ltb (length s.urgent) urgent_queue
    then (true, record s { urgent = s.urgent ++ outgoing_message m ∷ [] })
    else (false, s)

-- `send` and `send_chunk`, which wait while the queue is full.
pub data Submitted : Type 0 where
  queued : Writer → Submitted
  waits closed : Submitted

unfoldable pub send : Outgoing → Writer → Submitted
send item s =
    if not s.is_running
    then closed
    else if ltb (length s.normal) normal_queue
    then queued (record s { normal = s.normal ++ item ∷ [] })
    else waits

-- The end of a loop, which cancels the connection.
abbrev pub stop : Writer → Writer
stop s = record s { is_cancelled = true; is_running = false }

-- `write_record` to a socket that takes the bytes or fails.
abbrev pub put : Bool → Outgoing → CodecError ⊎ Bytes → Writer → Writer
put is_taken item (inl err) s = stop s
put is_taken item (inr bytes) s =
    if is_taken then record s { wire = s.wire ++ bytes; sent = s.sent ++ item ∷ [] } else stop s

abbrev pub seal : Bool → Outgoing → Option Bytes → Writer → Writer
seal is_taken item none s = stop s
seal is_taken item (some sealed) s =
    put is_taken item (write_record sealed) (record s { nonce = (s.nonce + 1) % 2 ^ 64 })

abbrev pub encrypt : Cipher → Bool → Outgoing → CodecError ⊎ Bytes → Writer → Writer
encrypt cipher is_taken item (inl err) s = stop s
encrypt cipher is_taken item (inr plain) s =
    seal is_taken item (cipher.write_message s.nonce plain) s

-- What is done with an item that has been taken from its queue.
unfoldable pub write_item : Json → Cipher → Bool → Outgoing → Writer → Writer
unfolding encode_inner write_record
write_item serde cipher is_taken item s = encrypt cipher is_taken item (encode_inner serde item) s

-- The choice between the queues: urgent items first.
abbrev pub next_item : Json → Cipher → Bool → List Outgoing → List Outgoing → Writer → Writer
next_item serde cipher is_taken (item ∷ urgent) normal s =
    write_item serde cipher is_taken item (record s { urgent = urgent })
next_item serde cipher is_taken [] (item ∷ normal) s =
    write_item serde cipher is_taken item (record s { normal = normal })
next_item serde cipher is_taken [] [] s = s

-- One round of `writer_loop`.
unfoldable pub write_turn : Json → Cipher → Bool → Writer → Writer
unfolding write_item
write_turn serde cipher is_taken s =
    if not s.is_running
    then s
    else if s.is_cancelled
    then stop s
    else next_item serde cipher is_taken s.urgent s.normal s

-- What happens to the writing side, one thing at a time.
pub data Turn : Type 0 where
  urgent_message : Message → Turn
  submit : Outgoing → Turn
  write : Bool → Turn
  cancel : Turn

abbrev pub after_submit : Submitted → Writer → Writer
after_submit (queued t) s = t
after_submit waits s = s
after_submit closed s = s

unfoldable pub turn : Json → Cipher → Turn → Writer → Writer
unfolding try_send_urgent send write_turn
turn serde cipher (urgent_message m) s = (try_send_urgent m s).1
turn serde cipher (submit item) s = after_submit (send item s) s
turn serde cipher (write is_taken) s = write_turn serde cipher is_taken s
turn serde cipher cancel s = record s { is_cancelled = true }

unfoldable pub run : Json → Cipher → List Turn → Writer → Writer
unfolding turn
run serde cipher [] s = s
run serde cipher (t ∷ turns) s = run serde cipher turns (turn serde cipher t s)

-- The reading side: its nonce, what is left of the stream until it ends, and what it has forwarded.
pub record Reader : Type 0 where
  pub nonce : ℕ
  pub stream : Bytes
  pub forwarded : List Incoming
  pub is_cancelled : Bool
  pub is_running : Bool

abbrev pub new_reader : Bytes → Reader
new_reader stream = record {
  nonce = 0;
  stream = stream;
  forwarded = [];
  is_cancelled = false;
  is_running = true;
}

abbrev pub halt : Reader → Reader
halt r = record r { is_cancelled = true; is_running = false }

-- `outgoing.send`; the engine takes the item or is gone.
abbrev pub forward : Bool → CodecError ⊎ Incoming → Reader → Reader
forward is_taken (inl err) r = halt r
forward is_taken (inr item) r =
    let next = record r { nonce = (r.nonce + 1) % 2 ^ 64; forwarded = r.forwarded ++ item ∷ [] } in
    if is_taken then next else halt r

abbrev pub decrypt : Json → Bool → Option Bytes → Reader → Reader
decrypt serde is_taken none r = halt r
decrypt serde is_taken (some plain) r = forward is_taken (decode_inner serde plain) r

abbrev pub take_record : Json → Cipher → Bool → CodecError ⊎ (Bytes × Bytes) → Reader → Reader
take_record serde cipher is_taken (inl err) r = halt r
take_record serde cipher is_taken (inr (body, rest)) r =
    decrypt serde is_taken (cipher.read_message r.nonce body) (record r { stream = rest })

-- One round of `reader_loop`.
unfoldable pub read_turn : Json → Cipher → Bool → Reader → Reader
unfolding decode_inner read_record
read_turn serde cipher is_taken r =
    if not r.is_running
    then r
    else if r.is_cancelled
    then halt r
    else take_record serde cipher is_taken (read_record r.stream) r

-- So many rounds, while the engine takes what is forwarded.
unfoldable pub read_turns : Json → Cipher → ℕ → Reader → Reader
unfolding read_turn
read_turns serde cipher zero r = r
read_turns serde cipher (suc n) r = read_turn serde cipher true (read_turns serde cipher n r)
