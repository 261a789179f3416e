-- ===== src/Session/Wire.antt =====
-- What one side sends, the other side gets.
use uniondesk.Common.{
  ℕ, suc, ◌+◌, ◌%◌, ◌^◌, Bool, true, false, some, List, [], ◌∷◌, ◌++◌, inr, length, map, ◌≡◌, refl,
  sym, ◌∙◌, ap, All,
}
use uniondesk.Protocol.{Message}
use uniondesk.Codec.{
  Bytes, Outgoing, outgoing_message, outgoing_chunk, Json, encode_inner, write_record,
}
use uniondesk.Codec.Framing.{read_record-write_record}
use uniondesk.Codec.Tags.{FitsFrame, arrives, decode_inner-encode_inner}
use uniondesk.Engine.Dispatch.{Incoming}
use uniondesk.Session.{
  Cipher, Writer, new_writer, Reader, new_reader, read_turn, read_turns, take_record, decrypt,
  forward,
}

-- The item as the other side hands it to its engine.
abbrev pub incoming_of : Outgoing → Incoming
incoming_of (outgoing_message m) = Incoming.message m
incoming_of (outgoing_chunk c) = Incoming.chunk c

-- The other side's cipher reads what this side's wrote under the same nonce, and the JSON library reads back
-- the messages that it writes.
pub record IsFaithful (serde : Json) (cipher : Cipher) : Type 0 where
  pub reads_back :
      (n : ℕ) (plain sealed : Bytes)
      → cipher.write_message n plain ≡ some sealed
      → cipher.read_message n sealed ≡ some plain
  pub parses_back :
      (m : Message) (json : Bytes) → serde.to_vec m ≡ some json → serde.from_slice json ≡ some m

-- The reader after it has read everything up to here.
abbrev pub caught_up : ℕ → List Outgoing → Bytes → Reader
caught_up nonce sent rest = record {
  nonce = nonce;
  stream = rest;
  forwarded = map incoming_of sent;
  is_cancelled = false;
  is_running = true;
}

-- Reading so many records of the wire, whatever follows, forwards what was sent; while the writer runs, the
-- reader is also where the next record starts.
pub record FollowsAt (serde : Json) (cipher : Cipher) (nonce : ℕ) (wire : Bytes)
    (sent : List Outgoing) (running : Bool) : Type 0 where
  pub heard :
      (rest : Bytes)
      → All FitsFrame sent
      → (read_turns serde cipher (length sent) (new_reader (wire ++ rest))).forwarded
        ≡ map incoming_of sent
  pub follow :
      (rest : Bytes)
      → All FitsFrame sent
      → running ≡ true
      → read_turns serde cipher (length sent) (new_reader (wire ++ rest))
        ≡ caught_up nonce sent rest

abbrev pub Follows : Json → Cipher → Writer → Type 0
Follows serde cipher s = FollowsAt serde cipher s.nonce s.wire s.sent s.is_running

pub start-Follows : (serde : Json) (cipher : Cipher) → Follows serde cipher new_writer
unfolding read_turns
start-Follows serde cipher = record { heard = λ rest fits. refl; follow = λ rest fits on. refl }

pub stopped :
    (serde : Json) (cipher : Cipher) (n m : ℕ) (wire : Bytes) (sent : List Outgoing)
    (running : Bool)
    → FollowsAt serde cipher n wire sent running
    → FollowsAt serde cipher m wire sent false
stopped serde cipher n m wire sent running f = record {
  heard = f.heard;
  follow = λ rest fits on. absurd cc;
}

pub append_assoc : {A : Type 0} (xs ys zs : List A) → (xs ++ ys) ++ zs ≡ xs ++ (ys ++ zs)
append_assoc [] ys zs = refl
append_assoc (x ∷ xs) ys zs = ap (λ r. x ∷ r) (append_assoc xs ys zs)

length-snoc : (items : List Outgoing) (x : Outgoing) → length (items ++ x ∷ []) ≡ suc (length items)
length-snoc [] x = refl
length-snoc (y ∷ items) x = ap suc (length-snoc items x)

map-snoc :
    (items : List Outgoing) (x : Outgoing)
    → map incoming_of (items ++ x ∷ []) ≡ map incoming_of items ++ incoming_of x ∷ []
map-snoc [] x = refl
map-snoc (y ∷ items) x = ap (λ r. incoming_of y ∷ r) (map-snoc items x)

All-front :
    (items : List Outgoing) (x : Outgoing)
    → All FitsFrame (items ++ x ∷ [])
    → All FitsFrame items × FitsFrame x
All-front [] x (f, all) = (tt, f)
All-front (y ∷ items) x (f, all) = let (a, b) = All-front items x all in ((f, a), b)

arrives_incoming : (x : Outgoing) → arrives x ≡ inr (incoming_of x)
arrives_incoming (outgoing_message m) = refl
arrives_incoming (outgoing_chunk c) = refl

-- One more record is read.
reads_one :
    (serde : Json) (cipher : Cipher) (nonce : ℕ) (sent : List Outgoing) (x : Outgoing)
    (plain sealed bytes rest : Bytes)
    → IsFaithful serde cipher
    → FitsFrame x
    → encode_inner serde x ≡ inr plain
    → cipher.write_message nonce plain ≡ some sealed
    → write_record sealed ≡ inr bytes
    → read_turn serde cipher true (caught_up nonce sent (bytes ++ rest))
      ≡ caught_up ((nonce + 1) % 2 ^ 64) (sent ++ x ∷ []) rest
unfolding read_turn
reads_one serde cipher nonce sent x plain sealed bytes rest faith fits e c w =
    let start = caught_up nonce sent (bytes ++ rest) in
    let back = record start { stream = rest } in
    ap (λ o. take_record serde cipher true o start) (read_record-write_record sealed rest bytes w)
    ∙ (ap (λ o. decrypt serde true o back) (faith.reads_back nonce plain sealed c)
        ∙ (ap (λ o. forward true o back)
              (decode_inner-encode_inner serde x plain faith.parses_back fits e
                ∙ arrives_incoming x)
            ∙ ap
                (λ f. record {
                  nonce = (nonce + 1) % 2 ^ 64;
                  stream = rest;
                  forwarded = f;
                  is_cancelled = false;
                  is_running = true;
                })
                (sym (map-snoc sent x))))

pub written-Follows :
    (serde : Json) (cipher : Cipher) (s : Writer) (x : Outgoing) (plain sealed bytes : Bytes)
    → IsFaithful serde cipher
    → Follows serde cipher s
    → s.is_running ≡ true
    → encode_inner serde x ≡ inr plain
    → cipher.write_message s.nonce plain ≡ some sealed
    → write_record sealed ≡ inr bytes
    → FollowsAt serde cipher ((s.nonce + 1) % 2 ^ 64) (s.wire ++ bytes) (s.sent ++ x ∷ []) true
unfolding read_turns
written-Follows serde cipher s x plain sealed bytes faith f on e c w = record {
  heard = λ rest fits. ap (λ r. r.forwarded) (step rest fits);
  follow = λ rest fits yes. step rest fits;
}
  where
    step :
        (rest : Bytes)
        → All FitsFrame (s.sent ++ x ∷ [])
        → read_turns serde cipher
            (length (s.sent ++ x ∷ []))
            (new_reader ((s.wire ++ bytes) ++ rest))
          ≡ caught_up ((s.nonce + 1) % 2 ^ 64) (s.sent ++ x ∷ []) rest
    step rest fits =
        let (before, this) = All-front s.sent x fits in
        ap (λ n. read_turns serde cipher n (new_reader ((s.wire ++ bytes) ++ rest)))
          (length-snoc s.sent x)
        ∙ (ap
              (λ b.
                read_turn serde cipher true
                  (read_turns serde cipher (length s.sent) (new_reader b)))
              (append_assoc s.wire bytes rest)
            ∙ (ap (read_turn serde cipher true) (f.follow (bytes ++ rest) before on)
                ∙ reads_one serde cipher s.nonce s.sent x plain sealed bytes rest faith this e c w))
