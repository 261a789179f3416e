-- ===== src/Engine/Transfers.antt =====
-- The section "file transfer" of crates/ud-engine/src/engine.rs, and the bookkeeping of
-- crates/ud-engine/src/transfer.rs.
use uniondesk.Common.{
  ℕ, suc, ◌+◌, ◌-◌, ◌%◌, ◌^◌, min, Bool, true, false, not, ◌&&◌, String, Option, none, some, List,
  [], ◌∷◌, ◌++◌, ◌==◌, if◌then◌else◌, length, get_elem?, set, keep, contains,
}
use uniondesk.Common.Dict.{Dict, lookup, insert, modify}
use uniondesk.Config.{DeviceId, FilePath}
use uniondesk.Protocol.{Message, TransferId, FileEntry, FileOffer, FileAccept}
use uniondesk.Transfer.{sanitize_relative}
use uniondesk.Engine.State.{
  Env, Engine, Session, TransferState, pending, active, completed, cancelled, Tracked, outgoing,
  incoming, OutgoingFile, OutgoingTransfer, IncomingTransfer, Notice, Effect, sent, notify, publish,
  spawn_sender, create_dir, say, send_to, is_connected,
}

-- `u64::saturating_add`
abbrev pub saturating_add : ℕ → ℕ → ℕ
saturating_add a b = min (a + b) (2 ^ 64 - 1)

abbrev pub total_size : List FileEntry → ℕ
total_size [] = 0
total_size (e ∷ es) = e.size + total_size es

abbrev pub repeat {ℓ} : {A : Type ℓ} → A → List FileEntry → List A
repeat a [] = []
repeat a (e ∷ es) = a ∷ repeat a es

-- `OutgoingTransfer::entries`
abbrev pub entries_of : List OutgoingFile → List FileEntry
entries_of [] = []
entries_of (f ∷ fs) = f.entry ∷ entries_of fs

-- `OutgoingTransfer::new`
unfoldable pub new_outgoing :
    Env → TransferId → DeviceId → String → List OutgoingFile → OutgoingTransfer
new_outgoing env id peer name files = record {
  id = id;
  peer = peer;
  peer_name = name;
  files = files;
  total_bytes = total_size (entries_of files) % 2 ^ 64;
  done_bytes = 0;
  started_at = env.unix;
  accepted = false;
  finished = false;
}

-- `IncomingTransfer::new`
unfoldable pub new_incoming : Env → DeviceId → FileOffer → FilePath → IncomingTransfer
new_incoming env peer offer root = record {
  id = offer.transfer;
  peer = peer;
  peer_name = offer.sender_name;
  entries = offer.files;
  total_bytes = total_size offer.files % 2 ^ 64;
  done_bytes = 0;
  started_at = env.unix;
  root = root;
  resolved = repeat none offer.files;
  written = repeat 0 offer.files;
}

abbrev pub position_from : ℕ → ℕ → List FileEntry → Option ℕ
position_from n index [] = none
position_from n index (e ∷ es) =
    let later = position_from (suc n) index es in if e.index == index then some n else later

-- `position_of`
unfoldable pub position_of : IncomingTransfer → ℕ → Option ℕ
position_of t index = position_from 0 index t.entries

abbrev pub path_at : List (Option FilePath) → ℕ → Option FilePath
path_at paths i = elim (get_elem? paths i) [ none ↦ none | some p ↦ p ]

abbrev pub written_at : List ℕ → ℕ → ℕ
written_at counts i = elim (get_elem? counts i) [ none ↦ 0 | some n ↦ n ]

abbrev pub peer_of : Tracked → DeviceId
peer_of (outgoing t st) = t.peer
peer_of (incoming t handles st err) = t.peer

-- `Tracked::state` and `Tracked::set_state`
abbrev pub state_of : Tracked → TransferState
state_of (outgoing t st) = st
state_of (incoming t handles st err) = st

abbrev pub set_state : TransferState → Tracked → Tracked
set_state st (outgoing t old) = outgoing t st
set_state st (incoming t handles old err) = incoming t handles st err

abbrev pub offer_files : Env → DeviceId → Session → List OutgoingFile → Engine → Engine
offer_files env peer x files s =
    let t = new_outgoing env env.random peer x.info.name files in
    let offer = Message.file_offer (record {
      transfer = env.random;
      sender_name = s.settings.device_name;
      total_bytes = t.total_bytes;
      files = entries_of files;
    }) in
    if env.send_ok x.connection.number
    then record s {
      transfers = insert env.random (outgoing t pending) s.transfers;
      log = s.log ++ (sent x.connection.number offer ∷ publish ∷ []);
    }
    else say (notify Notice.offer_failed_notice ∷ []) s

abbrev pub send_collected : Env → DeviceId → Session → Option (List OutgoingFile) → Engine → Engine
send_collected env peer x none s = say (notify Notice.unreadable_files_notice ∷ []) s
send_collected env peer x (some []) s = say (notify Notice.nothing_to_send_notice ∷ []) s
send_collected env peer x (some (f ∷ fs)) s = offer_files env peer x (f ∷ fs) s

abbrev pub send_in : Env → DeviceId → Option Session → Engine → Engine
send_in env peer none s = say (notify Notice.not_connected_notice ∷ []) s
send_in env peer (some x) s =
    if is_connected x.state
    then send_collected env peer x env.collected s
    else say (notify Notice.not_paired_notice ∷ []) s

-- `send_files`; what `collect_entries` makes of the paths is in `env`.
unfoldable pub send_files : Env → DeviceId → Engine → Engine
unfolding new_outgoing
send_files env peer s =
    if s.settings.transfer.enabled
    then send_in env peer (lookup peer s.sessions) s
    else say (notify Notice.transfers_off_notice ∷ []) s

-- The folders that an accepted offer asks for: what is made, the paths found and the last error.
abbrev pub make_dirs :
    Env
    → FilePath
    → ℕ
    → List FileEntry
    → List (Option FilePath) × Option String × List Effect
    → List (Option FilePath) × Option String × List Effect
make_dirs env root n [] acc = acc
make_dirs env root n (e ∷ es) (paths, err, effects) = make_dirs env root (suc n) es (
    if e.is_dir
    then (elim (sanitize_relative e.relative_path root) [
      | none ↦ (paths, err, effects)
      | some path ↦ (
        set paths n (some path),
        (elim (env.create_dir_error path) [ none ↦ err | some message ↦ some message ]),
        effects ++ create_dir path ∷ [],
      )
    ])
    else (paths, err, effects))

abbrev pub accept_pending :
    Env → TransferId → IncomingTransfer → Dict FilePath → Option String → Engine → Engine
accept_pending env id t handles err s =
    let (paths, err', effects) = make_dirs env t.root 0 t.entries (t.resolved, err, []) in
    let told =
      send_to env t.peer (Message.file_accept (record { transfer = id; rejected = [] })) (record s {
        transfers =
            insert id (incoming (record t { resolved = paths }) handles active err') s.transfers;
        log = s.log ++ effects;
      }) in
    say (publish ∷ []) told

abbrev pub accept_in : Env → TransferId → Option Tracked → Engine → Engine
accept_in env id (some (incoming t handles pending err)) s = accept_pending env id t handles err s
accept_in env id _ s = s

-- `accept_transfer`: only an incoming transfer that is still pending is accepted.
unfoldable pub accept_transfer : Env → TransferId → Engine → Engine
unfolding send_to
accept_transfer env id s = accept_in env id (lookup id s.transfers) s

abbrev pub is_trusted : Option Session → Bool
is_trusted none = false
is_trusted (some x) = x.trusted

abbrev pub cancel_to : Option Session → TransferId → List Effect
cancel_to none id = []
cancel_to (some x) id =
    sent x.connection.number (Message.file_cancel id "file transfer is disabled here") ∷ []

-- `on_file_offer`
unfoldable pub on_file_offer : Env → DeviceId → FileOffer → Engine → Engine
unfolding new_incoming accept_transfer
on_file_offer env peer offer s =
    let root = s.settings.transfer.download_dir in
    let t = record s {
      transfers =
          insert offer.transfer (incoming (new_incoming env peer offer root) [] pending none)
            s.transfers;
      log =
          s.log ++ notify (Notice.files_offered_notice offer.sender_name (length offer.files)) ∷ [];
    } in
    if not s.settings.transfer.enabled
    then say (cancel_to (lookup peer s.sessions) offer.transfer) s
    else if is_trusted (lookup peer s.sessions) && s.settings.transfer.auto_accept_trusted
    then accept_transfer env offer.transfer t
    else say (publish ∷ []) t

abbrev pub tell_cancelled : Env → TransferId → Option Tracked → Engine → Engine
tell_cancelled env id none s = s
tell_cancelled env id (some tracked) s =
    send_to env (peer_of tracked) (Message.file_cancel id "cancelled by the user") s

-- `cancel_transfer`
unfoldable pub cancel_transfer : Env → TransferId → Engine → Engine
unfolding send_to
cancel_transfer env id s =
    let told = tell_cancelled env id (lookup id s.transfers) s in
    record told {
      transfers = modify id (set_state cancelled) told.transfers;
      log = told.log ++ publish ∷ [];
    }

abbrev pub not_rejected : List ℕ → OutgoingFile → Bool
not_rejected rejected f = not (contains f.entry.index rejected)

abbrev pub stream : FileAccept → OutgoingTransfer → Option Session → Engine → Engine
stream accept t none s = s
stream accept t (some x) s =
    say
      (spawn_sender t.id (keep (not_rejected accept.rejected) t.files) x.connection.number
        ∷ publish
        ∷ [])
      s

abbrev pub start_outgoing : FileAccept → Option Tracked → Engine → Engine
start_outgoing accept (some (outgoing t st)) s =
    stream accept t (lookup t.peer s.sessions) (record s {
      transfers =
          insert accept.transfer (outgoing (record t { accepted = true }) active) s.transfers;
    })
start_outgoing accept (some (incoming t handles st err)) s = s
start_outgoing accept none s = s

-- `on_file_accept`
unfoldable pub on_file_accept : FileAccept → Engine → Engine
on_file_accept accept s = start_outgoing accept (lookup accept.transfer s.transfers) s

-- `if transfer.done_bytes == 0 { transfer.done_bytes = transfer.total_bytes }`
abbrev pub done_or_total : ℕ → ℕ → ℕ
done_or_total done total = if done == 0 then total else done

abbrev pub outcome : Option String → TransferState
outcome none = completed
outcome (some message) = TransferState.failed

abbrev pub finish_outgoing : TransferId → Option String → Option Tracked → Engine → Engine
finish_outgoing id err (some (outgoing t st)) s = record s {
  transfers =
      insert id
        (outgoing
          (record t { finished = true; done_bytes = done_or_total t.done_bytes t.total_bytes })
          (outcome err))
        s.transfers;
  log =
      s.log
      ++ (elim err [
        | none ↦ notify (Notice.files_sent_notice t.peer_name)
        | some message ↦ notify (Notice.sending_failed_notice t.peer_name)
      ]
          ∷ []);
}
finish_outgoing id err (some (incoming t handles st e)) s = s
finish_outgoing id err none s = s

-- `on_transfer_done`
unfoldable pub on_transfer_done : TransferId → Option String → Engine → Engine
on_transfer_done id err s = say (publish ∷ []) (finish_outgoing id err (lookup id s.transfers) s)

abbrev pub add_progress : ℕ → Tracked → Tracked
add_progress bytes (outgoing t st) =
    outgoing (record t { done_bytes = saturating_add t.done_bytes bytes }) st
add_progress bytes (incoming t handles st err) = incoming t handles st err

-- `Event::TransferProgress`
unfoldable pub on_transfer_progress : TransferId → ℕ → Engine → Engine
on_transfer_progress id bytes s = record s {
  transfers = modify id (add_progress bytes) s.transfers;
}
