-- ===== src/Engine/Chunks/Writes.antt =====
-- Where a received chunk is written (`on_chunk` of crates/ud-engine/src/engine.rs).
use uniondesk.Common.{
  ℕ, zero, suc, Bool, true, false, ◌≡◌, refl, sym, subst, String, Option, none, some, List, [], ◌∷◌,
  ◌++◌, get_elem?, set, if◌then◌else◌, All,
}
use uniondesk.Common.Dict.{Dict, lookup, AllValues, AllValues-insert, AllValues-lookup}
use uniondesk.Config.{FilePath}
use uniondesk.Protocol.{FileEntry, FileChunk}
use uniondesk.Transfer.{sanitize_relative}
use uniondesk.Transfer.Fresh.{unique_path, parent}
use uniondesk.Transfer.Below.{
  IsWithin, IsBelow, parent-IsWithin, unique_path-IsBelow, sanitize_relative-IsBelow,
}
use uniondesk.Engine.State.{
  Env, TransferState, active, Tracked, outgoing, incoming, IncomingTransfer, Effect, create_dir,
  write_file,
}
use uniondesk.Engine.Transfers.{position_of, path_at}
use uniondesk.Engine.Chunks.{
  Target, known, chosen, refused, fresh_target, target_of, Written, write_chunk, with_handle,
  resolve_at, write_to, chunk_for, chunk_at, take_chunk,
}

-- An effect on the disk that stays in a folder. Effects of other kinds do not touch the disk.
abbrev pub StaysIn : FilePath → Effect → Type 0
StaysIn root (create_dir path) = IsWithin root path
StaysIn root (write_file path offset content) = IsBelow root path
StaysIn root _ = Unit

-- A path that is known lies below the folder.
abbrev pub Resolves : FilePath → Option FilePath → Type 0
Resolves root none = Unit
Resolves root (some path) = IsBelow root path

-- Every path that an incoming transfer has chosen or opened lies below its folder.
abbrev pub IsConfined : FilePath → Tracked → Type 0
IsConfined root (outgoing t st) = Unit
IsConfined root (incoming t handles st err) =
    (t.root ≡ root) × All (Resolves root) t.resolved × AllValues (IsBelow root) handles

abbrev pub Confined : FilePath → Written → Type 0
Confined root w = IsConfined root w.0 × All (StaysIn root) w.1

module _ (root : FilePath) where
  All-set :
      (paths : List (Option FilePath)) (i : ℕ) (path : FilePath)
      → IsBelow root path
      → All (Resolves root) paths
      → All (Resolves root) (set paths i (some path))
  All-set [] i path b h = tt
  All-set (p ∷ ps) zero path b h = (b, h.1)
  All-set (p ∷ ps) (suc i) path b h = (h.0, All-set ps i path b h.1)

  path_at-Resolves :
      (paths : List (Option FilePath)) (i : ℕ)
      → All (Resolves root) paths
      → Resolves root (path_at paths i)
  path_at-Resolves [] i h = tt
  path_at-Resolves (none ∷ ps) zero h = tt
  path_at-Resolves (some p ∷ ps) zero h = h.0
  path_at-Resolves (p ∷ ps) (suc i) h = path_at-Resolves ps i h.1

  All-snoc :
      (es : List Effect) (e : Effect)
      → All (StaysIn root) es
      → StaysIn root e
      → All (StaysIn root) (es ++ e ∷ [])
  All-snoc [] e h k = (k, tt)
  All-snoc (x ∷ es) e h k = (h.0, All-snoc es e h.1 k)

  module _ (env : Env) (c : FileChunk) (i : ℕ) where
    written_chunk :
        (outcome : Option String) (path : FilePath) (t : IncomingTransfer) (handles : Dict FilePath)
        (err : Option String) (es : List Effect)
        → env.write_error path c.offset ≡ outcome
        → IsBelow root path
        → IsConfined root (incoming t handles active err)
        → All (StaysIn root) es
        → Confined root (write_chunk env c i path t handles err es)
    written_chunk (some message) path t handles err es e b h k =
        rw (e, write_chunk)
          ((h.0, h.1, AllValues-insert (IsBelow root) c.index path handles b h.2), k)
    written_chunk none path t handles err es e b h k =
        rw (e, write_chunk)
          (
            (h.0, h.1, AllValues-insert (IsBelow root) c.index path handles b h.2),
            All-snoc es (write_file path c.offset c.content) k b,
          )

    opened_chunk :
        (outcome : Option String) (path : FilePath) (o : Option FilePath) (t : IncomingTransfer)
        (handles : Dict FilePath) (err : Option String) (es : List Effect)
        → env.open_error path ≡ outcome
        → IsBelow root path
        → Resolves root o
        → IsConfined root (incoming t handles active err)
        → All (StaysIn root) es
        → Confined root (with_handle env c i path o t handles err es)
    opened_chunk outcome path (some opened) t handles err es e b o h k =
        written_chunk _ opened t handles err es refl o h k
    opened_chunk (some message) path none t handles err es e b o h k = rw (e, with_handle) (h, k)
    opened_chunk none path none t handles err es e b o h k =
        rw (e, with_handle) (written_chunk _ path t handles err es refl b h k)

    opened :
        (o : Option FilePath) (handles : Dict FilePath)
        → lookup c.index handles ≡ o
        → AllValues (IsBelow root) handles
        → Resolves root o
    opened none handles e h = tt
    opened (some p) handles e h = AllValues-lookup (IsBelow root) c.index handles e h

    -- What a target leads to is below the folder.
    abbrev Leads : Target → Type 0
    Leads (known path) = IsBelow root path
    Leads (chosen path) = IsBelow root path
    Leads (refused message) = Unit

    write_to-Confined :
        (target : Target) (t : IncomingTransfer) (handles : Dict FilePath) (err : Option String)
        → Leads target
        → IsConfined root (incoming t handles active err)
        → Confined root (write_to env c i target t handles err)
    write_to-Confined (refused message) t handles err l h = (h, tt)
    write_to-Confined (known path) t handles err l h =
        opened_chunk _ path (lookup c.index handles) t handles err [] refl l
          (opened _ handles refl h.2) h tt
    write_to-Confined (chosen path) t handles err l h =
        opened_chunk _ path (lookup c.index handles) (resolve_at i path t) handles err
          (create_dir (parent path) ∷ []) refl l (opened _ handles refl h.2)
          (h.0, All-set t.resolved i path l h.1, h.2) (parent-IsWithin root path l, tt)

    made_target :
        (outcome : Option String) (path : FilePath)
        → IsBelow root path
        → Leads (elim outcome [ some message ↦ refused message | none ↦ chosen path ])
    made_target none path b = b
    made_target (some message) path b = tt

    chosen_path :
        (overwrite : Bool) (path : FilePath)
        → IsBelow root path
        → IsBelow root (if overwrite then path else unique_path env.path_exists path)
    chosen_path true path b = b
    chosen_path false path b = unique_path-IsBelow env.path_exists root path b

    fresh_target-Leads :
        (overwrite : Bool) (o : Option FilePath)
        → Resolves root o
        → Leads (fresh_target env overwrite o)
    fresh_target-Leads overwrite none b = tt
    fresh_target-Leads overwrite (some path) b = made_target _ _ (chosen_path overwrite path b)

    sanitized-Resolves :
        (relative : List ℕ) (o : Option FilePath)
        → sanitize_relative relative root ≡ o
        → Resolves root o
    sanitized-Resolves relative none e = tt
    sanitized-Resolves relative (some path) e = sanitize_relative-IsBelow relative root path e

    target_of-Leads :
        (overwrite : Bool) (e : FileEntry) (o : Option FilePath)
        → Resolves root o
        → Leads (target_of env overwrite root e o)
    unfolding target_of
    target_of-Leads overwrite e (some path) b = b
    target_of-Leads overwrite e none b =
        fresh_target-Leads overwrite (sanitize_relative e.relative_path root)
          (sanitized-Resolves e.relative_path _ refl)

    rooted :
        (overwrite : Bool) (e : FileEntry) (o : Option FilePath) (r : FilePath)
        → r ≡ root
        → Resolves root o
        → Leads (target_of env overwrite r e o)
    rooted overwrite e o r same b =
        subst (λ x. Leads (target_of env overwrite x e o)) (sym same)
          (target_of-Leads overwrite e o b)

    if-Confined :
        (b : Bool) (w w' : Written)
        → Confined root w
        → Confined root w'
        → Confined root (if b then w else w')
    if-Confined true w w' h h' = h
    if-Confined false w w' h h' = h'

    chunk_for-Confined :
        (overwrite : Bool) (o : Option FileEntry) (t : IncomingTransfer) (handles : Dict FilePath)
        (err : Option String)
        → IsConfined root (incoming t handles active err)
        → Confined root (chunk_for env overwrite c i o t handles err)
    chunk_for-Confined overwrite none t handles err h = (h, tt)
    chunk_for-Confined overwrite (some e) t handles err h =
        if-Confined e.is_dir _ _ (h, tt)
          (write_to-Confined (target_of env overwrite t.root e (path_at t.resolved i)) t handles err
            (rooted overwrite e (path_at t.resolved i) t.root h.0
              (path_at-Resolves t.resolved i h.1))
            h)

  -- A chunk, whatever it claims and in whatever surroundings, is written only to a file below the
  -- folder of its transfer, and makes no folder but that one or some in it, if the transfer is confined
  -- to the folder; and then it stays confined.
  pub take_chunk-Confined :
      (env : Env) (overwrite : Bool) (c : FileChunk) (tracked : Tracked)
      → IsConfined root tracked
      → Confined root (take_chunk env overwrite c tracked)
  unfolding take_chunk
  take_chunk-Confined env overwrite c (outgoing t st) h = (tt, tt)
  take_chunk-Confined env overwrite c (incoming t handles active err) h =
      at_position (position_of t c.index)
    where
      at_position : (o : Option ℕ) → Confined root (chunk_at env overwrite c o t handles err)
      at_position none = (h, tt)
      at_position (some i) =
          chunk_for-Confined env c i overwrite (get_elem? t.entries i) t handles err h
  take_chunk-Confined env overwrite c (incoming t handles TransferState.pending err) h = (h, tt)
  take_chunk-Confined env overwrite c (incoming t handles TransferState.completed err) h = (h, tt)
  take_chunk-Confined env overwrite c (incoming t handles TransferState.failed err) h = (h, tt)
  take_chunk-Confined env overwrite c (incoming t handles TransferState.cancelled err) h = (h, tt)
