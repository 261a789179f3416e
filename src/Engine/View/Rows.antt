-- ===== src/Engine/View/Rows.antt =====
-- Which machines the user interface lists.
use uniondesk.Common.{
  ℕ, ◌+◌, ◌≡◌, refl, ◌∙◌, ap, Bool, false, ◌||◌, String, List, [], ◌∷◌, ◌++◌, arith, ◌==◌,
  if◌then◌else◌, map, contains, Bool-cases, inl, inr,
}
use uniondesk.Common.Dict.{Dict, contains_key}
use uniondesk.Config.{DeviceId, PeerRecord}
use uniondesk.Discovery.{Discovered, list}
use uniondesk.Engine.State.{Engine, Session}
use uniondesk.Engine.View.{
  PeerView, found_rows, session_rows, record_rows, insert_row, sort_rows, peer_views,
}

-- How often an id occurs.
abbrev pub count : DeviceId → List DeviceId → ℕ
count k [] = 0
count k (x ∷ xs) = (if k == x then 1 else 0) + count k xs

abbrev pub row_ids : List PeerView → List DeviceId
row_ids rows = map (λ (v : PeerView). v.device_id) rows

abbrev pub found_ids : List Discovered → List DeviceId
found_ids found = map (λ (d : Discovered). d.device_id) found

abbrev pub session_ids : Dict Session → List DeviceId
session_ids sessions = map (λ (p : DeviceId × Session). p.0) sessions

abbrev pub record_ids : List PeerRecord → List DeviceId
record_ids known = map (λ (r : PeerRecord). r.device_id) known

count-append :
    (k : DeviceId) (xs ys : List PeerView)
    → count k (row_ids (xs ++ ys)) ≡ count k (row_ids xs) + count k (row_ids ys)
count-append k [] ys = omega arith
count-append k (x ∷ xs) ys = omega (arith, count-append k xs ys)

count-insert_row :
    (k : DeviceId) (less : String → String → Bool) (row : PeerView) (rows : List PeerView)
    → count k (row_ids (insert_row less row rows)) ≡ count k (row_ids (row ∷ rows))
count-insert_row k less row [] = refl
count-insert_row k less row (other ∷ rows) = elim (Bool-cases (less other.name row.name)) [
  | inl below ↦ rw below (omega (arith, count-insert_row k less row rows))
  | inr above ↦ rw above refl
]

count-sort_rows :
    (k : DeviceId) (less : String → String → Bool) (rows : List PeerView)
    → count k (row_ids (sort_rows less rows)) ≡ count k (row_ids rows)
count-sort_rows k less [] = refl
count-sort_rows k less (row ∷ rows) =
    count-insert_row k less row (sort_rows less rows)
    ∙ ap (λ n. (if k == row.device_id then 1 else 0) + n) (count-sort_rows k less rows)

found_rows-ids :
    (s : Engine) (found : List Discovered) → row_ids (found_rows s found) ≡ found_ids found
found_rows-ids s [] = refl
found_rows-ids s (d ∷ found) = ap (λ r. d.device_id ∷ r) (found_rows-ids s found)

count-session_rows :
    (k : DeviceId) (unix : ℕ) (s : Engine) (seen : List DeviceId) (sessions : Dict Session)
    → count k (row_ids (session_rows unix s seen sessions))
      ≡ (if contains k seen then 0 else count k (session_ids sessions))
count-session_rows k unix s seen [] = ground arith
count-session_rows k unix s seen ((id, x) ∷ rest) =
    let more = count-session_rows k unix s seen rest in ground arith

count-record_rows :
    (k : DeviceId) (s : Engine) (seen : List DeviceId) (known : List PeerRecord)
    → count k (row_ids (record_rows s seen known))
      ≡ (if contains k seen || contains_key k s.sessions then 0 else count k (record_ids known))
count-record_rows k s seen [] = ground arith
count-record_rows k s seen (r ∷ rest) = let more = count-record_rows k s seen rest in ground arith

count-absent : (k : DeviceId) (xs : List DeviceId) → contains k xs ≡ false → count k xs ≡ 0
count-absent k [] e = refl
count-absent k (x ∷ xs) e = elim (Bool-cases (k == x)) [
  | inl same ↦ let bad = rw same at e in absurd cc
  | inr other ↦ let rest = rw other at e in rw other (omega (arith, count-absent k xs rest))
]

no_session :
    (k : DeviceId) (sessions : Dict Session)
    → contains_key k sessions ≡ false
    → count k (session_ids sessions) ≡ 0
no_session k [] e = refl
no_session k ((id, x) ∷ rest) e = elim (Bool-cases (k == id)) [
  | inl same ↦ let bad = rw (same, contains_key) at e in absurd cc
  | inr other ↦
      let later = rw (other, contains_key) at e in rw other (omega (arith, no_session k rest later))
]

-- How often the first of the three sources that knows a machine lists it.
abbrev pub first_count : DeviceId → Engine → List DeviceId → ℕ
first_count k s seen =
    if contains k seen
    then count k seen
    else if contains_key k s.sessions
    then count k (session_ids s.sessions)
    else count k (record_ids s.peers)

by_source :
    (k : DeviceId) (unix : ℕ) (s : Engine) (seen : List DeviceId)
    → count k seen
        + (count k (row_ids (session_rows unix s seen s.sessions))
            + count k (row_ids (record_rows s seen s.peers)))
      ≡ first_count k s seen
by_source k unix s seen =
    rw (count-session_rows k unix s seen s.sessions, count-record_rows k s seen s.peers)
      (elim (Bool-cases (contains k seen)) [
        | inl here ↦ rw here (omega arith)
        | inr away ↦
            rw (away, count-absent k seen away)
              (elim (Bool-cases (contains_key k s.sessions)) [
                | inl live ↦ rw live (omega arith)
                | inr gone ↦ rw (gone, no_session k s.sessions gone) (omega arith)
              ])
      ])

-- The list for the user interface holds every machine that the table, the sessions or the pinned keys know,
-- as often as the first of the three that knows it does, whatever the order of the names: a machine that
-- several of them know is not listed once more for that.
pub peer_views-count :
    (less : String → String → Bool) (unix : ℕ) (s : Engine) (k : DeviceId)
    → count k (row_ids (peer_views less unix s)) ≡ first_count k s (found_ids (list s.table))
unfolding peer_views
peer_views-count less unix s k =
    let found = list s.table in
    let seen = found_ids found in
    let later = session_rows unix s seen s.sessions ++ record_rows s seen s.peers in
    count-sort_rows k less (found_rows s found ++ later)
    ∙ (count-append k (found_rows s found) later
        ∙ (ap (λ n. n + count k (row_ids later)) (ap (count k) (found_rows-ids s found))
            ∙ (ap (λ n. count k seen + n)
                  (count-append k (session_rows unix s seen s.sessions)
                    (record_rows s seen s.peers))
                ∙ by_source k unix s seen)))
