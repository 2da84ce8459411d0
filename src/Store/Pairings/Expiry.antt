-- ===== src/Store/Pairings/Expiry.antt =====
-- What a sweep of the pairing sessions expires, and that an ended session stays ended.
use mathlib.Core.List.{Memᴰ}
use mathlib.Core.List.Memᴰ.{head, tail, cases_cons}
use devrelay.Prelude.{
  ℕ, ◌≤◌, ◌≡◌, ◌≢◌, refl, ap, sym, ◌∙◌, String, Bool, true, false, some, List, [], ◌∷◌, inl, inr,
  arith, is_ne, Option-cases, Bool-cases, eq_iff, ◌is◌, if◌then◌else◌,
}
use devrelay.Sql.{find, filter, update, count, order_by}
use devrelay.Sql.Laws.{find-update, find_holds, revise, map_option}
use devrelay.Sql.Laws.Rows.{find-Memᴰ, Memᴰ-filter, order_by-Memᴰ, find-only, Memᴰ-map, map-Memᴰ}
use devrelay.Sql.Laws.Order.{filter-Memᴰ}
use devrelay.Pairing
use devrelay.Pairing.{is_terminal}
use devrelay.Store.Tables.{PairingRow}
use devrelay.Store.Db.{Db}
use devrelay.Store.Tx.{err, pairing_already}
use devrelay.Store.Pairings.{
  pairing_key, pairing_session_from_row, confirm_pairing_session, abort_pairing_session,
  expire_pairing_sessions, expire_all, expire_row, overdue_ids, is_overdue, row_id, expires_before,
}
use devrelay.Store.Pairings.Confirm.{pairing_at}

-- What the loop makes of one row.
unfoldable expired_by : List String → PairingRow → PairingRow
expired_by [] row = row
expired_by (id ∷ ids) row = expired_by ids (revise (pairing_key id) expire_row row)

find-expire_all :
    (k : String) (ids : List String) (rows : List PairingRow)
    → find (pairing_key k) (expire_all ids rows)
      ≡ map_option (expired_by ids) (find (pairing_key k) rows)
unfolding expire_all expired_by
find-expire_all k [] rows = elim (Option-cases (find (pairing_key k) rows)) [
  | inl gone ↦ rw gone refl
  | inr (row, at) ↦ rw at refl
]
find-expire_all k (id ∷ ids) rows =
    find-expire_all k ids (update (pairing_key id) expire_row rows)
    ∙ rw (find-update (pairing_key k) (pairing_key id) expire_row (λ r. refl) rows)
        (elim (Option-cases (find (pairing_key k) rows)) [
          | inl gone ↦ rw gone refl
          | inr (row, at) ↦ rw at refl
        ])

expired_by-other :
    (ids : List String) (row : PairingRow)
    → ((i : String) → Memᴰ i ids → i ≢ row.pairing_id)
    → expired_by ids row ≡ row
unfolding expired_by
expired_by-other [] row n = refl
expired_by-other (id ∷ ids) row n =
    rw (is_ne row.pairing_id id (λ e. n id (head refl) (sym e)))
      (expired_by-other ids row (λ i m. n i (tail m)))

expired_by-again :
    (ids : List String) (row : PairingRow) → expired_by ids (expire_row row) ≡ expire_row row
unfolding expired_by
expired_by-again [] row = refl
expired_by-again (id ∷ ids) row = elim (Bool-cases (pairing_key id row)) [
  | inl hit ↦ rw hit (expired_by-again ids row)
  | inr miss ↦ rw miss (expired_by-again ids row)
]

expired_by-own :
    (ids : List String) (row : PairingRow)
    → Memᴰ row.pairing_id ids
    → expired_by ids row ≡ expire_row row
unfolding expired_by
expired_by-own [] row m = elim m [ ]
expired_by-own (id ∷ ids) row m = elim (Bool-cases (pairing_key id row)) [
  | inl hit ↦ rw hit (expired_by-again ids row)
  | inr miss ↦ elim (cases_cons m) [
    | inl e ↦ ground (arith, eq_iff row.pairing_id id)
    | inr t ↦ rw miss (expired_by-own ids row t)
  ]
]

module _ (now : ℕ) (db : Db) (k : String) (row : PairingRow) (at : pairing_at db k ≡ some row)
    (one : count (pairing_key k) db.pairing_sessions ≤ 1) where
  abbrev chosen : List PairingRow
  chosen = filter (is_overdue now) db.pairing_sessions

  overdue_listed : is_overdue now row ≡ true → Memᴰ row.pairing_id (overdue_ids now db)
  overdue_listed h = Memᴰ-map row_id (order_by expires_before chosen) (
      (order_by-Memᴰ expires_before chosen).1 (
        Memᴰ-filter (is_overdue now) db.pairing_sessions
          (find-Memᴰ (pairing_key k) db.pairing_sessions at) h))

  listed_overdue :
      is_overdue now row ≡ false → (i : String) → Memᴰ i (overdue_ids now db) → i ≢ row.pairing_id
  listed_overdue h i m e =
      let (x, sorted, named) = map-Memᴰ row_id (order_by expires_before chosen) m in
      let (stored, late) =
        filter-Memᴰ (is_overdue now) db.pairing_sessions
          ((order_by-Memᴰ expires_before chosen).0 sorted) in
      let key : pairing_key k x ≡ true =
        ap (λ s. s is k) (sym named ∙ e) ∙ find_holds (pairing_key k) db.pairing_sessions at in
      let same : x ≡ row = find-only (pairing_key k) db.pairing_sessions one at stored key in
      true-ne-false (sym late ∙ ap (is_overdue now) same ∙ h)
    where
      true-ne-false : true ≢ false
      true-ne-false f = ground arith

  pub expire_pairing_sweeps :
      pairing_at (expire_pairing_sessions now db).1 k
      ≡ some (if is_overdue now row then expire_row row else row)
  unfolding expire_pairing_sessions
  expire_pairing_sweeps =
      find-expire_all k (overdue_ids now db) db.pairing_sessions
      ∙ rw at (
          ap some (elim (Bool-cases (is_overdue now row)) [
            | inl late ↦
                expired_by-own (overdue_ids now db) row (overdue_listed late) ∙ rw late refl
            | inr live ↦
                expired_by-other (overdue_ids now db) row (listed_overdue live) ∙ rw live refl
          ]))

  terminal-overdue :
      is_terminal (pairing_session_from_row row).state ≡ true → is_overdue now row ≡ false
  unfolding pairing_session_from_row is_terminal Pairing.parse Pairing.as_str
  terminal-overdue t = ground (
    arith,
    eq_iff row.state "pending",
    eq_iff row.state "confirmed",
    eq_iff row.state "aborted",
    eq_iff row.state "expired",
    eq_iff "pending" "confirmed",
    eq_iff "pending" "aborted",
    eq_iff "pending" "expired",
  )

  confirm_refused :
      (parses : Bool) (code certificate : String)
      → is_terminal (pairing_session_from_row row).state ≡ true
      → (confirm_pairing_session parses k code certificate now db).1 ≡ db
  unfolding confirm_pairing_session pairing_session_from_row
  confirm_refused parses code certificate t = ground arith

  abort_refused :
      is_terminal (pairing_session_from_row row).state ≡ true
      → abort_pairing_session k now db
        ≡ (err (pairing_already (pairing_session_from_row row).state), db)
  unfolding abort_pairing_session pairing_session_from_row
  abort_refused t = ground arith

  -- A session that was confirmed, aborted or expired stays as it is: a confirmation and an abort
  -- change nothing, the abort says what the session already is, and a sweep leaves it alone.
  pub ended_pairing_stays :
      (parses : Bool) (code certificate : String)
      → is_terminal (pairing_session_from_row row).state ≡ true
      → ((confirm_pairing_session parses k code certificate now db).1 ≡ db)
        × (abort_pairing_session k now db
            ≡ (err (pairing_already (pairing_session_from_row row).state), db))
        × (pairing_at (expire_pairing_sessions now db).1 k ≡ some row)
  ended_pairing_stays parses code certificate t = (
    confirm_refused parses code certificate t,
    abort_refused t,
    expire_pairing_sweeps ∙ rw (terminal-overdue t) refl,
  )
