-- ===== src/Store/Pairings/Confirm.antt =====
-- What a confirmation needs, and what it stores.
use Prim.Native.String.{◌++◌ as append}
use Prim.Native.String.append.{cons}
use devrelay.Prelude.{
  ℕ, ◌≡◌, ◌≢◌, refl, ap, String, Bool, true, false, Option, none, some, inl, inr, ◌⊎◌, sym, ◌∙◌,
  arith, is_self, Option-cases, eq_iff, ltb, ◌&&◌, ◌is◌,
}
use devrelay.Sql.{find, update}
use devrelay.Sql.Laws.{find-update, revise}
use devrelay.Pairing.{PairingSession, is_terminal}
use devrelay.Store.Tables.{PairingRow}
use devrelay.Store.Db.{Db}
use devrelay.Store.Tx.{Error, ok, err}
use devrelay.Store.Tx.Laws.{Result-cases, ok_injective, err-ne-ok}
use devrelay.Store.Audit.{is_blank}
use devrelay.Store.Pairings.{
  pairing_key, pairing_session_from_row, confirm_pairing_session, identity_row, upsert_identity,
  has_fabric, expire_row, confirm_row, set_rows,
}

abbrev pub pairing_at : Db → String → Option PairingRow
pairing_at db id = find (pairing_key id) db.pairing_sessions

-- What a confirmation needs of the session that it finds.
pub record CanConfirm (parses : Bool) (code : String) (now : ℕ) (db : Db) (row : PairingRow)
    : Type 0 where
  pub certificate : parses ≡ true
  pub live : is_terminal (pairing_session_from_row row).state ≡ false
  pub in_time : ltb (pairing_session_from_row row).expires_at_unix_seconds now ≡ false
  pub same_code : code ≡ row.short_authentication_string
  pub fabric : has_fabric row.fabric_id db ≡ true

-- The row as a confirmation leaves it.
abbrev pub confirmed_row : (id certificate : String) (now : ℕ) → PairingRow → PairingRow
confirmed_row id certificate now row =
    revise (λ r. pairing_key id r && r.state is "pending") (confirm_row certificate now) row

paired_summary : (name : String) → is_blank (append "paired device " name) ≡ false
unfolding is_blank
paired_summary name = ap is_blank (λ i. cons "p" "aired device " name i)

module _ (parses : Bool) (id code certificate : String) (now : ℕ) (db : Db) (row : PairingRow)
    (at : pairing_at db id ≡ some row) where
  confirm_needs :
      (s : PairingSession)
      → (confirm_pairing_session parses id code certificate now db).0 ≡ ok s
      → CanConfirm parses code now db row
  unfolding confirm_pairing_session pairing_session_from_row
  confirm_needs s h = record {
    certificate = ground arith;
    live = ground arith;
    in_time = ground arith;
    same_code = ground (arith, eq_iff code row.short_authentication_string);
    fabric = ground arith;
  }

  confirm_identities :
      (s : PairingSession)
      → (confirm_pairing_session parses id code certificate now db).0 ≡ ok s
      → (confirm_pairing_session parses id code certificate now db).1.device_public_identities
        ≡ upsert_identity
            (identity_row (pairing_session_from_row row) now)
            db.device_public_identities
  unfolding confirm_pairing_session
  confirm_identities s h = ground arith

  confirm_error :
      (e : Error)
      → (confirm_pairing_session parses id code certificate now db).0 ≡ err e
      → ((confirm_pairing_session parses id code certificate now db).1 ≡ db)
        ⊎ ((ltb (pairing_session_from_row row).expires_at_unix_seconds now ≡ true)
            × ((confirm_pairing_session parses id code certificate now db).1
                ≡ set_rows (update (pairing_key id) expire_row) db))
  unfolding confirm_pairing_session pairing_session_from_row
  confirm_error e h = ground (
    arith,
    find-update (pairing_key id) (λ r. pairing_key id r && r.state is "pending")
        (confirm_row certificate now) (λ r. refl) db.pairing_sessions,
  )

  confirm_suffices :
      CanConfirm parses code now db row
      → (confirm_pairing_session parses id code certificate now db).0
        ≡ ok (pairing_session_from_row (confirmed_row id certificate now row))
  unfolding confirm_pairing_session
  confirm_suffices c = ground (
    arith,
    paired_summary row.peer_display_name,
    is_self row.short_authentication_string,
    find-update (pairing_key id) (λ r. pairing_key id r && r.state is "pending")
        (confirm_row certificate now) (λ r. refl) db.pairing_sessions,
  )

confirm_found :
    (parses : Bool) (id code certificate : String) (now : ℕ) (db : Db) (s : PairingSession)
    → (confirm_pairing_session parses id code certificate now db).0 ≡ ok s
    → pairing_at db id ≢ none
unfolding confirm_pairing_session
confirm_found parses id code certificate now db s h gone = ground arith

confirm_lost :
    (parses : Bool) (id code certificate : String) (now : ℕ) (db : Db)
    → pairing_at db id ≡ none
    → (confirm_pairing_session parses id code certificate now db).1 ≡ db
unfolding confirm_pairing_session
confirm_lost parses id code certificate now db gone = ground arith

module _ (parses : Bool) (id code certificate : String) (now : ℕ) (db : Db) where
  -- What an accepted confirmation leaves.
  abbrev pub Pairs : PairingSession → Db → Type 0
  Pairs s after =
      (row : PairingRow) × (pairing_at db id ≡ some row)
      × CanConfirm parses code now db row
      × (s ≡ pairing_session_from_row (confirmed_row id certificate now row))
      × (after.device_public_identities
          ≡ upsert_identity (identity_row (pairing_session_from_row row) now)
              db.device_public_identities)

  refuses :
      (e : Error)
      → (confirm_pairing_session parses id code certificate now db).0 ≡ err e
      → (row : PairingRow) → pairing_at db id ≡ some row
      → ¬ CanConfirm parses code now db row
  refuses e h row at c =
      err-ne-ok (sym h ∙ confirm_suffices parses id code certificate now db row at c)

  -- A confirmation fails exactly if one of the conditions below does not hold of the stored session;
  -- it has then changed nothing, or has marked a session expired whose time is over. One that
  -- succeeds is of a stored session that has not ended and whose time is not over,
  -- the observed code is the session's, the certificate parses and the fabric is stored; the
  -- answer is the session as the confirmation leaves it, and the peer's identity is in the table,
  -- with the keys of the session.
  pub confirm_pairing_checked :
      let (answer, after) = confirm_pairing_session parses id code certificate now db in
      ((e : Error) × (answer ≡ err e)
        × ((row : PairingRow) → pairing_at db id ≡ some row → ¬ CanConfirm parses code now db row)
        × ((after ≡ db)
            ⊎ ((row : PairingRow) × (pairing_at db id ≡ some row)
                × (ltb (pairing_session_from_row row).expires_at_unix_seconds now ≡ true)
                × (after ≡ set_rows (update (pairing_key id) expire_row) db))))
      ⊎ ((s : PairingSession) × (answer ≡ ok s) × Pairs s after)
  confirm_pairing_checked =
      elim (Result-cases (confirm_pairing_session parses id code certificate now db).0) [
        | inr (e, h) ↦ elim (Option-cases (pairing_at db id)) [
          | inl gone ↦
              inl (e, h, refuses e h, inl (confirm_lost parses id code certificate now db gone))
          | inr (row, at) ↦ elim (confirm_error parses id code certificate now db row at e h) [
            | inl same ↦ inl (e, h, refuses e h, inl same)
            | inr (late, marked) ↦ inl (e, h, refuses e h, inr (row, at, late, marked))
          ]
        ]
        | inl (s, h) ↦ elim (Option-cases (pairing_at db id)) [
          | inl gone ↦ absurd (confirm_found parses id code certificate now db s h gone)
          | inr (row, at) ↦
              let c = confirm_needs parses id code certificate now db row at s h in
              inr (
                s,
                h,
                (
                  row,
                  at,
                  c,
                  ok_injective
                      (sym h ∙ confirm_suffices parses id code certificate now db row at c),
                  confirm_identities parses id code certificate now db row at s h,
                ),
              )
        ]
      ]
