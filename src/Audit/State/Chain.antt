-- ===== src/Audit/State/Chain.antt =====
-- The audit log is a hash chain: what `append_event_internal` writes links to the row before it.
use vita_os.Prelude.{
  ℕ, ◌+◌, ◌-◌, ◌%◌, ◌^◌, ◌<◌, Bool, true, false, Option, some, List, [], ◌∷◌, ◌++◌, ◌≡◌, refl, sym,
  ap, ◌∙◌, subst, append-nil, append_assoc, inl, inr, Bool-cases, length, take_all, if◌then◌else◌,
  arith, codes,
}
use vita_os.Text.{Bytes, str_copy, safe_text}
use vita_os.Text.Laws.{str_copy_lem}
use vita_os.Sha256.Hex.{reference_hex, hash_hex-reference, length-reference_hex}
use vita_os.Audit.Rows.{EventRow, audit_event}
use vita_os.Audit.Sqlite.{Sqlite, appended}
use vita_os.Audit.State.{
  Call, AuditState, event_payload, event_row, with_db, append_with, append_dispatch,
  append_event_internal,
}

-- the digest that a row must carry
abbrev pub row_hash : EventRow → Bytes
row_hash r =
    reference_hex
      (event_payload r.boot_id r.event_seq r.event_type r.summary r.monotonic_ns r.prev_hash)

-- One row links to the hash and the sequence number before it.
pub record Links (boot_id prev : Bytes) (seq : ℕ) (r : EventRow) : Type 0 where
  pub boot_is : r.boot_id ≡ boot_id
  pub seq_is : r.event_seq ≡ (seq + 1) % 2 ^ 64
  pub prev_is : r.prev_hash ≡ prev
  pub hash_is : r.event_hash ≡ row_hash r

-- The rows of one boot session, from the hash and the number before the first on.
abbrev pub Chained : Bytes → Bytes → ℕ → List EventRow → Type 0
Chained boot_id prev seq [] = Unit
Chained boot_id prev seq (r ∷ rows) =
    Links boot_id prev seq r × Chained boot_id r.event_hash ((seq + 1) % 2 ^ 64) rows

-- the hash that the next row links to
abbrev pub last_hash : Bytes → List EventRow → Bytes
last_hash prev [] = prev
last_hash prev (r ∷ rows) = last_hash r.event_hash rows

abbrev pub last_seq : ℕ → List EventRow → ℕ
last_seq seq [] = seq
last_seq seq (r ∷ rows) = last_seq ((seq + 1) % 2 ^ 64) rows

Chained-snoc :
    (boot_id prev : Bytes) (seq : ℕ) (rows : List EventRow) (r : EventRow)
    → Chained boot_id prev seq rows
    → Links boot_id (last_hash prev rows) (last_seq seq rows) r
    → Chained boot_id prev seq (rows ++ r ∷ [])
Chained-snoc boot_id prev seq [] r h l = (l, tt)
Chained-snoc boot_id prev seq (q ∷ rows) r h l =
    (h.0, Chained-snoc boot_id q.event_hash ((seq + 1) % 2 ^ 64) rows r h.1 l)

last_hash-snoc :
    (prev : Bytes) (rows : List EventRow) (r : EventRow)
    → last_hash prev (rows ++ r ∷ []) ≡ r.event_hash
last_hash-snoc prev [] r = refl
last_hash-snoc prev (q ∷ rows) r = last_hash-snoc q.event_hash rows r

last_seq-snoc :
    (seq : ℕ) (rows : List EventRow) (r : EventRow)
    → last_seq seq (rows ++ r ∷ []) ≡ (last_seq seq rows + 1) % 2 ^ 64
last_seq-snoc seq [] r = refl
last_seq-snoc seq (q ∷ rows) r = last_seq-snoc ((seq + 1) % 2 ^ 64) rows r

module _ (sql : Sqlite) where
  open sql use {Db, insert, events, events-insert}

  -- The database holds `base`, then the chain of this boot session, and the state names its end.
  pub record IsChained (base : List EventRow) (s : AuditState Db) : Type 0 where
    pub db : Db
    pub rows : List EventRow
    pub ready : s.persistent_ready ≡ true
    pub db_is : s.db ≡ some db
    pub stored : events db ≡ base ++ rows
    pub chained : Chained s.boot_id [] 0 rows
    pub hash_at_end : s.prev_hash ≡ last_hash [] rows
    pub seq_at_end : s.event_seq ≡ last_seq 0 rows
    pub seq_bound : s.event_seq < 2 ^ 64

  module _ (base : List EventRow) (s : AuditState Db) (inv : IsChained base s) where
    module _ (etype summary : Bytes) (mono : ℕ) (call : Call) (frame : length call.stack ≡ 64) where
      abbrev row : EventRow
      row = event_row s etype summary mono call

      row-Links : Links s.boot_id s.prev_hash s.event_seq row
      unfolding event_row
      row-Links = record {
        boot_is = refl;
        seq_is = refl;
        prev_is = refl;
        hash_is = hash_hex-reference call.stack _ frame;
      }

      row_hash_fits : str_copy s.prev_hash 65 (some row.event_hash) ≡ row.event_hash
      row_hash_fits =
          str_copy_lem s.prev_hash row.event_hash 65 (omega arith)
          ∙ take_all 64 row.event_hash (
              omega (
                arith,
                ap length row-Links.hash_is,
                length-reference_hex (
                    event_payload row.boot_id row.event_seq row.event_type row.summary
                      row.monotonic_ns row.prev_hash),
              ))

      events_after :
          (done : Bool)
          → (insert inv.db (audit_event row)).0 ≡ done
          → events (insert inv.db (audit_event row)).1
            ≡ events inv.db ++ appended done (audit_event row)
      events_after done e =
          events-insert inv.db (audit_event row)
          ∙ ap (λ (b : Bool). events inv.db ++ appended b (audit_event row)) e

      written :
          (insert inv.db (audit_event row)).0 ≡ true
          → IsChained base (record s {
            event_seq = row.event_seq;
            prev_hash = str_copy s.prev_hash 65 (some row.event_hash);
            db = some (insert inv.db (audit_event row)).1;
          })
      written done = record {
        db = (insert inv.db (audit_event row)).1;
        rows = inv.rows ++ row ∷ [];
        ready = inv.ready;
        db_is = refl;
        stored =
            events_after true done
            ∙ ap (λ (t : List EventRow). t ++ row ∷ []) inv.stored
            ∙ append_assoc base inv.rows (row ∷ []);
        chained =
            Chained-snoc s.boot_id [] 0 inv.rows row inv.chained
              (rw (← inv.hash_at_end, ← inv.seq_at_end) row-Links);
        hash_at_end = row_hash_fits ∙ sym (last_hash-snoc [] inv.rows row);
        seq_at_end =
            row-Links.seq_is
            ∙ ap (λ (n : ℕ). (n + 1) % 2 ^ 64) inv.seq_at_end
            ∙ sym (last_seq-snoc 0 inv.rows row);
        seq_bound = omega (arith, row-Links.seq_is);
      }

      dropped :
          (insert inv.db (audit_event row)).0 ≡ false
          → IsChained base (record s {
            event_seq = (row.event_seq + 2 ^ 64 - 1) % 2 ^ 64;
            db = some (insert inv.db (audit_event row)).1;
          })
      dropped failed = record {
        db = (insert inv.db (audit_event row)).1;
        rows = inv.rows;
        ready = inv.ready;
        db_is = refl;
        stored = events_after false failed ∙ append-nil (events inv.db) ∙ inv.stored;
        chained = inv.chained;
        hash_at_end = inv.hash_at_end;
        seq_at_end = omega (arith, row-Links.seq_is, inv.seq_bound, inv.seq_at_end);
        seq_bound = omega arith;
      }

      append_with-IsChained : IsChained base (append_with sql s inv.db etype summary mono call).1
      unfolding append_with
      append_with-IsChained = elim (Bool-cases (insert inv.db (audit_event row)).0) [
        | inl done ↦ rw (done, append_with) (written done)
        | inr failed ↦ rw (failed, append_with) (dropped failed)
      ]

    -- A statement that appends no event.
    pub with_db-IsChained :
        (run : Db → Bool × Db)
        → (events (run inv.db).1 ≡ events inv.db)
        → IsChained base (with_db sql s s.db run).1
    unfolding with_db
    with_db-IsChained run same =
        let done = record s { db = some (run inv.db).1 } in
        let e =
          (λ i. with_db sql s (inv.db_is i) run)
          ∙ (λ i. if inv.ready i then ((run inv.db).0, done) else (false, s)) in
        subst (λ (r : Bool × AuditState Db). IsChained base r.1) (sym e)
          (record {
            db = (run inv.db).1;
            rows = inv.rows;
            ready = inv.ready;
            db_is = refl;
            stored = same ∙ inv.stored;
            chained = inv.chained;
            hash_at_end = inv.hash_at_end;
            seq_at_end = inv.seq_at_end;
            seq_bound = inv.seq_bound;
          })

    pub append_event_internal-IsChained :
        (event_type summary : Option Bytes) (mono : ℕ) (call : Call)
        → length call.stack ≡ 64
        → IsChained base (append_event_internal sql s event_type summary mono call).1
    unfolding append_event_internal append_dispatch
    append_event_internal-IsChained event_type summary mono call frame =
        let etype = safe_text event_type (codes "UNSPECIFIED") in
        let text = safe_text summary [] in
        let e = (λ i. append_dispatch sql (inv.db_is i) s etype text mono call) ∙ (λ i.
          if inv.ready i then append_with sql s inv.db etype text mono call else (false, s)) in
        subst (λ (r : Bool × AuditState Db). IsChained base r.1) (sym e)
          (append_with-IsChained etype text mono call frame)
