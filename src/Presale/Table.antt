-- ===== src/Presale/Table.antt =====
-- mint/presale.rs: the table of protected names, row by row.
use zns_mint.Prelude.{
  ℕ, ◌≡◌, ◌≢◌, refl, ap, ◌∙◌, Bool, false, List, [], ◌∷◌, Option, none, some, arith, ◌==◌, bytes_eq,
  Option-cases, inl, inr, any, ◌||◌, ◌&&◌, Bool-cases, eq-of-==,
}
use zns_mint.Prelude.Maps.{lookup, insert, bytes_order, lookup-insert}
use zns_mint.Chain.{Timestamp}
use zns_mint.Name
use zns_mint.Name.{Name}
use zns_mint.Presale.{
  ProtectionStatus, unprotected, with_expiry, forever, ProtectedRow, ProtectedNames, or_unprotected,
  status, protects, is_protected, row_status, strongest, add_row, from_rows, complete, table, max,
}

-- A row protects the name at the time.
unfoldable pub row_protects : Name → Timestamp → ProtectedRow → Bool
row_protects n mtp row = elim (Name.parse row.name) [
  | none ↦ false
  | some m ↦ m == n && protects (row_status row.expiry_at) mtp
]

-- What is stored is never the absence.
abbrev Stored : ProtectedNames → Type 0
Stored t = (n : Name) → lookup n t ≢ some unprotected

strongest-protects :
    (a b p : ProtectionStatus) (mtp : Timestamp)
    → strongest a b ≡ some p
    → protects p mtp ≡ (protects a mtp || protects b mtp)
unfolding strongest
strongest-protects forever b p mtp h = ground arith
strongest-protects unprotected forever p mtp h = ground arith
strongest-protects (with_expiry a) forever p mtp h = ground arith
strongest-protects (with_expiry a) (with_expiry b) p mtp h = ground arith
strongest-protects unprotected (with_expiry b) p mtp h = ground arith
strongest-protects unprotected unprotected p mtp h = ground arith
strongest-protects (with_expiry a) unprotected p mtp h = ground arith

strongest-stored :
    (a : ProtectionStatus) (o : Option Timestamp)
    → a ≢ unprotected
    → (p : ProtectionStatus) × (strongest a (row_status o) ≡ some p) × (p ≢ unprotected)
unfolding strongest
strongest-stored unprotected o h = absurd (h refl)
strongest-stored forever none h = (forever, refl, λ e. ground arith)
strongest-stored forever (some b) h = (forever, refl, λ e. ground arith)
strongest-stored (with_expiry a) none h = (forever, refl, λ e. ground arith)
strongest-stored (with_expiry a) (some b) h = (with_expiry (max a b), refl, λ e. ground arith)

-- What one row does: the table after it, what that protects, and that nothing absent is stored.
abbrev Added : ProtectedNames → ProtectedRow → Type 0
Added t row =
    (t' : ProtectedNames) × (add_row t row ≡ some t')
    × Stored t'
    × ((n : Name) (mtp : Timestamp)
        → is_protected t' n mtp ≡ (is_protected t n mtp || row_protects n mtp row))

insert-Stored :
    (t : ProtectedNames) (m : Name) (p : ProtectionStatus)
    → p ≢ unprotected
    → Stored t
    → Stored (insert m p t)
insert-Stored t m p h f n e = ground (arith, lookup-insert m n p t, f n, h)

row_status_stored : (o : Option Timestamp) → row_status o ≢ unprotected
row_status_stored none e = ground arith
row_status_stored (some ts) e = ground arith

insert-protects :
    (t : ProtectedNames) (m : Name) (p : ProtectionStatus) (b : ProtectionStatus) (n : Name)
    (mtp : Timestamp)
    → protects p mtp ≡ (protects (or_unprotected (lookup m t)) mtp || protects b mtp)
    → is_protected (insert m p t) n mtp ≡ (is_protected t n mtp || (m == n && protects b mtp))
unfolding is_protected status
insert-protects t m p b n mtp h = elim (Bool-cases (m == n)) [
  | inl e ↦ ground (arith, lookup-insert m n p t, h, eq-of-== m n e)
  | inr e ↦ ground (arith, lookup-insert m n p t, e)
]

add_row_lem : (t : ProtectedNames) (row : ProtectedRow) → Stored t → Added t row
add_row_lem t row h = elim (Option-cases (Name.parse row.name)) [
  | inl e ↦
      (t, unfold add_row in ground (arith, e), h, λ n mtp. unfold row_protects in ground (arith, e))
  | inr (m, e) ↦ elim (Option-cases (lookup m t)) [
    | inl f ↦ (
      insert m (row_status row.expiry_at) t,
      unfold add_row in ground (arith, e, f),
      insert-Stored t m (row_status row.expiry_at) (row_status_stored row.expiry_at) h,
      λ n mtp.
          unfold row_protects in
          ground (
            arith,
            e,
            insert-protects t m (row_status row.expiry_at) (row_status row.expiry_at) n mtp
                (rw f refl),
          ),
    )
    | inr (a, f) ↦
        let ne : a ≢ unprotected = λ z. h m (f ∙ ap some z) in
        let g = strongest-stored a row.expiry_at ne in
        (
          insert m g.0 t,
          unfold add_row in ground (arith, e, f, g.1),
          insert-Stored t m g.0 g.2 h,
          λ n mtp.
              unfold row_protects in
              ground (
                arith,
                e,
                insert-protects t m g.0 (row_status row.expiry_at) n mtp
                    (rw f (strongest-protects a (row_status row.expiry_at) g.0 mtp g.1)),
              ),
        )
  ]
]

abbrev Loaded : ProtectedNames → List ProtectedRow → Type 0
Loaded t rows =
    (t' : ProtectedNames) × (from_rows t rows ≡ some t')
    × ((n : Name) (mtp : Timestamp)
        → is_protected t' n mtp ≡ (is_protected t n mtp || any (row_protects n mtp) rows))

from_rows_lem : (t : ProtectedNames) (rows : List ProtectedRow) → Stored t → Loaded t rows
from_rows_lem t [] h = (t, unfold from_rows in refl, λ n mtp. ground arith)
from_rows_lem t (row ∷ rows) h =
    let a : Added t row = add_row_lem t row h in load a (from_rows_lem a.0 rows a.2)
  where
    load : (a : Added t row) → Loaded a.0 rows → Loaded t (row ∷ rows)
    load a b = (
      b.0,
      unfold from_rows in ground (arith, a.1, b.1),
      λ n mtp. ground (arith, a.3 n mtp, b.2 n mtp),
    )

abbrev Completed : List ProtectedRow → ℕ → Type 0
Completed rows landed =
    (t : ProtectedNames) × (complete rows landed (some landed) ≡ table t)
    × ((n : Name) (mtp : Timestamp) → is_protected t n mtp ≡ any (row_protects n mtp) rows)

completed : (rows : List ProtectedRow) (landed : ℕ) → Loaded [] rows → Completed rows landed
completed rows landed a = (
  a.0,
  unfold complete in ground (arith, a.1),
  λ n mtp. a.2 n mtp ∙ (unfold is_protected status lookup in refl),
)

-- A read whose count is the number of rows that landed installs a table and never meets the
-- absence in it. The table protects a name at a time exactly where some row parses as that name
-- and has no expiry or one after the time.
pub complete_lem :
    (rows : List ProtectedRow) (landed : ℕ)
    → (t : ProtectedNames) × (complete rows landed (some landed) ≡ table t)
      × ((n : Name) (mtp : Timestamp) → is_protected t n mtp ≡ any (row_protects n mtp) rows)
complete_lem rows landed =
    completed rows landed (from_rows_lem [] rows (λ n e. unfold lookup in ground arith))
