-- ===== src/Commission/Reads.antt =====
-- The checks of the lines write nothing.
use electro_mart_backend.Prelude.{inr, inl, Bool-cases, refl, true, ◌≡◌, ℕ}
use electro_mart_backend.Commission.Settlements.{when_cleared, check_lines}
use electro_mart_backend.Rows.Commission.{RepSettlement}
use electro_mart_backend.Store.{Store}
use electro_mart_backend.Commission.Lines.{lines_unchanged}
use electro_mart_backend.Store.After.{passes, Reads-mono, guard-Reads, Reads}
use electro_mart_backend.Cheques.{cleared, same_status, ChequeStatus}

pub check_lines-Reads :
    (id : ℕ) (t : RepSettlement) (s : Store)
    → Reads (check_lines id t s) s (λ _. lines_unchanged id t s ≡ true)
unfolding check_lines
check_lines-Reads id t s = guard-Reads _ _ s

pub when_cleared-Reads :
    (status : ChequeStatus) (id : ℕ) (t : RepSettlement) (s : Store)
    → Reads
        (when_cleared status (check_lines id t) s)
        s
        (λ _. same_status status cleared ≡ true → lines_unchanged id t s ≡ true)
when_cleared-Reads status id t s = elim (Bool-cases (same_status status cleared)) [
  | inl clears ↦ rw clears (Reads-mono (λ _ h _. h) (check_lines-Reads id t s))
  | inr stays ↦ rw stays (passes tt refl (λ h. cc))
]
