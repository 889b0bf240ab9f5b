-- ===== src/Fleet/Audit/Trail.antt =====
-- What becomes of the entries of the audit log (repository.go).
use zero_agent_scan.Prelude.{
  ℕ, zero, suc, ◌≤◌, ◌≡◌, refl, List, [], ◌∷◌, ◌++◌, take, length, arith, ap,
}
use zero_agent_scan.Fleet.Records.{SecurityAuditLog, Repository, append_log}
use zero_agent_scan.Fleet.Audit.{add_audit_log}

take-append_left :
    {A : Type 0} (n : ℕ) (xs ys : List A) → n ≤ length xs → take n (xs ++ ys) ≡ take n xs
take-append_left zero xs ys h = refl
take-append_left (suc n) [] ys h = absurd (omega arith)
take-append_left (suc n) (x ∷ xs) ys h = ap (λ l. x ∷ l) (take-append_left n xs ys (omega arith))

module _ {P : Type 0} where
  -- Where the log has at least 999 entries, `add_audit_log` drops what a method has appended last:
  -- the log is the same as if the newest entry had never been written.
  pub add_audit_log-drops :
      (log newest : SecurityAuditLog) (r : Repository P)
      → 999 ≤ length r.audit_logs
      → (add_audit_log log (append_log newest r)).audit_logs ≡ (add_audit_log log r).audit_logs
  unfolding add_audit_log
  add_audit_log-drops log newest r h =
      take-append_left 1000 (log ∷ r.audit_logs) (newest ∷ []) (omega arith)
