-- ===== src/Services/Cleanup.antt =====
-- app/services/cleanup_service.py
use vista_authen.Prelude.{ℕ, ◌+◌, ◌*◌, Bool, not, ◌||◌, ltb, select, count}
use vista_authen.Models.{ActivationToken, AuditLog, micros}
use vista_authen.Session.{M, pure, query, modify, utcnow, commit, ◌>>=◌, ◌>>◌}
use vista_authen.Config.{Settings}
use vista_authen.Services.Residents.{is_used}

abbrev pub day : ℕ
day = 24 * 3600 * 1000000

-- expired or already used
abbrev pub is_stale : ℕ → ActivationToken → Bool
is_stale now t = ltb (micros t.expires_at) now || is_used t

-- CleanupService.purge_expired_tokens
unfoldable pub purge_expired_tokens : M ℕ
purge_expired_tokens = do
  now ← utcnow
  purged ← query (λ d. count (is_stale now) d.activation_tokens)
  modify
      (λ d. record d { activation_tokens = select (λ t. not (is_stale now t)) d.activation_tokens })
  pure purged

-- `AuditLog.timestamp < now - timedelta(days=…)`, with the term on the left
abbrev pub is_old : Settings → ℕ → AuditLog → Bool
is_old cfg now l = ltb (micros l.timestamp + cfg.audit_log_retention_days * day) now

-- CleanupService.purge_old_audit_logs
unfoldable pub purge_old_audit_logs : Settings → M ℕ
purge_old_audit_logs cfg = do
  now ← utcnow
  purged ← query (λ d. count (is_old cfg now) d.audit_logs)
  modify (λ d. record d { audit_logs = select (λ l. not (is_old cfg now l)) d.audit_logs })
  pure purged

-- CleanupService.cleanup_all
unfoldable pub cleanup_all : Settings → M (ℕ × ℕ)
cleanup_all cfg = do
  purged_tokens ← purge_expired_tokens
  purged_audit_logs ← purge_old_audit_logs cfg
  commit
  pure (purged_tokens, purged_audit_logs)
