-- ===== src/Upkeep/Purges.antt =====
-- What a round of the clean-up removes, counts and commits.
use vista_authen.Prelude.{
  ℕ, ◌+◌, ◌≡◌, refl, Bool, true, false, not, List, [], ◌∷◌, arith, count, select, length, All,
  Bool-cases, inl, inr, ◌≤◌, ◌*◌, Option, none, some, All-map,
}
use vista_authen.Models.{Db, DateTime, ActivationToken, AuditLog, micros}
use vista_authen.Session.{World, Result, ok, raised, ◌>>=◌}
use vista_authen.Session.Wp.{Wp}
use vista_authen.Config.{Settings}
use vista_authen.Services.Cleanup.{
  is_stale, is_old, purge_expired_tokens, purge_old_audit_logs, cleanup_all,
}

module _ {A : Type 0} (p : A → Bool) where
  -- The rows that go and the rows that stay are all of them.
  purged_and_kept : (xs : List A) → count p xs + length (select (λ x. not (p x)) xs) ≡ length xs
  purged_and_kept [] = refl
  purged_and_kept (x ∷ xs) = ground (arith, purged_and_kept xs)

  kept_fail : (xs : List A) → All (λ x. p x ≡ false) (select (λ x. not (p x)) xs)
  kept_fail [] = tt
  kept_fail (x ∷ xs) = elim (Bool-cases (p x)) [
    | inl gone ↦ rw gone (kept_fail xs)
    | inr stays ↦ rw stays (stays, kept_fail xs)
  ]

  -- A row that does not match stays, in its number.
  kept_count :
      (q : A → Bool)
      → ((x : A) → q x ≡ true → p x ≡ false)
      → (xs : List A) → count q (select (λ x. not (p x)) xs) ≡ count q xs
  kept_count q apart [] = refl
  kept_count q apart (x ∷ xs) = ground (arith, kept_count q apart xs, apart x)

-- a token that may still be used
abbrev pub Usable : ℕ → ActivationToken → Type 0
Usable now t = (now ≤ micros t.expires_at) × (t.used_at ≡ none)

-- an entry that is within its retention, in microseconds
abbrev pub Retained : Settings → ℕ → AuditLog → Type 0
Retained cfg now l = now ≤ micros l.timestamp + cfg.audit_log_retention_days * 86400000000

not_stale : (now : ℕ) (t : ActivationToken) → is_stale now t ≡ false → Usable now t
not_stale now t h = (ground arith, unused t.used_at (ground arith))
  where
    unused : (o : Option DateTime) → (elim o [ none ↦ false | some _ ↦ true ]) ≡ false → o ≡ none
    unused none h = refl
    unused (some d) h = absurd (cc)

unpurged_token : (now : ℕ) (t : ActivationToken) → Usable now t → is_stale now t ≡ false
unpurged_token now t (timely, unused) = rw unused (ground arith)

not_old : (cfg : Settings) (now : ℕ) (l : AuditLog) → is_old cfg now l ≡ false → Retained cfg now l
not_old cfg now l h = ground arith

unpurged_entry :
    (cfg : Settings) (now : ℕ) (l : AuditLog) → Retained cfg now l → is_old cfg now l ≡ false
unpurged_entry cfg now l h = ground arith

-- The tables `e` are `d` without the tokens that are expired or used at `now` and the entries that
-- are past their retention at `later`, of which there were `n` and `m`.
pub record Purged (cfg : Settings) (now later : ℕ) (d e : Db) (n m : ℕ) : Type 0 where
  pub units : e.units ≡ d.units
  pub residents : e.residents ≡ d.residents
  pub checkers : e.checkers ≡ d.checkers
  pub admins : e.admins ≡ d.admins
  pub tokens_counted : n + length e.activation_tokens ≡ length d.activation_tokens
  pub tokens_fresh : All (Usable now) e.activation_tokens
  pub tokens_kept :
      (q : ActivationToken → Bool)
      → ((t : ActivationToken) → q t ≡ true → Usable now t)
      → count q e.activation_tokens ≡ count q d.activation_tokens
  pub logs_counted : m + length e.audit_logs ≡ length d.audit_logs
  pub logs_recent : All (Retained cfg later) e.audit_logs
  pub logs_kept :
      (q : AuditLog → Bool)
      → ((l : AuditLog) → q l ≡ true → Retained cfg later l)
      → count q e.audit_logs ≡ count q d.audit_logs

abbrev pub Purges : Settings → World → Result (ℕ × ℕ) → World → Type 0
Purges cfg w (ok (n, m)) v = Purged cfg (w.clock 0) (w.clock 1) w.db v.db n m × (v.committed ≡ v.db)
Purges cfg w (raised e) v = ⊥

wp-cleanup_all : (cfg : Settings) (w : World) → Wp (cleanup_all cfg) w (Purges cfg w)
unfolding cleanup_all purge_expired_tokens purge_old_audit_logs ◌>>=◌
wp-cleanup_all cfg w = record {
  at = (
    record {
      units = refl;
      residents = refl;
      checkers = refl;
      admins = refl;
      tokens_counted = purged_and_kept (is_stale (w.clock 0)) w.db.activation_tokens;
      tokens_fresh =
          All-map _ _ (not_stale (w.clock 0)) _
            (kept_fail (is_stale (w.clock 0)) w.db.activation_tokens);
      tokens_kept = λ q apart.
          kept_count (is_stale (w.clock 0)) q (λ t h. unpurged_token _ t (apart t h))
            w.db.activation_tokens;
      logs_counted = purged_and_kept (is_old cfg (w.clock 1)) w.db.audit_logs;
      logs_recent =
          All-map _ _ (not_old cfg (w.clock 1)) _
            (kept_fail (is_old cfg (w.clock 1)) w.db.audit_logs);
      logs_kept = λ q apart.
          kept_count (is_old cfg (w.clock 1)) q (λ l h. unpurged_entry cfg _ l (apart l h))
            w.db.audit_logs;
    },
    refl,
  );
}

-- The clean-up always returns: it removes exactly the tokens that are expired or used and the audit
-- entries past their retention, answers how many there were, keeps every other row, and commits.
pub cleanup_all-Purges :
    (cfg : Settings) (w : World) → Purges cfg w (cleanup_all cfg w).0 (cleanup_all cfg w).1
cleanup_all-Purges cfg w = (wp-cleanup_all cfg w).at
