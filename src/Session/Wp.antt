-- ===== src/Session/Wp.antt =====
-- Rules for proofs about blocks: what holds of the result and of the world that a block ends in,
-- one rule for each way that a block begins.
use vista_authen.Prelude.{
  ℕ, zero, suc, String, ◌≡◌, refl, Bool, true, false, Option, none, some, if◌then◌else◌, subst,
}
use vista_authen.Models.{AuditLog, Db, Uuid, DateTime}
use vista_authen.Session.{
  World, continue, Result, ok, raised, Exn, M, pure, raise, lift, query, require, raise_if, modify,
  utcnow, uuid4, new_salt, server_now, hit, tie_order, commit, ◌>>=◌,
}

-- `m`, begun in `w`, ends in a result and a world with `Q`.
pub record Wp {A : Type 0} (m : M A) (w : World) (Q : Result A → World → Type 0) : Type 0 where
  pub at : Q (m w).0 (m w).1

module _ {A : Type 0} {w : World} {Q : Result A → World → Type 0} where
  pub wp-pure : (a : A) → Q (ok a) w → Wp (pure a) w Q
  unfolding pure
  wp-pure a h = record { at = h }

  pub wp-raise : (e : Exn) → Q (raised e) w → Wp (raise e) w Q
  unfolding raise
  wp-raise e h = record { at = h }

  pub wp-require_last :
      (o : Option A) (e : Exn)
      → ((a : A) → o ≡ some a → Q (ok a) w)
      → (o ≡ none → Q (raised e) w)
      → Wp (require o e) w Q
  unfolding require
  wp-require_last none e h k = record { at = k refl }
  wp-require_last (some a) e h k = record { at = h a refl }

  pub wp-query_last : (g : Db → A) → Q (ok (g w.db)) w → Wp (query g) w Q
  unfolding query
  wp-query_last g h = record { at = h }

  pub wp-if :
      (b : Bool) {m n : M A}
      → (b ≡ true → Wp m w Q)
      → (b ≡ false → Wp n w Q)
      → Wp (if b then m else n) w Q
  wp-if true h k = h refl
  wp-if false h k = k refl

  -- a weaker conclusion
  pub wp-weaken :
      {P : Result A → World → Type 0} {m : M A}
      → Wp m w P
      → ((r : Result A) (w' : World) → P r w' → Q r w')
      → Wp m w Q
  wp-weaken {m} h f = record { at = f (m w).0 (m w).1 h.at }

  -- the result is known
  pub wp-eq : {m : M A} {r : Result A} {w' : World} → Wp m w Q → m w ≡ (r, w') → Q r w'
  wp-eq {r} {w'} h e = subst (λ (x : Result A × World). Q x.0 x.1) e h.at

module _ {w : World} {Q : Result (Unit {0}) → World → Type 0} where
  pub wp-raise_if_last :
      (b : Bool) (e : Exn)
      → (b ≡ false → Q (ok tt) w)
      → (b ≡ true → Q (raised e) w)
      → Wp (raise_if b e) w Q
  unfolding raise_if
  wp-raise_if_last true e h k = record { at = k refl }
  wp-raise_if_last false e h k = record { at = h refl }

  pub wp-modify_last : (g : Db → Db) → Q (ok tt) (record w { db = g w.db }) → Wp (modify g) w Q
  unfolding modify
  wp-modify_last g h = record { at = h }

module _ {w : World} {Q : Result (Unit {0}) → World → Type 0} where
  pub wp-commit_last : Q (ok tt) (record w { committed = w.db }) → Wp commit w Q
  unfolding commit
  wp-commit_last h = record { at = h }

wp-continue :
    {A B : Type 0} {Q : Result B → World → Type 0} (r : Result A) (w' : World) (f : A → M B)
    (P : Result A → World → Type 0)
    → P r w'
    → ((a : A) (v : World) → P (ok a) v → Wp (f a) v Q)
    → ((e : Exn) (v : World) → P (raised e) v → Q (raised e) v)
    → Q (continue (r, w') f).0 (continue (r, w') f).1
wp-continue (ok a) w' f P p h k = (h a w' p).at
wp-continue (raised e) w' f P p h k = k e w' p

module _ {B : Type 0} {w : World} {Q : Result B → World → Type 0} where
  pub wp-query :
      {A : Type 0} (g : Db → A) (f : A → M B) → Wp (f (g w.db)) w Q → Wp (query g >>= f) w Q
  unfolding ◌>>=◌
  wp-query g f h = record { at = h.at }

  pub wp-require :
      {A : Type 0} (o : Option A) (e : Exn) (f : A → M B)
      → ((a : A) → o ≡ some a → Wp (f a) w Q)
      → (o ≡ none → Q (raised e) w)
      → Wp (require o e >>= f) w Q
  unfolding ◌>>=◌
  wp-require none e f h k = record { at = k refl }
  wp-require (some a) e f h k = record { at = (h a refl).at }

  pub wp-lift_last :
      (r : Result B)
      → ((b : B) → r ≡ ok b → Q (ok b) w)
      → ((e : Exn) → r ≡ raised e → Q (raised e) w)
      → Wp (lift r) w Q
  unfolding lift
  wp-lift_last (ok b) h k = record { at = h b refl }
  wp-lift_last (raised e) h k = record { at = k e refl }

  pub wp-lift :
      {A : Type 0} (r : Result A) (f : A → M B)
      → ((a : A) → r ≡ ok a → Wp (f a) w Q)
      → ((e : Exn) → r ≡ raised e → Q (raised e) w)
      → Wp (lift r >>= f) w Q
  unfolding ◌>>=◌
  wp-lift (ok a) f h k = record { at = (h a refl).at }
  wp-lift (raised e) f h k = record { at = k e refl }

  pub wp-raise_if :
      (b : Bool) (e : Exn) (f : Unit {0} → M B)
      → (b ≡ false → Wp (f tt) w Q)
      → (b ≡ true → Q (raised e) w)
      → Wp (raise_if b e >>= f) w Q
  unfolding ◌>>=◌
  wp-raise_if true e f h k = record { at = k refl }
  wp-raise_if false e f h k = record { at = (h refl).at }

  pub wp-modify :
      (g : Db → Db) (f : Unit {0} → M B)
      → Wp (f tt) (record w { db = g w.db }) Q
      → Wp (modify g >>= f) w Q
  unfolding ◌>>=◌
  wp-modify g f h = record { at = h.at }

  pub wp-utcnow :
      (f : ℕ → M B)
      → Wp (f (w.clock zero)) (record w { clock = λ i. w.clock (suc i) }) Q
      → Wp (utcnow >>= f) w Q
  unfolding ◌>>=◌
  wp-utcnow f h = record { at = h.at }

  pub wp-uuid4 :
      (f : Uuid → M B)
      → Wp (f (w.uuids zero)) (record w { uuids = λ i. w.uuids (suc i) }) Q
      → Wp (uuid4 >>= f) w Q
  unfolding ◌>>=◌
  wp-uuid4 f h = record { at = h.at }

  pub wp-new_salt :
      (f : ℕ → M B)
      → Wp (f (w.salts zero)) (record w { salts = λ i. w.salts (suc i) }) Q
      → Wp (new_salt >>= f) w Q
  unfolding ◌>>=◌
  wp-new_salt f h = record { at = h.at }

  pub wp-server_now : (f : DateTime → M B) → Wp (f w.db_now) w Q → Wp (server_now >>= f) w Q
  unfolding ◌>>=◌
  wp-server_now f h = record { at = h.at }

  pub wp-hit :
      (n : ℕ) (key : String) (f : Bool → M B)
      → Wp (f (w.limiter zero n key)) (record w { limiter = λ i. w.limiter (suc i) }) Q
      → Wp (hit n key >>= f) w Q
  unfolding ◌>>=◌
  wp-hit n key f h = record { at = h.at }

  pub wp-tie_order :
      (f : (AuditLog → ℕ) → M B)
      → Wp (f (w.ties zero)) (record w { ties = λ i. w.ties (suc i) }) Q
      → Wp (tie_order >>= f) w Q
  unfolding ◌>>=◌
  wp-tie_order f h = record { at = h.at }

  pub wp-commit :
      (f : Unit {0} → M B) → Wp (f tt) (record w { committed = w.db }) Q → Wp (commit >>= f) w Q
  unfolding ◌>>=◌
  wp-commit f h = record { at = h.at }

  -- a call of another block, by what is known of it
  pub wp-call :
      {A : Type 0} (m : M A) (f : A → M B) {P : Result A → World → Type 0}
      → Wp m w P
      → ((a : A) (v : World) → P (ok a) v → Wp (f a) v Q)
      → ((e : Exn) (v : World) → P (raised e) v → Q (raised e) v)
      → Wp (m >>= f) w Q
  unfolding ◌>>=◌
  wp-call m f {P} p h k = record { at = wp-continue (m w).0 (m w).1 f P p.at h k }
