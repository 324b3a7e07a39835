-- ===== src/Session/Reads.antt =====
-- Blocks that only read: a rule for each way to build one, for `search`.
use vista_authen.Prelude.{
  ℕ, ◌≡◌, refl, ◌∙◌, Bool, true, false, Option, none, some, String, if◌then◌else◌,
}
use vista_authen.Models.{Db}
use vista_authen.Session.{
  World, continue, Result, ok, raised, Exn, M, pure, raise, lift, query, require, raise_if, utcnow,
  uuid4, new_salt, server_now, hit, tie_order, ◌>>=◌,
}

-- what the session sees and what is committed are as before
pub record Reads {A : Type 0} (m : M A) : Type 0 where
  pub session : (w : World) → (m w).1.db ≡ w.db
  pub stored : (w : World) → (m w).1.committed ≡ w.committed

module _ {A : Type 0} where
  pub pure-Reads : (a : A) → Reads (pure a)
  unfolding pure
  pure-Reads a = record { session = λ w. refl; stored = λ w. refl }

  pub raise-Reads : (e : Exn) → Reads (raise {A = A} e)
  unfolding raise
  raise-Reads e = record { session = λ w. refl; stored = λ w. refl }

  pub lift-Reads : (r : Result A) → Reads (lift r)
  unfolding lift
  lift-Reads r = record { session = λ w. refl; stored = λ w. refl }

  pub query-Reads : (f : Db → A) → Reads (query f)
  unfolding query
  query-Reads f = record { session = λ w. refl; stored = λ w. refl }

  pub require-Reads : (o : Option A) (e : Exn) → Reads (require o e)
  unfolding require
  require-Reads none e = record { session = λ w. refl; stored = λ w. refl }
  require-Reads (some a) e = record { session = λ w. refl; stored = λ w. refl }

  pub if-Reads : (b : Bool) {m n : M A} → Reads m → Reads n → Reads (if b then m else n)
  if-Reads true p q = p
  if-Reads false p q = q

pub raise_if-Reads : (b : Bool) (e : Exn) → Reads (raise_if b e)
unfolding raise_if
raise_if-Reads true e = record { session = λ w. refl; stored = λ w. refl }
raise_if-Reads false e = record { session = λ w. refl; stored = λ w. refl }

pub utcnow-Reads : Reads utcnow
unfolding utcnow
utcnow-Reads = record { session = λ w. refl; stored = λ w. refl }

pub uuid4-Reads : Reads uuid4
unfolding uuid4
uuid4-Reads = record { session = λ w. refl; stored = λ w. refl }

pub new_salt-Reads : Reads new_salt
unfolding new_salt
new_salt-Reads = record { session = λ w. refl; stored = λ w. refl }

pub server_now-Reads : Reads server_now
unfolding server_now
server_now-Reads = record { session = λ w. refl; stored = λ w. refl }

pub hit-Reads : (n : ℕ) (key : String) → Reads (hit n key)
unfolding hit
hit-Reads n key = record { session = λ w. refl; stored = λ w. refl }

pub tie_order-Reads : Reads tie_order
unfolding tie_order
tie_order-Reads = record { session = λ w. refl; stored = λ w. refl }

module _ {A B : Type 0} (v : World) (f : A → M B) (reads : (a : A) → Reads (f a)) where
  continue-session : (r : Result A) → (continue (r, v) f).1.db ≡ v.db
  continue-session (ok a) = (reads a).session v
  continue-session (raised e) = refl

  continue-stored : (r : Result A) → (continue (r, v) f).1.committed ≡ v.committed
  continue-stored (ok a) = (reads a).stored v
  continue-stored (raised e) = refl

pub bind-Reads :
    {A B : Type 0} {m : M A} {f : A → M B} → Reads m → ((a : A) → Reads (f a)) → Reads (m >>= f)
unfolding ◌>>=◌
bind-Reads {m} {f} p q = record {
  session = λ w. continue-session (m w).1 f q (m w).0 ∙ p.session w;
  stored = λ w. continue-stored (m w).1 f q (m w).0 ∙ p.stored w;
}

pub ruleset read_rules = (
  pure-Reads, raise-Reads, lift-Reads, query-Reads, require-Reads, if-Reads, raise_if-Reads,
  utcnow-Reads, uuid4-Reads, new_salt-Reads, server_now-Reads, hit-Reads, tie_order-Reads,
  bind-Reads,
)
