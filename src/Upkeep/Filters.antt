-- ===== src/Upkeep/Filters.antt =====
-- app/services/audit_service.py: what the filters of the audit log let pass.
use vista_authen.Prelude.{
  ◌≡◌, ◌+◌, ℕ, refl, ap, String, Bool, true, false, Option, none, some, List, [], ◌∷◌, ◌==◌, ◌||◌,
  ◌&&◌, String_eq, ℕ_eq, arith, ◌⊎◌, inl, inr, All, Bool-cases, count, select,
}
use vista_authen.Models.{Uuid, AuditLog}
use vista_authen.Python.Strings.{is_empty}
use vista_authen.Services.Audit.{action_filter, unit_filter, role_filter, matches}

-- A text that is asked for, unless it is missing or empty, is the text of the entry.
abbrev AllowsText : Option String → Option String → Type 0
AllowsText none s = Unit
AllowsText (some t) s = (t ≡ "") ⊎ (s ≡ some t)

abbrev AllowsUnit : Option Uuid → Option Uuid → Type 0
AllowsUnit none j = Unit
AllowsUnit (some i) j = j ≡ some i

abbrev pub Passes : Option String → Option Uuid → Option String → AuditLog → Type 0
Passes a u r l = AllowsText a (some l.action) × AllowsUnit u l.unit_id × AllowsText r l.actor_role

empty_lem : (s : String) → is_empty s ≡ true → s ≡ ""
empty_lem String.[] h = refl
empty_lem (String.◌∷◌ c s) h = absurd (cc)

both : (p q : Bool) → (p && q) ≡ true → (p ≡ true) × (q ≡ true)
both p q h = (ground arith, ground arith)

or_true : (p : Bool) → (p || true) ≡ true
or_true p = ground arith

zero_more : (n : ℕ) → n ≡ 0 + n
zero_more n = omega arith

unwanted : (b : Bool) {m : Bool} → (b ≡ true → m ≡ true) → m ≡ false → b ≡ false
unwanted true {m} f h = let e : m ≡ true = f refl in absurd (cc)
unwanted false f h = refl

either : (p q : Bool) → (p || q) ≡ true → (p ≡ true) ⊎ (q ≡ true)
either true q h = inl refl
either false q h = inr h

action-AllowsText :
    (a : Option String) (l : AuditLog) → action_filter a l ≡ true → AllowsText a (some l.action)
action-AllowsText none l h = tt
action-AllowsText (some t) l h = elim (either (is_empty t) (l.action == t) h) [
  | inl blank ↦ inl (empty_lem t blank)
  | inr same ↦ inr (ap some ((String_eq.decides l.action t).0 same))
]

AllowsText-action :
    (a : Option String) (l : AuditLog) → AllowsText a (some l.action) → action_filter a l ≡ true
AllowsText-action none l h = refl
AllowsText-action (some t) l (inl empty) = rw empty refl
AllowsText-action (some t) l (inr same) =
    let e : l.action ≡ t = cc in
    let hit : (l.action == t) ≡ true = (String_eq.decides l.action t).1 e in ground arith

unit_found :
    (i : Uuid) (j : Option Uuid) → elim j [ none ↦ false | some k ↦ k == i ] ≡ true → j ≡ some i
unit_found i none h = absurd (cc)
unit_found i (some j) h = ap some ((ℕ_eq.decides j i).0 h)

unit-AllowsUnit : (u : Option Uuid) (l : AuditLog) → unit_filter u l ≡ true → AllowsUnit u l.unit_id
unit-AllowsUnit none l h = tt
unit-AllowsUnit (some i) l h = unit_found i l.unit_id h

AllowsUnit-unit : (u : Option Uuid) (l : AuditLog) → AllowsUnit u l.unit_id → unit_filter u l ≡ true
AllowsUnit-unit none l h = refl
AllowsUnit-unit (some i) l h = rw h ((ℕ_eq.decides i i).1 refl)

role_found :
    (t : String) (s : Option String) → elim s [ none ↦ false | some q ↦ q == t ] ≡ true → s ≡ some t
role_found t none h = absurd (cc)
role_found t (some q) h = ap some ((String_eq.decides q t).0 h)

role-AllowsText :
    (r : Option String) (l : AuditLog) → role_filter r l ≡ true → AllowsText r l.actor_role
role-AllowsText none l h = tt
role-AllowsText (some t) l h = elim (either (is_empty t) _ h) [
  | inl blank ↦ inl (empty_lem t blank)
  | inr same ↦ inr (role_found t l.actor_role same)
]

AllowsText-role :
    (r : Option String) (l : AuditLog) → AllowsText r l.actor_role → role_filter r l ≡ true
AllowsText-role none l h = refl
AllowsText-role (some t) l (inl empty) = rw empty refl
AllowsText-role (some t) l (inr same) =
    let hit : (t == t) ≡ true = (String_eq.decides t t).1 refl in
    rw (same, hit) (or_true (is_empty t))

module _ (a : Option String) (u : Option Uuid) (r : Option String) where
  pub matches-Passes : (l : AuditLog) → matches a u r l ≡ true → Passes a u r l
  matches-Passes l h =
      let (front, t) = both (action_filter a l && unit_filter u l) (role_filter r l) h in
      let (p, q) = both (action_filter a l) (unit_filter u l) front in
      (action-AllowsText a l p, unit-AllowsUnit u l q, role-AllowsText r l t)

  Passes-matches : (l : AuditLog) → Passes a u r l → matches a u r l ≡ true
  Passes-matches l (p, q, t) =
      rw (AllowsText-action a l p, AllowsUnit-unit u l q, AllowsText-role r l t) refl

  pub selected-Passes : (xs : List AuditLog) → All (Passes a u r) (select (matches a u r) xs)
  selected-Passes [] = tt
  selected-Passes (x ∷ xs) = elim (Bool-cases (matches a u r x)) [
    | inl kept ↦ rw kept (matches-Passes x kept, selected-Passes xs)
    | inr left ↦ rw left (selected-Passes xs)
  ]

  -- An entry that passes is selected, in its number.
  pub count-selected :
      (q : AuditLog → Bool)
      → ((l : AuditLog) → q l ≡ true → Passes a u r l)
      → (xs : List AuditLog) → count q (select (matches a u r) xs) ≡ count q xs
  count-selected q wanted [] = refl
  count-selected q wanted (x ∷ xs) = elim (Bool-cases (matches a u r x)) [
    | inl kept ↦ rw (kept, count-selected q wanted xs) refl
    | inr left ↦
        let out : q x ≡ false = unwanted (q x) (λ h. Passes-matches x (wanted x h)) left in
        rw (left, out, count-selected q wanted xs) (zero_more (count q xs))
  ]
