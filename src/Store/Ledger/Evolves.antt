-- ===== src/Store/Ledger/Evolves.antt =====
-- What no action on the tables of internal/store/store.go undoes: the lifecycle of an execution
-- goes forward, its content stays, runbooks are immutable, a used token stays used, and the
-- events, the audit trail and the list of the steps run only grow.
use rootmote_agent.Prelude.{
  ◌≡◌, refl, sym, ◌∙◌, ap, Bool, true, false, Option, none, some, List, [], ◌∷◌, ◌++◌, Text,
  text_beq, text_beq_iff, text_eq, arith, Bool-cases, inl, inr, ◌⊎◌,
}
use mathlib.Core.List.{append-nil, append_assoc}
use rootmote_agent.Prelude.Maps.{lookup, insert, lookup-insert}
use rootmote_agent.Runbook.{Step}
use rootmote_agent.Store.Ledger.Statuses.{
  Status, proposed, approved, executing, verifying, remediation_failed, declined,
}
use rootmote_agent.Store.Ledger.Actions.{
  World, Execution, RunbookRow, Token, Event, AuditEntry, access,
}
use rootmote_agent.Store.Ledger.Relates.{IsPreorder, Relates}

-- The moves of the lifecycle that remediation makes.
pub data Move : Status → Status → Type 0 where
  approval : Move proposed approved
  refusal : Move proposed declined
  start : Move approved executing
  completion : Move executing verifying
  failure : Move executing remediation_failed
  late_failure : Move verifying remediation_failed

pub data Reaches (s : Status) : Status → Type 0 where
  here : Reaches s s
  next : {t u : Status} → Reaches s t → Move t u → Reaches s u

pub Reaches-trans : {s t u : Status} → Reaches s t → Reaches t u → Reaches s u
Reaches-trans a here = a
Reaches-trans a (next b m) = next (Reaches-trans a b) m

-- A row afterwards: moved along the lifecycle, with the content it had.
abbrev pub Advanced : Execution → Option Execution → Type 0
Advanced e none = ⊥
Advanced e (some e') =
    Reaches e.status e'.status
    × (e'.incident_id ≡ e.incident_id)
    × (e'.runbook_id ≡ e.runbook_id)
    × (e'.runbook_hash ≡ e.runbook_hash)
    × (e'.kind ≡ e.kind)

-- The token is there and used.
abbrev pub is_spent : Option Token → Bool
is_spent none = false
is_spent (some t) = elim t.used_at [ none ↦ false | some _ ↦ true ]

abbrev pub Extends {ℓ} : {A : Type ℓ} → List A → List A → Type ℓ
Extends {A} xs ys = (zs : List A) × (ys ≡ xs ++ zs)

pub record Evolves (w w' : World) : Type 0 where
  pub runbook_kept :
      (id : Text) (row : RunbookRow)
      → lookup id w.runbooks ≡ some row
      → lookup id w'.runbooks ≡ some row
  pub execution_advanced :
      (id : Text) (e : Execution)
      → lookup id w.executions ≡ some e
      → Advanced e (lookup id w'.executions)
  pub token_spent :
      (t : Text) → is_spent (lookup t w.tokens) ≡ true → is_spent (lookup t w'.tokens) ≡ true
  pub events_kept : Extends w.events w'.events
  pub audit_kept : Extends w.audit w'.audit
  pub host_kept : Extends w.host w'.host

Extends-refl {ℓ} : {A : Type ℓ} (xs : List A) → Extends xs xs
Extends-refl xs = ([], sym (append-nil xs))

Extends-trans {ℓ} : {A : Type ℓ} (xs ys zs : List A) → Extends xs ys → Extends ys zs → Extends xs zs
Extends-trans xs ys zs (a, p) (b, q) = (a ++ b, q ∙ ap (λ l. l ++ b) p ∙ append_assoc xs a b)

Advanced-refl : (e : Execution) (o : Option Execution) → o ≡ some e → Advanced e o
Advanced-refl e o h = rw h (here, refl, refl, refl, refl)

Advanced-trans :
    (e : Execution) (o p : Option Execution)
    → Advanced e o
    → ((f : Execution) → o ≡ some f → Advanced f p)
    → Advanced e p
Advanced-trans e none p a h = elim a [ ]
Advanced-trans e (some f) none a h = h f refl
Advanced-trans e (some f) (some g) a h =
    let b = h f refl in (Reaches-trans a.0 b.0, b.1 ∙ a.1, b.2 ∙ a.2, b.3 ∙ a.3, b.4 ∙ a.4)

pub Evolves-preorder : IsPreorder Evolves
Evolves-preorder = record {
  refl = λ w. record {
    runbook_kept = λ id row h. h;
    execution_advanced = λ id e h. Advanced-refl e _ h;
    token_spent = λ t h. h;
    events_kept = Extends-refl w.events;
    audit_kept = Extends-refl w.audit;
    host_kept = Extends-refl w.host;
  };
  trans = λ p q. record {
    runbook_kept = λ id row h. q.runbook_kept id row (p.runbook_kept id row h);
    execution_advanced = λ id e h.
        Advanced-trans e _ _ (p.execution_advanced id e h) (λ f. q.execution_advanced id f);
    token_spent = λ t h. q.token_spent t (p.token_spent t h);
    events_kept = Extends-trans _ _ _ p.events_kept q.events_kept;
    audit_kept = Extends-trans _ _ _ p.audit_kept q.audit_kept;
    host_kept = Extends-trans _ _ _ p.host_kept q.host_kept;
  };
}

pub Evolves-access : Relates Evolves access
unfolding access
Evolves-access = record {
  at = λ w. record {
    runbook_kept = λ id row h. h;
    execution_advanced = λ id e h. Advanced-refl e _ h;
    token_spent = λ t h. h;
    events_kept = Extends-refl w.events;
    audit_kept = Extends-refl w.audit;
    host_kept = Extends-refl w.host;
  };
}

-- What one table allows, the others left alone.
pub Evolves-runbooks :
    (w : World) (row : RunbookRow)
    → lookup row.id w.runbooks ≡ none
    → (r : RunbookRow) → Evolves w (record w { runbooks = insert row.id r w.runbooks })
Evolves-runbooks w row free r = record {
  runbook_kept =
      λ id s h. ground (arith, lookup-insert row.id id r w.runbooks, text_beq_iff row.id id);
  execution_advanced = λ id e h. Advanced-refl e _ h;
  token_spent = λ t h. h;
  events_kept = Extends-refl w.events;
  audit_kept = Extends-refl w.audit;
  host_kept = Extends-refl w.host;
}

pub Evolves-executions :
    (w : World) (id : Text) (e : Execution)
    → ((d : Execution) → lookup id w.executions ≡ some d → Advanced d (some e))
    → Evolves w (record w { executions = insert id e w.executions })
Evolves-executions w id e moved = record {
  runbook_kept = λ id row h. h;
  execution_advanced = λ j d h. advanced j d h (Bool-cases (text_beq id j));
  token_spent = λ t h. h;
  events_kept = Extends-refl w.events;
  audit_kept = Extends-refl w.audit;
  host_kept = Extends-refl w.host;
}
  where
    advanced :
        (j : Text) (d : Execution)
        → lookup j w.executions ≡ some d
        → (text_beq id j ≡ true) ⊎ (text_beq id j ≡ false)
        → Advanced d (lookup j (insert id e w.executions))
    advanced j d h (inl y) =
        rw (lookup-insert id j e w.executions)
          (rw y (moved d (rw (← (text_beq_iff id j).0 y) at h)))
    advanced j d h (inr n) = rw (lookup-insert id j e w.executions) (rw n (Advanced-refl d _ h))

pub Evolves-tokens :
    (w : World) (k : Text) (t : Token)
    → (is_spent (lookup k w.tokens) ≡ true → is_spent (some t) ≡ true)
    → Evolves w (record w { tokens = insert k t w.tokens })
Evolves-tokens w k t spent = record {
  runbook_kept = λ id row h. h;
  execution_advanced = λ id e h. Advanced-refl e _ h;
  token_spent = λ j h. ground (arith, lookup-insert k j t w.tokens, text_beq_iff k j, spent);
  events_kept = Extends-refl w.events;
  audit_kept = Extends-refl w.audit;
  host_kept = Extends-refl w.host;
}

pub Evolves-events :
    (w : World) (ev : Event) → Evolves w (record w { events = w.events ++ (ev ∷ []) })
Evolves-events w ev = record {
  runbook_kept = λ id row h. h;
  execution_advanced = λ id e h. Advanced-refl e _ h;
  token_spent = λ t h. h;
  events_kept = (ev ∷ [], refl);
  audit_kept = Extends-refl w.audit;
  host_kept = Extends-refl w.host;
}

pub Evolves-audit :
    (w : World) (a : AuditEntry) → Evolves w (record w { audit = w.audit ++ (a ∷ []) })
Evolves-audit w a = record {
  runbook_kept = λ id row h. h;
  execution_advanced = λ id e h. Advanced-refl e _ h;
  token_spent = λ t h. h;
  events_kept = Extends-refl w.events;
  audit_kept = (a ∷ [], refl);
  host_kept = Extends-refl w.host;
}

pub Evolves-host :
    (w : World) (r : Text × Step) → Evolves w (record w { host = w.host ++ (r ∷ []) })
Evolves-host w r = record {
  runbook_kept = λ id row h. h;
  execution_advanced = λ id e h. Advanced-refl e _ h;
  token_spent = λ t h. h;
  events_kept = Extends-refl w.events;
  audit_kept = Extends-refl w.audit;
  host_kept = (r ∷ [], refl);
}
