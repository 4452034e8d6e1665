-- ===== src/Review/SingleUse.antt =====
-- internal/review/review.go: what a token that was consumed was, and that it is good for nothing
-- afterwards.
use rootmote_agent.Prelude.{
  ◌≡◌, ◌<◌, refl, sym, ◌∙◌, ap, Bool, true, false, not, none, some, List, Text, text_beq,
  text_beq_iff, text_eq, Option-cases, arith, ltb, inl, inr,
}
use rootmote_agent.Store.Ledger.Actions.{
  World, Token, Action, Result, ok, err, database, not_found, token_invalid, token_expired,
  token_used, token_mismatch, Time, pure, attempt, ◌>>=◌,
}
use rootmote_agent.Watchtower.Queue.{is_empty}
use rootmote_agent.Prelude.Maps.{lookup, insert, lookup-insert_self}
use rootmote_agent.Store.Ledger.{get_confirmation_token, mark_confirmation_token_used, stored}
use rootmote_agent.Store.Ledger.Returns.{
  Read, raise_returned, pure_returned, bind_returned, unless_returned, attempt_returned,
  get_confirmation_token_returned, mark_confirmation_token_used_returned,
}
use rootmote_agent.Store.Ledger.Relates.{Relates}
use rootmote_agent.Store.Ledger.Evolves.{Evolves, is_spent}
use rootmote_agent.Store.Ledger.Operations.{evolves_rules, Relates-if}
use rootmote_agent.Review.{
  action_hash, consume_token, mint_confirmation_token, check_row, use_once, is_used,
  invalid_if_missing,
}

use_once-Evolves : (b : Bool) → Relates Evolves (use_once b)
use_once-Evolves true = search evolves_rules
use_once-Evolves false = search evolves_rules

invalid_if_missing-Evolves : (r : Result Token) → Relates Evolves (invalid_if_missing r)
invalid_if_missing-Evolves (ok t) = search evolves_rules
invalid_if_missing-Evolves (err not_found) = search evolves_rules
invalid_if_missing-Evolves (err _) = search evolves_rules

check_row-Evolves :
    (row : Token) (now : Time) (wanted : Text) (m : Action Unit)
    → Relates Evolves m
    → Relates Evolves (check_row row now wanted m)
check_row-Evolves row now wanted m r = search (Relates-if, evolves_rules)

pub mint-Evolves :
    (sha256 : Text → Text) (fresh : Text) (now : Time) (action scope : Text) (files : List Text)
    (comment : Text)
    → Relates Evolves (mint_confirmation_token sha256 fresh now action scope files comment)
unfolding mint_confirmation_token
mint-Evolves sha256 fresh now action scope files comment = search evolves_rules

pub consume_token-Evolves :
    (sha256 : Text → Text) (now : Time) (token action scope : Text) (files : List Text)
    (comment : Text)
    → Relates Evolves (consume_token sha256 now token action scope files comment)
unfolding consume_token
consume_token-Evolves sha256 now token action scope files comment =
    search
      (Relates-if, evolves_rules, use_once-Evolves, invalid_if_missing-Evolves, check_row-Evolves)
      depth 12

-- What the row of a token that was consumed was, and is then.
pub record Consumed (sha256 : Text → Text) (now : Time) (token action scope : Text)
    (files : List Text) (comment : Text) (w v : World) : Type 0 where
  pub row : Token
  pub found : lookup token w.tokens ≡ some row
  pub unused : row.used_at ≡ none
  pub in_time : now < row.expires_at
  pub same_action : row.action_hash ≡ action_hash sha256 action scope files comment
  pub failures : List Bool
  pub marked : v ≡ record w {
    tokens = insert token (record row { used_at = some (stored now) }) w.tokens;
    failures = failures;
  }

looked_up_returned :
    (token : Text) (u v x : World) (row : Token) (r : Result Token)
    → get_confirmation_token token u ≡ (r, v)
    → invalid_if_missing r v ≡ (ok row, x)
    → (lookup token u.tokens ≡ some row) × Read u x
unfolding pure
looked_up_returned token u v x row (ok t) g h =
    let e : (t ≡ row) × (v ≡ x) = ground (arith) in
    get_confirmation_token_returned token u x row (rw (← e.0) (rw (← e.1) g))
looked_up_returned token u v x row (err not_found) g h = absurd (raise_returned _ v x row h)
looked_up_returned token u v x row (err database) g h = absurd (raise_returned _ v x row h)
looked_up_returned token u v x row (err e) g h = absurd (raise_returned _ v x row h)

use_once_returned : (b : Bool) (w v : World) → use_once b w ≡ (ok tt, v) → (b ≡ true) × (w ≡ v)
unfolding pure
use_once_returned true w v h = (refl, (pure_returned _ w v tt h).1)
use_once_returned false w v h = absurd (raise_returned _ w v tt h)

unused_row : (t : Token) → is_used t ≡ false → t.used_at ≡ none
unused_row t h = elim (Option-cases t.used_at) [
  | inl n ↦ n
  | inr (x, s) ↦ absurd (ground (arith, s))
]

-- The row that is marked is the row that was read.
marked_same_row :
    (token : Text) (now : Time) (w x y : World) (row : Token)
    → lookup token w.tokens ≡ some row
    → Read w x
    → mark_confirmation_token_used token now x ≡ (ok true, y)
    → (fs : List Bool) × (y ≡ record w {
      tokens = insert token (record row { used_at = some (stored now) }) w.tokens;
      failures = fs;
    })
marked_same_row token now w x y row found (fs, read) h =
    written (mark_confirmation_token_used_returned token now x y h)
  where
    Written : Type 0
    Written =
        (fs : List Bool) × (y ≡ record w {
          tokens = insert token (record row { used_at = some (stored now) }) w.tokens;
          failures = fs;
        })

    written :
        (r : Token) × (lookup token x.tokens ≡ some r)
          × (r.used_at ≡ none)
          × ((gs : List Bool) × (y ≡ record x {
            tokens = insert token (record r { used_at = some (stored now) }) x.tokens;
            failures = gs;
          }))
        → Written
    written (r, found', _, (gs, e)) =
        let same : row ≡ r = ground (arith, found, found', ap (λ u. u.tokens) read) in
        (gs, rw same (rw read at e))

check_row_returned :
    (row : Token) (now : Time) (wanted : Text) (m : Action Unit) (w v : World)
    → check_row row now wanted m w ≡ (ok tt, v)
    → (row.used_at ≡ none)
      × (now < row.expires_at)
      × (row.action_hash ≡ wanted)
      × (m w ≡ (ok tt, v))
check_row_returned row now wanted m w v h =
    let (unused, a) = unless_returned (is_used row) token_used _ w v tt h in
    let (in_time, b) = unless_returned (not (ltb now row.expires_at)) token_expired _ w v tt a in
    let (same, c) =
      unless_returned (not (text_beq row.action_hash wanted)) token_mismatch _ w v tt b in
    (
      unused_row row unused,
      ground (arith, in_time),
      ground (arith, same, text_beq_iff row.action_hash wanted),
      c,
    )

-- A token that was consumed was stored, unused, not expired and bound to the action, and the one
-- thing that changed is that it is marked as used now.
pub consume_token_returned :
    (sha256 : Text → Text) (now : Time) (token action scope : Text) (files : List Text)
    (comment : Text) (w v : World)
    → consume_token sha256 now token action scope files comment w ≡ (ok tt, v)
    → Consumed sha256 now token action scope files comment w v
unfolding consume_token
consume_token_returned sha256 now token action scope files comment w v h =
    read (bind_returned _ _ w v tt (unless_returned (is_empty token) token_invalid _ w v tt h).1)
  where
    wanted : Text
    wanted = action_hash sha256 action scope files comment

    mark : Action Unit
    mark = do done ← mark_confirmation_token_used token now; use_once done

    Success : Type 0
    Success = Consumed sha256 now token action scope files comment w v

    consumed :
        (row : Token) (x y : World) (done : Bool)
        → lookup token w.tokens ≡ some row
        → Read w x
        → (row.used_at ≡ none)
          × (now < row.expires_at)
          × (row.action_hash ≡ wanted)
          × (mark x ≡ (ok tt, v))
        → mark_confirmation_token_used token now x ≡ (ok done, y)
        → (done ≡ true) × (y ≡ v)
        → Success
    consumed row x y done found same (unused, in_time, hash, _) marked (is_done, final) =
        let (fs, written) = marked_same_row token now w x y row found same (rw is_done at marked) in
        record {
          row = row;
          found = found;
          unused = unused;
          in_time = in_time;
          same_action = hash;
          failures = fs;
          marked = sym final ∙ written;
        }

    checked :
        (row : Token) (x : World)
        → lookup token w.tokens ≡ some row
        → Read w x
        → (row.used_at ≡ none)
          × (now < row.expires_at)
          × (row.action_hash ≡ wanted)
          × (mark x ≡ (ok tt, v))
        → Success
    checked row x found same checks = marking (bind_returned _ _ x v tt checks.3)
      where
        marking :
            (done : Bool) × (y : World) × (mark_confirmation_token_used token now x ≡ (ok done, y))
              × (use_once done y ≡ (ok tt, v))
            → Success
        marking (done, y, marked, used) =
            consumed row x y done found same checks marked (use_once_returned done y v used)

    read :
        (found : Result Token) × (u : World) × (attempt (get_confirmation_token token) w
            ≡ (ok found, u))
          × ((invalid_if_missing found >>= λ row. check_row row now wanted mark) u ≡ (ok tt, v))
        → Success
    read (found, u, a, rest) = looked (bind_returned _ _ u v tt rest)
      where
        looked :
            (row : Token) × (x : World) × (invalid_if_missing found u ≡ (ok row, x))
              × (check_row row now wanted mark x ≡ (ok tt, v))
            → Success
        looked (row, x, b, checks) =
            let (here, same) =
              looked_up_returned token w u x row found (attempt_returned _ w u found a) b in
            checked row x here same (check_row_returned row now wanted mark x v checks)

-- A token that was consumed is spent.
pub Consumed-is_spent :
    (sha256 : Text → Text) (now : Time) (token action scope : Text) (files : List Text)
    (comment : Text) (w v : World)
    → Consumed sha256 now token action scope files comment w v
    → is_spent (lookup token v.tokens) ≡ true
Consumed-is_spent sha256 now token action scope files comment w v c =
    rw c.marked
      (rw (lookup-insert_self token (record c.row { used_at = some (stored now) }) w.tokens) refl)

-- A spent token is not consumed.
pub spent_not_consumed :
    (sha256 : Text → Text) (now : Time) (token action scope : Text) (files : List Text)
    (comment : Text) (w v : World)
    → is_spent (lookup token w.tokens) ≡ true
    → ¬ (consume_token sha256 now token action scope files comment w ≡ (ok tt, v))
spent_not_consumed sha256 now token action scope files comment w v h k =
    let c = consume_token_returned sha256 now token action scope files comment w v k in
    unspent c.row c.found c.unused
  where
    unspent : (t : Token) → lookup token w.tokens ≡ some t → ¬ (t.used_at ≡ none)
    unspent t found unused = ground (arith, h, found, unused)
