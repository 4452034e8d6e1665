-- ===== src/Review.antt =====
-- internal/review/review.go: confirmation tokens, each good for one action, once.
pub mod SingleUse
use rootmote_agent.Prelude.{
  ℕ, ◌+◌, ◌*◌, Bool, true, false, not, Option, none, some, List, [], ◌∷◌, ◌++◌, Text, text_beq, ltb,
  if◌then◌else◌,
}
use rootmote_agent.Prelude.Sort.{sort_texts}
use rootmote_agent.Monitor.State.{second}
use rootmote_agent.Store.Ledger.{
  create_confirmation_token, get_confirmation_token, mark_confirmation_token_used,
}
use rootmote_agent.Store.Ledger.Actions.{
  Result, ok, err, Error, not_found, token_invalid, token_used, token_expired, token_mismatch,
  Action, pure, raise, attempt, Token, Time, ◌>>=◌, ◌>>◌,
}
use rootmote_agent.Watchtower.Queue.{is_empty}

abbrev pub token_ttl : ℕ
token_ttl = 5 * 60 * second

-- The files, each with a NUL behind it.
unfoldable pub file_bytes : List Text → Text
file_bytes [] = []
file_bytes (f ∷ fs) = f ++ (0 ∷ file_bytes fs)

-- The bytes that `ActionHash` writes into the hash.
unfoldable pub action_bytes : Text → Text → List Text → Text → Text
unfolding file_bytes sort_texts
action_bytes action scope files comment =
    action ++ (0 ∷ (scope ++ (0 ∷ (file_bytes (sort_texts files) ++ comment))))

-- `sha256` gives the hexadecimal digest.
unfoldable pub action_hash : (Text → Text) → Text → Text → List Text → Text → Text
unfolding action_bytes
action_hash sha256 action scope files comment = sha256 (action_bytes action scope files comment)

-- `fresh` is what the random source gives.
unfoldable pub mint_confirmation_token :
    (Text → Text) → Text → Time → Text → Text → List Text → Text → Action Token
unfolding action_hash
mint_confirmation_token sha256 fresh now action scope files comment = do
  let tok : Token = record {
    token = fresh;
    action_hash = action_hash sha256 action scope files comment;
    project_id = scope;
    created_at = now;
    expires_at = now + token_ttl;
    used_at = none;
  }
  create_confirmation_token tok
  pure tok

abbrev invalid_if_missing : Result Token → Action Token
invalid_if_missing (ok t) = pure t
invalid_if_missing (err not_found) = raise token_invalid
invalid_if_missing (err e) = raise e

abbrev is_used : Token → Bool
is_used t = elim t.used_at [ none ↦ false | some _ ↦ true ]

abbrev use_once : Bool → Action Unit
use_once true = pure tt
use_once false = raise token_used

-- The checks of a row that was found, in order.
abbrev check_row : Token → Time → Text → Action Unit → Action Unit
check_row row now wanted rest =
    if is_used row
    then raise token_used
    else (if not (ltb now row.expires_at)
        then raise token_expired
        else (if not (text_beq row.action_hash wanted) then raise token_mismatch else rest))

unfoldable pub consume_token :
    (Text → Text) → Time → Text → Text → Text → List Text → Text → Action Unit
unfolding action_hash
consume_token sha256 now token action scope files comment =
    if is_empty token then raise token_invalid else do
      found ← attempt (get_confirmation_token token)
      row ← invalid_if_missing found
      check_row row now (action_hash sha256 action scope files comment)
          do done ← mark_confirmation_token_used token now; use_once done
