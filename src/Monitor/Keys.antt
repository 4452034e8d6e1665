-- ===== src/Monitor/Keys.antt =====
-- The keys "kind:target" of internal/monitor, as the engine builds them and takes them apart
-- (types.go, and the prefix tests of manager.go).
use mathlib.Core.List.{append_assoc}
use rootmote_agent.Prelude.{
  ◌≡◌, refl, sym, ◌∙◌, ◌≢◌, Bool, true, false, ◌&&◌, [], ◌∷◌, ◌++◌, arith, eqb, eqb_iff, Text,
  codes, text_beq, text_beq_iff, if◌then◌else◌, All,
}
use rootmote_agent.Monitor.State.{Kind, key}

-- `strings.HasPrefix`
unfoldable pub has_prefix : Text → Text → Bool
has_prefix s [] = true
has_prefix [] (p ∷ ps) = false
has_prefix (c ∷ s) (p ∷ ps) = eqb c p && has_prefix s ps

-- `strings.TrimPrefix`: the text itself where the prefix is not there.
abbrev after : Text → Text → Text
after s [] = s
after [] (p ∷ ps) = []
after (c ∷ s) (p ∷ ps) = after s ps

unfoldable pub trim_prefix : Text → Text → Text
unfolding has_prefix
trim_prefix s p = if has_prefix s p then after s p else s

-- `string(kind) + ":"`
unfoldable pub key_prefix : Kind → Text
key_prefix kind = kind ++ codes ":"

-- The kinds of the engine have no colon.
abbrev pub IsPlain : Kind → Type 0
IsPlain = All (λ c. c ≢ b':')

pub has_prefix-key :
    (kind : Kind) (target : Text) → has_prefix (key kind target) (key_prefix kind) ≡ true
unfolding has_prefix key key_prefix
has_prefix-key [] target = refl
has_prefix-key (c ∷ kind) target = ground (arith, has_prefix-key kind target, eqb_iff c c)

after-key : (kind : Kind) (target : Text) → after (key kind target) (key_prefix kind) ≡ target
unfolding key key_prefix
after-key [] target = refl
after-key (c ∷ kind) target = after-key kind target

-- The engine recovers the target of a key of its kind.
pub trim_prefix-key :
    (kind : Kind) (target : Text) → trim_prefix (key kind target) (key_prefix kind) ≡ target
unfolding trim_prefix
trim_prefix-key kind target = rw (has_prefix-key kind target) (after-key kind target)

split_prefix : (s p : Text) → has_prefix s p ≡ true → p ++ after s p ≡ s
unfolding has_prefix
split_prefix s [] h = refl
split_prefix [] (p ∷ ps) h = cc
split_prefix (c ∷ s) (p ∷ ps) h = ground (arith, split_prefix s ps, eqb_iff c p)

-- A text with the prefix of a kind is the key of that kind and of what follows the prefix.
pub has_prefix-append :
    (s : Text) (kind : Kind)
    → has_prefix s (key_prefix kind) ≡ true
    → key kind (trim_prefix s (key_prefix kind)) ≡ s
unfolding trim_prefix key key_prefix
has_prefix-append s kind h = rw h (
    sym (append_assoc kind (codes ":") (after s (kind ++ codes ":")))
    ∙ split_prefix s (kind ++ codes ":") h)

-- Plain kinds with one key are one kind, and their targets are one target.
pub key_injective :
    (kind kind' : Kind) (target target' : Text)
    → IsPlain kind
    → IsPlain kind'
    → key kind target ≡ key kind' target'
    → (kind ≡ kind') × (target ≡ target')
unfolding key
key_injective [] [] target target' p p' e = ground arith
key_injective [] (c ∷ kind') target target' p p' e = absurd (ground arith)
key_injective (c ∷ kind) [] target target' p p' e = absurd (ground arith)
key_injective (c ∷ kind) (c' ∷ kind') target target' p p' e =
    ground (arith, key_injective kind kind' target target' p.1 p'.1)

-- A key has the prefix of a plain kind only if its own plain kind is that one.
pub has_prefix-key_of_other :
    (kind kind' : Kind) (target : Text)
    → IsPlain kind
    → IsPlain kind'
    → has_prefix (key kind target) (key_prefix kind') ≡ true
    → kind ≡ kind'
unfolding key key_prefix has_prefix
has_prefix-key_of_other [] [] target p p' h = refl
has_prefix-key_of_other [] (c ∷ kind') target p p' h = absurd (ground arith)
has_prefix-key_of_other (c ∷ kind) [] target p p' h = absurd (ground arith)
has_prefix-key_of_other (c ∷ kind) (c' ∷ kind') target p p' h =
    ground (arith, has_prefix-key_of_other kind kind' target p.1 p'.1)

-- On plain kinds the keys agree just where both parts do.
pub key_beq :
    (kind kind' : Kind) (target target' : Text)
    → IsPlain kind
    → IsPlain kind'
    → text_beq (key kind target) (key kind' target')
      ≡ (text_beq kind kind' && text_beq target target')
key_beq kind kind' target target' p p' = ground (
  arith,
  text_beq_iff (key kind target) (key kind' target'),
  text_beq_iff kind kind',
  text_beq_iff target target',
  key_injective kind kind' target target' p p',
)
