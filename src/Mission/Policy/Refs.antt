-- ===== src/Mission/Policy/Refs.antt =====
-- The two patterns of validateModuleOwnership in cli/src/mission/policy.ts.
use ouroboros_runtime.Base.{
  ℕ, Bool, true, false, ◌&&◌, ◌||◌, Option, none, some, [], ◌∷◌, leb, nat_beq, if◌then◌else◌,
}
use ouroboros_runtime.Base.Text.{Text, text, starts_with}

-- [a-zA-Z0-9_-]
unfoldable pub is_name_char : ℕ → Bool
is_name_char c =
    (leb b'a' c && leb c b'z')
    || (leb b'A' c && leb c b'Z')
    || (leb b'0' c && leb c b'9')
    || nat_beq c b'_'
    || nat_beq c b'-'

-- The longest name at the start of a text, and the text behind it.
unfoldable pub name_prefix : Text → Text
unfolding is_name_char
name_prefix [] = []
name_prefix (c ∷ s) = let rest = name_prefix s in if is_name_char c then c ∷ rest else []

unfoldable pub after_name : Text → Text
unfolding is_name_char
after_name [] = []
after_name (c ∷ s) = let rest = after_name s in if is_name_char c then rest else c ∷ s

-- The text behind a prefix, where it stands there.
unfoldable pub strip_prefix : Text → Text → Option Text
strip_prefix [] s = some s
strip_prefix (b ∷ p) [] = none
strip_prefix (b ∷ p) (a ∷ s) = if nat_beq a b then strip_prefix p s else none

-- inputRef.match(/^bypass:([a-zA-Z0-9_-]+)/)
unfoldable pub has_bypass_marker : Text → Bool
unfolding name_prefix strip_prefix
has_bypass_marker ref = elim (strip_prefix (text "bypass:") ref) [
  | none ↦ false
  | some s ↦ elim (name_prefix s) [ [] ↦ false | c ∷ n ↦ true ]
]

-- The owner that inputRef.match(/^private\/([a-zA-Z0-9_-]+)\//) captures. The name cannot hold a
-- slash, so that the match ends at the first one.
unfoldable pub private_owner : Text → Option Text
unfolding name_prefix after_name strip_prefix
private_owner ref = elim (strip_prefix (text "private/") ref) [
  | none ↦ none
  | some s ↦
      if starts_with (after_name s) (text "/")
      then elim (name_prefix s) [ [] ↦ none | c ∷ n ↦ some (c ∷ n) ]
      else none
]
