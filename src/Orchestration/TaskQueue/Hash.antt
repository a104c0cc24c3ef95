-- ===== src/Orchestration/TaskQueue/Hash.antt =====
-- computeHash of cli/src/orchestration/PriorityTaskQueue.ts: what two instructions share when the queue
-- takes the second for a duplicate of the first.
use ouroboros_runtime.Base.{
  ℕ, zero, suc, Bool, false, not, ◌&&◌, ◌||◌, [], ◌∷◌, keep, leb, nat_beq, if◌then◌else◌,
}
use ouroboros_runtime.Base.Text.{Text, trim, is_white}

-- `.replace(/\s+/g, ' ')`: each run of white space becomes one space. `in_run` tells that the unit
-- before was white.
unfoldable pub collapse_white : (in_run : Bool) → Text → Text
unfolding is_white
collapse_white in_run [] = []
collapse_white in_run (c ∷ s) =
    let rest = collapse_white (is_white c) s in
    if not (is_white c) then c ∷ rest else if in_run then rest else 32 ∷ rest

-- `\w`
abbrev pub is_word : ℕ → Bool
is_word c =
    (leb 48 c && leb c 57) || (leb 65 c && leb c 90) || nat_beq c 95 || (leb 97 c && leb c 122)

unfoldable pub first_units : ℕ → Text → Text
first_units zero s = []
first_units (suc n) [] = []
first_units (suc n) (c ∷ s) = c ∷ first_units n s

-- `String.prototype.toLowerCase`, and the hexadecimal SHA-256 of node's crypto.
module _ (to_lower_case sha256_hex : Text → Text) where
  unfoldable pub normalize : Text → Text
  unfolding collapse_white is_white trim
  normalize instruction =
      keep (λ c. is_word c || is_white c) (collapse_white false (trim (to_lower_case instruction)))

  unfoldable pub compute_hash : Text → Text
  unfolding normalize first_units
  compute_hash instruction = first_units 16 (sha256_hex (normalize instruction))
