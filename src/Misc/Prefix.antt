-- ===== src/Misc/Prefix.antt =====
-- `prefix_match` of lib/misc.c, and the relation that it decides.
use propd.Prelude.{
  ℕ, ◌≡◌, refl, ◌≢◌, ◌↔◌, Text, Bool, true, false, [], ◌∷◌, arith, ◌==◌, if◌then◌else◌, ==_iff,
  Bool-cases, inl, inr,
}

-- '*'
abbrev pub star : ℕ
star = 0x2a

-- The two pointers move together; the end of a list is its NUL.
unfoldable pub prefix_match : Text → Text → Bool
prefix_match [] [] = true
prefix_match [] (d ∷ s) = false
prefix_match (c ∷ p) [] = c == star
prefix_match (c ∷ p) (d ∷ s) = if c == d then prefix_match p s else c == star

-- A text does not begin with '*'.
abbrev pub NoStar : Text → Type 0
NoStar [] = Unit
NoStar (c ∷ s) = c ≢ star

-- A pattern matches itself, and `u*...` matches every `u` followed by what begins with no '*'.
pub data Matches : Text → Text → Type 0 where
  whole : {s : Text} → Matches s s
  wild : {v w : Text} → NoStar w → Matches (star ∷ v) w
  same : (c : ℕ) {p s : Text} → Matches p s → Matches (c ∷ p) (c ∷ s)

wild_at : {c : ℕ} (v w : Text) → c ≡ star → NoStar w → Matches (c ∷ v) w
wild_at v w e h = rw e (wild h)

same_at : {c d : ℕ} (p s : Text) → c ≡ d → Matches p s → Matches (c ∷ p) (d ∷ s)
same_at {c} p s e m = rw (← e) (same c m)

prefix_match_sound : (p s : Text) → prefix_match p s ≡ true → Matches p s
unfolding prefix_match
prefix_match_sound [] [] h = whole
prefix_match_sound [] (d ∷ s) h = cc
prefix_match_sound (c ∷ p) [] h = wild_at p [] ((==_iff c star).0 h) tt
prefix_match_sound (c ∷ p) (d ∷ s) h = elim (Bool-cases (c == d)) [
  | inl hit ↦ same_at p s ((==_iff c d).0 hit) (prefix_match_sound p s (ground arith))
  | inr miss ↦ wild_at p (d ∷ s) (ground arith) (ground arith)
]

prefix_match_self : (s : Text) → prefix_match s s ≡ true
unfolding prefix_match
prefix_match_self [] = refl
prefix_match_self (c ∷ s) = ground (arith, prefix_match_self s)

prefix_match_wild : (v w : Text) → NoStar w → prefix_match (star ∷ v) w ≡ true
unfolding prefix_match
prefix_match_wild v [] h = refl
prefix_match_wild v (d ∷ s) h = ground arith

prefix_match_complete : {p s : Text} → Matches p s → prefix_match p s ≡ true
unfolding prefix_match
prefix_match_complete {p} whole = prefix_match_self p
prefix_match_complete (wild {v} {w} h) = prefix_match_wild v w h
prefix_match_complete (same c m) = ground (arith, prefix_match_complete m)

-- `prefix_match` answers true exactly when the pattern matches: it is the text itself, or a common
-- part, then '*' and anything in the pattern, and what begins with no '*' in the text.
pub prefix_match-Matches : (p s : Text) → (prefix_match p s ≡ true) ↔ Matches p s
prefix_match-Matches p s = (prefix_match_sound p s, prefix_match_complete)

-- The pattern "*" matches every text that does not begin with '*'.
pub prefix_match-star : (s : Text) → NoStar s → prefix_match (star ∷ []) s ≡ true
prefix_match-star s h = prefix_match_wild [] s h
