-- ===== src/Examples/Wanted.antt =====
-- A filter with one pattern.
use parity_backup.Base.{true, false, [], ◌∷◌, ◌≡◌, ◌↔◌, ◌⊎◌, ◌&&◌}
use parity_backup.Base.Int.{pos, ltb_ℤ}
use parity_backup.Patterns.{
  Filter, path_match_pattern, is_empty, IsNamed, IsOwned, path_match_pattern_lem,
}

-- The prefix /a, and files that all belong to user 7.
abbrev one_pattern : Filter
one_pattern = record {
  patterns = (47 ∷ 97 ∷ []) ∷ [];
  regexes = [];
  fnmatch = λ pattern path. false;
  file_owner = λ path. pos 7;
}

pattern_example : (path_match_pattern one_pattern (68 ∷ 49 ∷ 47 ∷ 97 ∷ []) (pos 7) ≡ true) ↔ (
    ((is_empty one_pattern.patterns && is_empty one_pattern.regexes ≡ true)
      × (ltb_ℤ (pos 7) (pos 0) ≡ true))
    ⊎ (IsNamed one_pattern (68 ∷ 49 ∷ 47 ∷ 97 ∷ [])
        × IsOwned one_pattern (68 ∷ 49 ∷ 47 ∷ 97 ∷ []) (pos 7)))
pattern_example = path_match_pattern_lem one_pattern (68 ∷ 49 ∷ 47 ∷ 97 ∷ []) (pos 7)
