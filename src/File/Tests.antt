-- ===== src/File/Tests.antt =====
-- A path two directories deep, over stand-ins for the functions of the package path.
use term_bridge.Prelude.{String, true, false, ◌==◌, ◌≡◌, refl, some, [], ◌∷◌, err, ◌⊎◌}
use term_bridge.File.{
  PathLib, not_relative, invalid_segment, split_slash, parse_relative_path, is_within,
}
use term_bridge.File.Safety.{walk, below, parse_relative_path-walk}

abbrev lib : PathLib
lib = record { clean = λ s. s; dir = λ s. s; base = λ s. s }

abbrev two_deep : String
two_deep = "a/b"

parse_relative_path-walk_example :
    (two_deep ≡ two_deep)
    × (((two_deep == "") ≡ true) × (false ≡ true)
        ⊎ (walk (some ("home" ∷ [])) (split_slash two_deep)
            ≡ some (below ("home" ∷ []) (split_slash two_deep))))
unfolding parse_relative_path
parse_relative_path-walk_example =
    parse_relative_path-walk lib two_deep two_deep false ("home" ∷ []) refl

split : split_slash "a//b/" ≡ "a" ∷ "" ∷ "b" ∷ "" ∷ []
unfolding split_slash
split = refl

refuses_parent : parse_relative_path lib "a/.." false ≡ err invalid_segment
unfolding parse_relative_path
refuses_parent = refl

refuses_root : parse_relative_path lib "/a" true ≡ err not_relative
unfolding parse_relative_path
refuses_root = refl

within : (is_within "a/b" "a" ≡ true) × (is_within "ab" "a" ≡ false) × (is_within "" "" ≡ false)
unfolding is_within
within = (refl, refl, refl)
