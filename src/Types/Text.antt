-- ===== src/Types/Text.antt =====
-- `str.split` and the test of a placement group's state, over code points.
use Prim.Native.Char.{code}
use calamari.Prelude.{
  ℕ, ◌+◌, String, ◌≡◌, refl, Bool, true, false, ◌&&◌, ◌||◌, List, [], ◌∷◌, ◌==◌, if◌then◌else◌,
}

-- The code points of a text.
abbrev pub codes : String → List ℕ
codes String.[] = []
codes (String.◌∷◌ c s) = code c ∷ codes s

abbrev pub same_text : List ℕ → List ℕ → Bool
same_text [] [] = true
same_text [] (b ∷ bs) = false
same_text (a ∷ as₁) [] = false
same_text (a ∷ as₁) (b ∷ bs) = a == b && same_text as₁ bs

abbrev prepend : ℕ → List (List ℕ) → List (List ℕ)
prepend c [] = (c ∷ []) ∷ []
prepend c (w ∷ ws) = (c ∷ w) ∷ ws

-- `text.split(sep)`
unfoldable pub split : ℕ → List ℕ → List (List ℕ)
split sep [] = [] ∷ []
split sep (c ∷ cs) = let rest = split sep cs in if c == sep then [] ∷ rest else prepend c rest

abbrev pub has_word : List ℕ → List (List ℕ) → Bool
has_word w [] = false
has_word w (x ∷ xs) = same_text w x || has_word w xs

-- `sum(count for state_tuple, count in … if 'creating' not in state_tuple.split("+"))`, the loop
-- of both requests that wait for placement groups.
unfoldable pub not_creating : List (List ℕ × ℕ) → ℕ
not_creating [] = 0
not_creating ((states, count) ∷ rest) =
    let n = not_creating rest in
    if has_word (codes "creating") (split b'+' states) then n else count + n

not_creating_states :
    not_creating
      ((codes "active+clean", 5) ∷ (codes "creating+peering", 7) ∷ (codes "creatingx", 2) ∷ [])
    ≡ 7
unfolding not_creating split
not_creating_states = refl
