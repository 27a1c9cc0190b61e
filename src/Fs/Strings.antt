-- ===== src/Fs/Strings.antt =====
-- Byte strings: equality, order, and the parts of a path.
use det_sim.Base.{
  ℕ, ◌≡◌, ◌↔◌, refl, Bool, true, false, ◌&&◌, ◌||◌, List, [], ◌∷◌, ◌++◌, arith, ltb, ◌==◌,
  if◌then◌else◌,
}

abbrev pub Text : Type 0
Text = List ℕ

abbrev pub slash : ℕ
slash = 47

abbrev pub dot : ℕ
dot = 46

abbrev pub root : Text
root = slash ∷ []

unfoldable pub same : Text → Text → Bool
same [] [] = true
same [] (y ∷ ys) = false
same (x ∷ xs) [] = false
same (x ∷ xs) (y ∷ ys) = x == y && same xs ys

-- The order of std::string.
unfoldable pub before : Text → Text → Bool
before [] [] = false
before [] (y ∷ ys) = true
before (x ∷ xs) [] = false
before (x ∷ xs) (y ∷ ys) = ltb x y || x == y && before xs ys

pub same-eq : (s t : Text) → same s t ≡ true → s ≡ t
unfolding same
same-eq [] [] h = refl
same-eq [] (y ∷ ys) h = ground arith
same-eq (x ∷ xs) [] h = ground arith
same-eq (x ∷ xs) (y ∷ ys) h = ground (arith, same-eq xs ys)

pub same_refl : (s : Text) → same s s ≡ true
unfolding same
same_refl [] = refl
same_refl (x ∷ xs) = ground (arith, same_refl xs)

pub same_iff : (s t : Text) → (same s t ≡ true) ↔ (s ≡ t)
same_iff s t = (same-eq s t, λ e. rw e (same_refl t))

unfoldable pub has_byte : ℕ → Text → Bool
has_byte b [] = false
has_byte b (x ∷ xs) = x == b || has_byte b xs

unfoldable pub is_empty : Text → Bool
is_empty [] = true
is_empty (x ∷ xs) = false

-- `s.back() == b`, of a string that is not empty.
unfoldable pub ends_with : ℕ → Text → Bool
ends_with b [] = false
ends_with b (x ∷ []) = x == b
ends_with b (x ∷ y ∷ ys) = ends_with b (y ∷ ys)

abbrev pub is_absolute : Text → Bool
is_absolute [] = false
is_absolute (x ∷ xs) = x == slash

-- `s.substr(0, s.find_last_of('/'))`, or the whole string if it has no slash.
unfoldable pub before_last_slash : Text → Text
before_last_slash [] = []
before_last_slash (x ∷ xs) =
    let rest = before_last_slash xs in
    if has_byte slash xs then x ∷ rest else if x == slash then [] else x ∷ xs

-- `s.substr(s.find_last_of('/') + 1)`.
unfoldable pub after_last_slash : Text → Text
after_last_slash [] = []
after_last_slash (x ∷ xs) =
    let rest = after_last_slash xs in
    if has_byte slash xs then rest else if x == slash then xs else x ∷ xs

-- The parent of a path: `slash == 0 ? "/" : path.substr(0, slash)`.
unfoldable pub parent_of : Text → Text
parent_of p = if is_empty (before_last_slash p) then root else before_last_slash p

unfoldable pub join_paths : Text → Text → Text
join_paths base rel =
    if is_empty rel
    then base
    else if is_absolute rel
    then rel
    else if is_empty base || same base root
    then slash ∷ rel
    else if ends_with slash base
    then base ++ rel
    else base ++ slash ∷ rel
