-- ===== src/Bootstrap/Tooltip/Uid.antt =====
-- `getUID` of the class `Tooltip`: a number is drawn and added to the prefix until no element has
-- that id. The draws are any sequence; the ids of the document are a list.
use crunchy_containers.Prelude.{
  ℕ, zero, suc, ◌+◌, ◌≤◌, Bool, true, false, ◌≡◌, arith, List, [], ◌∷◌, ◌++◌, Option, none, some,
  length, length-append, if◌then◌else◌, Bool-cases, inl, inr, leb, ◌||◌,
}
use crunchy_containers.Prelude.Text.{Text, text_eq, decimal, decimal_pos, eq_of_text_eq}

-- `document.getElementById(id)`
unfoldable pub has_id : Text → List Text → Bool
has_id id [] = false
has_id id (x ∷ xs) = text_eq id x || has_id id xs

-- `draw i` is the i-th number of `~~(Math.random() * 1000000)`. Fuel: one round for each character
-- by which the longest id exceeds the prefix, and one more; `none` where it runs out.
unfoldable pub get_uid : ℕ → List Text → (ℕ → ℕ) → ℕ → Text → Option Text
unfolding has_id
get_uid zero ids draw i prefix = none
get_uid (suc fuel) ids draw i prefix =
    let id = prefix ++ decimal (draw i) in
    let rest = get_uid fuel ids draw (i + 1) id in if has_id id ids then rest else some id

-- The length of the longest id.
unfoldable pub longest : List Text → ℕ
longest [] = 0
longest (x ∷ xs) = if leb (length x) (longest xs) then longest xs else length x

length-has_id : (id : Text) (ids : List Text) → has_id id ids ≡ true → length id ≤ longest ids
unfolding has_id longest
length-has_id id [] h = cc
length-has_id id (x ∷ xs) h = elim (Bool-cases (text_eq id x)) [
  | inl e ↦ let p = eq_of_text_eq id x e in rw p (ground arith)
  | inr e ↦ ground (arith, length-has_id id xs)
]

-- The loop ends, whatever numbers are drawn: each round makes the id longer, and none that is
-- longer than all ids of the document is one of them. Its result is no id of the document.
pub get_uid-Fresh :
    (fuel : ℕ) (ids : List Text) (draw : ℕ → ℕ) (i : ℕ) (prefix : Text)
    → longest ids ≤ length prefix + fuel
    → (id : Text) × (get_uid (suc fuel) ids draw i prefix ≡ some id) × (has_id id ids ≡ false)
unfolding get_uid
get_uid-Fresh zero ids draw i prefix h =
    elim (Bool-cases (has_id (prefix ++ decimal (draw i)) ids)) [
      | inl e ↦ absurd (
          omega (
            arith,
            length-has_id (prefix ++ decimal (draw i)) ids e,
            length-append prefix (decimal (draw i)),
            decimal_pos (draw i),
          ))
      | inr e ↦ (prefix ++ decimal (draw i), rw e, e)
    ]
get_uid-Fresh (suc fuel) ids draw i prefix h =
    elim (Bool-cases (has_id (prefix ++ decimal (draw i)) ids)) [
      | inl e ↦ rw e (
          get_uid-Fresh fuel ids draw (i + 1) (prefix ++ decimal (draw i))
            (omega (arith, length-append prefix (decimal (draw i)), decimal_pos (draw i))))
      | inr e ↦ (prefix ++ decimal (draw i), rw e, e)
    ]
