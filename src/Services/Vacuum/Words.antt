-- ===== src/Services/Vacuum/Words.antt =====
-- The statement of the vacuum job, as the words that the server reads.
use crunchy_containers.Prelude.{
  Bool, true, false, ◌||◌, ◌≡◌, refl, sym, ap, ◌∙◌, List, [], ◌∷◌, ◌++◌, if◌then◌else◌, Bool-cases,
  if_then, if_else, inl, inr,
}
use crunchy_containers.Prelude.Text.{Text, text, is_empty}
use crunchy_containers.Cookie.{split}
use crunchy_containers.Cookie.Split.{lacks, split-lacks}
use crunchy_containers.Services.Vacuum.{Parms, option_text, vacuum_command}

abbrev pub drop_empty : List Text → List Text
drop_empty [] = []
drop_empty (s ∷ ss) = if is_empty s then drop_empty ss else s ∷ drop_empty ss

unfoldable pub words : Text → List Text
unfolding split
words s = drop_empty (split b' ' s)

abbrev pub option_word : Bool → Text → List Text
option_word b name = if b then name ∷ [] else []

-- The options that are set, in the order of the statement's grammar, before the rest.
abbrev pub option_words : Parms → List Text → List Text
option_words p rest =
    option_word p.vac_full (text "FULL")
    ++ (option_word p.vac_freeze (text "FREEZE")
        ++ (option_word p.vac_verbose (text "VERBOSE")
            ++ (option_word p.vac_analyze (text "ANALYZE") ++ rest)))

abbrev pub has_option : Parms → Bool
has_option p = p.vac_full || p.vac_freeze || p.vac_verbose || p.vac_analyze

abbrev pub table_words : Text → List Text
table_words t = if is_empty t then [] else t ∷ []

words-lacks : (s : Text) → lacks b' ' s ≡ true → words s ≡ table_words s
unfolding words
words-lacks s h = ap drop_empty (split-lacks b' ' s h)

by_option :
    (b : Bool) (name s : Text)
    → words (option_text true name ++ s) ≡ name ∷ words s
    → words (option_text b name ++ s) ≡ option_word b name ++ words s
by_option true name s h = h
by_option false name s h = refl

-- The part behind the first word.
abbrev options_text : Parms → Text
options_text p =
    option_text p.vac_full (text "FULL")
    ++ (option_text p.vac_freeze (text "FREEZE")
        ++ (option_text p.vac_verbose (text "VERBOSE")
            ++ (option_text p.vac_analyze (text "ANALYZE") ++ p.vac_table)))

words-options_text : (p : Parms) → words (options_text p) ≡ option_words p (words p.vac_table)
unfolding words
words-options_text p =
    by_option p.vac_full (text "FULL") _ refl
    ∙ ap (λ r. option_word p.vac_full (text "FULL") ++ r)
        (by_option p.vac_freeze (text "FREEZE") _ refl
          ∙ ap (λ r. option_word p.vac_freeze (text "FREEZE") ++ r)
              (by_option p.vac_verbose (text "VERBOSE") _ refl
                ∙ ap (λ r. option_word p.vac_verbose (text "VERBOSE") ++ r)
                    (by_option p.vac_analyze (text "ANALYZE") _ refl)))

-- An option sets the first word apart from what follows.
words_behind :
    (a b c d : Bool) (t : Text)
    → a || b || c || d ≡ true
    → let rest =
        option_text a (text "FULL")
        ++ (option_text b (text "FREEZE")
            ++ (option_text c (text "VERBOSE") ++ (option_text d (text "ANALYZE") ++ t))) in
      words (text "VACUUM" ++ rest) ≡ text "VACUUM" ∷ words rest
unfolding words
words_behind true b c d t h = refl
words_behind false true c d t h = refl
words_behind false false true d t h = refl
words_behind false false false true t h = refl
words_behind false false false false t h = cc

words_alone :
    (t : Text) → lacks b' ' t ≡ true → words (text "VACUUM" ++ t) ≡ (text "VACUUM" ++ t) ∷ []
words_alone t h = words-lacks (text "VACUUM" ++ t) h

no_option :
    (a b c d : Bool) (t : Text)
    → a || b || c || d ≡ false
    → option_text a (text "FULL")
        ++ (option_text b (text "FREEZE")
            ++ (option_text c (text "VERBOSE") ++ (option_text d (text "ANALYZE") ++ t)))
      ≡ t
no_option false false false false t h = refl
no_option a b c d t h = cc

-- For a table without spaces in its name, or for no table: where an option is set, the server reads
-- the statement as VACUUM, the options that are set in the order of the grammar, and the table; and
-- where none is set, as a single word, VACUUM with the name of the table attached to it.
pub words-vacuum_command :
    (p : Parms)
    → lacks b' ' p.vac_table ≡ true
    → words (vacuum_command p) ≡ (
        if has_option p
        then text "VACUUM" ∷ option_words p (table_words p.vac_table)
        else (text "VACUUM" ++ p.vac_table) ∷ [])
unfolding vacuum_command
words-vacuum_command p h = elim (Bool-cases (has_option p)) [
  | inl e ↦
      words_behind p.vac_full p.vac_freeze p.vac_verbose p.vac_analyze p.vac_table e
      ∙ ap (λ r. text "VACUUM" ∷ r)
          (words-options_text p ∙ ap (option_words p) (words-lacks p.vac_table h))
      ∙ sym (if_then (has_option p) _ _ e)
  | inr e ↦
      ap (λ r. words (text "VACUUM" ++ r))
        (no_option p.vac_full p.vac_freeze p.vac_verbose p.vac_analyze p.vac_table e)
      ∙ words_alone p.vac_table h
      ∙ sym (if_else (has_option p) _ _ e)
]
