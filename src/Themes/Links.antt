-- ===== src/Themes/Links.antt =====
-- The style sheets of the page once a theme is chosen.
use crunchy_containers.Prelude.{
  Bool, true, false, not, ◌&&◌, ◌||◌, ◌≡◌, refl, sym, ap, ◌∙◌, arith, inl, inr, List, [], ◌∷◌,
  Option, none, some, all, if◌then◌else◌, if_then, if_else, Bool-cases,
}
use crunchy_containers.Prelude.Text.{Text, text, text_eq_self}
use crunchy_containers.Themes.{
  Link, Page, Env, Settings, has_id, contains, is_other_bootstrap, remove_links, find_id,
  insert_link, set_href, replace_link, switch_theme, or_else,
}

-- The style sheet of the theme: the first element of the id.
unfoldable pub href_of : Text → List Link → Option Text
href_of id [] = none
href_of id (l ∷ ls) = if has_id id l then some l.href else href_of id ls

-- The links that have nothing to do with the theme.
abbrev pub is_themed : Text → Link → Bool
is_themed id l = has_id id l || is_other_bootstrap id l

abbrev pub others : Text → List Link → List Link
others id = remove_links (is_themed id)

-- No style sheet of Bootstrap but the theme's.
abbrev pub is_clean : Text → List Link → Bool
is_clean id = all (λ l. not (is_other_bootstrap id l))

module _ (id file : Text) where
  or-else : (a b : Bool) → a ≡ false → a || b ≡ b
  or-else true b h = cc
  or-else false b h = refl

  or-then : (a b : Bool) → a ≡ true → a || b ≡ true
  or-then true b h = refl
  or-then false b h = cc

  or_true : (a : Bool) → a || true ≡ true
  or_true true = refl
  or_true false = refl

  and_not : (a b : Bool) → b ≡ true → not (a && not b) ≡ true
  and_not a b h = ground arith

  href_of-set_href :
      (ls : List Link) → find_id id ls ≡ true → href_of id (set_href id file ls) ≡ some file
  unfolding find_id href_of set_href
  href_of-set_href [] h = cc
  href_of-set_href (l ∷ ls) h = elim (Bool-cases (has_id id l)) [
    | inl e ↦ ap (href_of id) (if_then (has_id id l) _ _ e) ∙ if_then (has_id id l) _ _ e
    | inr e ↦
        ap (href_of id) (if_else (has_id id l) _ _ e)
        ∙ if_else (has_id id l) _ _ e
        ∙ href_of-set_href ls (sym (or-else (has_id id l) _ e) ∙ h)
  ]

  find_id-insert_link :
      (new : Link) (ls : List Link) → has_id id new ≡ true → find_id id (insert_link new ls) ≡ true
  unfolding find_id insert_link
  find_id-insert_link new [] h = or-then (has_id id new) false h
  find_id-insert_link new (l ∷ ls) h = elim (Bool-cases l.is_stylesheet) [
    | inl e ↦ ap (find_id id) (if_then l.is_stylesheet _ _ e) ∙ or-then (has_id id new) _ h
    | inr e ↦
        ap (find_id id) (if_else l.is_stylesheet _ _ e)
        ∙ ap (λ b. has_id id l || b) (find_id-insert_link new ls h)
        ∙ or_true (has_id id l)
  ]

  clean-remove_links :
      (ls : List Link) → is_clean id (remove_links (is_other_bootstrap id) ls) ≡ true
  unfolding remove_links
  clean-remove_links [] = refl
  clean-remove_links (l ∷ ls) = elim (Bool-cases (is_other_bootstrap id l)) [
    | inl e ↦ ap (is_clean id) (if_then (is_other_bootstrap id l) _ _ e) ∙ clean-remove_links ls
    | inr e ↦
        ap (is_clean id) (if_else (is_other_bootstrap id l) _ _ e)
        ∙ ap (λ b. not b && is_clean id (remove_links (is_other_bootstrap id) ls)) e
        ∙ clean-remove_links ls
  ]

  own_link : (l : Link) → has_id id l ≡ true → not (is_other_bootstrap id l) ≡ true
  unfolding is_other_bootstrap
  own_link l h = and_not (contains (text "bootstrap.min.css") l.href) (has_id id l) h

  clean_cons :
      (l : Link) (ls : List Link)
      → not (is_other_bootstrap id l) ≡ true
      → is_clean id (l ∷ ls) ≡ is_clean id ls
  clean_cons l ls h = ap (λ b. b && is_clean id ls) h

  clean-insert_link :
      (new : Link) (ls : List Link)
      → has_id id new ≡ true
      → is_clean id (insert_link new ls) ≡ is_clean id ls
  unfolding insert_link
  clean-insert_link new [] h = clean_cons new [] (own_link new h)
  clean-insert_link new (l ∷ ls) h = elim (Bool-cases l.is_stylesheet) [
    | inl e ↦
        ap (is_clean id) (if_then l.is_stylesheet _ _ e) ∙ clean_cons new (l ∷ ls) (own_link new h)
    | inr e ↦
        ap (is_clean id) (if_else l.is_stylesheet _ _ e)
        ∙ ap (λ b. not (is_other_bootstrap id l) && b) (clean-insert_link new ls h)
  ]

  clean-set_href : (ls : List Link) → is_clean id (set_href id file ls) ≡ is_clean id ls
  unfolding set_href
  clean-set_href [] = refl
  clean-set_href (l ∷ ls) = elim (Bool-cases (has_id id l)) [
    | inl e ↦
        ap (is_clean id) (if_then (has_id id l) _ _ e)
        ∙ clean_cons (record l { href = file }) ls (own_link (record l { href = file }) e)
        ∙ sym (clean_cons l ls (own_link l e))
    | inr e ↦
        ap (is_clean id) (if_else (has_id id l) _ _ e)
        ∙ ap (λ b. not (is_other_bootstrap id l) && b) (clean-set_href ls)
  ]

  -- The other links stay as they are.
  others_cons : (l : Link) (ls : List Link) → has_id id l ≡ true → others id (l ∷ ls) ≡ others id ls
  unfolding remove_links
  others_cons l ls h = if_then (is_themed id l) _ _ (or-then (has_id id l) _ h)

  others_same :
      (l : Link) (xs ys : List Link)
      → others id xs ≡ others id ys
      → others id (l ∷ xs) ≡ others id (l ∷ ys)
  unfolding remove_links
  others_same l xs ys h = ap (λ zs. if is_themed id l then zs else l ∷ zs) h

  others-remove_links :
      (ls : List Link) → others id (remove_links (is_other_bootstrap id) ls) ≡ others id ls
  unfolding remove_links
  others-remove_links [] = refl
  others-remove_links (l ∷ ls) = elim (Bool-cases (is_other_bootstrap id l)) [
    | inl e ↦
        ap (others id) (if_then (is_other_bootstrap id l) _ _ e)
        ∙ others-remove_links ls
        ∙ sym (if_then (is_themed id l) _ _ (ap (λ b. has_id id l || b) e ∙ or_true (has_id id l)))
    | inr e ↦
        ap (others id) (if_else (is_other_bootstrap id l) _ _ e)
        ∙ others_same l _ ls (others-remove_links ls)
  ]

  others-insert_link :
      (new : Link) (ls : List Link)
      → has_id id new ≡ true
      → others id (insert_link new ls) ≡ others id ls
  unfolding insert_link
  others-insert_link new [] h = others_cons new [] h
  others-insert_link new (l ∷ ls) h = elim (Bool-cases l.is_stylesheet) [
    | inl e ↦ ap (others id) (if_then l.is_stylesheet _ _ e) ∙ others_cons new (l ∷ ls) h
    | inr e ↦
        ap (others id) (if_else l.is_stylesheet _ _ e)
        ∙ others_same l _ ls (others-insert_link new ls h)
  ]

  others-set_href : (ls : List Link) → others id (set_href id file ls) ≡ others id ls
  unfolding set_href
  others-set_href [] = refl
  others-set_href (l ∷ ls) = elim (Bool-cases (has_id id l)) [
    | inl e ↦
        ap (others id) (if_then (has_id id l) _ _ e)
        ∙ others_cons (record l { href = file }) ls e
        ∙ sym (others_cons l ls e)
    | inr e ↦ ap (others id) (if_else (has_id id l) _ _ e) ∙ others_same l _ ls (others-set_href ls)
  ]

-- The page shows a theme: the style sheet of the id is that file, no other link is one of
-- Bootstrap, and all other links are those that were there.
pub record IsThemed (id file : Text) (before after : List Link) : Type 0 where
  pub shown : href_of id after ≡ some file
  pub clean : is_clean id after ≡ true
  pub kept : others id after ≡ others id before

module _ (id file : Text) (ls : List Link) where
  abbrev without : List Link
  without = remove_links (is_other_bootstrap id) ls

  abbrev own : Link
  own = record { id = some id; is_stylesheet = true; href = file }

  has_id-own : has_id id own ≡ true
  has_id-own = text_eq_self id

  -- What holds of the links and survives the insertion holds of both cases.
  present :
      (b : Bool)
      → find_id id without ≡ b
      → IsThemed id file ls (set_href id file (if b then without else insert_link own without))
  present true h = record {
    shown = href_of-set_href id file without h;
    clean = clean-set_href id file without ∙ clean-remove_links id file ls;
    kept = others-set_href id file without ∙ others-remove_links id file ls;
  }
  present false h = record {
    shown =
        href_of-set_href id file (insert_link own without)
          (find_id-insert_link id file own without has_id-own);
    clean =
        clean-set_href id file (insert_link own without)
        ∙ clean-insert_link id file own without has_id-own
        ∙ clean-remove_links id file ls;
    kept =
        others-set_href id file (insert_link own without)
        ∙ others-insert_link id file own without has_id-own
        ∙ others-remove_links id file ls;
  }

-- Whatever style sheets a page has, after the choice of a theme the link of the configured id has
-- the file of the theme, or the default file where none is given, no other link is a style sheet
-- of Bootstrap, and the links besides are the same, in the same order.
pub switch_theme-IsThemed :
    (e : Env) (s : Settings) (default_file : Text) (name css_file : Option Text) (p : Page)
    → IsThemed s.css_theme_link
        (or_else css_file default_file)
        p.links
        (switch_theme e s default_file name css_file p).links
unfolding switch_theme replace_link
switch_theme-IsThemed e s default_file name css_file p =
    present s.css_theme_link (or_else css_file default_file) p.links
      (find_id s.css_theme_link (remove_links (is_other_bootstrap s.css_theme_link) p.links)) refl
