-- ===== src/Asciidoc/Install/Settled.antt =====
-- A page whose generators are run again and again while it is loading.
use crunchy_containers.Prelude.{
  ℕ, Bool, true, false, ◌≡◌, refl, ap, ◌∙◌, List, [], ◌∷◌, none, some, all, ◌==◌, if◌then◌else◌,
}
use crunchy_containers.Prelude.Text.{Text}
use crunchy_containers.Asciidoc.Toc
use crunchy_containers.Asciidoc.Toc.{toc}
use crunchy_containers.Asciidoc.Toc.Reload.{toc-toc}
use crunchy_containers.Asciidoc.Footnotes
use crunchy_containers.Asciidoc.Footnotes.{Span, Child, footnotes}
use crunchy_containers.Asciidoc.Footnotes.Numbers.{notes_of}
use crunchy_containers.Asciidoc.Footnotes.Reload.{footnotes-footnotes, noted, no_ref}
use crunchy_containers.Asciidoc.Install.{
  Install, install, toc_if, reinstall, Moment, tick, loaded, pass_all,
}

-- The timer runs until the page is loaded.
abbrev pub still_loading : Bool → List Moment → Bool
still_loading b [] = b
still_loading b (tick ∷ ms) = still_loading b ms
still_loading b (loaded ∷ ms) = still_loading false ms

toc_if-toc_if : (n : ℕ) (page : Toc.Page) → toc_if n (toc_if n page) ≡ toc_if n page
toc_if-toc_if n page = by_levels (n == 0)
  where
    once : Bool → Toc.Page → Toc.Page
    once b p = if b then p else toc n p

    by_levels : (b : Bool) → once b (once b page) ≡ once b page
    by_levels true = refl
    by_levels false = toc-toc n page

module _ (interrupted : Footnotes.Page → Footnotes.Page) (n : ℕ) where
  reinstall-footnotes :
      (s : Install) (p : Footnotes.Page)
      → footnotes s.notes_page ≡ some p
      → reinstall interrupted n s
        ≡ record { toc_page = toc_if n s.toc_page; notes_page = p; timer = s.timer }
  unfolding reinstall
  reinstall-footnotes s p h =
      ap
        (λ o. elim o as (λ _. Install) [
          | none ↦ record s { notes_page = interrupted s.notes_page }
          | some q ↦ record s { notes_page = q; toc_page = toc_if n s.toc_page }
        ])
        h

  module _ (t : Toc.Page) (p : Footnotes.Page) (ht : toc_if n t ≡ t)
      (hp : footnotes p ≡ some p) where
    abbrev settled : Bool → Install
    settled timer = record { toc_page = t; notes_page = p; timer = timer }

    reinstall-settled : (b : Bool) → reinstall interrupted n (settled b) ≡ settled b
    reinstall-settled b =
        reinstall-footnotes (settled b) p hp
        ∙ ap (λ u. record { toc_page = u; notes_page = p; timer = b }) ht

    pass_all-settled :
        (ms : List Moment) (b : Bool)
        → pass_all interrupted n ms (settled b) ≡ settled (still_loading b ms)
    unfolding pass_all
    pass_all-settled [] b = refl
    pass_all-settled (loaded ∷ ms) b =
        ap (pass_all interrupted n ms) (reinstall-settled false) ∙ pass_all-settled ms false
    pass_all-settled (tick ∷ ms) true =
        ap (pass_all interrupted n ms) (reinstall-settled true) ∙ pass_all-settled ms true
    pass_all-settled (tick ∷ ms) false = pass_all-settled ms false

  -- The first moment runs both generators, whichever it is.
  pass_all_first :
      (t : Toc.Page) (notes p : Footnotes.Page) (m : Moment) (ms : List Moment)
      → footnotes notes ≡ some p
      → footnotes p ≡ some p
      → pass_all interrupted n (m ∷ ms) (install t notes)
        ≡ record { toc_page = toc_if n t; notes_page = p; timer = still_loading true (m ∷ ms) }
  unfolding pass_all
  pass_all_first t notes p tick ms h k =
      ap (pass_all interrupted n ms) (reinstall-footnotes (install t notes) p h)
      ∙ pass_all-settled (toc_if n t) p (toc_if-toc_if n t) k ms true
  pass_all_first t notes p loaded ms h k =
      ap (pass_all interrupted n ms)
        (reinstall-footnotes (record (install t notes) { timer = false }) p h)
      ∙ pass_all-settled (toc_if n t) p (toc_if-toc_if n t) k ms false

-- On a page without references to notes elsewhere, where no note is empty, it does not matter how
-- often the interval passes before the page is loaded, and after it: the page has the table of
-- contents of one run and the footnotes of one run, and the timer runs until the page is loaded.
pub pass_all-install :
    (interrupted : Footnotes.Page → Footnotes.Page) (n : ℕ) (t : Toc.Page) (children : List Child)
    (ss : List Span) (ts : List Text) (m : Moment) (ms : List Moment)
    → notes_of ss ≡ some ts
    → all noted ss ≡ true
    → all no_ref ss ≡ true
    → let notes : Footnotes.Page = record { noteholder = some children; spans = ss } in
      (p : Footnotes.Page) × (footnotes notes ≡ some p)
      × (pass_all interrupted n (m ∷ ms) (install t notes)
          ≡ record { toc_page = toc_if n t; notes_page = p; timer = still_loading true (m ∷ ms) })
pass_all-install interrupted n t children ss ts m ms h full apart =
    let notes : Footnotes.Page = record { noteholder = some children; spans = ss } in
    let (p, e, k) = footnotes-footnotes children ss ts h full apart in
    (p, e, pass_all_first interrupted n t notes p m ms e k)
