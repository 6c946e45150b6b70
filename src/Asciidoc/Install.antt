-- ===== src/Asciidoc/Install.antt =====
-- `asciidoc.install`: the timer that runs both generators while a page is loading, and the last run
-- when it is loaded. The table of contents and the footnotes are two views of the page, which are
-- apart as long as no heading holds a footnote.
pub mod Settled
pub mod Examples
use crunchy_containers.Prelude.{
  ℕ, Bool, true, false, List, [], ◌∷◌, none, some, ◌==◌, if◌then◌else◌,
}
use crunchy_containers.Asciidoc.Toc
use crunchy_containers.Asciidoc.Toc.{toc}
use crunchy_containers.Asciidoc.Footnotes
use crunchy_containers.Asciidoc.Footnotes.{footnotes}

-- `timer` says whether the interval runs.
pub record Install : Type 0 where
  pub toc_page : Toc.Page
  pub notes_page : Footnotes.Page
  pub timer : Bool

abbrev pub install : Toc.Page → Footnotes.Page → Install
install toc_page notes_page = record { toc_page = toc_page; notes_page = notes_page; timer = true }

-- No levels, or 0 of them: no table of contents.
abbrev pub toc_if : ℕ → Toc.Page → Toc.Page
toc_if toclevels page = if toclevels == 0 then page else toc toclevels page

-- `interrupted` is what an exception leaves of the footnotes; the table is then not built.
unfoldable pub reinstall : (Footnotes.Page → Footnotes.Page) → ℕ → Install → Install
unfolding toc footnotes
reinstall interrupted toclevels s = elim (footnotes s.notes_page) [
  | none ↦ record s { notes_page = interrupted s.notes_page }
  | some p ↦ record s { notes_page = p; toc_page = toc_if toclevels s.toc_page }
]

-- The interval passes, or the page is loaded.
pub data Moment : Type 0 where
  tick loaded : Moment

unfoldable pub pass : (Footnotes.Page → Footnotes.Page) → ℕ → Moment → Install → Install
unfolding reinstall
pass interrupted toclevels tick s = if s.timer then reinstall interrupted toclevels s else s
pass interrupted toclevels loaded s = reinstall interrupted toclevels (record s { timer = false })

unfoldable pub pass_all : (Footnotes.Page → Footnotes.Page) → ℕ → List Moment → Install → Install
unfolding pass
pass_all interrupted toclevels [] s = s
pass_all interrupted toclevels (m ∷ ms) s =
    pass_all interrupted toclevels ms (pass interrupted toclevels m s)
