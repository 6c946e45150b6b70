-- ===== src/Asciidoc.antt =====
-- docs/htmldoc/javascripts/asciidoc.js: the table of contents and the footnotes of a page.
pub mod Dom
pub mod Toc
pub mod Footnotes
pub mod Install
