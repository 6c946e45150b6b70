-- ===== src/Bootstrap.antt =====
-- docs/bootstrap.js: the widgets of the documentation pages.
pub mod Affix
pub mod Carousel
pub mod Collapse
pub mod Dropdown
pub mod Modal
pub mod Placement
pub mod ScrollSpy
pub mod Tab
pub mod Transition
pub mod Button
pub mod Alert
pub mod Target
pub mod Tooltip
