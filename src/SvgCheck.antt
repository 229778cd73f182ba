-- ===== src/SvgCheck.antt =====
-- The checks of SVG files, tools/src/pira_svg_check.
pub mod Css
mod Tests
