-- ===== src/Workbook.antt =====
-- The PRD workbook parser, alpha-one/scripts/parse_prd_workbook.py.
pub mod Floats
pub mod Cells
pub mod Pages
pub mod Align
pub mod Legacy
pub mod Rows
pub mod Questions
pub mod Scope
pub mod Keys
pub mod Main
pub mod Program
mod Samples
mod LegacySamples
mod SheetSamples
mod QuestionSamples
