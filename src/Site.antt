-- ===== src/Site.antt =====
-- The documentation site builder, alpha-one/scripts/build_docs_site.py: the documents it collects, its
-- markdown renderer, the links, the pages, and the build.
pub mod Patterns
pub mod Cells
pub mod Items
pub mod Slugs
pub mod Blocks
pub mod Renders
pub mod Inline
pub mod Links
pub mod Indexes
pub mod Pages
pub mod Docs
pub mod Contents
pub mod Frame
pub mod Checked
pub mod Build
mod Samples
mod BuildSamples
