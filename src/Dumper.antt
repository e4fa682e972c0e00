-- ===== src/Dumper.antt =====
-- The crate elfo-dumper.
pub mod DumpStorage
pub mod RuleSet
mod Examples
mod RuleExamples
