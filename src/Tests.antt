-- ===== src/Tests.antt =====
-- Runs of the modelled operations at concrete inputs.
pub mod BatchRuns
pub mod ClientRuns
pub mod ParserRuns
pub mod DocumentRuns
pub mod MappingRuns
pub mod QueryRuns
pub mod SharingRuns
pub mod TraceRuns
pub mod CardDavRuns
pub mod CompressionRuns
