-- ===== src/Examples.antt =====
-- Concrete instances of the parameters, with the tests and the theorems' witnesses on them.
mod Split
mod Numbers
mod GlibModel
mod GrubTool
mod FwTool
mod BareboxTool
mod EfiTool
mod EfiRun
mod BootRun
mod Board
mod GrubRun
mod UbootRun
mod BareboxRun
mod InstallRun
mod MarkRun
mod HashIndexRun
mod SemverRun
mod MbrRun
mod HexRun
mod CustomRun
mod Bundles
mod Glob
mod ManifestRun
mod UpdateRun
mod Flash
mod PlansRun
mod DeviceRun
mod BundleRun
mod ConfigRun
