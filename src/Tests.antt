-- ===== src/Tests.antt =====
-- Runs of the theorems and of the definitions at concrete states.
mod Sample
mod Examples
mod HostRuns
mod ControlRuns
mod AuthRuns
mod SubdomainRuns
mod LoginRuns
mod PasskeyRuns
mod ApiRuns
mod AdminRuns
