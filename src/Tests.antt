-- ===== src/Tests.antt =====
-- Sample data, runs of the handlers on it, and the theorems at concrete inputs.
mod Data
mod StateRuns
mod SubscriptionRuns
mod JobRuns
mod ReportRuns
mod CbotRuns
mod PairingRuns
mod GatewayRuns
mod SettingsRuns
mod AgentRuns
mod WorkerData
mod WorkerRuns
mod MockRuns
mod StrategyRuns
