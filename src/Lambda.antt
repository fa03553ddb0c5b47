-- ===== src/Lambda.antt =====
-- github-runner-scaler: the Lambda function that looks for waiting jobs and starts spot instances.
pub mod Types
pub mod Config
pub mod Labels
pub mod Client
pub mod Crd
pub mod UserData
pub mod Aws
pub mod Handler
pub mod Pipeline
pub mod Demand
pub mod Minimum
