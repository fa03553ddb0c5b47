-- ===== src/Listener.antt =====
-- github-runner-scaler/ghalistener-ec2: a listener on the message queue whose runners are stubs.
pub mod Types
pub mod Config
pub mod Client
pub mod Scaler
