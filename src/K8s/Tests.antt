-- ===== src/K8s/Tests.antt =====
-- The two operators at concrete inputs.
mod Fixtures
mod Nginx
mod NginxFrame
mod NginxQueue
mod NginxCopies
mod PromCopies
mod Prom
mod Start
mod Owners
