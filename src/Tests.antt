-- ===== src/Tests.antt =====
-- Runs of the models on small inputs, and the theorems at inputs that meet their hypotheses.
mod Forwarding
mod Handlers
mod Scripts
mod Websockets
mod Bandwidth
mod Connections
mod Mains
mod Descriptors
mod Echoes
mod Systems
mod Certifying
mod Serving
