-- ===== src/Tests.antt =====
-- Runs of the model, and the theorems at concrete inputs.
mod Setup
mod Numbers
mod Lifecycle
mod Workers
mod Web
mod Calculating
mod Starting
mod Serving
mod Applying
