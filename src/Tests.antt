-- ===== src/Tests.antt =====
-- Runs of the model on small inputs: each theorem of the development at an input where its conditions
-- hold.
mod Data
mod Cipher
mod Memory
mod Records
mod Attaching
mod Registering
mod Storing
mod Racing
mod Delivery
mod Storage
mod Commands
mod Caching
mod Pooling
mod Reporting
mod Receiving
mod Deleting
