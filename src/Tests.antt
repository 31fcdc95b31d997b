-- ===== src/Tests.antt =====
-- The theorems at concrete inputs.
mod Data
mod World
mod Limiters
mod Store
mod Requests
mod Middleware
mod Keys
mod Redis
mod Sliding
mod Buckets
mod EndToEnd
