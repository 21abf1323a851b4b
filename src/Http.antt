-- ===== src/Http.antt =====
-- app/api and app/main.py: what surrounds the service on its way to the client.
pub mod Errors
pub mod Middleware
pub mod Routes
pub mod Endpoint
