-- ===== src/Auth.antt =====
-- Who makes a request, and what of the database it may touch: core/security.py, core/dependencies.py,
-- services/auth_service.py and db/repository.py of services/configuration-api/app.
mod Tokens
mod Accounts
mod Requests
mod Repository
mod RoundTrip
mod Admission
mod Refreshing
mod Isolation
mod SignIn
mod Roles
mod Tests
