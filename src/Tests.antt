-- ===== src/Tests.antt =====
-- Each theorem with hypotheses at a concrete input, and runs of the model.
mod Data
mod Messages
mod Worker
mod Accounts
mod Web
mod Sockets
mod Admins
mod Clients
mod Rooms
mod Deploy
mod Imports
mod Logins
