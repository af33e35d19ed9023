-- ===== src/Database.antt =====
-- database.go: the records that are stored, and every operation of the database. The file that
-- `persist` writes is part of the state, as the JSON document that it holds. `dnsRequests` is never
-- written to the file and no other field touches it: it is a map of its own in Database/Dns.
pub mod Types
pub mod Codec
pub mod Store
pub mod Startup
pub mod Dns
