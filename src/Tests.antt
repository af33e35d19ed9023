-- ===== src/Tests.antt =====
-- Tests of the model, and the theorems at concrete inputs.
mod Database
mod Tunnels
mod Api
mod Client
mod HttpProxy
mod Server
mod WebUi
mod Threads
mod CommandLine
mod Listen
mod Sni
