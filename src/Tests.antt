-- ===== src/Tests.antt =====
-- Runs of the model on concrete data, and instances of its theorems.
mod Data
mod Daemon
mod Server
mod Db
mod Codec
mod Client
mod Socket
mod Rabbit
mod Keyed
mod Unified
mod Network
mod Omnet
mod Ns3
mod Journeys
mod Pushed
