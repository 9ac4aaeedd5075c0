-- ===== src/Tests.antt =====
-- Runs of the model on concrete inputs, and each result at an input that meets its hypotheses.
mod Linux
mod Darwin
mod Trust
mod Resolver
mod Bundle
mod Names
mod Pool
mod Registry
mod Answer
mod Packet
mod Ports
mod Setup
mod Lookups
mod FrontDoor
mod TakeOver
mod Authority
mod Routing
mod Listen
mod PortCache
mod Upstream
