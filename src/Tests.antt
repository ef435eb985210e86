-- ===== src/Tests.antt =====
-- Runs at concrete inputs: the theorems where their conditions hold.
mod World
mod Wire
mod Queues
mod Sockets
mod Clients
mod Servers
mod Lifetimes
mod EndToEnd
mod Processes
mod Privileged
mod Proxies
mod Machines
mod Networks
mod Programs
