-- ===== src/Examples.antt =====
-- The theorems at concrete inputs: packets, clients, a scripted network and a scripted server.
mod Network
mod Packets
mod Connections
mod Players
mod Joining
mod Listening
mod Levels
mod Shadows
mod Rendering
mod Lighting
mod Shading
