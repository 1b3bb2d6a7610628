-- ===== src/Tests.antt =====
-- Concrete inputs: each theorem of the results at one input that meets its conditions.
mod Fixtures
mod Proto
mod Principal
mod Sound
mod Server
mod Client
mod Xwd
mod Proxy
mod Tunnels
mod Osd
mod Yuv
mod Raw
mod Frame
mod Session
mod WinKeys
mod Broker
mod Input
mod Clipboard
