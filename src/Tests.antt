-- ===== src/Tests.antt =====
-- The theorems at concrete inputs, on a flash that is a map and on a small device.
mod Fixtures
mod Events
mod Firmware
mod Requests
mod Booting
mod Streams
mod Sensing
mod Activation
mod Onboarding
mod GrpcFirmware
