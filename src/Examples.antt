-- ===== src/Examples.antt =====
-- Runs of the theorems on concrete inputs.
mod Matrix
mod Drawn
mod Shifts
mod Trips
mod Colors
mod Receive
mod Store
mod Nodem
mod Panel
mod Flash
mod Transports
mod Modem
mod Status
